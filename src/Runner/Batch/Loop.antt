-- ===== src/Runner/Batch/Loop.antt =====
-- src/recoup/runner/batch.py: `run_batch`, from the intake rows to the write-offs. The optional
-- batch reasoner, which is asked once before the intake, has its result elsewhere and changes
-- nothing here but the gate's state.
use recoup_ai.Base.{ℕ, zero, suc, ◌+◌, List, [], String, if◌then◌else◌}
use recoup_ai.Base.Errors.{Result, ok, ◌>>=◌}
use recoup_ai.Domain.Enums.{Arm, OutcomeKind}
use recoup_ai.Domain.Models.Invoices.{Invoice, to_snapshot}
use recoup_ai.Domain.Models.Rows.{OutcomeRecord}
use recoup_ai.Ledger.Clock.{VirtualClock, clock_exhausted, advance, virtual_date, date_of}
use recoup_ai.Ledger.Records.{init, get, awaiting_write_off}
use recoup_ai.Audit.Log.{new_log, append}
use recoup_ai.Runner.Batch.{
  Collaborators, Run, each, intake_row, apply_outcome, land_responses, resolve_promises,
  draw_spontaneous,
}
use recoup_ai.Runner.Batch.Decisions.{take_decisions}

abbrev pub write_off_outcome : OutcomeRecord
write_off_outcome = record {
  kind = OutcomeKind.written_off;
  amount_paise = 0;
  detail = "automation exhausted and the run closed with the bill open";
}

module _ {W : Type 0} (c : Collaborators W) where
  unfoldable pub intake : Invoice → Run W → Result (Run W)
  intake r run = ok (record run {
    log = append c.row_hash run.log (intake_row (to_snapshot r (virtual_date 0) 0));
  })

  -- The body of the tick loop, at the clock's tick; the steps work the date out again.
  unfoldable pub run_tick : ℕ → Run W → Result (Run W)
  run_tick tick run = do
    as_of ← date_of tick
    landed ← land_responses c tick run
    promised ← resolve_promises c tick landed
    drawn ← draw_spontaneous c tick promised
    take_decisions c tick drawn

  -- `while not clock.exhausted`, for at most `fuel` turns.
  unfoldable pub run_ticks : ℕ → VirtualClock → Run W → Result (VirtualClock × Run W)
  unfolding run_tick
  run_ticks zero clock run = ok (clock, run)
  run_ticks (suc fuel) clock run =
      if clock_exhausted clock
      then ok (clock, run)
      else do next ← run_tick clock.tick run; run_ticks fuel (advance clock) next

  unfoldable pub write_off : ℕ → Invoice → Run W → Result (Run W)
  write_off horizon listed run = do
    r ← get run.ledger listed.invoice_id
    next ← apply_outcome c r write_off_outcome horizon run
    ok (record next { written_off = next.written_off + 1 })

  unfoldable pub opening : List Invoice → String → Arm → W → Run W
  opening records run_id arm w = record {
    ledger = init records;
    log = new_log run_id arm;
    contacts = 0;
    api_units = 0;
    vetoed = 0;
    decisions = 0;
    written_off = 0;
    pending = [];
    world = w;
  }

  -- `run_batch`; the loop has at most `horizon` turns.
  unfoldable pub run_batch : List Invoice → String → Arm → ℕ → W → Result (VirtualClock × Run W)
  unfolding each intake run_ticks write_off opening
  run_batch records run_id arm horizon w = do
    let fresh = opening records run_id arm w
    opened ← each intake fresh.ledger.records fresh
    (clock, ran) ← run_ticks horizon (record { tick = 0; horizon = horizon }) opened
    closed ← each (write_off horizon) (awaiting_write_off ran.ledger) ran
    ok (clock, closed)
