-- ===== src/Runner/Batch/Replayed.antt =====
-- A whole run: its end, its chain, and its replay.
use recoup_ai.Base.{ℕ, zero, suc, ◌+◌, ◌≤◌, ◌≡◌, refl, sym, false, true, List, String, arith}
use recoup_ai.Base.Errors.{Result, ok}
use recoup_ai.Domain.Enums.{Arm}
use recoup_ai.Domain.Models.Invoices.{Invoice, to_snapshot}
use recoup_ai.Ledger.Clock.{
  VirtualClock, clock_exhausted, virtual_date, last_date, date_of, date_of_lem,
}
use recoup_ai.Ledger.Records.{init, awaiting_write_off}
use recoup_ai.Ledger.Records.Lookup.{knows, get_known, All-knows, awaiting-known}
use recoup_ai.Audit.Log.{next_row, verify_chain}
use recoup_ai.Audit.Log.Chain.{new_log-IsIntact, IsIntact-verify_chain}
use recoup_ai.Audit.Replay.{apply_row, replay_rows, start, replay}
use recoup_ai.Runner.Batch.{Collaborators, Run, each, intake_row}
use recoup_ai.Runner.Batch.Loop.{
  write_off_outcome, intake, run_tick, run_ticks, write_off, opening, run_batch,
}
use recoup_ai.Runner.Batch.Advance.{IsReliable, replayed, IsTracked, Advances, logs_advance}
use recoup_ai.Runner.Batch.Steps.{
  outcome-Advances, land_responses-Advances, resolve_promises-Advances, draw_spontaneous-Advances,
  records_advance,
}
use recoup_ai.Runner.Batch.Choices.{take_decisions-Advances}

module _ {W : Type 0} (c : Collaborators W) (records : List Invoice) where
  opening-IsTracked :
      (run_id : String) (arm : Arm) (w : W) → IsTracked c records (opening c records run_id arm w)
  unfolding opening replay_rows start
  opening-IsTracked run_id arm w = record {
    intact = new_log-IsIntact c.row_hash run_id arm;
    tracks = refl;
    awaits = tt;
  }

  -- The intake changes nothing but the log.
  intake-Advances :
      (listed : Invoice) (run : Run W)
      → knows run.ledger listed.invoice_id ≡ true
      → IsTracked c records run
      → Advances c records run (intake c listed run)
  unfolding intake apply_row next_row to_snapshot
  intake-Advances listed run k t =
      let (r, g, e) = get_known run.ledger listed.invoice_id k in
      logs_advance c records run _ (intake_row (to_snapshot listed (virtual_date 0) 0)) r t refl g
        refl t.awaits (λ k h. h)

  write_off-Advances :
      (horizon : ℕ) (listed : Invoice) (run : Run W)
      → knows run.ledger listed.invoice_id ≡ true
      → IsTracked c records run
      → Advances c records run (write_off c horizon listed run)
  unfolding write_off
  write_off-Advances horizon listed run k t =
      let (r, g, e) = get_known run.ledger listed.invoice_id k in
      let a = outcome-Advances c records r write_off_outcome horizon run (rw e g) t in
      rw g (record {
        next = record a.next { written_off = a.next.written_off + 1 };
        returns = rw a.returns refl;
        tracked = record {
          intact = a.tracked.intact;
          tracks = a.tracked.tracks;
          awaits = a.tracked.awaits;
        };
        remembers = a.remembers;
      })

  -- The runs from `first` on, by how many ticks they are: each tick is one turn of the loop.
  pub data Ticked (first : Run W) : ℕ → Run W → Type 0 where
    none_yet : Ticked first 0 first
    one_more :
        {tick : ℕ} {run next : Run W}
        → Ticked first tick run
        → run_tick c tick run ≡ ok next
        → Ticked first (tick + 1) next

  abbrev pub at_horizon : ℕ → VirtualClock
  at_horizon horizon = record { tick = horizon; horizon = horizon }

  -- A loop that returns at its horizon, a tick for each turn of the clock behind it.
  record Runs (first : Run W) (horizon : ℕ) (m : Result (VirtualClock × Run W)) : Type 0 where
    pub last : Run W
    pub returns : m ≡ ok (at_horizon horizon, last)
    pub ticked : Ticked first horizon last
    pub tracked : IsTracked c records last

  -- What a run is made of and leaves behind: the intake of every record, a tick for each tick up to
  -- the horizon and a write-off of what is left; a chain that verifies, and a log that replays to
  -- the run's own ledger and counters.
  pub record IsAccountable (run_id : String) (arm : Arm) (horizon : ℕ) (w : W) : Type 0 where
    pub opened : Run W
    pub worked : Run W
    pub last : Run W
    pub taken_in :
        each (intake c) (init records).records (opening c records run_id arm w) ≡ ok opened
    pub ticked : Ticked opened horizon worked
    pub closed : each (write_off c horizon) (awaiting_write_off worked.ledger) worked ≡ ok last
    pub returns : run_batch c records run_id arm horizon w ≡ ok (at_horizon horizon, last)
    pub verified : verify_chain c.row_hash last.log.rows ≡ ok tt
    pub reproduced :
        replay c.resolve_promise_phrase c.row_hash records last.log.rows true
        ≡ ok (replayed c records last)

  module _ (reliable : IsReliable c) where
    run_tick-Advances :
        (tick : ℕ) (run : Run W)
        → date_of tick ≡ ok (virtual_date tick)
        → IsTracked c records run
        → Advances c records run (run_tick c tick run)
    unfolding run_tick
    run_tick-Advances tick run dated t =
        let a = land_responses-Advances c records reliable tick run t in
        let b = resolve_promises-Advances c records tick a.next a.tracked in
        let d = draw_spontaneous-Advances c records tick b.next b.tracked in
        let e = take_decisions-Advances c records reliable tick d.next d.tracked in
        record {
          next = e.next;
          returns = rw (dated, a.returns, b.returns, d.returns) e.returns;
          tracked = e.tracked;
          remembers = λ k h. e.remembers k (d.remembers k (b.remembers k (a.remembers k h)));
        }

    run_ticks-Runs :
        (first : Run W) (fuel tick horizon : ℕ) (run : Run W)
        → virtual_date horizon ≤ last_date
        → tick + fuel ≡ horizon
        → Ticked first tick run
        → IsTracked c records run
        → Runs first horizon (run_ticks c fuel (record { tick = tick; horizon = horizon }) run)
    unfolding run_ticks
    run_ticks-Runs first zero tick horizon run dates h k t =
        let e : tick ≡ horizon = omega (arith, h) in
        rw e (record { last = run; returns = refl; ticked = rw (sym e) k; tracked = t })
    run_ticks-Runs first (suc fuel) tick horizon run dates h k t =
        let going : clock_exhausted (record { tick = tick; horizon = horizon }) ≡ false =
          ground (arith, h) in
        let a = run_tick-Advances tick run (date_of_lem tick horizon (omega (arith, h)) dates) t in
        let b =
          run_ticks-Runs first fuel (tick + 1) horizon a.next dates (omega (arith, h))
            (one_more k a.returns) a.tracked in
        record {
          last = b.last;
          returns = rw (going, a.returns) b.returns;
          ticked = b.ticked;
          tracked = b.tracked;
        }

    -- A run over any batch, with a gate that always answers, refuses only until later and defers
    -- nothing it lets pass, an adjudicator that answers for contacts and an executor that does not
    -- raise, up to a horizon by the end of year 9999, always returns with the clock at its horizon,
    -- after a turn of the loop for every tick before it; its log's chain verifies, and replaying the
    -- log over the opening batch gives the run's own ledger, contacts, API units and vetoes.
    pub run_batch-IsAccountable :
        (run_id : String) (arm : Arm) (horizon : ℕ) (w : W)
        → virtual_date horizon ≤ last_date
        → IsAccountable run_id arm horizon w
    unfolding run_batch opening
    run_batch-IsAccountable run_id arm horizon w dates =
        let fresh = opening c records run_id arm w in
        let a =
          records_advance c records (intake c) fresh.ledger.records fresh intake-Advances
            (All-knows fresh.ledger) (opening-IsTracked run_id arm w) in
        let b =
          run_ticks-Runs a.next horizon 0 horizon a.next dates (omega arith) none_yet a.tracked in
        let d =
          records_advance c records (write_off c horizon) (awaiting_write_off b.last.ledger) b.last
            (write_off-Advances horizon) (awaiting-known b.last.ledger) b.tracked in
        let v = IsIntact-verify_chain c.row_hash d.next.log d.tracked.intact in
        record {
          opened = a.next;
          worked = b.last;
          last = d.next;
          taken_in = a.returns;
          ticked = b.ticked;
          closed = d.returns;
          returns = rw (a.returns, b.returns, d.returns) refl;
          verified = v;
          reproduced = unfold replay in rw v d.tracked.tracks;
        }
