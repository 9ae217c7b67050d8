-- ===== src/Runner/Batch/Decisions.antt =====
-- src/recoup/runner/batch.py: `_take_decisions`, the fourth step of a tick.
use recoup_ai.Base.{
  ℕ, ◌+◌, ◌-◌, Bool, true, false, Option, none, some, List, [], ◌∷◌, ◌++◌, if◌then◌else◌,
}
use recoup_ai.Base.Errors.{Result, ok, ◌>>=◌}
use recoup_ai.Domain.Enums.{Intervention}
use recoup_ai.Domain.Interventions.{is_contact}
use recoup_ai.Domain.Models.Invoices.{Invoice, Snapshot, to_snapshot}
use recoup_ai.Domain.Models.Proposals.{PolicyVerdict, Proposal}
use recoup_ai.Domain.Models.Rows.{ActionRecord}
use recoup_ai.Ledger.Clock.{virtual_date}
use recoup_ai.Ledger.Records.{
  Ledger, get, store, due_for_review, payer_contacts_since, contact_window_ticks, record_action,
}
use recoup_ai.Audit.Log.{append}
use recoup_ai.Audit.Replay.{deferral}
use recoup_ai.Runner.Batch.{
  ExecutionResult, not_executed, Pending, Collaborators, Run, each, decision_row, final_of,
}

abbrev response_delay_ticks : ℕ
response_delay_ticks = 2

-- `action.model_copy(update={...})`
abbrev pub stamped : ActionRecord → ExecutionResult → ActionRecord
stamped a x = record a { executor = x.kind; external_ref = x.external_ref }

module _ {W : Type 0} (c : Collaborators W) where
  -- The gate's answer, if there is a gate.
  unfoldable pub gate :
      Option (W → Invoice → Proposal → ℕ → Ledger → Result (PolicyVerdict × W))
      → W
      → Invoice
      → Proposal
      → ℕ
      → Ledger
      → Result (Option PolicyVerdict × W)
  gate none w r p tick l = ok (none, w)
  gate (some adjudicate) w r p tick l = do (v, w') ← adjudicate w r p tick l; ok (some v, w')

  -- The executor is asked only about actions that reach the payer.
  unfoldable pub perform : W → Invoice → Intervention → ℕ → Bool → Result (ExecutionResult × W)
  perform w r i tick true = c.perform w r i tick
  perform w r i tick false = ok (not_executed, w)

  -- The response that a contact will have.
  unfoldable pub awaited : Ledger → Invoice → Intervention → ℕ → List Pending
  awaited l r i tick =
      if is_contact i
      then record {
        due_tick = tick + response_delay_ticks;
        record_id = r.invoice_id;
        intervention = i;
        contacts_at_send = payer_contacts_since l r.payer_id (tick - contact_window_ticks);
      }
        ∷ []
      else []

  -- What follows the verdict: the refused branch and the executed one.
  unfoldable pub act :
      Invoice
      → Snapshot
      → Proposal
      → Option PolicyVerdict
      → ℕ
      → Option Intervention
      → Run W
      → Result (Run W)
  unfolding perform awaited
  act r s p v tick none run = do
    (moved, a) ← record_action r p.intervention tick false (deferral v)
    ok (record run {
      ledger = store run.ledger moved;
      vetoed = run.vetoed + 1;
      log = append c.row_hash run.log (decision_row r.invoice_id s p v a tick);
    })
  act r s p v tick (some i) run = do
    (done, w) ← perform run.world r i tick (is_contact i)
    (moved, a) ← record_action r i tick true none
    ok (record run {
      ledger = store run.ledger moved;
      contacts = run.contacts + a.contact_units;
      api_units = run.api_units + a.api_units;
      log = append c.row_hash run.log (decision_row r.invoice_id s p v (stamped a done) tick);
      pending = run.pending ++ awaited run.ledger r i tick;
      world = w;
    })

  -- One turn of the loop: the record object `listed` as it is now.
  unfoldable pub decide : ℕ → Invoice → Run W → Result (Run W)
  unfolding gate act
  decide tick listed run = do
    r ← get run.ledger listed.invoice_id
    let s = to_snapshot r (virtual_date tick) tick
    let asked = c.propose run.world s tick
    (v, w) ← gate c.policy asked.1 r asked.0 tick run.ledger
    act r s asked.0 v tick (final_of asked.0 v)
        (record run { decisions = run.decisions + 1; world = w })

  unfoldable pub take_decisions : ℕ → Run W → Result (Run W)
  unfolding each decide
  take_decisions tick run = each (decide tick) (due_for_review run.ledger tick) run
