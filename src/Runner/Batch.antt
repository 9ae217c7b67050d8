-- ===== src/Runner/Batch.antt =====
-- src/recoup/runner/batch.py: the tick loop. The proposer, the policy gate, the executor and the
-- adjudicator are the loop's collaborators: the record `Collaborators` holds one operation for
-- each call that the loop makes, over a state `W` of theirs.
pub mod Decisions
pub mod Loop
pub mod Advance
pub mod Steps
pub mod Choices
pub mod Replayed
pub mod Governed
pub mod Simulated
use recoup_ai.Base.{
  ℕ, ◌+◌, ◌-◌, ◌≡◌, Bool, true, false, not, Option, none, some, List, [], ◌∷◌, ◌++◌, String, leb,
  ltb, ◌==◌, if◌then◌else◌, filter,
}
use recoup_ai.Base.Errors.{Result, ok, err, ◌>>=◌}
use recoup_ai.Domain.Enums.{Arm, ExecutorKind, Intervention, OutcomeKind, RowKind, VerdictKind}
use recoup_ai.Domain.Interventions.{is_contact}
use recoup_ai.Domain.Models.Invoices.{Invoice, Snapshot, to_snapshot}
use recoup_ai.Domain.Models.Proposals.{PolicyVerdict, Proposal}
use recoup_ai.Domain.Models.Rows.{ActionRecord, AuditRow, OutcomeRecord}
use recoup_ai.Ledger.Clock.{VirtualClock, clock_exhausted, advance, virtual_date}
use recoup_ai.Ledger.States.{is_terminal}
use recoup_ai.Ledger.Records.{
  Ledger, init, get, store, active, due_for_review, awaiting_write_off, payer_contacts_since,
  contact_window_ticks, record_action, record_outcome, set_promise, text_le,
}
use recoup_ai.Audit.Log.{AuditLog, new_log, RowContent, append}

-- executor/base.py: `ExecutionResult`, but for its `detail`, which the loop does not read.
pub record ExecutionResult : Type 0 where
  pub kind : ExecutorKind
  pub external_ref : Option String

abbrev pub not_executed : ExecutionResult
not_executed = record { kind = ExecutorKind.simulated; external_ref = none }

-- `_Pending`
pub record Pending : Type 0 where
  pub due_tick : ℕ
  pub record_id : String
  pub intervention : Intervention
  pub contacts_at_send : ℕ

-- What the loop calls. A deterministic adjudicator keeps no state; the others may.
pub record Collaborators (W : Type 0) : Type 0 where
  pub propose : W → Snapshot → ℕ → Proposal × W
  pub policy : Option (W → Invoice → Proposal → ℕ → Ledger → Result (PolicyVerdict × W))
  pub perform : W → Invoice → Intervention → ℕ → Result (ExecutionResult × W)
  pub resolve_response : Invoice → ℕ → Intervention → ℕ → Result OutcomeRecord
  pub resolve_promise : Invoice → ℕ → Option OutcomeRecord
  pub resolve_spontaneous : Invoice → ℕ → Option OutcomeRecord
  pub resolve_promise_phrase : String → ℕ → Option ℕ
  pub row_hash : AuditRow → String

-- `RunResult`, with the loop's local `pending` and the collaborators' state.
pub record Run (W : Type 0) : Type 0 where
  pub ledger : Ledger
  pub log : AuditLog
  pub contacts : ℕ
  pub api_units : ℕ
  pub vetoed : ℕ
  pub decisions : ℕ
  pub written_off : ℕ
  pub pending : List Pending
  pub world : W

-- `for x in xs: ...`
unfoldable pub each {ℓ κ} : {A : Type ℓ} {S : Type κ} → (A → S → Result S) → List A → S → Result S
each f [] s = ok s
each f (x ∷ xs) s = do t ← f x s; each f xs t

-- The order of the dataclass `_Pending`: by due tick, then by record.
unfoldable pub pending_le : Pending → Pending → Bool
pending_le p q =
    if ltb p.due_tick q.due_tick
    then true
    else if ltb q.due_tick p.due_tick
    then false
    else text_le p.record_id q.record_id

insert_pending : Pending → List Pending → List Pending
insert_pending p [] = p ∷ []
insert_pending p (q ∷ qs) =
    let rest = insert_pending p qs in if pending_le p q then p ∷ q ∷ qs else q ∷ rest

-- `sorted(...)` on pending responses
unfoldable pub sort_pending : List Pending → List Pending
unfolding insert_pending pending_le
sort_pending [] = []
sort_pending (p ∷ ps) = insert_pending p (sort_pending ps)

-- An audit row's fields, where `append` is given only these.
abbrev pub intake_row : Snapshot → RowContent
intake_row s = record {
  kind = RowKind.intake;
  tick = 0;
  record_id = s.invoice_id;
  input_snapshot = some s;
  llm_proposal = none;
  policy_verdict = none;
  policy_rule = none;
  action = none;
  outcome = none;
}

abbrev pub outcome_row : String → OutcomeRecord → ℕ → RowContent
outcome_row k o tick = record {
  kind = RowKind.outcome;
  tick = tick;
  record_id = k;
  input_snapshot = none;
  llm_proposal = none;
  policy_verdict = none;
  policy_rule = none;
  action = none;
  outcome = some o;
}

-- `verdict.rule_id if verdict else None`
abbrev rule_of : Option PolicyVerdict → Option String
rule_of none = none
rule_of (some v) = v.rule_id

abbrev pub decision_row :
    String → Snapshot → Proposal → Option PolicyVerdict → ActionRecord → ℕ → RowContent
decision_row k s p v a tick = record {
  kind = RowKind.decision;
  tick = tick;
  record_id = k;
  input_snapshot = some s;
  llm_proposal = p.llm_proposal;
  policy_verdict = v;
  policy_rule = rule_of v;
  action = some a;
  outcome = none;
}

-- `final`: None where the gate vetoed.
unfoldable pub final_of : Proposal → Option PolicyVerdict → Option Intervention
final_of p none = some p.intervention
final_of p (some v) = elim v.verdict [ VerdictKind.vetoed ↦ none | _ ↦ v.final ]

module _ {W : Type 0} (c : Collaborators W) where
  -- `_apply_outcome`, up to the row that it appends.
  unfoldable pub settle : Invoice → OutcomeRecord → ℕ → OutcomeKind → Result Invoice
  settle r o tick OutcomeKind.promised =
      set_promise r o.detail (c.resolve_promise_phrase o.detail tick) tick
  settle r o tick _ = record_outcome r o tick

  unfoldable pub apply_outcome : Invoice → OutcomeRecord → ℕ → Run W → Result (Run W)
  unfolding settle
  apply_outcome r o tick run = do
    moved ← settle r o tick o.kind
    ok (record run {
      ledger = store run.ledger moved;
      log = append c.row_hash run.log (outcome_row r.invoice_id o tick);
    })

  -- The response to one contact, unless its record is settled.
  unfoldable pub respond : ℕ → Pending → Invoice → Bool → Run W → Result (Run W)
  unfolding apply_outcome
  respond tick p r true run = ok run
  respond tick p r false run = do
    o ← c.resolve_response r tick p.intervention p.contacts_at_send
    apply_outcome r o tick run

  unfoldable pub land : ℕ → Pending → Run W → Result (Run W)
  unfolding respond
  land tick p run = do r ← get run.ledger p.record_id; respond tick p r (is_terminal r.state) run

  unfoldable pub land_responses : ℕ → Run W → Result (Run W)
  unfolding each land sort_pending
  land_responses tick run =
      each (land tick) (sort_pending (filter (λ p. leb p.due_tick tick) run.pending))
        (record run { pending = filter (λ p. ltb tick p.due_tick) run.pending })

  -- An outcome that the adjudicator may have drawn for a record.
  unfoldable pub draw : Invoice → ℕ → Option OutcomeRecord → Run W → Result (Run W)
  unfolding apply_outcome
  draw r tick none run = ok run
  draw r tick (some o) run = apply_outcome r o tick run

  -- One turn of a loop over the ledger's record objects: the object of `listed` as it is now.
  unfoldable pub promise_turn : ℕ → Invoice → Run W → Result (Run W)
  unfolding draw
  promise_turn tick listed run = do
    r ← get run.ledger listed.invoice_id
    draw r tick (c.resolve_promise r tick) run

  unfoldable pub resolve_promises : ℕ → Run W → Result (Run W)
  unfolding each promise_turn
  resolve_promises tick run = each (promise_turn tick) (active run.ledger) run

  unfoldable pub spontaneous_turn : ℕ → Invoice → Run W → Result (Run W)
  unfolding draw
  spontaneous_turn tick listed run = do
    r ← get run.ledger listed.invoice_id
    draw r tick (c.resolve_spontaneous r tick) run

  unfoldable pub draw_spontaneous : ℕ → Run W → Result (Run W)
  unfolding each spontaneous_turn
  draw_spontaneous tick run = each (spontaneous_turn tick) (active run.ledger) run
