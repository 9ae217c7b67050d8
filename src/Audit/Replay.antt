-- ===== src/Audit/Replay.antt =====
-- src/recoup/audit/replay.py: a run rebuilt from the opening batch and the rows of its log. The
-- clock's `resolve_promise_phrase` is the parameter `resolve_phrase`.
pub mod Rows
pub mod Compare
use recoup_ai.Base.{
  ℕ, ◌+◌, Bool, true, false, Option, none, some, List, [], ◌∷◌, String, filter, ◌=s=◌,
}
use recoup_ai.Base.Errors.{Result, ok, ◌>>=◌, ◌>>◌}
use recoup_ai.Domain.Enums.{RecordState, OutcomeKind, RowKind}
use recoup_ai.Domain.Models.Invoices.{Invoice}
use recoup_ai.Domain.Models.Proposals.{PolicyVerdict}
use recoup_ai.Domain.Models.Rows.{ActionRecord, AuditRow, OutcomeRecord}
use recoup_ai.Ledger.Records.{Ledger, init, get, store, record_action, record_outcome, set_promise}
use recoup_ai.Audit.Log.{verify_chain}

-- The differences that `compare` adds to it are not part of the fold.
pub record ReplayResult : Type 0 where
  pub ledger : Ledger
  pub rows_applied : ℕ
  pub contacts : ℕ
  pub api_units : ℕ
  pub vetoed : ℕ

-- `row.policy_verdict.defer_to_tick if row.policy_verdict is not None else None`
abbrev pub deferral : Option PolicyVerdict → Option ℕ
deferral none = none
deferral (some v) = v.defer_to_tick

-- The counters that an applied decision moves.
unfoldable pub counted : ReplayResult → ActionRecord → Bool → ReplayResult
counted s a true = record s {
  contacts = s.contacts + a.contact_units;
  api_units = s.api_units + a.api_units;
}
counted s a false = record s { vetoed = s.vetoed + 1 }

unfoldable pub apply_decision :
    ReplayResult → Invoice → AuditRow → Option ActionRecord → Result ReplayResult
unfolding counted
apply_decision s r row none = ok s
apply_decision s r row (some a) = do
  (moved, _) ← record_action r a.intervention row.tick a.executed (deferral row.policy_verdict)
  ok (counted (record s { ledger = store s.ledger moved }) a a.executed)

-- The fresh ledger and counters of `replay`.
unfoldable pub start : List Invoice → ReplayResult
start records = record {
  ledger = init records;
  rows_applied = 0;
  contacts = 0;
  api_units = 0;
  vetoed = 0;
}

module _ (resolve_phrase : String → ℕ → Option ℕ) where
  -- The ledger's writer for an outcome of kind `kind`.
  unfoldable pub apply_outcome_kind : Invoice → OutcomeRecord → ℕ → OutcomeKind → Result Invoice
  apply_outcome_kind r o tick OutcomeKind.promised =
      set_promise r o.detail (resolve_phrase o.detail tick) tick
  apply_outcome_kind r o tick _ = record_outcome r o tick

  unfoldable pub apply_outcome :
      ReplayResult → Invoice → AuditRow → Option OutcomeRecord → Result ReplayResult
  unfolding apply_outcome_kind
  apply_outcome s r row none = ok s
  apply_outcome s r row (some o) = do
    moved ← apply_outcome_kind r o row.tick o.kind
    ok (record s { ledger = store s.ledger moved })

  unfoldable pub apply_row : ReplayResult → Invoice → AuditRow → RowKind → Result ReplayResult
  unfolding apply_decision apply_outcome
  apply_row s r row RowKind.intake = ok s
  apply_row s r row RowKind.decision = apply_decision s r row row.action
  apply_row s r row RowKind.outcome = apply_outcome s r row row.outcome

  -- The body of the loop of `replay`.
  unfoldable pub replay_row : ReplayResult → AuditRow → Result ReplayResult
  unfolding apply_row
  replay_row s row = do
    r ← get s.ledger row.record_id
    next ← apply_row s r row row.kind
    ok (record next { rows_applied = next.rows_applied + 1 })

  unfoldable pub replay_rows : ReplayResult → List AuditRow → Result ReplayResult
  unfolding replay_row
  replay_rows s [] = ok s
  replay_rows s (row ∷ rows) = do next ← replay_row s row; replay_rows next rows

  unfoldable pub replay :
      (AuditRow → String) → List Invoice → List AuditRow → Bool → Result ReplayResult
  unfolding replay_rows start
  replay row_hash records rows true = do
    verify_chain row_hash rows
    replay_rows (start records) rows
  replay row_hash records rows false = replay_rows (start records) rows

  unfoldable pub reconstruct :
      (AuditRow → String) → String → List Invoice → List AuditRow → Result RecordState
  unfolding replay
  reconstruct row_hash k records rows = do
    s ← replay row_hash records (filter (λ row. row.record_id =s= k) rows) false
    r ← get s.ledger k
    ok r.state
