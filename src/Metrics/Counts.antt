-- ===== src/Metrics/Counts.antt =====
-- The metrics beside the run's own counters.
use recoup_ai.Base.{
  ℕ, ◌+◌, ◌≡◌, sym, ap, ◌∙◌, inl, inr, Option, none, some, List, [], ◌∷◌, String, arith, All,
  Option-cases, if◌then◌else◌,
}
use recoup_ai.Base.Errors.{ok, ◌>>=◌, call-then}
use recoup_ai.Domain.Enums.{RowKind}
use recoup_ai.Domain.Models.Invoices.{Invoice}
use recoup_ai.Domain.Models.Rows.{ActionRecord, AuditRow, OutcomeRecord}
use recoup_ai.Ledger.Records.{get, store, record_action}
use recoup_ai.Audit.Replay.{
  ReplayResult, deferral, counted, apply_decision, apply_outcome_kind, apply_outcome, apply_row,
  replay_row, replay_rows,
}
use recoup_ai.Metrics.{is_contact_action, contact_rows, contacts_made, links_of, payment_links_sent}

-- Only decision rows carry an action.
abbrev HasShape : RowKind → Option ActionRecord → Type 0
HasShape RowKind.decision a = Unit
HasShape _ a = a ≡ none

abbrev pub IsShaped : AuditRow → Type 0
IsShaped row = HasShape row.kind row.action

-- The units that a row's action counts for.
abbrev contact_units_of : Option ActionRecord → ℕ
contact_units_of none = 0
contact_units_of (some a) = if a.executed then a.contact_units else 0

executed_units :
    (a : ActionRecord) (row : AuditRow) (rows : List AuditRow)
    → row.action ≡ some a
    → contacts_made (row ∷ rows) ≡ (if a.executed then a.contact_units else 0) + contacts_made rows
unfolding contacts_made contact_rows is_contact_action
executed_units a row rows e = rw e (ground arith)

contacts_made_cons :
    (row : AuditRow) (rows : List AuditRow)
    → contacts_made (row ∷ rows) ≡ contact_units_of row.action + contacts_made rows
contacts_made_cons row rows = elim (Option-cases row.action) [
  | inl e ↦ unfold contacts_made contact_rows is_contact_action in rw e (omega arith)
  | inr (a, e) ↦
      executed_units a row rows e ∙ ap (λ x. contact_units_of x + contacts_made rows) (sym e)
]

apply_decision-counts :
    (s t : ReplayResult) (r : Invoice) (row : AuditRow) (a : Option ActionRecord)
    → apply_decision s r row a ≡ ok t
    → (t.contacts ≡ s.contacts + contact_units_of a) × (t.api_units ≡ s.api_units + links_of a)
unfolding links_of apply_decision counted
apply_decision-counts s t r row none h = ground (arith, h)
apply_decision-counts s t r row (some a) h =
    let (m, e, q) =
      call-then (record_action r a.intervention row.tick a.executed (deferral row.policy_verdict))
        (λ m. ok (counted (record s { ledger = store s.ledger m.0 }) a a.executed)) h in
    ground (arith, q)

apply_outcome-counts :
    (resolve_phrase : String → ℕ → Option ℕ) (s t : ReplayResult) (r : Invoice) (row : AuditRow)
    (o : Option OutcomeRecord)
    → apply_outcome resolve_phrase s r row o ≡ ok t
    → (t.contacts ≡ s.contacts) × (t.api_units ≡ s.api_units)
unfolding apply_outcome
apply_outcome-counts resolve_phrase s t r row none h = ground (arith, h)
apply_outcome-counts resolve_phrase s t r row (some o) h =
    let (m, e, q) =
      call-then (apply_outcome_kind resolve_phrase r o row.tick o.kind)
        (λ m. ok (record s { ledger = store s.ledger m })) h in
    ground (arith, q)

apply_row-counts :
    (resolve_phrase : String → ℕ → Option ℕ) (s t : ReplayResult) (r : Invoice) (row : AuditRow)
    (k : RowKind)
    → HasShape k row.action
    → apply_row resolve_phrase s r row k ≡ ok t
    → (t.contacts ≡ s.contacts + contact_units_of row.action)
      × (t.api_units ≡ s.api_units + links_of row.action)
unfolding apply_row
apply_row-counts resolve_phrase s t r row RowKind.decision w h =
    apply_decision-counts s t r row row.action h
apply_row-counts resolve_phrase s t r row RowKind.intake w h =
    unfold links_of in rw w (ground (arith, h))
apply_row-counts resolve_phrase s t r row RowKind.outcome w h =
    let (c, l) = apply_outcome-counts resolve_phrase s t r row row.outcome h in
    unfold links_of in rw w (omega (arith, c), omega (arith, l))

row-counts :
    (resolve_phrase : String → ℕ → Option ℕ) (s t : ReplayResult) (row : AuditRow)
    → IsShaped row
    → replay_row resolve_phrase s row ≡ ok t
    → (t.contacts ≡ s.contacts + contact_units_of row.action)
      × (t.api_units ≡ s.api_units + links_of row.action)
unfolding replay_row
row-counts resolve_phrase s t row w h =
    let (r, p, q) =
      call-then (get s.ledger row.record_id)
        (λ r. apply_row resolve_phrase s r row row.kind >>= λ next.
          ok (record next { rows_applied = next.rows_applied + 1 }))
        h in
    let (u, p', q') =
      call-then (apply_row resolve_phrase s r row row.kind)
        (λ next. ok (record next { rows_applied = next.rows_applied + 1 })) q in
    let (c, l) = apply_row-counts resolve_phrase s u r row row.kind w p' in ground (arith, q', c, l)

-- For a log whose other rows carry no action, the contacts and the payment links that the metrics
-- count are what replaying the log adds to its counters.
pub contacts_made_lem :
    (resolve_phrase : String → ℕ → Option ℕ) (s t : ReplayResult) (rows : List AuditRow)
    → All IsShaped rows
    → replay_rows resolve_phrase s rows ≡ ok t
    → (t.contacts ≡ s.contacts + contacts_made rows)
      × (t.api_units ≡ s.api_units + payment_links_sent rows)
unfolding replay_rows payment_links_sent
contacts_made_lem resolve_phrase s t [] w h = unfold contacts_made contact_rows in ground (arith, h)
contacts_made_lem resolve_phrase s t (row ∷ rows) w h =
    let (u, p, q) =
      call-then (replay_row resolve_phrase s row) (λ u. replay_rows resolve_phrase u rows) h in
    let (c, l) = row-counts resolve_phrase s u row w.0 p in
    let (c', l') = contacts_made_lem resolve_phrase u t rows w.1 q in
    rw (contacts_made_cons row rows) (omega (arith, c, c'), omega (arith, l, l'))
