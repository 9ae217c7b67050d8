-- ===== src/Ledger/Records/Results.antt =====
-- The writers of `Ledger` as total functions: what each returns where it does not raise, and that
-- it does not raise.
use recoup_ai.Base.{
  ℕ, ◌+◌, ◌≡◌, refl, ◌∙◌, ◌⊎◌, inl, inr, Bool, true, false, ◌&&◌, Option, none, some, String, arith,
  if◌then◌else◌, is_some, Bool-cases,
}
use recoup_ai.Base.Errors.{ok}
use recoup_ai.Domain.Enums.{RecordState, Intervention, OutcomeKind, state_eq, state_eq_refl}
use recoup_ai.Domain.Interventions.{spec}
use recoup_ai.Domain.Models.Invoices.{Invoice}
use recoup_ai.Domain.Models.Rows.{ActionRecord, OutcomeRecord}
use recoup_ai.Ledger.States.{permits, state_after_action, state_after_outcome}
use recoup_ai.Ledger.States.Machine.{action_permitted, outcome_permitted}
use recoup_ai.Ledger.Records.{
  resolve, transition, not_later, or_else, log_contact, refused_action, executed_action,
  apply_action, record_action, credit, record_outcome, set_promise,
}

-- A record moved to `target`, where that is permitted.
unfoldable pub moved : Invoice → RecordState → ℕ → Invoice
moved r target tick =
    if state_eq target r.state
    then r
    else record r { state = target; resolved_tick = resolve target r.resolved_tick tick }

pub transition_lem :
    (r : Invoice) (target : RecordState) (tick : ℕ)
    → (target ≡ r.state) ⊎ (permits r.state target ≡ true)
    → transition r target tick ≡ ok (moved r target tick)
unfolding transition moved
transition_lem r target tick (inl e) = rw (e, state_eq_refl) refl
transition_lem r target tick (inr p) = ground arith

-- The record after an action, by whether it was executed.
unfoldable pub after_action : Invoice → Intervention → ℕ → Bool → ℕ → Invoice
unfolding log_contact
after_action r i tick false next_review = record r { next_review_tick = next_review }
after_action r i tick true next_review =
    let m =
      moved (record r { contact_ledger = log_contact r.contact_ledger i tick })
        (state_after_action r.state i) tick in
    record m { next_review_tick = next_review }

abbrev pub action_of : Bool → Intervention → ActionRecord
action_of true i = executed_action i
action_of false i = refused_action i

apply_action_lem :
    (r : Invoice) (i : Intervention) (tick : ℕ) (executed : Bool) (next : ℕ)
    → apply_action r i tick executed next
      ≡ ok (after_action r i tick executed next, action_of executed i)
unfolding apply_action after_action
apply_action_lem r i tick false next = refl
apply_action_lem r i tick true next = rw (
    transition_lem (record r { contact_ledger = log_contact r.contact_ledger i tick })
      (state_after_action r.state i) tick (action_permitted r.state i))

-- Recording an action raises only for a deferral that is not later than the tick. Otherwise an
-- executed action logs its contact, moves the state by the table and sets the next review, and a
-- refused one sets the next review alone.
pub record_action_lem :
    (r : Invoice) (i : Intervention) (tick : ℕ) (executed : Bool) (o : Option ℕ)
    → not_later o tick ≡ false
    → record_action r i tick executed o
      ≡ ok (
        after_action r i tick executed (or_else o (tick + (spec i).review_ticks)),
        action_of executed i,
      )
unfolding record_action
record_action_lem r i tick executed o h =
    rw h (apply_action_lem r i tick executed (or_else o (tick + (spec i).review_ticks)))

unfoldable pub after_outcome : Invoice → OutcomeRecord → ℕ → Invoice
unfolding credit
after_outcome r o tick = moved (credit r o o.kind) (state_after_outcome r.state o.kind) tick

pub state-credit :
    (r : Invoice) (o : OutcomeRecord) (k : OutcomeKind) → (credit r o k).state ≡ r.state
unfolding credit
state-credit r o OutcomeKind.paid_full = refl
state-credit r o _ = refl

-- Recording an outcome never raises: it credits the money, up to the bill, or clears a broken
-- promise, and moves the state by the table.
pub record_outcome_lem :
    (r : Invoice) (o : OutcomeRecord) (tick : ℕ)
    → record_outcome r o tick ≡ ok (after_outcome r o tick)
unfolding record_outcome after_outcome
record_outcome_lem r o tick =
    transition_lem (credit r o o.kind) (state_after_outcome r.state o.kind) tick
      (rw (state-credit r o o.kind) (outcome_permitted r.state o.kind))

unfoldable pub after_promise : Invoice → String → Option ℕ → ℕ → Invoice
after_promise r phrase due_tick tick =
    let noted = record r { promise_phrase = some phrase; promise_due_tick = due_tick } in
    if is_some due_tick && permits r.state RecordState.promised
    then moved noted RecordState.promised tick
    else noted

-- Recording a promise never raises: the phrase and the due tick are kept, and the state moves to
-- promised exactly where there is a due tick and the table permits the move.
pub set_promise_lem :
    (r : Invoice) (phrase : String) (due : Option ℕ) (tick : ℕ)
    → set_promise r phrase due tick ≡ ok (after_promise r phrase due tick)
unfolding set_promise after_promise
set_promise_lem r phrase none tick = refl
set_promise_lem r phrase (some d) tick = elim (Bool-cases (permits r.state RecordState.promised)) [
  | inl p ↦ rw p (
      transition_lem (record r { promise_phrase = some phrase; promise_due_tick = some d })
        RecordState.promised tick (inr p))
  | inr p ↦ rw p
]

-- A move keeps the money, and the id.
pub recovered-moved :
    (r : Invoice) (s : RecordState) (tick : ℕ)
    → (moved r s tick).recovered_paise ≡ r.recovered_paise
unfolding moved
recovered-moved r s tick = ground arith

pub state-moved : (r : Invoice) (s : RecordState) (tick : ℕ) → (moved r s tick).state ≡ s
unfolding moved state_eq
state-moved r s tick = ground arith

id-moved : (r : Invoice) (s : RecordState) (tick : ℕ) → (moved r s tick).invoice_id ≡ r.invoice_id
unfolding moved
id-moved r s tick = elim (Bool-cases (state_eq s r.state)) [ inl e ↦ rw e refl | inr e ↦ rw e refl ]

id-credit :
    (r : Invoice) (o : OutcomeRecord) (k : OutcomeKind) → (credit r o k).invoice_id ≡ r.invoice_id
unfolding credit
id-credit r o OutcomeKind.paid_full = refl
id-credit r o _ = refl

pub id-after_outcome :
    (r : Invoice) (o : OutcomeRecord) (tick : ℕ)
    → (after_outcome r o tick).invoice_id ≡ r.invoice_id
unfolding after_outcome
id-after_outcome r o tick =
    id-moved (credit r o o.kind) (state_after_outcome r.state o.kind) tick ∙ id-credit r o o.kind
