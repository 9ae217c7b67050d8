-- ===== src/Ledger/Records.antt =====
-- src/recoup/ledger/ledger.py: class `Ledger`. Python keeps one mutable object for each invoice;
-- here a method takes the object's value and returns the new one, and `store` writes it back
-- under its id, which no method changes.
pub mod Results
pub mod Safety
pub mod Lookup
pub mod Recorded
use Prim.Native.String.{compare}
use Prim.Native.Nat.{Ordering}
use mathlib.Core.List.{foldl}
use recoup_ai.Base.{
  ℕ, ◌+◌, ◌-◌, ◌≡◌, Bool, true, false, ◌&&◌, ◌||◌, not, Option, none, some, List, [], ◌∷◌, ◌++◌,
  String, arith, leb, ltb, ◌==◌, ◌=s=◌, if◌then◌else◌, min, filter, sum_by, get_or, is_some,
}
use recoup_ai.Base.Errors.{
  Error, Result, ok, err, ◌>>=◌, ◌>>◌, raise_if, illegal_transition, key_error, value_error,
}
use recoup_ai.Domain.Enums.{
  RecordState, Intervention, OutcomeKind, MessageCategory, Channel, ExecutorKind, state_eq,
}
use recoup_ai.Domain.Interventions.{InterventionSpec, spec}
use recoup_ai.Domain.Models.Invoices.{
  Invoice, ContactAttempt, ContactLedger, count_since, outstanding_paise,
}
use recoup_ai.Domain.Models.Rows.{ActionRecord, OutcomeRecord}
use recoup_ai.Ledger.Clock.{ticks_for_days}
use recoup_ai.Ledger.States.{
  is_in, is_terminal, terminal_states, unattended_states, permits, state_after_action,
  state_after_outcome,
}

abbrev pub contact_window_ticks : ℕ
unfolding ticks_for_days
contact_window_ticks = ticks_for_days 30

pub record Ledger : Type 0 where
  pub records : List Invoice

-- `a <= b` on texts: by code points.
unfoldable pub text_le : String → String → Bool
text_le a b = elim (compare a b) [ Ordering.gt ↦ false | _ ↦ true ]

-- One step of a stable sort: `r` goes before the first item whose key is not smaller.
insert_sorted : Invoice → List Invoice → List Invoice
insert_sorted r [] = r ∷ []
insert_sorted r (x ∷ xs) =
    let rest = insert_sorted r xs in
    if text_le r.invoice_id x.invoice_id then r ∷ x ∷ xs else x ∷ rest

-- `sorted(invoices, key=lambda i: i.invoice_id)`
unfoldable pub sort_by_id : List Invoice → List Invoice
unfolding insert_sorted text_le
sort_by_id [] = []
sort_by_id (r ∷ rs) = insert_sorted r (sort_by_id rs)

-- `d[r.invoice_id] = r`: a known key keeps its place.
unfoldable pub put : Invoice → List Invoice → List Invoice
put r [] = r ∷ []
put r (x ∷ xs) = let rest = put r xs in if x.invoice_id =s= r.invoice_id then r ∷ xs else x ∷ rest

-- `Ledger.__init__`
unfoldable pub init : List Invoice → Ledger
unfolding sort_by_id put
init invoices = record { records = foldl (λ d r. put r d) [] (sort_by_id invoices) }

unfoldable pub find : String → List Invoice → Option Invoice
find k [] = none
find k (x ∷ xs) = if x.invoice_id =s= k then some x else find k xs

found : String → Option Invoice → Result Invoice
found k none = err (key_error k)
found k (some r) = ok r

unfoldable pub get : Ledger → String → Result Invoice
unfolding find found
get l k = found k (find k l.records)

-- The record object `r` has been mutated: write its value back.
unfoldable pub store : Ledger → Invoice → Ledger
unfolding put
store l r = record { records = put r l.records }

unfoldable pub active : Ledger → List Invoice
active l = filter (λ r. not (is_terminal r.state)) l.records

unfoldable pub due_for_review : Ledger → ℕ → List Invoice
unfolding active is_in
due_for_review l tick =
    filter (λ r. leb r.next_review_tick tick && not (is_in r.state unattended_states)) (active l)

unfoldable pub payer_contacts_since : Ledger → String → ℕ → ℕ
payer_contacts_since l payer_id tick =
    sum_by (λ r. count_since r.contact_ledger tick)
      (filter (λ r. r.payer_id =s= payer_id) l.records)

abbrev pub in_group : String → Option String → Bool
in_group g none = false
in_group g (some h) = h =s= g

unfoldable pub group_records : Ledger → String → List Invoice
group_records l g = filter (λ r. in_group g r.parent_group_id) l.records

unfoldable pub awaiting_write_off : Ledger → List Invoice
awaiting_write_off l = filter (λ r. state_eq r.state RecordState.exhausted) l.records

-- `record.resolved_tick` after a move to `target`.
abbrev resolve : RecordState → Option ℕ → ℕ → Option ℕ
resolve target (some t) tick = some t
resolve target none tick = if is_terminal target then some tick else none

-- `Ledger.transition`; the returned state is the new record's.
unfoldable pub transition : Invoice → RecordState → ℕ → Result Invoice
transition r target tick =
    if state_eq target r.state
    then ok r
    else if permits r.state target
    then ok (record r { state = target; resolved_tick = resolve target r.resolved_tick tick })
    else err (illegal_transition r.invoice_id)

-- `next_review_override is not None and next_review_override <= tick`
abbrev pub not_later : Option ℕ → ℕ → Bool
not_later none tick = false
not_later (some t) tick = leb t tick

-- Python's `override or default` on an optional number.
abbrev pub or_else : Option ℕ → ℕ → ℕ
or_else none d = d
or_else (some t) d = if t == 0 then d else t

-- The contact that an executed action writes into the contact ledger, if it is one.
abbrev new_attempts : Intervention → InterventionSpec → Option Channel → ℕ → List ContactAttempt
new_attempts i details none tick = []
new_attempts i details (some channel) tick =
    if details.is_contact
    then record {
      tick = tick;
      intervention = i;
      channel = channel;
      category = get_or details.correct_category MessageCategory.service;
    }
      ∷ []
    else []

unfoldable pub log_contact : ContactLedger → Intervention → ℕ → ContactLedger
log_contact c i tick =
    let details = spec i in
    record {
      attempts = c.attempts ++ new_attempts i details details.channel tick;
      payment_links_sent = c.payment_links_sent + details.api_units;
    }

abbrev pub refused_action : Intervention → ActionRecord
refused_action i = record {
  intervention = i;
  executed = false;
  executor = ExecutorKind.simulated;
  channel = none;
  category = none;
  external_ref = none;
  contact_units = 0;
  api_units = 0;
}

abbrev pub executed_action : Intervention → ActionRecord
executed_action i =
    let details = spec i in
    record {
      intervention = i;
      executed = true;
      executor = ExecutorKind.simulated;
      channel = details.channel;
      category = details.correct_category;
      external_ref = none;
      contact_units = details.contact_units;
      api_units = details.api_units;
    }

-- The part of `record_action` behind the checks.
unfoldable pub apply_action :
    Invoice → Intervention → ℕ → Bool → ℕ → Result (Invoice × ActionRecord)
unfolding log_contact
apply_action r i tick false next_review =
    ok (record r { next_review_tick = next_review }, refused_action i)
apply_action r i tick true next_review = do
  moved ←
      transition (record r { contact_ledger = log_contact r.contact_ledger i tick })
        (state_after_action r.state i) tick
  ok (record moved { next_review_tick = next_review }, executed_action i)

unfoldable pub record_action :
    Invoice → Intervention → ℕ → Bool → Option ℕ → Result (Invoice × ActionRecord)
unfolding apply_action
record_action r i tick executed next_review_override = do
  raise_if (not_later next_review_override tick) value_error
  apply_action r i tick executed (or_else next_review_override (tick + (spec i).review_ticks))

-- The two writes of `record_outcome` before the transition.
unfoldable pub credit : Invoice → OutcomeRecord → OutcomeKind → Invoice
credit r o OutcomeKind.paid_full = record r {
  recovered_paise = min r.amount_paise (r.recovered_paise + o.amount_paise);
}
credit r o OutcomeKind.paid_partial = record r {
  recovered_paise = min r.amount_paise (r.recovered_paise + o.amount_paise);
}
credit r o OutcomeKind.promise_broken = record r { promise_phrase = none; promise_due_tick = none }
credit r o _ = r

unfoldable pub record_outcome : Invoice → OutcomeRecord → ℕ → Result Invoice
unfolding credit
record_outcome r o tick = transition (credit r o o.kind) (state_after_outcome r.state o.kind) tick

unfoldable pub set_promise : Invoice → String → Option ℕ → ℕ → Result Invoice
set_promise r phrase due_tick tick =
    let noted = record r { promise_phrase = some phrase; promise_due_tick = due_tick } in
    if is_some due_tick && permits r.state RecordState.promised
    then transition noted RecordState.promised tick
    else ok noted
