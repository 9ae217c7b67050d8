-- ===== src/Ledger/Records/Recorded.antt =====
-- What `record_action` and `record_outcome` write into a record, said without their helpers.
use recoup_ai.Base.{
  ℕ, ◌+◌, ◌≤◌, ◌<◌, ◌≡◌, ◌≢◌, refl, ap, ◌∙◌, ◌⊎◌, inl, inr, Bool, true, false, Option, none, some,
  List, [], ◌∷◌, ◌++◌, arith, Bool-cases,
}
use recoup_ai.Base.Errors.{ok}
use recoup_ai.Domain.Enums.{RecordState, Intervention, OutcomeKind, state_eq}
use recoup_ai.Domain.Interventions.{spec, is_contact}
use recoup_ai.Domain.Models.Invoices.{ContactAttempt, ContactLedger, Invoice}
use recoup_ai.Domain.Models.Rows.{ActionRecord, OutcomeRecord}
use recoup_ai.Ledger.States.{state_after_action, state_after_outcome}
use recoup_ai.Ledger.Records.{log_contact, not_later, or_else, record_action}
use recoup_ai.Ledger.Records.Results.{
  moved, after_action, action_of, record_action_lem, state-moved, recovered-moved,
}

-- A record after an executed action. A contact is logged behind the earlier ones, under its own tick
-- and intervention, and counts one; any other action logs nothing and counts nothing. A payment link,
-- and nothing else, adds one to the links sent.
pub record IsLogged (r s : Invoice) (a : ActionRecord) (i : Intervention) (tick : ℕ) : Type 0 where
  pub contact :
      is_contact i ≡ true
      → (t : ContactAttempt) × (s.contact_ledger.attempts ≡ r.contact_ledger.attempts ++ t ∷ [])
        × (t.tick ≡ tick)
        × (t.intervention ≡ i)
        × (a.contact_units ≡ 1)
  pub silent :
      is_contact i ≡ false
      → (s.contact_ledger.attempts ≡ r.contact_ledger.attempts) × (a.contact_units ≡ 0)
  pub link :
      i ≡ Intervention.payment_link
      → s.contact_ledger.payment_links_sent ≡ r.contact_ledger.payment_links_sent + 1
  pub no_link :
      i ≢ Intervention.payment_link
      → s.contact_ledger.payment_links_sent ≡ r.contact_ledger.payment_links_sent
  pub state : s.state ≡ state_after_action r.state i
  pub money : s.recovered_paise ≡ r.recovered_paise

ledger-moved :
    (r : Invoice) (t : RecordState) (tick : ℕ) → (moved r t tick).contact_ledger ≡ r.contact_ledger
unfolding moved
ledger-moved r t tick = elim (Bool-cases (state_eq t r.state)) [
  | inl e ↦ rw e refl
  | inr e ↦ rw e refl
]

attempts_lem :
    (c : ContactLedger) (i : Intervention) (tick : ℕ)
    → is_contact i ≡ true
    → (t : ContactAttempt) × ((log_contact c i tick).attempts ≡ c.attempts ++ t ∷ [])
      × (t.tick ≡ tick)
      × (t.intervention ≡ i)
      × ((action_of true i).contact_units ≡ 1)
unfolding log_contact is_contact spec
attempts_lem c Intervention.soft_reminder tick h = (_, refl, refl, refl, refl)
attempts_lem c Intervention.payment_link tick h = (_, refl, refl, refl, refl)
attempts_lem c Intervention.phone_followup tick h = (_, refl, refl, refl, refl)
attempts_lem c Intervention.wait tick h = cc
attempts_lem c Intervention.escalate_human tick h = cc
attempts_lem c Intervention.stop tick h = cc

append-nil : {A : Type 0} (xs : List A) → xs ++ [] ≡ xs
append-nil [] = refl
append-nil (x ∷ xs) = ap (λ ys. x ∷ ys) (append-nil xs)

silent_lem :
    (c : ContactLedger) (i : Intervention) (tick : ℕ)
    → is_contact i ≡ false
    → ((log_contact c i tick).attempts ≡ c.attempts) × ((action_of true i).contact_units ≡ 0)
unfolding log_contact is_contact spec
silent_lem c Intervention.wait tick h = (append-nil c.attempts, refl)
silent_lem c Intervention.escalate_human tick h = (append-nil c.attempts, refl)
silent_lem c Intervention.stop tick h = (append-nil c.attempts, refl)
silent_lem c Intervention.soft_reminder tick h = cc
silent_lem c Intervention.payment_link tick h = cc
silent_lem c Intervention.phone_followup tick h = cc

links_lem :
    (c : ContactLedger) (i : Intervention) (tick : ℕ)
    → (i ≡ Intervention.payment_link
        → (log_contact c i tick).payment_links_sent ≡ c.payment_links_sent + 1)
      × (i ≢ Intervention.payment_link
          → (log_contact c i tick).payment_links_sent ≡ c.payment_links_sent)
unfolding log_contact spec
links_lem c Intervention.payment_link tick = (λ e. refl, λ d. absurd (d refl))
links_lem c Intervention.wait tick = (λ e. cc, λ d. omega arith)
links_lem c Intervention.soft_reminder tick = (λ e. cc, λ d. omega arith)
links_lem c Intervention.phone_followup tick = (λ e. cc, λ d. omega arith)
links_lem c Intervention.escalate_human tick = (λ e. cc, λ d. omega arith)
links_lem c Intervention.stop tick = (λ e. cc, λ d. omega arith)

after_action-IsLogged :
    (r : Invoice) (i : Intervention) (tick review : ℕ)
    → IsLogged r (after_action r i tick true review) (action_of true i) i tick
unfolding after_action
after_action-IsLogged r i tick review =
    let noted : Invoice = record r { contact_ledger = log_contact r.contact_ledger i tick } in
    let e = ledger-moved noted (state_after_action r.state i) tick in
    record {
      contact = λ h.
          let (t, logged, at, by, one) = attempts_lem r.contact_ledger i tick h in
          (t, ap (λ c. c.attempts) e ∙ logged, at, by, one);
      silent = λ h.
          let (same, none_counted) = silent_lem r.contact_ledger i tick h in
          (ap (λ c. c.attempts) e ∙ same, none_counted);
      link = λ h. ap (λ c. c.payment_links_sent) e ∙ (links_lem r.contact_ledger i tick).0 h;
      no_link = λ h. ap (λ c. c.payment_links_sent) e ∙ (links_lem r.contact_ledger i tick).1 h;
      state = state-moved noted (state_after_action r.state i) tick;
      money = recovered-moved noted (state_after_action r.state i) tick;
    }

-- When the record is looked at again: at the tick of the deferral, or after the intervention's own
-- time.
abbrev pub IsReviewedAt : Intervention → ℕ → Option ℕ → ℕ → Type 0
IsReviewedAt i tick none review = review ≡ tick + (spec i).review_ticks
IsReviewedAt i tick (some t) review = review ≡ t

or_else-IsReviewedAt :
    (i : Intervention) (tick : ℕ) (o : Option ℕ)
    → not_later o tick ≡ false
    → IsReviewedAt i tick o (or_else o (tick + (spec i).review_ticks))
or_else-IsReviewedAt i tick none h = refl
or_else-IsReviewedAt i tick (some t) h = ground (arith, h)

-- Recording an action whose deferral, if any, is later than the tick does not raise and sets the next
-- review. An executed action is logged as `IsLogged` says; a refused one changes nothing else, and
-- counts nothing.
pub record_action-IsLogged :
    (r : Invoice) (i : Intervention) (tick : ℕ) (executed : Bool) (o : Option ℕ)
    → not_later o tick ≡ false
    → (s : Invoice) × (a : ActionRecord) × (record_action r i tick executed o ≡ ok (s, a))
      × IsReviewedAt i tick o s.next_review_tick
      × (executed ≡ true → IsLogged r s a i tick)
      × (executed ≡ false
          → (s ≡ record r { next_review_tick = s.next_review_tick })
            × (a.contact_units ≡ 0)
            × (a.api_units ≡ 0))
record_action-IsLogged r i tick true o h = (
  after_action r i tick true (or_else o (tick + (spec i).review_ticks)),
  action_of true i,
  record_action_lem r i tick true o h,
  unfold after_action in or_else-IsReviewedAt i tick o h,
  λ e. after_action-IsLogged r i tick (or_else o (tick + (spec i).review_ticks)),
  λ e. cc,
)
record_action-IsLogged r i tick false o h = (
  after_action r i tick false (or_else o (tick + (spec i).review_ticks)),
  action_of false i,
  record_action_lem r i tick false o h,
  unfold after_action in or_else-IsReviewedAt i tick o h,
  λ e. cc,
  λ e. (unfold after_action in refl, refl, refl),
)

-- The money and the promise of a record after an outcome.
pub record IsSettled (r s : Invoice) (o : OutcomeRecord) : Type 0 where
  pub within :
      (o.kind ≡ OutcomeKind.paid_full) ⊎ (o.kind ≡ OutcomeKind.paid_partial)
      → r.recovered_paise + o.amount_paise ≤ r.amount_paise
      → s.recovered_paise ≡ r.recovered_paise + o.amount_paise
  pub beyond :
      (o.kind ≡ OutcomeKind.paid_full) ⊎ (o.kind ≡ OutcomeKind.paid_partial)
      → r.amount_paise < r.recovered_paise + o.amount_paise
      → s.recovered_paise ≡ r.amount_paise
  pub unpaid :
      o.kind ≢ OutcomeKind.paid_full
      → o.kind ≢ OutcomeKind.paid_partial
      → s.recovered_paise ≡ r.recovered_paise
  pub broken : o.kind ≡ OutcomeKind.promise_broken → s.promise_due_tick ≡ none
  pub kept : o.kind ≢ OutcomeKind.promise_broken → s.promise_due_tick ≡ r.promise_due_tick
  pub state : s.state ≡ state_after_outcome r.state o.kind
  pub contacts : s.contact_ledger ≡ r.contact_ledger
