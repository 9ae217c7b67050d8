-- ===== src/Ledger/Records/Safety.antt =====
-- What every sequence of ledger writes keeps true of a record: money, resolution, link accounting
-- and identity.
use recoup_ai.Base.{
  ℕ, ◌+◌, ◌≤◌, ◌≡◌, refl, ◌∙◌, Bool, true, false, Option, some, List, String, arith, is_some,
  sum_by, sum_by-append,
}
use recoup_ai.Base.Errors.{call-then, ok}
use recoup_ai.Domain.Enums.{RecordState, Intervention, OutcomeKind, state_eq→eq}
use recoup_ai.Domain.Interventions.{spec}
use recoup_ai.Domain.Models.Invoices.{Invoice, ContactAttempt, ContactLedger}
use recoup_ai.Domain.Models.Rows.{ActionRecord, OutcomeRecord}
use recoup_ai.Ledger.States.{is_terminal, state_after_action, state_after_outcome}
use recoup_ai.Ledger.States.Machine.{permits-terminal}
use recoup_ai.Ledger.Records.{
  or_else, executed_action, transition, log_contact, apply_action, record_action, credit,
  record_outcome, set_promise,
}

-- The payment links among the contacts made.
abbrev pub links_among : List ContactAttempt → ℕ
links_among = sum_by (λ a. (spec a.intervention).api_units)

-- Recovered money never exceeds the bill; a record carries a resolution tick exactly when it is
-- settled; the links counted are the link contacts logged.
pub record IsWellFormed (r : Invoice) : Type 0 where
  pub money : r.recovered_paise ≤ r.amount_paise
  pub resolution : is_some r.resolved_tick ≡ is_terminal r.state
  pub links : r.contact_ledger.payment_links_sent ≡ links_among r.contact_ledger.attempts

-- What a write leaves alone or only raises.
pub record Extends (r s : Invoice) : Type 0 where
  pub same_id : s.invoice_id ≡ r.invoice_id
  pub same_payer : s.payer_id ≡ r.payer_id
  pub same_amount : s.amount_paise ≡ r.amount_paise
  pub recovered_grows : r.recovered_paise ≤ s.recovered_paise
  pub links_grow : r.contact_ledger.payment_links_sent ≤ s.contact_ledger.payment_links_sent
  pub settled_stays : is_terminal r.state ≡ true → s.state ≡ r.state

-- One successful call of a ledger writer.
pub data Step (r : Invoice) : Invoice → Type 0 where
  act :
      {s : Invoice} {a : ActionRecord} (i : Intervention) (tick : ℕ) (executed : Bool)
      (o : Option ℕ)
      → record_action r i tick executed o ≡ ok (s, a)
      → Step r s
  settle : {s : Invoice} (o : OutcomeRecord) (tick : ℕ) → record_outcome r o tick ≡ ok s → Step r s
  pledge :
      {s : Invoice} (phrase : String) (due : Option ℕ) (tick : ℕ)
      → set_promise r phrase due tick ≡ ok s
      → Step r s

pub data Reach (r : Invoice) : Invoice → Type 0 where
  here : Reach r r
  next : {s t : Invoice} → Reach r s → Step s t → Reach r t

transition-IsWellFormed :
    (r s : Invoice) (target : RecordState) (tick : ℕ)
    → IsWellFormed r
    → transition r target tick ≡ ok s
    → IsWellFormed s
unfolding transition
transition-IsWellFormed r s target tick w h =
    ground (arith, state_eq→eq target r.state, permits-terminal r.state target)

transition-Extends :
    (r s : Invoice) (target : RecordState) (tick : ℕ)
    → transition r target tick ≡ ok s
    → Extends r s
unfolding transition
transition-Extends r s target tick h = ground (arith, permits-terminal r.state target)

links-log_contact :
    (c : ContactLedger) (i : Intervention) (tick : ℕ)
    → c.payment_links_sent ≡ links_among c.attempts
    → (log_contact c i tick).payment_links_sent ≡ links_among (log_contact c i tick).attempts
unfolding log_contact spec
links-log_contact c Intervention.wait tick h =
    rw (sum_by-append (λ a. (spec a.intervention).api_units) c.attempts) (omega arith)
links-log_contact c _ tick h =
    rw (sum_by-append (λ a. (spec a.intervention).api_units) c.attempts) (omega arith)

-- An executed action is a logged contact, a transition and a new review tick.
apply_action_inv :
    (r s : Invoice) (a : ActionRecord) (i : Intervention) (tick n : ℕ)
    → apply_action r i tick true n ≡ ok (s, a)
    → (t : Invoice) × (transition
          (record r { contact_ledger = log_contact r.contact_ledger i tick })
          (state_after_action r.state i)
          tick
        ≡ ok t)
      × (s ≡ record t { next_review_tick = n })
unfolding apply_action
apply_action_inv r s a i tick n h =
    let (t, p, q) =
      call-then {S = Invoice × ActionRecord}
        (transition (record r { contact_ledger = log_contact r.contact_ledger i tick })
          (state_after_action r.state i) tick)
        (λ t. ok (record t { next_review_tick = n }, executed_action i)) h in
    (t, p, ground arith)

apply_action-IsWellFormed :
    (r s : Invoice) (a : ActionRecord) (i : Intervention) (tick : ℕ) (executed : Bool) (n : ℕ)
    → IsWellFormed r
    → apply_action r i tick executed n ≡ ok (s, a)
    → IsWellFormed s
apply_action-IsWellFormed r s a i tick false n w h = unfold apply_action in ground arith
apply_action-IsWellFormed r s a i tick true n w h =
    let (t, p, e) = apply_action_inv r s a i tick n h in
    let w' : IsWellFormed t =
      transition-IsWellFormed (record r { contact_ledger = log_contact r.contact_ledger i tick }) t
        (state_after_action r.state i) tick
        (record {
          money = w.money;
          resolution = w.resolution;
          links = links-log_contact r.contact_ledger i tick w.links;
        })
        p in
    rw e (record { money = w'.money; resolution = w'.resolution; links = w'.links })

record_action-IsWellFormed :
    (r s : Invoice) (a : ActionRecord) (i : Intervention) (tick : ℕ) (executed : Bool)
    (o : Option ℕ)
    → IsWellFormed r
    → record_action r i tick executed o ≡ ok (s, a)
    → IsWellFormed s
unfolding record_action
record_action-IsWellFormed r s a i tick executed o w h = ground (
  arith,
  apply_action-IsWellFormed r s a i tick executed (or_else o (tick + (spec i).review_ticks)) w,
)

credit-IsWellFormed :
    (r : Invoice) (o : OutcomeRecord) (k : OutcomeKind)
    → IsWellFormed r
    → IsWellFormed (credit r o k)
unfolding credit
credit-IsWellFormed r o OutcomeKind.paid_full w = ground arith
credit-IsWellFormed r o _ w = ground arith

record_outcome-IsWellFormed :
    (r s : Invoice) (o : OutcomeRecord) (tick : ℕ)
    → IsWellFormed r
    → record_outcome r o tick ≡ ok s
    → IsWellFormed s
unfolding record_outcome
record_outcome-IsWellFormed r s o tick w h =
    transition-IsWellFormed (credit r o o.kind) s (state_after_outcome r.state o.kind) tick
      (credit-IsWellFormed r o o.kind w) h

set_promise-IsWellFormed :
    (r s : Invoice) (phrase : String) (due : Option ℕ) (tick : ℕ)
    → IsWellFormed r
    → set_promise r phrase due tick ≡ ok s
    → IsWellFormed s
unfolding set_promise
set_promise-IsWellFormed r s phrase due tick w h = ground (
  arith,
  transition-IsWellFormed (record r { promise_phrase = some phrase; promise_due_tick = due }) s
      RecordState.promised tick
      (record { money = w.money; resolution = w.resolution; links = w.links }),
)

Step-IsWellFormed : {r s : Invoice} → Step r s → IsWellFormed r → IsWellFormed s
Step-IsWellFormed {r} {s} (act {a} i tick e o h) w = record_action-IsWellFormed r s a i tick e o w h
Step-IsWellFormed {r} {s} (settle o tick h) w = record_outcome-IsWellFormed r s o tick w h
Step-IsWellFormed {r} {s} (pledge p d tick h) w = set_promise-IsWellFormed r s p d tick w h

-- However many actions, outcomes and promises a well-formed record goes through, its recovered
-- money stays within the bill, it carries a resolution tick exactly when it is settled, and its
-- link count is the number of payment links in its contact log.
pub Reach-IsWellFormed : {r s : Invoice} → Reach r s → IsWellFormed r → IsWellFormed s
Reach-IsWellFormed here w = w
Reach-IsWellFormed (next p st) w = Step-IsWellFormed st (Reach-IsWellFormed p w)

Extends-refl : (r : Invoice) → Extends r r
Extends-refl r = record {
  same_id = refl;
  same_payer = refl;
  same_amount = refl;
  recovered_grows = omega arith;
  links_grow = omega arith;
  settled_stays = λ _. refl;
}

Extends-trans : {r s t : Invoice} → Extends r s → Extends s t → Extends r t
Extends-trans p q = record {
  same_id = q.same_id ∙ p.same_id;
  same_payer = q.same_payer ∙ p.same_payer;
  same_amount = q.same_amount ∙ p.same_amount;
  recovered_grows = omega arith;
  links_grow = omega arith;
  settled_stays = λ h. q.settled_stays (rw (p.settled_stays h) h) ∙ p.settled_stays h;
}

credit-Extends :
    (r : Invoice) (o : OutcomeRecord) (k : OutcomeKind) → IsWellFormed r → Extends r (credit r o k)
unfolding credit
credit-Extends r o OutcomeKind.paid_full w = ground arith
credit-Extends r o _ w = ground arith

apply_action-Extends :
    (r s : Invoice) (a : ActionRecord) (i : Intervention) (tick : ℕ) (executed : Bool) (n : ℕ)
    → apply_action r i tick executed n ≡ ok (s, a)
    → Extends r s
apply_action-Extends r s a i tick false n h = unfold apply_action in ground arith
apply_action-Extends r s a i tick true n h =
    let (t, p, e) = apply_action_inv r s a i tick n h in
    let x : Extends (record r { contact_ledger = log_contact r.contact_ledger i tick }) t =
      transition-Extends (record r { contact_ledger = log_contact r.contact_ledger i tick }) t
        (state_after_action r.state i) tick p in
    rw e (record {
      same_id = x.same_id;
      same_payer = x.same_payer;
      same_amount = x.same_amount;
      recovered_grows = x.recovered_grows;
      links_grow = unfold log_contact in omega arith;
      settled_stays = x.settled_stays;
    })

Step-Extends : {r s : Invoice} → Step r s → IsWellFormed r → Extends r s
unfolding record_action record_outcome set_promise
Step-Extends {r} {s} (act {a} i tick e o h) w =
    ground (arith, apply_action-Extends r s a i tick e (or_else o (tick + (spec i).review_ticks)))
Step-Extends {r} {s} (settle o tick h) w =
    Extends-trans (credit-Extends r o o.kind w)
      (transition-Extends (credit r o o.kind) s (state_after_outcome r.state o.kind) tick h)
Step-Extends {r} {s} (pledge p d tick h) w = ground (
  arith,
  transition-Extends (record r { promise_phrase = some p; promise_due_tick = d }) s
      RecordState.promised tick,
)

-- Ledger writes never change whose record it is or what was billed, never lower the money
-- recovered or the links sent, and never move a settled record.
pub Reach-Extends : {r s : Invoice} → Reach r s → IsWellFormed r → Extends r s
Reach-Extends {r} here w = Extends-refl r
Reach-Extends (next p st) w =
    Extends-trans (Reach-Extends p w) (Step-Extends st (Reach-IsWellFormed p w))
