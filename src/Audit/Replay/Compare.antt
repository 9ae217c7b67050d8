-- ===== src/Audit/Replay/Compare.antt =====
-- src/recoup/audit/replay.py: `compare`, which finds the fields that a replay did not reproduce. A
-- difference keeps the record and the field; the two values, which are only printed, are left out.
use recoup_ai.Base.{
  ℕ, ◌≡◌, refl, ap, Bool, true, false, ◌&&◌, Option, none, some, List, [], ◌∷◌, ◌++◌, String, arith,
  ◌==◌, ◌=s=◌, eq_iff, if◌then◌else◌, All, map,
}
use recoup_ai.Domain.Enums.{Intervention, Channel, state_eq, state_eq→eq}
use recoup_ai.Domain.Models.Invoices.{Invoice, ContactAttempt}

pub record Difference : Type 0 where
  pub record_id : String
  pub field_name : String

-- `by_id.get(key)`: of records with one id, the dictionary keeps the last.
unfoldable pub by_id : String → List Invoice → Option Invoice
by_id k [] = none
by_id k (r ∷ rs) = elim (by_id k rs) [
  | some later ↦ some later
  | none ↦ if r.invoice_id =s= k then some r else none
]

unfoldable pub intervention_index : Intervention → ℕ
intervention_index Intervention.wait = 0
intervention_index Intervention.soft_reminder = 1
intervention_index Intervention.payment_link = 2
intervention_index Intervention.phone_followup = 3
intervention_index Intervention.escalate_human = 4
intervention_index Intervention.stop = 5

unfoldable pub channel_index : Channel → ℕ
channel_index Channel.email = 0
channel_index Channel.sms = 1
channel_index Channel.phone = 2

unfoldable pub tick_eq : Option ℕ → Option ℕ → Bool
tick_eq none none = true
tick_eq (some a) (some b) = a == b
tick_eq _ _ = false

unfoldable pub phrase_eq : Option String → Option String → Bool
phrase_eq none none = true
phrase_eq (some a) (some b) = a =s= b
phrase_eq _ _ = false

-- `(a.tick, a.intervention, a.channel)` of every attempt, compared in order.
unfoldable pub contacts_eq : List ContactAttempt → List ContactAttempt → Bool
contacts_eq [] [] = true
contacts_eq (a ∷ xs) (b ∷ ys) =
    (a.tick == b.tick)
    && ((intervention_index a.intervention == intervention_index b.intervention)
        && ((channel_index a.channel == channel_index b.channel) && contacts_eq xs ys))
contacts_eq _ _ = false

abbrev unless_same : Invoice → String → Bool → List Difference
unless_same r name same =
    if same then [] else record { record_id = r.invoice_id; field_name = name } ∷ []

-- The differences of one record from its replay.
unfoldable pub differences : Invoice → Invoice → List Difference
unfolding tick_eq phrase_eq contacts_eq
differences r o =
    unless_same r "state" (state_eq r.state o.state)
    ++ (unless_same r "recovered_paise" (r.recovered_paise == o.recovered_paise)
        ++ (unless_same r "next_review_tick" (r.next_review_tick == o.next_review_tick)
            ++ (unless_same r "promise_phrase" (phrase_eq r.promise_phrase o.promise_phrase)
                ++ (unless_same r "promise_due_tick" (tick_eq r.promise_due_tick o.promise_due_tick)
                    ++ (unless_same r "resolved_tick" (tick_eq r.resolved_tick o.resolved_tick)
                        ++ (unless_same r "contact_ledger.attempts"
                              (contacts_eq r.contact_ledger.attempts o.contact_ledger.attempts)
                            ++ unless_same r "contact_ledger.payment_links_sent" (
                                r.contact_ledger.payment_links_sent
                                == o.contact_ledger.payment_links_sent)))))))

-- A record's differences, where the replay may have no such record.
unfoldable pub differences_from : Invoice → Option Invoice → List Difference
unfolding differences
differences_from r none = record { record_id = r.invoice_id; field_name = "<record>" } ∷ []
differences_from r (some o) = differences r o

unfoldable pub compare : List Invoice → List Invoice → List Difference
unfolding differences_from by_id
compare [] replayed = []
compare (r ∷ rs) replayed = differences_from r (by_id r.invoice_id replayed) ++ compare rs replayed

abbrev seen_contact : ContactAttempt → ℕ × (Intervention × Channel)
seen_contact a = (a.tick, (a.intervention, a.channel))

-- That a replayed record agrees with the live one in every field that the metrics read.
pub record Agrees (r o : Invoice) : Type 0 where
  pub state : r.state ≡ o.state
  pub recovered : r.recovered_paise ≡ o.recovered_paise
  pub review : r.next_review_tick ≡ o.next_review_tick
  pub phrase : r.promise_phrase ≡ o.promise_phrase
  pub due : r.promise_due_tick ≡ o.promise_due_tick
  pub resolved : r.resolved_tick ≡ o.resolved_tick
  pub contacts :
      map seen_contact r.contact_ledger.attempts ≡ map seen_contact o.contact_ledger.attempts
  pub links : r.contact_ledger.payment_links_sent ≡ o.contact_ledger.payment_links_sent

tick_eq→eq : (a b : Option ℕ) → tick_eq a b ≡ true → a ≡ b
unfolding tick_eq
tick_eq→eq a b h = ground (arith, h)

phrase_eq→eq : (a b : Option String) → phrase_eq a b ≡ true → a ≡ b
unfolding phrase_eq
phrase_eq→eq none none h = refl
phrase_eq→eq (some a) (some b) h = ap some ((eq_iff a b).0 h)
phrase_eq→eq none (some b) h = cc
phrase_eq→eq (some a) none h = cc

intervention_index-injective :
    (i j : Intervention) → (intervention_index i == intervention_index j) ≡ true → i ≡ j
unfolding intervention_index
intervention_index-injective i j h = ground (arith, h)

channel_index-injective : (i j : Channel) → (channel_index i == channel_index j) ≡ true → i ≡ j
unfolding channel_index
channel_index-injective i j h = ground (arith, h)

contacts_eq→eq :
    (xs ys : List ContactAttempt)
    → contacts_eq xs ys ≡ true
    → map seen_contact xs ≡ map seen_contact ys
unfolding contacts_eq
contacts_eq→eq [] [] h = refl
contacts_eq→eq [] (y ∷ ys) h = cc
contacts_eq→eq (x ∷ xs) [] h = cc
contacts_eq→eq (x ∷ xs) (y ∷ ys) h =
    let t : x.tick ≡ y.tick = ground (arith, h) in
    let i : x.intervention ≡ y.intervention =
      intervention_index-injective x.intervention y.intervention (ground (arith, h)) in
    let c : x.channel ≡ y.channel =
      channel_index-injective x.channel y.channel (ground (arith, h)) in
    let rest : map seen_contact xs ≡ map seen_contact ys =
      contacts_eq→eq xs ys (ground (arith, h)) in
    cc

split_nil {ℓ} : {A : Type ℓ} (xs ys : List A) → xs ++ ys ≡ [] → (xs ≡ []) × (ys ≡ [])
split_nil [] ys h = (refl, h)
split_nil (x ∷ xs) ys h = cc

same_if_none : (r : Invoice) (name : String) (b : Bool) → unless_same r name b ≡ [] → b ≡ true
same_if_none r name b h = ground (arith, h)

differences-Agrees : (r o : Invoice) → differences r o ≡ [] → Agrees r o
unfolding differences
differences-Agrees r o h =
    let (d1, h1) = split_nil (unless_same r "state" (state_eq r.state o.state)) _ h in
    let (d2, h2) =
      split_nil (unless_same r "recovered_paise" (r.recovered_paise == o.recovered_paise)) _ h1 in
    let (d3, h3) =
      split_nil (unless_same r "next_review_tick" (r.next_review_tick == o.next_review_tick)) _
        h2 in
    let (d4, h4) =
      split_nil (unless_same r "promise_phrase" (phrase_eq r.promise_phrase o.promise_phrase)) _
        h3 in
    let (d5, h5) =
      split_nil (unless_same r "promise_due_tick" (tick_eq r.promise_due_tick o.promise_due_tick)) _
        h4 in
    let (d6, h6) =
      split_nil (unless_same r "resolved_tick" (tick_eq r.resolved_tick o.resolved_tick)) _ h5 in
    let (d7, d8) =
      split_nil
        (unless_same r "contact_ledger.attempts"
          (contacts_eq r.contact_ledger.attempts o.contact_ledger.attempts))
        _ h6 in
    record {
      state = state_eq→eq r.state o.state (same_if_none r "state" (state_eq r.state o.state) d1);
      recovered = ground (arith, d2);
      review = ground (arith, d3);
      phrase =
          phrase_eq→eq r.promise_phrase o.promise_phrase
            (same_if_none r "promise_phrase" (phrase_eq r.promise_phrase o.promise_phrase) d4);
      due =
          tick_eq→eq r.promise_due_tick o.promise_due_tick
            (same_if_none r "promise_due_tick" (tick_eq r.promise_due_tick o.promise_due_tick) d5);
      resolved =
          tick_eq→eq r.resolved_tick o.resolved_tick
            (same_if_none r "resolved_tick" (tick_eq r.resolved_tick o.resolved_tick) d6);
      contacts = contacts_eq→eq r.contact_ledger.attempts o.contact_ledger.attempts (
          same_if_none r "contact_ledger.attempts"
            (contacts_eq r.contact_ledger.attempts o.contact_ledger.attempts) d7);
      links = ground (arith, d8);
    }

by_id-id : (k : String) (rs : List Invoice) (o : Invoice) → by_id k rs ≡ some o → o.invoice_id ≡ k
unfolding by_id
by_id-id k [] o h = cc
by_id-id k (r ∷ rs) o h = ground (arith, h, by_id-id k rs o, eq_iff r.invoice_id k)

differences_from-Agrees :
    (r : Invoice) (m : Option Invoice)
    → differences_from r m ≡ []
    → (o : Invoice) × (m ≡ some o) × Agrees r o
unfolding differences_from
differences_from-Agrees r none h = cc
differences_from-Agrees r (some o) h = (o, refl, differences-Agrees r o h)

-- When `compare` finds no difference, every live record has a replayed record of its id that agrees
-- with it in state, money, review and promise, resolution, payment links, and in the tick,
-- intervention and channel of every contact.
pub compare_lem :
    (live replayed : List Invoice)
    → compare live replayed ≡ []
    → All
        (λ r.
          (o : Invoice) × (by_id r.invoice_id replayed ≡ some o)
          × (o.invoice_id ≡ r.invoice_id)
          × Agrees r o)
        live
unfolding compare
compare_lem [] replayed h = tt
compare_lem (r ∷ rs) replayed h =
    let (d, rest) = split_nil (differences_from r (by_id r.invoice_id replayed)) _ h in
    let (o, found, agrees) = differences_from-Agrees r (by_id r.invoice_id replayed) d in
    ((o, found, by_id-id r.invoice_id replayed o found, agrees), compare_lem rs replayed rest)
