-- ===== src/Ledger/Adjudicator/Answers.antt =====
-- What the adjudicator answers: when it answers, and for how much money.
use native.Mathlib.Nat.{mod-lt}
use recoup_ai.Base.{
  ℕ, zero, suc, ◌%◌, ◌<◌, ◌≡◌, refl, ◌⊎◌, true, false, Option, none, some, List, [], ◌∷◌, String,
  length, arith,
}
use recoup_ai.Base.Doubles.{Double, of_nat, times, truncate}
use recoup_ai.Base.Errors.{Error, Result, ok, err}
use recoup_ai.Domain.Enums.{Archetype, Intervention, OutcomeKind}
use recoup_ai.Domain.Interventions.{spec, is_contact}
use recoup_ai.Domain.Models.Invoices.{Invoice, outstanding_paise}
use recoup_ai.Domain.Models.Rows.{OutcomeRecord}
use recoup_ai.Ledger.Payers.{potency_of}
use recoup_ai.Ledger.Adjudicator.{
  Platform, without_money, own_cycle, partial_amount, uniform, item, phrase_pool, promise_phrase,
  resolve_spontaneous, response_outcome, landed_on, resolve_response,
}
use recoup_ai.Ledger.Adjudicator.Amounts.{IsPart, partial_amount-IsPart}

-- The money of an outcome: the whole balance, a part of it, or none.
abbrev pub IsPriced : ℕ → OutcomeKind → ℕ → Type 0
IsPriced outstanding OutcomeKind.paid_full amount = amount ≡ outstanding
IsPriced outstanding OutcomeKind.paid_partial amount = IsPart outstanding amount
IsPriced outstanding _ amount = amount ≡ 0

item_answers : (xs : List String) (i : ℕ) → i < length xs → (x : String) × (item xs i ≡ ok x)
unfolding item
item_answers [] i h = absurd (omega arith)
item_answers (x ∷ xs) zero h = (x, refl)
item_answers (x ∷ xs) (suc i) h = item_answers xs i (omega arith)

phrase_pool_pos : (a : Archetype) → 0 < length (phrase_pool a)
unfolding phrase_pool
phrase_pool_pos a = ground arith

-- A payment of a balance, in full or in part.
abbrev pub Settles : ℕ → OutcomeRecord → Type 0
Settles outstanding o =
    ((o.kind ≡ OutcomeKind.paid_full) × (o.amount_paise ≡ outstanding))
    ⊎ ((o.kind ≡ OutcomeKind.paid_partial) × IsPart outstanding o.amount_paise)

own_cycle-Settles :
    (threshold draw share : Double) (outstanding part : ℕ) (o : OutcomeRecord)
    → own_cycle threshold draw share outstanding part ≡ some o
    → IsPart outstanding part
    → (0 < outstanding) × Settles outstanding o
unfolding own_cycle
own_cycle-Settles threshold draw share outstanding part o h p = ground (arith, h, p)

module _ (m : Platform) (seed : ℕ) where
  promise_phrase_answers :
      (r : Invoice) (tick : ℕ) → (phrase : String) × (promise_phrase m seed r tick ≡ ok phrase)
  unfolding promise_phrase
  promise_phrase_answers r tick =
      let pool = phrase_pool r.payer_archetype in
      item_answers pool
        (truncate (times (uniform m seed r.invoice_id tick "amount") (of_nat (length pool)))
          % length pool)
        (mod-lt _ (phrase_pool_pos r.payer_archetype))

  abbrev pub Prices : Invoice → Result OutcomeRecord → Type 0
  Prices r answer =
      (o : OutcomeRecord) × (answer ≡ ok o) × IsPriced (outstanding_paise r) o.kind o.amount_paise

  response_outcome-Prices :
      (r : Invoice) (tick : ℕ) (kind : OutcomeKind) (i : Intervention)
      → Prices r (response_outcome m seed r tick kind i)
  unfolding response_outcome
  response_outcome-Prices r tick OutcomeKind.paid_partial i =
      (_, refl, partial_amount-IsPart m seed r tick (outstanding_paise r))
  response_outcome-Prices r tick OutcomeKind.promised i =
      let (phrase, e) = promise_phrase_answers r tick in
      (without_money OutcomeKind.promised phrase, rw e refl, refl)
  response_outcome-Prices r tick _ i = (_, refl, refl)

  landed_on-Prices :
      (r : Invoice) (tick : ℕ) (i : Intervention) (k : Option OutcomeKind)
      → Prices r (landed_on m seed r tick i k)
  unfolding landed_on
  landed_on-Prices r tick i none = (_, refl, refl)
  landed_on-Prices r tick i (some kind) = response_outcome-Prices r tick kind i

  -- The adjudicator answers for every contact, whatever the draws, with an outcome that pays the
  -- whole balance, a part of it, or nothing, as its kind says; for an intervention that makes no
  -- contact it raises a `ValueError`. A part is at least one paisa, at least 33 hundredths of the
  -- balance rounded down, and at most one paisa or 85 hundredths rounded down, whichever is more.
  pub resolve_response_lem :
      (r : Invoice) (tick : ℕ) (i : Intervention) (recent_contacts : ℕ)
      → (is_contact i ≡ true → Prices r (resolve_response m seed r tick i recent_contacts))
        × (is_contact i ≡ false
            → resolve_response m seed r tick i recent_contacts ≡ err Error.value_error)
  unfolding resolve_response potency_of is_contact spec
  resolve_response_lem r tick Intervention.soft_reminder n =
      (λ h. landed_on-Prices r tick _ _, λ h. cc)
  resolve_response_lem r tick Intervention.payment_link n =
      (λ h. landed_on-Prices r tick _ _, λ h. cc)
  resolve_response_lem r tick Intervention.phone_followup n =
      (λ h. landed_on-Prices r tick _ _, λ h. cc)
  resolve_response_lem r tick _ n = (λ h. cc, λ h. refl)

  -- A payer acts unasked only on a bill with a balance, and then settles it in full or pays a part: at
  -- least one paisa, at least 33 hundredths of the balance rounded down, and at most one paisa or 85
  -- hundredths rounded down, whichever is more.
  pub resolve_spontaneous_lem :
      (r : Invoice) (tick : ℕ) (o : OutcomeRecord)
      → resolve_spontaneous m seed r tick ≡ some o
      → (0 < outstanding_paise r) × Settles (outstanding_paise r) o
  unfolding resolve_spontaneous
  resolve_spontaneous_lem r tick o h =
      own_cycle-Settles _ _ _ (outstanding_paise r)
        (partial_amount m seed r tick (outstanding_paise r)) o h
        (partial_amount-IsPart m seed r tick (outstanding_paise r))
