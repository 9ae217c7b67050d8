-- ===== src/Ledger/Adjudicator.antt =====
-- src/recoup/ledger/adjudicator.py: what the simulated payers do. `Platform` has what the code calls
-- outside this repository and the language: the C library's power function, blake2b with a digest
-- of eight bytes, read as a number, and the built-in sum of floats, which rounds differently in
-- different versions of the interpreter.
pub mod Answers
pub mod Amounts
pub mod World
use Prim.Native.String.{◌++◌}
use recoup_ai.Base.{
  ℕ, zero, suc, ◌+◌, ◌-◌, ◌*◌, ◌/◌, ◌%◌, ◌^◌, max, ℤ, pos, negsuc, Bool, true, false, not, Option,
  none, some, List, [], ◌∷◌, map, length, String, leb, ltb, ◌==◌, get_or, if◌then◌else◌,
}
use recoup_ai.Base.Doubles.{Double, one, of_nat, literal, plus, minus, times, over, truncate}
use recoup_ai.Base.Decimal.{decimal}
use recoup_ai.Base.Errors.{Error, Result, ok, err, ◌>>=◌, ◌>>◌, raise_if}
use recoup_ai.Domain.Enums.{Archetype, Intervention, OutcomeKind}
use recoup_ai.Domain.Interventions.{is_contact}
use recoup_ai.Domain.Models.Invoices.{Invoice, outstanding_paise, days_overdue}
use recoup_ai.Domain.Models.Rows.{OutcomeRecord}
use recoup_ai.Ledger.Clock.{default_horizon, virtual_date}
use recoup_ai.Ledger.Payers.{
  SpontaneousOdds, ResponseOdds, InterventionPotency, intervention_value, profiles, potency_of,
  is_vague_promiser,
}

pub record Platform : Type 0 where
  pub pow : Double → Double → Double
  pub blake2b : String → ℕ
  pub sum : List Double → Double

abbrev channel_spontaneous : String
channel_spontaneous = "spontaneous"

abbrev channel_response : String
channel_response = "response"

abbrev channel_promise : String
channel_promise = "promise"

abbrev channel_amount : String
channel_amount = "amount"

abbrev pub reference_days_overdue : ℕ
reference_days_overdue = 30

abbrev pub overdue_floor : Double
overdue_floor = literal 35 100

abbrev pub fatigue_onset : ℕ
fatigue_onset = 3

abbrev pub fatigue_pay_decay : Double
fatigue_pay_decay = literal 82 100

abbrev pub fatigue_complaint_step : Double
fatigue_complaint_step = literal 15 1000

abbrev pub max_response_mass : Double
max_response_mass = literal 95 100

-- The text that a draw hashes.
unfoldable pub draw_key : ℕ → String → ℕ → String → String
draw_key seed k tick channel =
    decimal seed ++ ("|" ++ (k ++ ("|" ++ (decimal tick ++ ("|" ++ channel)))))

abbrev pub settled_full : ℕ → String → OutcomeRecord
settled_full amount detail = record {
  kind = OutcomeKind.paid_full;
  amount_paise = amount;
  detail = detail;
}

abbrev pub without_money : OutcomeKind → String → OutcomeRecord
without_money kind detail = record { kind = kind; amount_paise = 0; detail = detail }

-- `_promise_phrase`'s two pools.
abbrev pub vague_phrases : List String
vague_phrases =
    "we will release it in due course" ∷ "after the festival break"
    ∷ "once the current review concludes" ∷ "shortly" ∷ []

abbrev pub firm_phrases : List String
firm_phrases =
    "in the next payment run, on the 25th" ∷ "by Friday" ∷ "within 7 working days"
    ∷ "before month end" ∷ "next week" ∷ []

unfoldable pub phrase_pool : Archetype → List String
unfolding is_vague_promiser
phrase_pool a = if is_vague_promiser a then vague_phrases else firm_phrases

-- `xs[i]`
unfoldable pub item : List String → ℕ → Result String
item [] i = err Error.index_error
item (x ∷ xs) zero = ok x
item (x ∷ xs) (suc i) = item xs i

-- `f"{text}"` of an optional text.
abbrev pub text_of : Option String → String
text_of phrase = get_or phrase "None"

-- The turns of `for kind, probability in ladder`.
unfoldable pub climb : Double → Double → List (OutcomeKind × Double) → Option OutcomeKind
climb draw cursor [] = none
climb draw cursor ((kind, probability) ∷ rest) =
    let above = climb draw (plus cursor probability) rest in
    if ltb draw (plus cursor probability) then some kind else above

-- What a payer does unasked, for a threshold, a draw, a share of part payments, a balance and a part
-- of it.
unfoldable pub own_cycle : Double → Double → Double → ℕ → ℕ → Option OutcomeRecord
own_cycle threshold draw partial_share outstanding part =
    let position = if ltb 0 threshold then over draw threshold else one in
    if leb threshold draw
    then none
    else if outstanding == 0
    then none
    else if ltb position partial_share
    then some (record {
      kind = OutcomeKind.paid_partial;
      amount_paise = part;
      detail = "settled in part on the payer's own cycle";
    })
    else some (settled_full outstanding "settled on the payer's own cycle, unprompted")

module _ (m : Platform) where
  unfoldable pub uniform : ℕ → String → ℕ → String → Double
  uniform seed k tick channel =
      over (of_nat (m.blake2b (draw_key seed k tick channel) % 2 ^ 64)) (of_nat (2 ^ 64))

  -- `SpontaneousOdds.per_tick`
  unfoldable pub per_tick : SpontaneousOdds → Double
  per_tick o = minus one (m.pow (minus one o.cumulative_28d) (over one (of_nat default_horizon)))

  -- `_overdue_multiplier`
  unfoldable pub overdue_multiplier : ℤ → Double
  overdue_multiplier (negsuc n) = one
  overdue_multiplier (pos days) =
      if leb days reference_days_overdue
      then one
      else max overdue_floor
          (m.pow (literal 1 2) (over (of_nat (days - reference_days_overdue)) (of_nat 90)))

  -- `_fatigue`
  unfoldable pub fatigue : ℕ → Double × Double
  fatigue recent_contacts =
      let excess = recent_contacts - fatigue_onset in
      if excess == 0
      then (one, 0)
      else (m.pow fatigue_pay_decay (of_nat excess), times fatigue_complaint_step (of_nat excess))

  -- The branches of a response, from what scales them.
  unfoldable pub response_ladder :
      ResponseOdds → InterventionPotency → Double → Double × Double → List (OutcomeKind × Double)
  response_ladder odds potency decay (pay_fatigue, complaint_add) =
      (OutcomeKind.paid_full, times (times (times odds.paid_full potency.pay) decay) pay_fatigue)
      ∷ (
        OutcomeKind.paid_partial,
        times (times (times odds.paid_partial potency.pay) decay) pay_fatigue,
      )
      ∷ (OutcomeKind.promised, times (times odds.promised potency.promise) pay_fatigue)
      ∷ (OutcomeKind.replied, times odds.replied potency.reply)
      ∷ (OutcomeKind.dispute_raised, times odds.dispute_raised potency.dispute)
      ∷ (OutcomeKind.complaint, plus (times odds.complaint potency.complaint) complaint_add)
      ∷ []

  unfoldable pub rescale : List (OutcomeKind × Double) → List (OutcomeKind × Double)
  rescale ladder =
      let mass = m.sum (map (λ b. b.1) ladder) in
      if ltb max_response_mass mass
      then map (λ b. (b.0, times b.1 (over max_response_mass mass))) ladder
      else ladder

  module _ (seed : ℕ) where
    -- `_partial_amount`
    unfoldable pub partial_amount : Invoice → ℕ → ℕ → ℕ
    partial_amount r tick outstanding =
        let percent =
          33 + truncate (times (uniform seed r.invoice_id tick channel_amount) (of_nat 52)) in
        max 1 (outstanding * percent / 100)

    -- `_promise_phrase`
    unfoldable pub promise_phrase : Invoice → ℕ → Result String
    unfolding item phrase_pool
    promise_phrase r tick =
        let pool = phrase_pool r.payer_archetype in
        let draw = uniform seed r.invoice_id tick channel_amount in
        item pool (truncate (times draw (of_nat (length pool))) % length pool)

    -- `resolve_spontaneous`
    unfoldable pub resolve_spontaneous : Invoice → ℕ → Option OutcomeRecord
    unfolding own_cycle
    resolve_spontaneous r tick =
        let odds = (profiles r.payer_archetype).spontaneous in
        let threshold =
          times (per_tick odds) (overdue_multiplier (days_overdue r (virtual_date tick))) in
        let draw = uniform seed r.invoice_id tick channel_spontaneous in
        own_cycle threshold draw odds.partial_share (outstanding_paise r)
          (partial_amount r tick (outstanding_paise r))

    -- `_response_outcome`
    unfoldable pub response_outcome :
        Invoice → ℕ → OutcomeKind → Intervention → Result OutcomeRecord
    unfolding intervention_value
    response_outcome r tick OutcomeKind.paid_full i =
        ok (settled_full (outstanding_paise r) ("settled in full after " ++ intervention_value i))
    response_outcome r tick OutcomeKind.paid_partial i = ok (record {
      kind = OutcomeKind.paid_partial;
      amount_paise = partial_amount r tick (outstanding_paise r);
      detail = "part payment after " ++ intervention_value i;
    })
    response_outcome r tick OutcomeKind.promised i = do
      phrase ← promise_phrase r tick
      ok (without_money OutcomeKind.promised phrase)
    response_outcome r tick OutcomeKind.dispute_raised i = ok (
        without_money OutcomeKind.dispute_raised
          "the standing objection was filed as a formal dispute")
    response_outcome r tick OutcomeKind.complaint i =
        ok (
          without_money OutcomeKind.complaint "the payer complained about the frequency of contact")
    response_outcome r tick kind i = ok (without_money kind "acknowledged, nothing committed")

    -- The outcome of a contact from where the ladder was left.
    unfoldable pub landed_on :
        Invoice → ℕ → Intervention → Option OutcomeKind → Result OutcomeRecord
    unfolding response_outcome
    landed_on r tick i none = ok (without_money OutcomeKind.no_response "no reply to the approach")
    landed_on r tick i (some kind) = response_outcome r tick kind i

    -- `resolve_response`
    unfoldable pub resolve_response : Invoice → ℕ → Intervention → ℕ → Result OutcomeRecord
    unfolding potency_of landed_on climb rescale response_ladder is_contact
    resolve_response r tick i recent_contacts = do
      raise_if (not (is_contact i)) Error.value_error
      potency ← potency_of i
      let odds = (profiles r.payer_archetype).response
      let decay = overdue_multiplier (days_overdue r (virtual_date tick))
      let ladder = rescale (response_ladder odds potency decay (fatigue recent_contacts))
      landed_on r tick i (climb (uniform seed r.invoice_id tick channel_response) 0 ladder)

    -- Whether the promise is kept, on a tick at or after its due tick.
    unfoldable pub adjudicate_promise : Invoice → ℕ → OutcomeRecord
    adjudicate_promise r tick =
        let kept =
          times (profiles r.payer_archetype).promise_kept
            (overdue_multiplier (days_overdue r (virtual_date tick))) in
        if ltb (uniform seed r.invoice_id tick channel_promise) kept
        then settled_full (outstanding_paise r)
            ("honoured the commitment: " ++ text_of r.promise_phrase)
        else without_money OutcomeKind.promise_broken
            ("the commitment passed unmet: " ++ text_of r.promise_phrase)

    -- `resolve_promise`
    unfoldable pub resolve_promise : Invoice → ℕ → Option OutcomeRecord
    unfolding adjudicate_promise
    resolve_promise r tick = elim r.promise_due_tick [
      | none ↦ none
      | some due ↦ if ltb tick due then none else some (adjudicate_promise r tick)
    ]
