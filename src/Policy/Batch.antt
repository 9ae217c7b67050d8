-- ===== src/Policy/Batch.antt =====
-- src/recoup/reasoner/schemas.py, and `adjudicate_batch` and `arm_batch_suppression` of
-- src/recoup/policy/engine.py: a recommendation about a whole group of invoices. A frozen set of
-- ids is the list that it was made of; only membership in it is read.
pub mod Scope
pub mod Arming
use recoup_ai.Base.{
  ℕ, ◌+◌, ◌≡◌, Bool, true, false, ◌&&◌, ◌||◌, not, Option, none, some, List, [], ◌∷◌, String, ltb,
  ◌==◌, ◌=s=◌, if◌then◌else◌, length, filter, any, all, contains, map, sort_by, distinct_count,
}
use recoup_ai.Base.Errors.{Result, ok, err, value_error, ◌>>=◌, ◌>>◌, raise_if}
use recoup_ai.Domain.Enums.{Intervention, VerdictKind}
use recoup_ai.Domain.Models.Invoices.{Invoice, outstanding_paise}
use recoup_ai.Domain.Models.Proposals.{Fraction, RuleSource}
use recoup_ai.Ledger.Records.{Ledger, get, group_records, in_group, text_le}
use recoup_ai.Policy.Context.{MerchantPolicy}
use recoup_ai.Policy.Sources
use recoup_ai.Policy.Rules.{is_escalation}
use recoup_ai.Policy.Engine.{PolicyEngine}

pub record BatchInsight : Type 0 where
  pub pattern_found : Bool
  pub diagnosis : String
  pub parent_group_id : Option String
  pub invoice_ids : List String
  pub confidence : Fraction
  pub reasoning : String
  pub suppression_recommended : Bool

-- One constructor for each text, over the number that it shows.
pub data BatchExplanation : Type 0 where
  none_proposed no_group unknown_invoice other_group settled_invoice selected_subset :
      BatchExplanation
  too_few_invoices too_few_payers : ℕ → BatchExplanation
  complete_group : BatchExplanation

pub record BatchPolicyVerdict : Type 0 where
  pub verdict : VerdictKind
  pub rule_id : Option String
  pub final_intervention : Option Intervention
  pub suppression_approved : Bool
  pub parent_group_id : Option String
  pub invoice_ids : List String
  pub rule_source : Option RuleSource
  pub explanation : BatchExplanation

-- `list` is empty, or an optional value absent.
abbrev pub is_nil {ℓ} : {A : Type ℓ} → List A → Bool
is_nil [] = true
is_nil (x ∷ xs) = false

abbrev is_none {ℓ} : {A : Type ℓ} → Option A → Bool
is_none none = true
is_none (some x) = false

abbrev pub has_repeats : List String → Bool
has_repeats [] = false
has_repeats (x ∷ xs) = contains x xs || has_repeats xs

-- `pattern_fields_are_consistent`: the tests under which the validator raises.
unfoldable pub is_inconsistent : BatchInsight → Bool
is_inconsistent i =
    has_repeats i.invoice_ids
    || (if i.pattern_found
        then is_none i.parent_group_id || is_nil i.invoice_ids
        else (not (is_none i.parent_group_id) || not (is_nil i.invoice_ids))
          || i.suppression_recommended)

unfoldable pub pattern_fields_are_consistent : BatchInsight → Result BatchInsight
pattern_fields_are_consistent i = do raise_if (is_inconsistent i) value_error; ok i

-- `Field(max_length=126)` on `invoice_ids`
abbrev pub max_insight_invoices : ℕ
max_insight_invoices = 126

-- The constructor's validation: the bounds of the fields, and then the validator.
unfoldable pub validate_insight : BatchInsight → Result BatchInsight
unfolding pattern_fields_are_consistent
validate_insight i = do
  raise_if
      (ltb max_insight_invoices (length i.invoice_ids)
        || ltb i.confidence.denominator i.confidence.numerator)
      value_error
  pattern_fields_are_consistent i

abbrev is_approved : VerdictKind → Bool
is_approved VerdictKind.approved = true
is_approved _ = false

abbrev escalates : Option Intervention → Bool
escalates none = false
escalates (some i) = is_escalation i

-- `approved_suppression_is_an_escalation`: the tests under which the validator raises.
unfoldable pub is_unsafe : BatchPolicyVerdict → Bool
is_unsafe v =
    if v.suppression_approved
    then not (is_approved v.verdict)
      || (not (escalates v.final_intervention)
          || (is_none v.parent_group_id || is_nil v.invoice_ids))
    else not (is_none v.final_intervention)

unfoldable pub approved_suppression_is_an_escalation :
    BatchPolicyVerdict → Result BatchPolicyVerdict
approved_suppression_is_an_escalation v = do raise_if (is_unsafe v) value_error; ok v

abbrev pub batch_policy_rule_id : String
batch_policy_rule_id = "batch-cluster-suppression"

-- `_batch_veto`
unfoldable pub batch_veto : BatchInsight → BatchExplanation → Result BatchPolicyVerdict
unfolding approved_suppression_is_an_escalation
batch_veto i explanation = approved_suppression_is_an_escalation (record {
  verdict = VerdictKind.vetoed;
  rule_id = some batch_policy_rule_id;
  final_intervention = none;
  suppression_approved = false;
  parent_group_id = i.parent_group_id;
  invoice_ids = i.invoice_ids;
  rule_source = some Sources.merchant_policy;
  explanation = explanation;
})

-- `[ledger.get(invoice_id) for invoice_id in invoice_ids]`
unfoldable pub get_all : Ledger → List String → Result (List Invoice)
get_all l [] = ok []
get_all l (k ∷ ks) = do r ← get l k; rs ← get_all l ks; ok (r ∷ rs)

-- `expected_ids`
unfoldable pub expected_ids : Ledger → String → List String
expected_ids l g =
    map (λ r. r.invoice_id)
      (filter (λ r. in_group g r.parent_group_id && ltb 0 (outstanding_paise r)) l.records)

-- `set(xs) == set(ys)`
unfoldable pub same_set : List String → List String → Bool
same_set xs ys = all (λ x. contains x ys) xs && all (λ y. contains y xs) ys

abbrev pub group_approval : String → List String → BatchPolicyVerdict
group_approval g ids = record {
  verdict = VerdictKind.approved;
  rule_id = some batch_policy_rule_id;
  final_intervention = some Intervention.escalate_human;
  suppression_approved = true;
  parent_group_id = some g;
  invoice_ids = sort_by text_le ids;
  rule_source = some Sources.merchant_policy;
  explanation = BatchExplanation.complete_group;
}

-- The tests on the named records, in order.
unfoldable pub judge_group :
    MerchantPolicy → BatchInsight → Ledger → String → List Invoice → Result BatchPolicyVerdict
unfolding batch_veto approved_suppression_is_an_escalation
judge_group config i l g proposed =
    if ltb (length proposed) config.min_batch_group_invoices
    then batch_veto i (BatchExplanation.too_few_invoices config.min_batch_group_invoices)
    else if any (λ r. not (in_group g r.parent_group_id)) proposed
    then batch_veto i BatchExplanation.other_group
    else if ltb (distinct_count (map (λ r. r.payer_id) proposed)) config.min_batch_group_payers
    then batch_veto i (BatchExplanation.too_few_payers config.min_batch_group_payers)
    else if any (λ r. not (ltb 0 (outstanding_paise r))) proposed
    then batch_veto i BatchExplanation.settled_invoice
    else if not (same_set i.invoice_ids (expected_ids l g))
    then batch_veto i BatchExplanation.selected_subset
    else approved_suppression_is_an_escalation (group_approval g (expected_ids l g))

-- `try: proposed = [...] except KeyError`
unfoldable pub judge_records :
    MerchantPolicy
    → BatchInsight
    → Ledger
    → String
    → Result (List Invoice)
    → Result BatchPolicyVerdict
unfolding judge_group batch_veto
judge_records config i l g (err e) = batch_veto i BatchExplanation.unknown_invoice
judge_records config i l g (ok proposed) = judge_group config i l g proposed

unfoldable pub judge_named :
    MerchantPolicy → BatchInsight → Ledger → Option String → Result BatchPolicyVerdict
unfolding judge_records batch_veto get_all
judge_named config i l none = batch_veto i BatchExplanation.no_group
judge_named config i l (some g) = judge_records config i l g (get_all l i.invoice_ids)

abbrev pub nothing_suppressed : BatchPolicyVerdict
nothing_suppressed = record {
  verdict = VerdictKind.approved;
  rule_id = none;
  final_intervention = none;
  suppression_approved = false;
  parent_group_id = none;
  invoice_ids = [];
  rule_source = none;
  explanation = BatchExplanation.none_proposed;
}

unfoldable pub adjudicate_batch : PolicyEngine → BatchInsight → Ledger → Result BatchPolicyVerdict
unfolding judge_named approved_suppression_is_an_escalation
adjudicate_batch e i l =
    if not i.pattern_found || not i.suppression_recommended
    then approved_suppression_is_an_escalation nothing_suppressed
    else judge_named e.config i l i.parent_group_id

-- `verdict.verdict is VerdictKind.VETOED`
abbrev is_vetoed : VerdictKind → Bool
is_vetoed VerdictKind.vetoed = true
is_vetoed _ = false

-- The answer, and the engine after the call.
unfoldable pub arm_batch_suppression :
    PolicyEngine → BatchInsight → BatchPolicyVerdict → Bool × PolicyEngine
arm_batch_suppression e i v =
    if not v.suppression_approved || is_vetoed v.verdict then (false, e) else (
      not (is_nil i.invoice_ids),
      record e { suppressed_invoices = i.invoice_ids; group_escalation_opened = false },
    )
