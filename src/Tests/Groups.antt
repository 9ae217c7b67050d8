-- ===== src/Tests/Groups.antt =====
-- A group of three bills before the batch gate, and the link budget.
use recoup_ai.Base.{
  map, arith, Bool, distinct_count, ◌≡◌, ◌≢◌, refl, List, [], ◌∷◌, some, none, true, false,
  contains, String,
}
use recoup_ai.Base.Errors.{Result, ok, err}
use recoup_ai.Domain.Enums.{Intervention, VerdictKind, state_eq}
use recoup_ai.Domain.Interventions.{is_contact}
use recoup_ai.Domain.Models.Invoices.{Invoice, to_snapshot}
use recoup_ai.Domain.Models.Proposals.{PolicyVerdict, Explanation}
use recoup_ai.Ledger.Clock.{hour_of_day}
use recoup_ai.Ledger.Records.{Ledger, find, get, text_le}
use recoup_ai.Policy.Context.{
  payer_contact_ticks, sort_ticks, contact_ticks_of, modify, contact_intensity,
}
use recoup_ai.Policy.Sources
use recoup_ai.Policy.Rules.{
  in_contact_interventions, in_contact_hours, qualifying, nothing_outstanding_check,
  visible_dispute_check, is_visibly_disputed, batch_cluster_suppression_check,
  rbi_contact_hours_check, trai_promotional_window_check, trai_message_category_check,
  payer_contact_frequency_check, payer_contact_spacing_check, invoice_link_cap_check,
  link_budget_check, high_value_escalation_check, has_promotional_draft,
}
use recoup_ai.Policy.Engine.{PolicyEngine, account, adjudicate, firing}
use recoup_ai.Policy.Contracts.Budgets.{fresh}
use recoup_ai.Policy.Batch.{
  pattern_fields_are_consistent, validate_insight, BatchInsight, BatchPolicyVerdict,
  is_inconsistent, is_unsafe, approved_suppression_is_an_escalation, get_all, expected_ids,
  same_set, group_approval, judge_group, judge_records, judge_named, adjudicate_batch,
  arm_batch_suppression,
}
use recoup_ai.Policy.Batch.Scope.{IsWholeGroup, adjudicate_batch-IsWholeGroup}
use recoup_ai.Policy.Batch.Arming.{adjudicate_batch_answers, armed_silent}
use recoup_ai.Proposers.Portfolio.{
  analyze, group_all, append_to, group_of, is_candidate, best_insight, least, group_insight,
}
use recoup_ai.Proposers.Portfolio.Verdict.{analyze-adjudicate_batch}
use recoup_ai.Executor.Budget.{
  LinkRequest, LinkAllocator, Refusal, new_allocator, is_permitted, may_spend, spend,
  refusal_reason,
}
use recoup_ai.Executor.Budget.Fairness.{
  Spent, unspent, then_spend, IsFair, Spent-new-IsFair, refusal_reason_lem,
}
use recoup_ai.Tests.Data.{bill, engine, link_proposal}

abbrev branch : String → String → Invoice
branch k payer = record (bill k 250000) { payer_id = payer }

abbrev branches : Ledger
branches = record {
  records = branch "inv_1" "payer_1" ∷ branch "inv_2" "payer_2" ∷ branch "inv_3" "payer_3" ∷ [];
}

abbrev insight : BatchInsight
insight = record {
  pattern_found = true;
  diagnosis = "one process event";
  parent_group_id = some "group_1";
  invoice_ids = "inv_1" ∷ "inv_2" ∷ "inv_3" ∷ [];
  confidence = record { numerator = 7; denominator = 10 };
  reasoning = "one group";
  suppression_recommended = true;
}

abbrev whole_group : BatchPolicyVerdict
whole_group = group_approval "group_1" (expected_ids branches "group_1")

insight_approved : adjudicate_batch engine insight branches ≡ ok whole_group
unfolding adjudicate_batch judge_named judge_records judge_group get_all get find distinct_count
    same_set expected_ids approved_suppression_is_an_escalation is_unsafe text_le
insight_approved = refl

adjudicate_batch-IsWholeGroup_example : IsWholeGroup engine.config insight branches whole_group
adjudicate_batch-IsWholeGroup_example =
    adjudicate_batch-IsWholeGroup engine insight branches whole_group insight_approved refl

adjudicate_batch_answers_example :
    (v : BatchPolicyVerdict) × (adjudicate_batch engine insight branches ≡ ok v)
adjudicate_batch_answers_example =
    adjudicate_batch_answers engine insight branches (unfold is_inconsistent in refl)

abbrev armed : PolicyEngine
armed = (arm_batch_suppression engine insight whole_group).1

-- The one escalation of the group, in place of the link proposed for its second bill.
abbrev escalation : PolicyVerdict
escalation = record {
  verdict = VerdictKind.modified;
  original = Intervention.payment_link;
  final = some Intervention.escalate_human;
  rule_id = some "batch-cluster-suppression";
  rule_source = some Sources.merchant_policy;
  explanation = Explanation.one_group_escalation;
  defer_to_tick = none;
}

link_escalated :
    adjudicate armed (branch "inv_2" "payer_2") link_proposal 1 branches
    ≡ ok (escalation, account armed (branch "inv_2" "payer_2") Intervention.escalate_human)
unfolding adjudicate nothing_outstanding_check visible_dispute_check is_visibly_disputed
    batch_cluster_suppression_check rbi_contact_hours_check in_contact_hours hour_of_day
    trai_promotional_window_check trai_message_category_check payer_contact_frequency_check
    payer_contact_spacing_check invoice_link_cap_check link_budget_check high_value_escalation_check
    is_contact qualifying payer_contact_ticks state_eq has_promotional_draft sort_ticks
    contact_ticks_of arm_batch_suppression modify contact_intensity firing in_contact_interventions
link_escalated = refl

armed_silent_example : is_contact Intervention.escalate_human ≡ false
armed_silent_example =
    armed_silent engine armed (account armed (branch "inv_2" "payer_2") Intervention.escalate_human)
      insight branches branches whole_group (branch "inv_2" "payer_2") link_proposal 1 escalation
      Intervention.escalate_human refl insight_approved refl fresh refl link_escalated refl

abbrev demand : List LinkRequest
demand =
    record { invoice_id = "inv_1"; tick = 4; outstanding_paise = 900 }
    ∷ record { invoice_id = "inv_2"; tick = 3; outstanding_paise = 500 }
    ∷ record { invoice_id = "inv_1"; tick = 2; outstanding_paise = 950 }
    ∷ []

abbrev after_one : LinkAllocator
after_one = (spend (new_allocator demand 1) "inv_1").1

one_spend : Spent (new_allocator demand 1) after_one
one_spend = then_spend "inv_1" unspent

Spent-new-IsFair_example : IsFair after_one
Spent-new-IsFair_example = Spent-new-IsFair demand 1 one_spend

refusal_reason_lem_example :
    (may_spend after_one "inv_2" ≡ false
      → refusal_reason after_one "inv_2" ≢ Refusal.budget_exhausted)
    × (is_permitted after_one "inv_2" ≡ true
        → contains "inv_2" after_one.granted ≡ false
        → (spend after_one "inv_2").0 ≡ true)
refusal_reason_lem_example = refusal_reason_lem demand 1 "inv_2" one_spend

analyze-adjudicate_batch_example :
    (i : BatchInsight) × (analyze (map (λ r. to_snapshot r 0 0) branches.records) ≡ ok i)
    × (v : BatchPolicyVerdict) × (adjudicate_batch engine i branches ≡ ok v)
    × (v.suppression_approved ≡ i.pattern_found)
analyze-adjudicate_batch_example =
    analyze-adjudicate_batch branches 0 0 engine (omega arith) (omega arith)
      (refl, (refl, (refl, tt))) (omega arith)

abbrev finds_pattern : Result BatchInsight → Bool
finds_pattern (ok i) = i.pattern_found
finds_pattern (err e) = false

-- The three bills are a pattern.
branches_recommended :
    finds_pattern (analyze (map (λ r. to_snapshot r 0 0) branches.records)) ≡ true
unfolding analyze validate_insight group_all append_to group_of is_candidate best_insight least
    group_insight to_snapshot pattern_fields_are_consistent is_inconsistent distinct_count text_le
branches_recommended = refl
