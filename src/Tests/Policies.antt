-- ===== src/Tests/Policies.antt =====
-- One proposal before the policy engine.
use recoup_ai.Base.{◌+◌, ◌≤◌, ℕ, ◌≡◌, ◌<◌, refl, none, true, false, arith}
use recoup_ai.Base.Errors.{ok}
use recoup_ai.Domain.Enums.{Intervention, state_eq}
use recoup_ai.Domain.Models.Invoices.{Invoice}
use recoup_ai.Domain.Models.Proposals.{PolicyVerdict}
use recoup_ai.Ledger.Records.{init}
use recoup_ai.Ledger.Clock.{hour_of_day}
use recoup_ai.Domain.Interventions.{is_contact}
use recoup_ai.Policy.Context.{payer_contact_ticks, sort_ticks, contact_ticks_of}
use recoup_ai.Policy.Rules.{
  has_promotional_draft, in_contact_hours, next_contact_tick, qualifying, nothing_outstanding_check,
  visible_dispute_check, is_visibly_disputed, batch_cluster_suppression_check,
  rbi_contact_hours_check, trai_promotional_window_check, trai_message_category_check,
  payer_contact_frequency_check, payer_contact_spacing_check, invoice_link_cap_check,
  link_budget_check, high_value_escalation_check,
}
use recoup_ai.Policy.Engine.{PolicyEngine, context, account, approval, adjudicate}
use recoup_ai.Policy.Contracts.Walks.{Adjudication, adjudicate_answers}
use recoup_ai.Policy.Contracts.Cadence.{next_contact_tick_lem}
use recoup_ai.Policy.Contracts.Compliance.{
  rule_guarantees, rule_order-EnforceAll, IsCompliant, adjudicate-IsCompliant,
}
use recoup_ai.Policy.Contracts.Budgets.{
  Session, fresh, adjudicated, links_approved, links_of_verdict, Session-IsWithinBudget,
}
use recoup_ai.Tests.Data.{bill, engine, link_proposal, opening_ledger}

abbrev first : Invoice
first = bill "inv_1" 250000

-- The engine lets the link pass at 14:00 of the first day.
abbrev passed_verdict : PolicyVerdict
passed_verdict = approval Intervention.payment_link Intervention.payment_link none

abbrev spent : PolicyEngine
spent = account engine first Intervention.payment_link

link_passes : adjudicate engine first link_proposal 1 opening_ledger ≡ ok (passed_verdict, spent)
unfolding adjudicate nothing_outstanding_check visible_dispute_check is_visibly_disputed
    batch_cluster_suppression_check rbi_contact_hours_check in_contact_hours hour_of_day
    trai_promotional_window_check trai_message_category_check payer_contact_frequency_check
    payer_contact_spacing_check invoice_link_cap_check link_budget_check high_value_escalation_check
    is_contact qualifying payer_contact_ticks init state_eq has_promotional_draft sort_ticks
    contact_ticks_of
link_passes = refl

adjudicate-IsCompliant_example :
    IsCompliant (context engine first link_proposal 1 opening_ledger) Intervention.payment_link
adjudicate-IsCompliant_example =
    adjudicate-IsCompliant engine first link_proposal 1 opening_ledger passed_verdict spent
      Intervention.payment_link refl link_passes (unfold approval in refl)

abbrev one_link : Session engine spent
one_link = adjudicated first link_proposal 1 opening_ledger fresh link_passes

Session-IsWithinBudget_example : engine.links_used + links_approved one_link ≤ 1
Session-IsWithinBudget_example = Session-IsWithinBudget one_link 1 refl refl (omega arith)

one_link_counted : links_approved one_link ≡ 1
unfolding links_approved links_of_verdict approval
one_link_counted = refl

adjudicate_answers_example :
    Adjudication rule_guarantees engine first
      (context engine first link_proposal 1 opening_ledger)
      (adjudicate engine first link_proposal 1 opening_ledger)
adjudicate_answers_example =
    adjudicate_answers engine rule_guarantees first link_proposal 1 opening_ledger
      rule_order-EnforceAll

next_contact_tick_lem_example :
    (2 < next_contact_tick 2)
    × (in_contact_hours (next_contact_tick 2) ≡ true)
    × ((m : ℕ) → 2 < m → m < next_contact_tick 2 → in_contact_hours m ≡ false)
next_contact_tick_lem_example = next_contact_tick_lem 2
