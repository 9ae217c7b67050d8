-- ===== src/Policy/Rules/Routing.antt =====
-- src/recoup/policy/rules: the rules that reduce a proposal, and the two vetoes on scope.
use recoup_ai.Base.{
  Bool, true, false, ◌||◌, not, Option, none, some, leb, ltb, contains, if◌then◌else◌, is_some, ℕ,
}
use recoup_ai.Base.Errors.{Result, ok}
use recoup_ai.Domain.Enums.{Intervention, RecordState, state_eq}
use recoup_ai.Domain.Interventions.{is_contact}
use recoup_ai.Domain.Models.Proposals.{PolicyVerdict, Explanation}
use recoup_ai.Domain.Models.Invoices.{outstanding_paise}
use recoup_ai.Policy.Context.{Rule, RuleContext, veto, modify}
use recoup_ai.Policy.Sources.{merchant_policy}

-- `current is PAYMENT_LINK`, `is STOP`, `is ESCALATE_HUMAN`.
abbrev pub is_payment_link : Intervention → Bool
is_payment_link Intervention.payment_link = true
is_payment_link _ = false

abbrev pub is_stop : Intervention → Bool
is_stop Intervention.stop = true
is_stop _ = false

abbrev pub is_escalation : Intervention → Bool
is_escalation Intervention.escalate_human = true
is_escalation _ = false

-- `intervention in CONTACT_INTERVENTIONS`
unfoldable pub in_contact_interventions : Intervention → Bool
in_contact_interventions Intervention.soft_reminder = true
in_contact_interventions Intervention.payment_link = true
in_contact_interventions Intervention.phone_followup = true
in_contact_interventions _ = false

unfoldable pub nothing_outstanding_check : RuleContext → Result (Option PolicyVerdict)
nothing_outstanding_check ctx =
    if not (is_contact ctx.current) || ltb 0 (outstanding_paise ctx.subject)
    then ok none
    else veto ctx merchant_policy Explanation.no_outstanding_balance none

abbrev pub nothing_outstanding : Rule
nothing_outstanding = record { rule_id = "nothing-outstanding"; check = nothing_outstanding_check }

unfoldable pub is_visibly_disputed : RuleContext → Bool
is_visibly_disputed ctx =
    state_eq ctx.subject.state RecordState.disputed
    || is_some ctx.subject.free_text.dispute_description

unfoldable pub visible_dispute_check : RuleContext → Result (Option PolicyVerdict)
visible_dispute_check ctx =
    if not (is_visibly_disputed ctx) || is_escalation ctx.current
    then ok none
    else modify ctx Intervention.escalate_human merchant_policy Explanation.visible_dispute_to_human

abbrev pub visible_dispute : Rule
visible_dispute = record { rule_id = "visible-dispute"; check = visible_dispute_check }

unfoldable pub batch_cluster_suppression_check : RuleContext → Result (Option PolicyVerdict)
batch_cluster_suppression_check ctx =
    if not (contains ctx.subject.invoice_id ctx.suppressed_invoices)
    then ok none
    else if not (in_contact_interventions ctx.current)
    then ok none
    else if not ctx.group_escalation_opened
    then modify ctx Intervention.escalate_human merchant_policy Explanation.one_group_escalation
    else veto ctx merchant_policy Explanation.group_already_held none

abbrev pub batch_cluster_suppression : Rule
batch_cluster_suppression = record {
  rule_id = "batch-cluster-suppression";
  check = batch_cluster_suppression_check;
}

unfoldable pub invoice_link_cap_check : RuleContext → Result (Option PolicyVerdict)
invoice_link_cap_check ctx =
    if not (is_payment_link ctx.current)
      || ltb ctx.subject.contact_ledger.payment_links_sent ctx.config.max_links_per_invoice
    then ok none
    else modify ctx Intervention.soft_reminder merchant_policy Explanation.invoice_link_cap_spent

abbrev pub invoice_link_cap : Rule
invoice_link_cap = record { rule_id = "invoice-link-cap"; check = invoice_link_cap_check }

-- `budget is None or ctx.links_used < budget`
abbrev pub within_budget : Option ℕ → ℕ → Bool
within_budget none used = true
within_budget (some b) used = ltb used b

unfoldable pub link_budget_check : RuleContext → Result (Option PolicyVerdict)
link_budget_check ctx =
    if not (is_payment_link ctx.current) || within_budget ctx.config.link_budget ctx.links_used
    then ok none
    else modify ctx Intervention.soft_reminder merchant_policy Explanation.link_budget_spent

abbrev pub link_budget : Rule
link_budget = record { rule_id = "link-budget"; check = link_budget_check }

unfoldable pub high_value_escalation_check : RuleContext → Result (Option PolicyVerdict)
high_value_escalation_check ctx =
    if not (is_stop ctx.current)
      || leb (outstanding_paise ctx.subject) ctx.config.escalation_threshold_paise
    then ok none
    else modify ctx Intervention.escalate_human merchant_policy Explanation.needs_human_review

abbrev pub high_value_escalation : Rule
high_value_escalation = record {
  rule_id = "high-value-escalation";
  check = high_value_escalation_check;
}
