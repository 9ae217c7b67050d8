-- ===== src/Policy/Contracts/Quiet.antt =====
-- The rules that judge a proposal by the record, the run's links and the group: each keeps the
-- contract, with its guarantee.
use recoup_ai.Base.{◌≤◌, ◌<◌, ◌≡◌, refl, true, false, ◌||◌, not, none, arith, contains, ltb, leb}
use recoup_ai.Domain.Enums.{Intervention}
use recoup_ai.Domain.Interventions.{is_contact}
use recoup_ai.Domain.Models.Invoices.{outstanding_paise}
use recoup_ai.Policy.Context.{RuleContext}
use recoup_ai.Policy.Rules.{
  nothing_outstanding, nothing_outstanding_check, visible_dispute, visible_dispute_check,
  is_visibly_disputed, batch_cluster_suppression, batch_cluster_suppression_check,
  in_contact_interventions, invoice_link_cap, invoice_link_cap_check, link_budget,
  link_budget_check, within_budget, is_payment_link, is_stop, is_escalation, high_value_escalation,
  high_value_escalation_check,
}
use recoup_ai.Policy.Contracts.{
  reduces, reduces-is_contact, Enforces, Answer-if, Answer-branch, Answer-veto, Answer-modify,
}

abbrev pub HasBalance : RuleContext → Type 0
HasBalance ctx = is_contact ctx.current ≡ true → 0 < outstanding_paise ctx.subject

pub nothing_outstanding-Enforces : Enforces nothing_outstanding HasBalance
unfolding nothing_outstanding_check
nothing_outstanding-Enforces = record {
  answers = λ ctx.
      Answer-if ctx (not (is_contact ctx.current) || ltb 0 (outstanding_paise ctx.subject))
        (λ h c. ground arith) (λ h. Answer-veto ctx _ _ none refl);
  stable = λ ctx c r p k. p (reduces-is_contact ctx.current c r k);
}

abbrev pub DisputeToHuman : RuleContext → Type 0
DisputeToHuman ctx = is_visibly_disputed ctx ≡ true → ctx.current ≡ Intervention.escalate_human

escalation_reduces : (c : Intervention) → reduces c Intervention.escalate_human ≡ true
unfolding reduces
escalation_reduces c = ground arith

from_escalation :
    (a c : Intervention)
    → a ≡ Intervention.escalate_human
    → reduces a c ≡ true
    → c ≡ Intervention.escalate_human
unfolding reduces
from_escalation a c e h = ground arith

pub visible_dispute-Enforces : Enforces visible_dispute DisputeToHuman
unfolding visible_dispute_check is_visibly_disputed
visible_dispute-Enforces = record {
  answers = λ ctx.
      Answer-if ctx (not (is_visibly_disputed ctx) || is_escalation ctx.current)
        (λ h c. ground arith)
        (λ h.
          Answer-modify ctx Intervention.escalate_human _ _ (escalation_reduces ctx.current)
            (λ _. refl));
  stable = λ ctx c r p d. from_escalation ctx.current c (p d) r;
}

abbrev pub NotSuppressed : RuleContext → Type 0
NotSuppressed ctx =
    is_contact ctx.current ≡ true → contains ctx.subject.invoice_id ctx.suppressed_invoices ≡ false

contact_interventions_lem : (c : Intervention) → in_contact_interventions c ≡ is_contact c
unfolding in_contact_interventions is_contact
contact_interventions_lem c = ground arith

escalation_no_contact : is_contact Intervention.escalate_human ≡ false
unfolding is_contact
escalation_no_contact = refl

pub batch_cluster_suppression-Enforces : Enforces batch_cluster_suppression NotSuppressed
unfolding batch_cluster_suppression_check
batch_cluster_suppression-Enforces = record {
  answers = λ ctx.
      Answer-if ctx (not (contains ctx.subject.invoice_id ctx.suppressed_invoices))
        (λ h c. ground arith)
        (λ h.
          Answer-if ctx (not (in_contact_interventions ctx.current))
            (λ k c. ground (arith, contact_interventions_lem ctx.current))
            (λ k.
              Answer-branch ctx (not ctx.group_escalation_opened)
                (λ unopened.
                  Answer-modify ctx Intervention.escalate_human _ _ (escalation_reduces ctx.current)
                    (λ c. ground (arith, escalation_no_contact)))
                (λ opened. Answer-veto ctx _ _ none refl)));
  stable = λ ctx c r p k. p (reduces-is_contact ctx.current c r k);
}

-- What holds of a payment link is trivial of the reminder that replaces it.
from_link :
    (a c : Intervention)
    → reduces a c ≡ true
    → c ≡ Intervention.payment_link
    → a ≡ Intervention.payment_link
unfolding reduces
from_link a c h e = ground arith

from_stop :
    (a c : Intervention) → reduces a c ≡ true → c ≡ Intervention.stop → a ≡ Intervention.stop
unfolding reduces
from_stop a c h e = ground arith

abbrev pub WithinLinkCap : RuleContext → Type 0
WithinLinkCap ctx =
    ctx.current ≡ Intervention.payment_link
    → ctx.subject.contact_ledger.payment_links_sent < ctx.config.max_links_per_invoice

pub invoice_link_cap-Enforces : Enforces invoice_link_cap WithinLinkCap
unfolding invoice_link_cap_check reduces
invoice_link_cap-Enforces = record {
  answers = λ ctx.
      Answer-if ctx
        (not (is_payment_link ctx.current)
          || ltb ctx.subject.contact_ledger.payment_links_sent ctx.config.max_links_per_invoice)
        (λ h e. ground arith)
        (λ h. Answer-modify ctx Intervention.soft_reminder _ _ (ground arith) (λ e. cc e));
  stable = λ ctx c r p e. p (from_link ctx.current c r e);
}

abbrev pub WithinBudget : RuleContext → Type 0
WithinBudget ctx =
    ctx.current ≡ Intervention.payment_link
    → within_budget ctx.config.link_budget ctx.links_used ≡ true

pub link_budget-Enforces : Enforces link_budget WithinBudget
unfolding link_budget_check reduces
link_budget-Enforces = record {
  answers = λ ctx.
      Answer-if ctx
        (not (is_payment_link ctx.current) || within_budget ctx.config.link_budget ctx.links_used)
        (λ h e. ground arith)
        (λ h. Answer-modify ctx Intervention.soft_reminder _ _ (ground arith) (λ e. cc e));
  stable = λ ctx c r p e. p (from_link ctx.current c r e);
}

abbrev pub StopsWithinThreshold : RuleContext → Type 0
StopsWithinThreshold ctx =
    ctx.current ≡ Intervention.stop
    → outstanding_paise ctx.subject ≤ ctx.config.escalation_threshold_paise

pub high_value_escalation-Enforces : Enforces high_value_escalation StopsWithinThreshold
unfolding high_value_escalation_check
high_value_escalation-Enforces = record {
  answers = λ ctx.
      Answer-if ctx
        (not (is_stop ctx.current)
          || leb (outstanding_paise ctx.subject) ctx.config.escalation_threshold_paise)
        (λ h e. ground arith)
        (λ h.
          Answer-modify ctx Intervention.escalate_human _ _ (escalation_reduces ctx.current)
            (λ e. cc e));
  stable = λ ctx c r p e. p (from_stop ctx.current c r e);
}
