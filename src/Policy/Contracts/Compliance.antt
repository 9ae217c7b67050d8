-- ===== src/Policy/Contracts/Compliance.antt =====
-- What the engine with its fixed rule order lets pass: the guarantees of all eleven rules hold of
-- the final intervention, whatever the rules did to the proposal on the way.
use recoup_ai.Base.{
  ◌-◌, ℕ, ◌+◌, ◌≤◌, ◌<◌, ◌≡◌, true, false, some, List, [], ◌∷◌, arith, All, contains, Bool-cases,
  inl, inr,
}
use mathlib.Core.Path.{subst}
use recoup_ai.Base.Errors.{Result, ok}
use recoup_ai.Domain.Enums.{Intervention, MessageCategory}
use recoup_ai.Domain.Interventions.{spec, is_contact}
use recoup_ai.Domain.Models.Proposals.{PolicyVerdict, Proposal, DraftedMessage}
use recoup_ai.Domain.Models.Invoices.{Invoice, outstanding_paise}
use recoup_ai.Ledger.Clock.{hour_of_day}
use recoup_ai.Ledger.Records.{Ledger, payer_contacts_since}
use recoup_ai.Policy.Context.{RuleContext, contact_ticks_of, payer_contacts_in_window}
use recoup_ai.Policy.Rules.{
  rule_order, is_visibly_disputed, has_promotional_draft, drafted, within_budget,
}
use recoup_ai.Policy.Engine.{PolicyEngine, context, adjudicate}
use recoup_ai.Policy.Contracts.{reduces, reduced_to}
use recoup_ai.Policy.Contracts.Quiet.{
  HasBalance, nothing_outstanding-Enforces, DisputeToHuman, visible_dispute-Enforces, NotSuppressed,
  batch_cluster_suppression-Enforces, WithinLinkCap, invoice_link_cap-Enforces, WithinBudget,
  link_budget-Enforces, StopsWithinThreshold, high_value_escalation-Enforces,
}
use recoup_ai.Policy.Contracts.Cadence.{
  WithinHours, rbi_contact_hours-Enforces, PromotionalInBand, trai_promotional_window-Enforces,
  CategoryFits, trai_message_category-Enforces,
}
use recoup_ai.Policy.Contracts.Windows.{
  BelowFrequencyCap, payer_contact_frequency-Enforces, SpacedOut, payer_contact_spacing-Enforces,
}
use recoup_ai.Policy.Contracts.Walks.{
  EnforceAll, none_left, rule_then, Guarantees, Adjudication, refuses, approves, adjudicate_answers,
}

abbrev pub rule_guarantees : List (RuleContext → Type 0)
rule_guarantees =
    HasBalance ∷ DisputeToHuman ∷ NotSuppressed ∷ WithinHours ∷ PromotionalInBand ∷ CategoryFits
    ∷ BelowFrequencyCap ∷ SpacedOut ∷ WithinLinkCap ∷ WithinBudget ∷ StopsWithinThreshold ∷ []

pub rule_order-EnforceAll : EnforceAll rule_order rule_guarantees
rule_order-EnforceAll = rule_then nothing_outstanding-Enforces (
    rule_then visible_dispute-Enforces (
      rule_then batch_cluster_suppression-Enforces (
        rule_then rbi_contact_hours-Enforces (
          rule_then trai_promotional_window-Enforces (
            rule_then trai_message_category-Enforces (
              rule_then payer_contact_frequency-Enforces (
                rule_then payer_contact_spacing-Enforces (
                  rule_then invoice_link_cap-Enforces (
                    rule_then link_budget-Enforces
                      (rule_then high_value_escalation-Enforces none_left))))))))))

-- What must hold for a message to reach the payer.
pub record ContactAllowed (ctx : RuleContext) (c : Intervention) : Type 0 where
  pub owed : 0 < outstanding_paise ctx.subject
  pub undisputed : is_visibly_disputed ctx ≡ false
  pub unsuppressed : contains ctx.subject.invoice_id ctx.suppressed_invoices ≡ false
  pub in_hours : (8 ≤ hour_of_day ctx.tick) × (hour_of_day ctx.tick ≤ 19)
  pub promotional_band :
      has_promotional_draft ctx ≡ true → (10 ≤ hour_of_day ctx.tick) × (hour_of_day ctx.tick < 21)
  pub below_cap :
      payer_contacts_since ctx.ledger ctx.subject.payer_id
        (ctx.tick - ctx.config.contact_window_ticks)
      < ctx.config.max_contacts_per_payer
  pub spaced :
      All
        (λ t. t + ctx.config.min_contact_spacing_ticks ≤ ctx.tick)
        (contact_ticks_of ctx.subject.payer_id ctx.ledger.records)

pub record IsCompliant (ctx : RuleContext) (c : Intervention) : Type 0 where
  pub only_reduced : reduces ctx.original c ≡ true
  pub contact : is_contact c ≡ true → ContactAllowed ctx c
  pub dispute : is_visibly_disputed ctx ≡ true → c ≡ Intervention.escalate_human
  pub category :
      (d : DraftedMessage) (expected : MessageCategory)
      → drafted ctx ≡ some d
      → (spec c).correct_category ≡ some expected
      → d.category ≡ expected
  pub link_cap :
      c ≡ Intervention.payment_link
      → ctx.subject.contact_ledger.payment_links_sent < ctx.config.max_links_per_invoice
  pub link_budget :
      c ≡ Intervention.payment_link → within_budget ctx.config.link_budget ctx.links_used ≡ true
  pub stop_threshold :
      c ≡ Intervention.stop → outstanding_paise ctx.subject ≤ ctx.config.escalation_threshold_paise

escalation_silent : (c : Intervention) → c ≡ Intervention.escalate_human → is_contact c ≡ false
unfolding is_contact
escalation_silent c e = ground arith

undisputed_contact :
    (ctx : RuleContext) (c : Intervention)
    → DisputeToHuman (reduced_to ctx c)
    → is_contact c ≡ true
    → is_visibly_disputed ctx ≡ false
unfolding is_visibly_disputed
undisputed_contact ctx c dispute k = elim (Bool-cases (is_visibly_disputed ctx)) [
  | inl visible ↦ cc (escalation_silent c (dispute visible))
  | inr hidden ↦ hidden
]

pub Guarantees-IsCompliant :
    (ctx : RuleContext) (c : Intervention)
    → reduces ctx.original c ≡ true
    → Guarantees rule_guarantees (reduced_to ctx c)
    → IsCompliant ctx c
unfolding payer_contacts_in_window is_visibly_disputed has_promotional_draft
Guarantees-IsCompliant ctx c r
      (
        balance,
        (
          dispute,
          (suppressed, (hours, (band, (fits, (cap, (spaced, (links, (budget, (stops, _))))))))),
        ),
      ) =
    record {
      only_reduced = r;
      contact = λ k. record {
        owed = balance k;
        undisputed = undisputed_contact ctx c dispute k;
        unsuppressed = suppressed k;
        in_hours = hours k;
        promotional_band = band k;
        below_cap = cap k;
        spaced = spaced k;
      };
      dispute = dispute;
      category = fits;
      link_cap = links;
      link_budget = budget;
      stop_threshold = stops;
    }

Adjudication-IsCompliant :
    (e : PolicyEngine) (r : Invoice) (ctx : RuleContext) (m : Result (PolicyVerdict × PolicyEngine))
    (v : PolicyVerdict) (e' : PolicyEngine) (c : Intervention)
    → Adjudication rule_guarantees e r ctx m
    → m ≡ ok (v, e')
    → v.final ≡ some c
    → IsCompliant ctx c
Adjudication-IsCompliant e r ctx m v e' c (refuses w h) p q =
    let same : w.final ≡ v.final = ground arith in cc (h.nothing_final, same)
Adjudication-IsCompliant e r ctx m v e' c (approves w d n f o z s g) p q =
    let same : w.final ≡ v.final = ground arith in
    let same_final : d ≡ c = ground (arith, f, same, q) in
    subst (IsCompliant ctx) same_final (Guarantees-IsCompliant ctx d s g)

module _ (e : PolicyEngine) (r : Invoice) (p : Proposal) (tick : ℕ) (ledger : Ledger) where
  pub adjudicate_answers_in_order :
      e.rules ≡ rule_order
      → Adjudication rule_guarantees e r (context e r p tick ledger) (adjudicate e r p tick ledger)
  adjudicate_answers_in_order h =
      adjudicate_answers e rule_guarantees r p tick ledger (rw h rule_order-EnforceAll)

  -- Whatever the engine with the fixed rule order lets pass is a reduction of the proposal that
  -- every rule accepts: a visible dispute goes to a human, whatever was proposed; a contact goes only
  -- to a payer who owes something, on an undisputed and unsuppressed invoice, between 08:00 and
  -- 19:00, below the payer's frequency cap, spaced from every earlier contact to that payer, and in
  -- the promotional band if its draft is promotional; a draft carries the category of the final
  -- intervention; a link is within the invoice's cap and the run's budget; and a STOP abandons no
  -- more than the threshold.
  pub adjudicate-IsCompliant :
      (v : PolicyVerdict) (e' : PolicyEngine) (c : Intervention)
      → e.rules ≡ rule_order
      → adjudicate e r p tick ledger ≡ ok (v, e')
      → v.final ≡ some c
      → IsCompliant (context e r p tick ledger) c
  adjudicate-IsCompliant v e' c h =
      Adjudication-IsCompliant e r (context e r p tick ledger) (adjudicate e r p tick ledger) v e' c
        (adjudicate_answers_in_order h)
