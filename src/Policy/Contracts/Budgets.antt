-- ===== src/Policy/Contracts/Budgets.antt =====
-- What a run's sequence of adjudications keeps true of the engine's own state.
use recoup_ai.Base.{ℕ, ◌+◌, ◌≤◌, ◌≡◌, refl, sym, ap, ◌∙◌, true, Option, some, arith}
use mathlib.Core.Path.{subst}
use recoup_ai.Base.Errors.{Result, ok}
use recoup_ai.Domain.Enums.{Intervention}
use recoup_ai.Domain.Models.Proposals.{PolicyVerdict, Proposal}
use recoup_ai.Domain.Models.Invoices.{Invoice}
use recoup_ai.Ledger.Records.{Ledger}
use recoup_ai.Policy.Context.{RuleContext}
use recoup_ai.Policy.Rules.{rule_order, within_budget}
use recoup_ai.Policy.Engine.{PolicyEngine, context, account, adjudicate}
use recoup_ai.Policy.Contracts.Walks.{Adjudication, refuses, approves}
use recoup_ai.Policy.Contracts.Compliance.{
  rule_guarantees, Guarantees-IsCompliant, adjudicate_answers_in_order,
}

-- The engines that a run can reach from `e`, one adjudication at a time.
pub data Session (e : PolicyEngine) : PolicyEngine → Type 0 where
  fresh : Session e e
  adjudicated :
      {d d' : PolicyEngine} {v : PolicyVerdict} (r : Invoice) (p : Proposal) (tick : ℕ)
      (ledger : Ledger)
      → Session e d
      → adjudicate d r p tick ledger ≡ ok (v, d')
      → Session e d'

-- An adjudication spends at most one link, within the budget, and forgets no escalation.
pub record Follows (e d : PolicyEngine) : Type 0 where
  pub same_config : d.config ≡ e.config
  pub same_rules : d.rules ≡ e.rules
  pub same_suppressed : d.suppressed_invoices ≡ e.suppressed_invoices
  pub links_grow : e.links_used ≤ d.links_used
  pub stays_opened : e.group_escalation_opened ≡ true → d.group_escalation_opened ≡ true

abbrev pub IsWithinBudget : PolicyEngine → Type 0
IsWithinBudget e = (b : ℕ) → e.config.link_budget ≡ some b → e.links_used ≤ b

account-Follows : (e : PolicyEngine) (r : Invoice) (c : Intervention) → Follows e (account e r c)
unfolding account
account-Follows e r c = ground arith

account-IsWithinBudget :
    (e : PolicyEngine) (r : Invoice) (c : Intervention)
    → (c ≡ Intervention.payment_link → within_budget e.config.link_budget e.links_used ≡ true)
    → IsWithinBudget e
    → IsWithinBudget (account e r c)
unfolding account
account-IsWithinBudget e r Intervention.payment_link h w b k = ground (arith, h refl)
account-IsWithinBudget e r _ h w b k = w b k

Adjudication-Follows :
    (e : PolicyEngine) (r : Invoice) (ctx : RuleContext) (m : Result (PolicyVerdict × PolicyEngine))
    (v : PolicyVerdict) (d : PolicyEngine)
    → Adjudication rule_guarantees e r ctx m
    → m ≡ ok (v, d)
    → Follows e d
Adjudication-Follows e r ctx m v d (refuses w h) q = ground arith
Adjudication-Follows e r ctx m v d (approves w c n f o z s g) q =
    let f : Follows e (account e r c) = account-Follows e r c in ground arith

engine_path :
    {w v : PolicyVerdict} {e d : PolicyEngine}
    → ◌≡◌ {A = Result (PolicyVerdict × PolicyEngine)} (ok (w, e)) (ok (v, d))
    → e ≡ d
engine_path q = cc

Adjudication-IsWithinBudget :
    (e : PolicyEngine) (r : Invoice) (ctx : RuleContext) (m : Result (PolicyVerdict × PolicyEngine))
    (v : PolicyVerdict) (d : PolicyEngine)
    → ctx.config ≡ e.config
    → ctx.links_used ≡ e.links_used
    → Adjudication rule_guarantees e r ctx m
    → m ≡ ok (v, d)
    → IsWithinBudget e
    → IsWithinBudget d
Adjudication-IsWithinBudget e r ctx m v d c l (refuses w h) q x =
    subst IsWithinBudget (engine_path q) x
Adjudication-IsWithinBudget e r ctx m v d c l (approves w i n f o z s g) q x =
    subst IsWithinBudget (engine_path q) (
      account-IsWithinBudget e r i
        (λ k. rw (← c, ← l) ((Guarantees-IsCompliant ctx i s g).link_budget k)) x)

adjudicate-Follows :
    {e d : PolicyEngine} {v : PolicyVerdict} (r : Invoice) (p : Proposal) (tick : ℕ)
    (ledger : Ledger)
    → e.rules ≡ rule_order
    → adjudicate e r p tick ledger ≡ ok (v, d)
    → Follows e d
adjudicate-Follows {e} {d} {v} r p tick ledger h q =
    Adjudication-Follows e r (context e r p tick ledger) (adjudicate e r p tick ledger) v d
      (adjudicate_answers_in_order e r p tick ledger h) q

-- A run of adjudications under the fixed order keeps the engine's configuration, forgets neither
-- a link that it spent nor an escalation that it opened.
pub Session-Follows : {e d : PolicyEngine} → Session e d → e.rules ≡ rule_order → Follows e d
Session-Follows fresh h = record {
  same_config = refl;
  same_rules = refl;
  same_suppressed = refl;
  links_grow = omega arith;
  stays_opened = λ o. o;
}
Session-Follows (adjudicated r p tick ledger s q) h =
    let f = Session-Follows s h in
    let g = adjudicate-Follows r p tick ledger (f.same_rules ∙ h) q in
    record {
      same_config = g.same_config ∙ f.same_config;
      same_rules = g.same_rules ∙ f.same_rules;
      same_suppressed = g.same_suppressed ∙ f.same_suppressed;
      links_grow = omega (arith, f.links_grow, g.links_grow);
      stays_opened = λ o. g.stays_opened (f.stays_opened o);
    }

Session-bounded :
    {e d : PolicyEngine} → Session e d → e.rules ≡ rule_order → IsWithinBudget e → IsWithinBudget d
unfolding context
Session-bounded fresh h w = w
Session-bounded {e} (adjudicated {d} {d'} {v} r p tick ledger s q) h w =
    let rules = (Session-Follows s h).same_rules ∙ h in
    Adjudication-IsWithinBudget d r (context d r p tick ledger) (adjudicate d r p tick ledger) v d'
      refl refl (adjudicate_answers_in_order d r p tick ledger rules) q (Session-bounded s h w)

-- How many links a verdict lets pass.
unfoldable pub links_of_verdict : Option Intervention → ℕ
links_of_verdict (some Intervention.payment_link) = 1
links_of_verdict _ = 0

-- How many links were let pass on the way.
unfoldable pub links_approved : {e d : PolicyEngine} → Session e d → ℕ
links_approved fresh = 0
links_approved (adjudicated {v = v} r p tick ledger s q) =
    links_approved s + links_of_verdict v.final

account-links :
    (e : PolicyEngine) (r : Invoice) (c : Intervention)
    → (account e r c).links_used ≡ e.links_used + links_of_verdict (some c)
unfolding account links_of_verdict
account-links e r c = ground arith

Adjudication-links :
    (e : PolicyEngine) (r : Invoice) (ctx : RuleContext) (m : Result (PolicyVerdict × PolicyEngine))
    (v : PolicyVerdict) (d : PolicyEngine)
    → Adjudication rule_guarantees e r ctx m
    → m ≡ ok (v, d)
    → d.links_used ≡ e.links_used + links_of_verdict v.final
unfolding links_of_verdict
Adjudication-links e r ctx m v d (refuses w h) q =
    let same : w.final ≡ v.final = ground arith in
    ap (λ x. x.links_used) (sym (engine_path q))
    ∙ sym (ap (λ o. e.links_used + links_of_verdict o) (sym same ∙ h.nothing_final) ∙ omega arith)
Adjudication-links e r ctx m v d (approves w c n f o z s g) q =
    let same : w.final ≡ v.final = ground arith in
    ap (λ x. x.links_used) (sym (engine_path q))
    ∙ account-links e r c
    ∙ ap (λ o. e.links_used + links_of_verdict o) (sym f ∙ same)

Session-links :
    {e d : PolicyEngine} (s : Session e d)
    → e.rules ≡ rule_order
    → d.links_used ≡ e.links_used + links_approved s
unfolding links_approved
Session-links fresh h = omega arith
Session-links (adjudicated {d} {d'} {v} r p tick ledger s q) h =
    let rules = (Session-Follows s h).same_rules ∙ h in
    let one =
      Adjudication-links d r (context d r p tick ledger) (adjudicate d r p tick ledger) v d'
        (adjudicate_answers_in_order d r p tick ledger rules) q in
    omega (arith, one, Session-links s h)

-- Under the fixed rule order, with a budget for links: however many proposals an engine that starts
-- within the budget adjudicates, the links that its verdicts let pass, with those spent before, are
-- no more than the budget.
pub Session-IsWithinBudget :
    {e d : PolicyEngine} (s : Session e d) (budget : ℕ)
    → e.rules ≡ rule_order
    → e.config.link_budget ≡ some budget
    → e.links_used ≤ budget
    → e.links_used + links_approved s ≤ budget
Session-IsWithinBudget {e} s budget h k w =
    let f = Session-Follows s h in
    let bounded : IsWithinBudget e = λ b q. ground (arith, k, q, w) in
    let last = Session-bounded s h bounded budget (ap (λ c. c.link_budget) f.same_config ∙ k) in
    omega (arith, last, Session-links s h)
