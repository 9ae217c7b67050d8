-- ===== src/Policy/Engine.antt =====
-- src/recoup/policy/engine.py: class `PolicyEngine`, for single proposals.
use recoup_ai.Base.{
  ℕ, ◌+◌, Bool, true, false, ◌&&◌, Option, none, some, List, [], ◌∷◌, String, contains,
  if◌then◌else◌,
}
use recoup_ai.Base.Errors.{Result, ok, err, value_error, ◌>>=◌}
use recoup_ai.Domain.Enums.{Intervention, VerdictKind}
use recoup_ai.Domain.Models.Proposals.{PolicyVerdict, Proposal, Explanation}
use recoup_ai.Domain.Models.Invoices.{Invoice}
use recoup_ai.Ledger.Records.{Ledger}
use recoup_ai.Policy.Context.{Rule, RuleContext, MerchantPolicy}
use recoup_ai.Policy.Rules.{is_payment_link, is_escalation}

-- The attributes of an engine.
pub record PolicyEngine : Type 0 where
  pub config : MerchantPolicy
  pub rules : List Rule
  pub links_used : ℕ
  pub suppressed_invoices : List String
  pub group_escalation_opened : Bool

-- `PolicyEngine.__init__`, with both arguments.
abbrev pub new_engine : MerchantPolicy → List Rule → PolicyEngine
new_engine config rules = record {
  config = config;
  rules = rules;
  links_used = 0;
  suppressed_invoices = [];
  group_escalation_opened = false;
}

-- How the loop over the rules ends: by a veto, or with the reduced proposal and its first
-- modification.
pub data Walk : Type 0 where
  vetoed_by : PolicyVerdict → Walk
  passed : Intervention → Option PolicyVerdict → Walk

abbrev pub stamp : String → PolicyVerdict → PolicyVerdict
stamp rule_id v = record v { rule_id = some rule_id }

-- `first_modification`, which only the first modification sets.
abbrev pub keep_first : Option PolicyVerdict → PolicyVerdict → PolicyVerdict
keep_first none v = v
keep_first (some w) v = w

-- What one firing verdict means for the loop.
pub data Firing : Type 0 where
  stops : Firing
  invalid : Firing
  reduces_to : Intervention → Firing

unfoldable pub firing : VerdictKind → Option Intervention → Firing
firing VerdictKind.vetoed final = stops
firing VerdictKind.modified (some c) = reduces_to c
firing _ _ = invalid

-- The loop body after `rule.check`: the rest of the loop runs from the new context.
unfoldable pub fire :
    (RuleContext → Option PolicyVerdict → Result Walk)
    → RuleContext
    → Option PolicyVerdict
    → String
    → Option PolicyVerdict
    → Result Walk
unfolding firing
fire rest ctx first rule_id none = rest ctx first
fire rest ctx first rule_id (some v) = elim (firing v.verdict v.final) [
  | stops ↦ ok (vetoed_by (stamp rule_id v))
  | invalid ↦ err value_error
  | reduces_to c ↦ rest (record ctx { current = c }) (some (keep_first first (stamp rule_id v)))
]

-- `for rule in self.rules`
unfoldable pub walk : List Rule → RuleContext → Option PolicyVerdict → Result Walk
unfolding fire
walk [] ctx first = ok (passed ctx.current first)
walk (rule ∷ rules) ctx first = do v ← rule.check ctx; fire (walk rules) ctx first rule.rule_id v

unfoldable pub context : PolicyEngine → Invoice → Proposal → ℕ → Ledger → RuleContext
context e r p tick ledger = record {
  subject = r;
  original = p.intervention;
  current = p.intervention;
  tick = tick;
  ledger = ledger;
  config = e.config;
  links_used = e.links_used;
  llm_proposal = p.llm_proposal;
  suppressed_invoices = e.suppressed_invoices;
  group_escalation_opened = e.group_escalation_opened;
}

-- The engine's own state after the loop let `current` pass.
unfoldable pub account : PolicyEngine → Invoice → Intervention → PolicyEngine
account e r current = record e {
  links_used = if is_payment_link current then e.links_used + 1 else e.links_used;
  group_escalation_opened =
      if is_escalation current && contains r.invoice_id e.suppressed_invoices
      then true
      else e.group_escalation_opened;
}

unfoldable pub approval : Intervention → Intervention → Option PolicyVerdict → PolicyVerdict
approval original current (some first) = record first { final = some current }
approval original current none = record {
  verdict = VerdictKind.approved;
  original = original;
  final = some current;
  rule_id = none;
  rule_source = none;
  explanation = Explanation.all_rules_passed;
  defer_to_tick = none;
}

unfoldable pub finish : PolicyEngine → Invoice → Intervention → Walk → PolicyVerdict × PolicyEngine
unfolding account approval
finish e r original (vetoed_by v) = (v, e)
finish e r original (passed current first) = (approval original current first, account e r current)

unfoldable pub adjudicate :
    PolicyEngine → Invoice → Proposal → ℕ → Ledger → Result (PolicyVerdict × PolicyEngine)
unfolding walk context finish
adjudicate e r p tick ledger = do
  w ← walk e.rules (context e r p tick ledger) none
  ok (finish e r p.intervention w)
