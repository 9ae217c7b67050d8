-- ===== src/Policy/Context.antt =====
-- src/recoup/policy/context.py: what a rule is handed, and the verdicts that it may hand back.
use recoup_ai.Base.{
  ℕ, ◌-◌, Bool, Option, none, some, List, [], ◌∷◌, ◌++◌, String, leb, ltb, ◌=s=◌, if◌then◌else◌,
  map,
}
use recoup_ai.Base.Errors.{Result, ok, err, value_error}
use recoup_ai.Domain.Enums.{Intervention, VerdictKind}
use recoup_ai.Domain.Models.Proposals.{LlmProposal, PolicyVerdict, RuleSource, Explanation}
use recoup_ai.Domain.Models.Invoices.{Invoice}
use recoup_ai.Ledger.Clock.{ticks_for_days}
use recoup_ai.Ledger.Records.{Ledger, contact_window_ticks, payer_contacts_since}

unfoldable pub contact_intensity : Intervention → ℕ
contact_intensity Intervention.wait = 0
contact_intensity Intervention.stop = 0
contact_intensity Intervention.escalate_human = 0
contact_intensity Intervention.soft_reminder = 1
contact_intensity Intervention.payment_link = 2
contact_intensity Intervention.phone_followup = 3

pub record MerchantPolicy : Type 0 where
  pub max_contacts_per_payer : ℕ
  pub contact_window_ticks : ℕ
  pub min_contact_spacing_ticks : ℕ
  pub max_links_per_invoice : ℕ
  pub escalation_threshold_paise : ℕ
  pub link_budget : Option ℕ
  pub min_batch_group_invoices : ℕ
  pub min_batch_group_payers : ℕ

-- The defaults of the dataclass.
abbrev pub default_policy : MerchantPolicy
unfolding ticks_for_days
default_policy = record {
  max_contacts_per_payer = 4;
  contact_window_ticks = contact_window_ticks;
  min_contact_spacing_ticks = ticks_for_days 3;
  max_links_per_invoice = 3;
  escalation_threshold_paise = 50000000;
  link_budget = none;
  min_batch_group_invoices = 3;
  min_batch_group_payers = 3;
}

-- `RuleContext`; its field `record` is `subject` here.
pub record RuleContext : Type 0 where
  pub subject : Invoice
  pub original : Intervention
  pub current : Intervention
  pub tick : ℕ
  pub ledger : Ledger
  pub config : MerchantPolicy
  pub links_used : ℕ
  pub llm_proposal : Option LlmProposal
  pub suppressed_invoices : List String
  pub group_escalation_opened : Bool

unfoldable pub payer_contacts_in_window : RuleContext → ℕ
payer_contacts_in_window ctx =
    payer_contacts_since ctx.ledger ctx.subject.payer_id
      (ctx.tick - ctx.config.contact_window_ticks)

unfoldable pub insert_tick : ℕ → List ℕ → List ℕ
insert_tick t [] = t ∷ []
insert_tick t (u ∷ us) = let rest = insert_tick t us in if leb t u then t ∷ u ∷ us else u ∷ rest

-- `sorted` on ticks.
unfoldable pub sort_ticks : List ℕ → List ℕ
unfolding insert_tick
sort_ticks [] = []
sort_ticks (t ∷ ts) = insert_tick t (sort_ticks ts)

-- The ticks of every contact to one payer, record by record.
unfoldable pub contact_ticks_of : String → List Invoice → List ℕ
contact_ticks_of payer_id [] = []
contact_ticks_of payer_id (r ∷ rs) =
    let rest = contact_ticks_of payer_id rs in
    if r.payer_id =s= payer_id then map (λ a. a.tick) r.contact_ledger.attempts ++ rest else rest

unfoldable pub payer_contact_ticks : RuleContext → List ℕ
payer_contact_ticks ctx = sort_ticks (contact_ticks_of ctx.subject.payer_id ctx.ledger.records)

pub record Rule : Type 0 where
  pub rule_id : String
  pub check : RuleContext → Result (Option PolicyVerdict)

unfoldable pub veto :
    RuleContext → RuleSource → Explanation → Option ℕ → Result (Option PolicyVerdict)
veto ctx source explanation defer_to_tick = ok (
    some (record {
      verdict = VerdictKind.vetoed;
      original = ctx.original;
      final = none;
      rule_id = none;
      rule_source = some source;
      explanation = explanation;
      defer_to_tick = defer_to_tick;
    }))

unfoldable pub modify :
    RuleContext → Intervention → RuleSource → Explanation → Result (Option PolicyVerdict)
unfolding contact_intensity
modify ctx final source explanation =
    if ltb (contact_intensity ctx.current) (contact_intensity final)
    then err value_error
    else ok (
        some (record {
          verdict = VerdictKind.modified;
          original = ctx.original;
          final = some final;
          rule_id = none;
          rule_source = some source;
          explanation = explanation;
          defer_to_tick = none;
        }))
