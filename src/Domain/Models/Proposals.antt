-- ===== src/Domain/Models/Proposals.antt =====
-- src/recoup/domain/models.py: what a proposer returns and what the policy engine answers.
use recoup_ai.Base.{ℕ, Bool, String, Option, none, some}
use recoup_ai.Base.Errors.{Result, ok, err, value_error}
use recoup_ai.Domain.Enums.{Intervention, Channel, MessageCategory, VerdictKind, RuleKind}

pub record PromiseToPay : Type 0 where
  pub relative_phrase : String
  pub quote : String

pub record DraftedMessage : Type 0 where
  pub channel : Channel
  pub category : MessageCategory
  pub subject : Option String
  pub body : String

-- A float in [0, 1] is the fraction of two naturals that it stands for exactly.
pub record Fraction : Type 0 where
  pub numerator : ℕ
  pub denominator : ℕ

pub record LlmProposal : Type 0 where
  pub diagnosis : String
  pub intervention : Intervention
  pub confidence : Fraction
  pub reasoning : String
  pub drafted_message : Option DraftedMessage
  pub extracted_promise : Option PromiseToPay

pub record RuleSource : Type 0 where
  pub kind : RuleKind
  pub title : String
  pub cited_date : Option String
  pub url : Option String
  pub verified : Option Bool
  pub scope_caveat : Option String

check_verification : RuleKind → Option Bool → RuleSource → Result RuleSource
check_verification RuleKind.regulatory none s = err value_error
check_verification RuleKind.merchant (some v) s = err value_error
check_verification _ _ s = ok s

-- `verification_matches_source_kind`, the validator that every construction runs.
unfoldable pub verification_matches_source_kind : RuleSource → Result RuleSource
unfolding check_verification
verification_matches_source_kind s = check_verification s.kind s.verified s

-- The explanation of a verdict: one constructor for each text of the engine and its rules, over
-- the values that the text is formatted from.
pub data Explanation : Type 0 where
  all_rules_passed no_outstanding_balance one_group_escalation group_already_held : Explanation
  visible_dispute_to_human invoice_link_cap_spent link_budget_spent : Explanation
  contacted_too_recently needs_human_review : Explanation
  outside_contact_hours promotional_off_band : ℕ → Explanation
  wrong_category : MessageCategory → Intervention → MessageCategory → Explanation
  contacts_in_window : ℕ → Explanation

pub record PolicyVerdict : Type 0 where
  pub verdict : VerdictKind
  pub original : Intervention
  pub final : Option Intervention
  pub rule_id : Option String
  pub rule_source : Option RuleSource
  pub explanation : Explanation
  pub defer_to_tick : Option ℕ

-- runner/batch.py: `Proposal`
pub record Proposal : Type 0 where
  pub intervention : Intervention
  pub llm_proposal : Option LlmProposal
