-- ===== src/Proposers/Fallback.antt =====
-- src/recoup/reasoner/fallback.py: the proposer of a run without a model. The texts of its drafts
-- and of its reasoning are formatted by the parameters of the section.
use recoup_ai.Base.{
  ℕ, ◌-◌, ◌≡◌, refl, false, ◌||◌, Option, none, some, String, ℤ, leb, ◌==◌, is_negative,
  if◌then◌else◌,
}
use recoup_ai.Base.Errors.{ok}
use recoup_ai.Domain.Enums.{
  Channel, Intervention, MessageCategory, RecordState, state_eq, category_eq,
}
use recoup_ai.Domain.Interventions.{spec}
use recoup_ai.Domain.Models.Invoices.{Snapshot}
use recoup_ai.Domain.Models.Proposals.{DraftedMessage, LlmProposal, Proposal}
use recoup_ai.Policy.Context.{RuleContext}
use recoup_ai.Policy.Rules.{trai_message_category_check, category_verdict, has_promotional_draft}

abbrev pub fallback_max_attempts : ℕ
fallback_max_attempts = 6

unfoldable pub fallback_intervention : ℤ → RecordState → ℕ → Intervention
fallback_intervention days_overdue state contacts_made =
    if is_negative days_overdue || state_eq state RecordState.promised
    then Intervention.wait
    else if contacts_made == 0
    then Intervention.soft_reminder
    else if leb contacts_made 2
    then Intervention.payment_link
    else if contacts_made == 3
    then Intervention.phone_followup
    else if contacts_made == fallback_max_attempts - 2
    then Intervention.soft_reminder
    else Intervention.stop

module _ (reminder_subject link_subject : String → String)
    (reasoning : ℤ → ℕ → RecordState → String) where
  -- `_draft`
  unfoldable pub draft : Intervention → String → Option DraftedMessage
  draft Intervention.soft_reminder k = some (record {
    channel = Channel.email;
    category = MessageCategory.service;
    subject = some (reminder_subject k);
    body = "Please review the outstanding invoice and let us know its payment status.";
  })
  draft Intervention.payment_link k = some (record {
    channel = Channel.email;
    category = MessageCategory.service;
    subject = some (link_subject k);
    body =
        "A payment link is available for the outstanding invoice. Please contact us if the account needs review.";
  })
  draft _ k = none

  -- The model's form of the proposal of one intervention.
  unfoldable pub fallback_proposal : Snapshot → Intervention → LlmProposal
  unfolding draft
  fallback_proposal s i = record {
    diagnosis = "Deterministic Phase 2 fallback based on structured ledger facts.";
    intervention = i;
    confidence = record { numerator = 1; denominator = 1 };
    reasoning = reasoning s.days_overdue s.contacts_made s.state;
    drafted_message = draft i s.invoice_id;
    extracted_promise = none;
  }

  -- `DeterministicFallback.propose`
  unfoldable pub fallback_propose : Snapshot → ℕ → Proposal
  unfolding fallback_proposal
  fallback_propose s tick =
      let i = fallback_intervention s.days_overdue s.state s.contacts_made in
      record { intervention = i; llm_proposal = some (fallback_proposal s i) }

  draft_fits :
      (ctx : RuleContext) (i : Intervention) (s : Snapshot)
      → ctx.current ≡ i
      → ctx.llm_proposal ≡ some (fallback_proposal s i)
      → (trai_message_category_check ctx ≡ ok none) × (has_promotional_draft ctx ≡ false)
  unfolding trai_message_category_check category_verdict has_promotional_draft spec
      fallback_proposal draft category_eq
  draft_fits ctx Intervention.soft_reminder s c p = (rw (c, p) refl, rw p refl)
  draft_fits ctx Intervention.payment_link s c p = (rw (c, p) refl, rw p refl)
  draft_fits ctx _ s c p = (rw (c, p) refl, rw p refl)

  -- The fallback's own drafts never fall foul of the message rules: before any reduction, the rule
  -- on message categories lets its proposal pass, and none of its drafts is promotional.
  pub fallback_propose_lem :
      (s : Snapshot) (tick : ℕ) (ctx : RuleContext)
      → ctx.current ≡ (fallback_propose s tick).intervention
      → ctx.llm_proposal ≡ (fallback_propose s tick).llm_proposal
      → (trai_message_category_check ctx ≡ ok none) × (has_promotional_draft ctx ≡ false)
  unfolding fallback_propose
  fallback_propose_lem s tick ctx c p =
      draft_fits ctx (fallback_intervention s.days_overdue s.state s.contacts_made) s c p
