-- ===== src/Domain/Enums.antt =====
-- src/recoup/domain/enums.py: the closed enumerations. `x is Y` on an enumeration is a Boolean
-- function by clauses, or `state_eq` where both sides are computed.
use recoup_ai.Base.{ℕ, ◌≡◌, Bool, true, false, arith, ◌==◌}

pub data RecordState : Type 0 where
  at_risk contacted promised paid disputed human_queue exhausted written_off : RecordState

pub data Intervention : Type 0 where
  wait soft_reminder payment_link phone_followup escalate_human stop : Intervention

pub data Flag : Type 0 where
  disputed already_paid_unreconciled hardship_claimed : Flag

pub data Archetype : Type 0 where
  reliable_but_slow chronic_late disputing distressed silent paid_unreconciled : Archetype

pub data MessageCategory : Type 0 where
  promotional service transactional government : MessageCategory

pub data Channel : Type 0 where
  email sms phone : Channel

pub data Arm : Type 0 where
  agent baseline policy_baseline control : Arm

pub data RecordSource : Type 0 where
  invoice failed_payment failed_mandate : RecordSource

pub data VerdictKind : Type 0 where
  approved modified vetoed : VerdictKind

pub data RuleKind : Type 0 where
  regulatory merchant : RuleKind

pub data ExecutorKind : Type 0 where
  simulated live : ExecutorKind

pub data PaymentEventKind : Type 0 where
  issued paid_full paid_partial payment_failed written_off : PaymentEventKind

pub data OutcomeKind : Type 0 where
  no_response replied promised paid_full paid_partial dispute_raised complaint escalated :
      OutcomeKind
  promise_broken written_off : OutcomeKind

pub data RowKind : Type 0 where
  intake decision outcome : RowKind

pub data SignalKind : Type 0 where
  promise_explicit promise_vague payment_cycle approval_pending doc_missing : SignalKind
  po_mismatch grn_mismatch quality_complaint tds_deduction gst_mismatch already_paid : SignalKind
  partial_confusion duplicate_claim entity_mismatch bank_rejection : SignalKind
  onboarding_pending hardship settlement_request escalation_threat contact_churn : SignalKind
  channel_request consolidation_request annoyed_at_chasing seasonal_delay : SignalKind
  msme_reference centralisation_hint authority_change system_migration scope_pause : SignalKind

-- The position of a member in its enumeration, by which two computed members are compared.
unfoldable pub state_index : RecordState → ℕ
state_index RecordState.at_risk = 0
state_index RecordState.contacted = 1
state_index RecordState.promised = 2
state_index RecordState.paid = 3
state_index RecordState.disputed = 4
state_index RecordState.human_queue = 5
state_index RecordState.exhausted = 6
state_index RecordState.written_off = 7

-- `a is b` on record states.
unfoldable pub state_eq : RecordState → RecordState → Bool
unfolding state_index
state_eq a b = state_index a == state_index b

unfoldable pub category_eq : MessageCategory → MessageCategory → Bool
category_eq MessageCategory.promotional MessageCategory.promotional = true
category_eq MessageCategory.service MessageCategory.service = true
category_eq MessageCategory.transactional MessageCategory.transactional = true
category_eq MessageCategory.government MessageCategory.government = true
category_eq _ _ = false

unfoldable pub arm_eq : Arm → Arm → Bool
arm_eq Arm.agent Arm.agent = true
arm_eq Arm.baseline Arm.baseline = true
arm_eq Arm.policy_baseline Arm.policy_baseline = true
arm_eq Arm.control Arm.control = true
arm_eq _ _ = false

pub state_eq→eq : (a b : RecordState) → state_eq a b ≡ true → a ≡ b
unfolding state_eq
state_eq→eq a b h = ground arith

pub state_eq_refl : (a : RecordState) → state_eq a a ≡ true
unfolding state_eq
state_eq_refl a = ground arith

pub category_eq→eq : (a b : MessageCategory) → category_eq a b ≡ true → a ≡ b
unfolding category_eq
category_eq→eq a b h = ground arith

pub arm_eq_refl : (a : Arm) → arm_eq a a ≡ true
unfolding arm_eq
arm_eq_refl a = ground arith
