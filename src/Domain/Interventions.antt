-- ===== src/Domain/Interventions.antt =====
-- src/recoup/domain/interventions.py: the cost and cadence of each intervention.
use recoup_ai.Base.{ℕ, ◌<◌, Bool, true, false, Option, none, some, arith, ◌^◌}
use recoup_ai.Domain.Enums.{Intervention, Channel, MessageCategory}

-- `REVIEW_NEVER`
abbrev pub review_never : ℕ
review_never = 10 ^ 9

pub record InterventionSpec : Type 0 where
  pub contact_units : ℕ
  pub api_units : ℕ
  pub channel : Option Channel
  pub correct_category : Option MessageCategory
  pub review_ticks : ℕ
  pub is_contact : Bool
  pub ends_automation : Bool

-- The table `SPECS` with its lookup; every member has an entry, so the lookup cannot fail.
unfoldable pub spec : Intervention → InterventionSpec
spec Intervention.wait = record {
  contact_units = 0;
  api_units = 0;
  channel = none;
  correct_category = none;
  review_ticks = 8;
  is_contact = false;
  ends_automation = false;
}
spec Intervention.soft_reminder = record {
  contact_units = 1;
  api_units = 0;
  channel = some Channel.email;
  correct_category = some MessageCategory.service;
  review_ticks = 12;
  is_contact = true;
  ends_automation = false;
}
spec Intervention.payment_link = record {
  contact_units = 1;
  api_units = 1;
  channel = some Channel.email;
  correct_category = some MessageCategory.service;
  review_ticks = 12;
  is_contact = true;
  ends_automation = false;
}
spec Intervention.phone_followup = record {
  contact_units = 1;
  api_units = 0;
  channel = some Channel.phone;
  correct_category = none;
  review_ticks = 18;
  is_contact = true;
  ends_automation = false;
}
spec Intervention.escalate_human = record {
  contact_units = 0;
  api_units = 0;
  channel = none;
  correct_category = none;
  review_ticks = review_never;
  is_contact = false;
  ends_automation = true;
}
spec Intervention.stop = record {
  contact_units = 0;
  api_units = 0;
  channel = none;
  correct_category = none;
  review_ticks = review_never;
  is_contact = false;
  ends_automation = true;
}

unfoldable pub is_contact : Intervention → Bool
unfolding spec
is_contact i = (spec i).is_contact

pub review_ticks_pos : (i : Intervention) → 0 < (spec i).review_ticks
unfolding spec
review_ticks_pos i = ground arith
