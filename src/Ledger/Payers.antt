-- ===== src/Ledger/Payers.antt =====
-- src/recoup/ledger/adjudicator.py: the tables of how payers behave.
use recoup_ai.Base.{ℕ, Bool, true, false, String}
use recoup_ai.Base.Doubles.{Double, literal, plus}
use recoup_ai.Base.Errors.{Error, Result, ok, err}
use recoup_ai.Domain.Enums.{Archetype, Intervention}

-- The values of the enumeration, which the adjudicator's texts quote.
unfoldable pub intervention_value : Intervention → String
intervention_value Intervention.wait = "WAIT"
intervention_value Intervention.soft_reminder = "SOFT_REMINDER"
intervention_value Intervention.payment_link = "PAYMENT_LINK"
intervention_value Intervention.phone_followup = "PHONE_FOLLOWUP"
intervention_value Intervention.escalate_human = "ESCALATE_HUMAN"
intervention_value Intervention.stop = "STOP"

pub record SpontaneousOdds : Type 0 where
  pub cumulative_28d : Double
  pub partial_share : Double

pub record ResponseOdds : Type 0 where
  pub paid_full : Double
  pub paid_partial : Double
  pub promised : Double
  pub replied : Double
  pub dispute_raised : Double
  pub complaint : Double

pub record BehaviourProfile : Type 0 where
  pub spontaneous : SpontaneousOdds
  pub response : ResponseOdds
  pub promise_kept : Double

-- The entries of the tables, in thousandths and in hundredths.
abbrev thousandths : ℕ → ℕ → ℕ → ℕ → ℕ → ℕ → ResponseOdds
thousandths full partial promised replied dispute complaint = record {
  paid_full = literal full 1000;
  paid_partial = literal partial 1000;
  promised = literal promised 1000;
  replied = literal replied 1000;
  dispute_raised = literal dispute 1000;
  complaint = literal complaint 1000;
}

abbrev hundredths : ℕ → ℕ → SpontaneousOdds
hundredths cumulative partial = record {
  cumulative_28d = literal cumulative 100;
  partial_share = literal partial 100;
}

-- The table `PROFILES`, with an entry for every archetype.
unfoldable pub profiles : Archetype → BehaviourProfile
profiles Archetype.reliable_but_slow = record {
  spontaneous = hundredths 85 4;
  response = thousandths 30 10 150 300 5 20;
  promise_kept = literal 88 100;
}
profiles Archetype.chronic_late = record {
  spontaneous = hundredths 42 18;
  response = thousandths 110 70 240 220 20 30;
  promise_kept = literal 58 100;
}
profiles Archetype.disputing = record {
  spontaneous = hundredths 10 45;
  response = thousandths 15 30 50 180 260 45;
  promise_kept = literal 40 100;
}
profiles Archetype.distressed = record {
  spontaneous = hundredths 16 55;
  response = thousandths 20 55 170 230 20 90;
  promise_kept = literal 34 100;
}
profiles Archetype.silent = record {
  spontaneous = hundredths 30 20;
  response = thousandths 30 20 45 70 10 20;
  promise_kept = literal 45 100;
}
profiles Archetype.paid_unreconciled = record {
  spontaneous = hundredths 95 2;
  response = thousandths 40 5 30 420 30 70;
  promise_kept = literal 80 100;
}

pub record InterventionPotency : Type 0 where
  pub pay : Double
  pub promise : Double
  pub reply : Double
  pub dispute : Double
  pub complaint : Double

-- The lookup `POTENCY[intervention]`; the table has the three contacts.
unfoldable pub potency_of : Intervention → Result InterventionPotency
unfolding intervention_value
potency_of Intervention.soft_reminder = ok (record {
  pay = literal 100 100;
  promise = literal 100 100;
  reply = literal 100 100;
  dispute = literal 100 100;
  complaint = literal 100 100;
})
potency_of Intervention.payment_link = ok (record {
  pay = literal 165 100;
  promise = literal 85 100;
  reply = literal 90 100;
  dispute = literal 105 100;
  complaint = literal 115 100;
})
potency_of Intervention.phone_followup = ok (record {
  pay = literal 120 100;
  promise = literal 170 100;
  reply = literal 145 100;
  dispute = literal 130 100;
  complaint = literal 160 100;
})
potency_of i = err (Error.key_error (intervention_value i))

-- `x in _VAGUE_PROMISERS`
unfoldable pub is_vague_promiser : Archetype → Bool
is_vague_promiser Archetype.disputing = true
is_vague_promiser Archetype.distressed = true
is_vague_promiser Archetype.silent = true
is_vague_promiser _ = false

-- `ResponseOdds.total`
unfoldable pub total : ResponseOdds → Double
total o =
    plus
      (plus (plus (plus (plus o.paid_full o.paid_partial) o.promised) o.replied) o.dispute_raised)
      o.complaint
