-- ===== src/Proposers/Naive.antt =====
-- src/recoup/baseline/naive_chaser.py, and `AlwaysWait` of src/recoup/runner/batch.py.
use recoup_ai.Base.{
  ℕ, ◌+◌, ◌≤◌, ◌<◌, ◌≡◌, Bool, true, false, Option, none, some, arith, leb, ltb, if◌then◌else◌,
}
use recoup_ai.Domain.Enums.{Intervention}
use recoup_ai.Domain.Interventions.{is_contact}
use recoup_ai.Domain.Models.Invoices.{Snapshot}
use recoup_ai.Domain.Models.Proposals.{Proposal}
use recoup_ai.Ledger.Clock.{ticks_for_days}

abbrev pub chase_interval_days : ℕ
chase_interval_days = 3

abbrev pub max_attempts : ℕ
max_attempts = 5

abbrev pub link_after_attempts : ℕ
link_after_attempts = 2

-- Whether less than the interval has passed since the last contact: `tick - last < interval` over
-- the integers is `tick < last + interval`.
abbrev is_too_soon : Option ℕ → ℕ → Bool
unfolding ticks_for_days
is_too_soon none tick = false
is_too_soon (some last) tick = ltb tick (last + ticks_for_days chase_interval_days)

unfoldable pub naive_intervention : ℕ → Option ℕ → ℕ → Intervention
unfolding is_too_soon
naive_intervention contacts_made last_contact_tick tick =
    if leb max_attempts contacts_made
    then Intervention.stop
    else if is_too_soon last_contact_tick tick
    then Intervention.wait
    else if leb link_after_attempts contacts_made
    then Intervention.payment_link
    else Intervention.soft_reminder

-- `NaiveChaser.propose`
unfoldable pub naive_propose : Snapshot → ℕ → Proposal
unfolding naive_intervention
naive_propose s tick = record {
  intervention = naive_intervention s.contacts_made s.last_contact_tick tick;
  llm_proposal = none;
}

-- `AlwaysWait.propose`
unfoldable pub wait_propose : Snapshot → ℕ → Proposal
wait_propose s tick = record { intervention = Intervention.wait; llm_proposal = none }

-- A contact that the naive chaser proposes is at most the fifth, and at least three days after the
-- last; after five contacts it stops.
pub naive_propose_lem :
    (s : Snapshot) (tick : ℕ)
    → (is_contact (naive_propose s tick).intervention ≡ true
        → (s.contacts_made < max_attempts)
          × ((t : ℕ) → s.last_contact_tick ≡ some t → t + 12 ≤ tick))
      × (max_attempts ≤ s.contacts_made → (naive_propose s tick).intervention ≡ Intervention.stop)
unfolding naive_propose naive_intervention is_contact is_too_soon ticks_for_days
naive_propose_lem s tick =
    (λ h. (ground (arith, h), λ t e. ground (arith, h, e)), λ h. ground (arith, h))
