-- ===== src/Tests/Live.antt =====
-- A live run whose client is the one of rehearsals.
use recoup_ai.Base.{ℕ, ◌+◌, ◌≡◌, refl, true, none, some, Option, List, [], ◌∷◌, String}
use recoup_ai.Domain.Enums.{Arm, Intervention}
use recoup_ai.Domain.Models.Invoices.{Invoice, Snapshot}
use recoup_ai.Domain.Models.Proposals.{Proposal}
use recoup_ai.Domain.Models.Rows.{AuditRow}
use recoup_ai.Policy.Engine.{PolicyEngine}
use recoup_ai.Domain.Interventions.{spec}
use recoup_ai.Executor.Budget.{
  LinkRequest, LinkAllocator, new_allocator, shortlisted, may_spend, ranked,
}
use recoup_ai.Executor.Simulated.{Executor, answering, answering-Returns, simulated_perform}
use recoup_ai.Executor.Live.{LiveExecutor, new_executor, live_perform}
use recoup_ai.Executor.Live.Booked.{Performs, live_perform-Performs}
use recoup_ai.Executor.Live.Spending.{
  funded, idle, then_perform, IsWithinCapacity, Performed-IsWithinCapacity,
}
use recoup_ai.Executor.Fake.{FakeClient, fake_create}
use recoup_ai.Base.Errors.{ok}
use recoup_ai.Ledger.Clock.{VirtualClock}
use recoup_ai.Runner.Batch.{ExecutionResult, Run}
use recoup_ai.Runner.Batch.Loop.{run_batch}
use recoup_ai.Runner.Live.{assemble}
use recoup_ai.Runner.Live.Outcomes.{Rehearsed}
use recoup_ai.Runner.Live.Governed.{governed_parts, governed_live-Rehearsed}
use recoup_ai.Tests.Data.{by_9999, bill, book, engine, link_proposal, numbered_hash}
use recoup_ai.Tests.Payers.{platform}

-- A digest of one letter's repetition.
abbrev hexdigest : String → String
hexdigest text = "aaaaaaaaaaaaaaaaaaaaaaaaaaaaaaaa"

abbrev client : FakeClient
client = record { calls = []; created = []; fail_with = none }

abbrev perform :
    LiveExecutor FakeClient → Invoice → Intervention → ℕ → ExecutionResult × LiveExecutor FakeClient
perform = live_perform hexdigest (fake_create hexdigest) "run_1" none

abbrev executor : Executor (LiveExecutor FakeClient)
executor = answering perform

abbrev executor_factory : LinkAllocator → LiveExecutor FakeClient
executor_factory a = new_executor client a "run_1" Arm.agent "rzp_test_1"

-- A proposer of links that counts its calls.
abbrev counting : ℕ → Snapshot → ℕ → Proposal × ℕ
counting calls s tick = (link_proposal, calls + 1)

abbrev tomorrow : String → ℕ → Option ℕ
tomorrow phrase tick = some (tick + 4)

abbrev one_dump : AuditRow → String
one_dump row = row.record_id

governed_live-Rehearsed_example :
    (dry : VirtualClock × Run (PolicyEngine × (ℕ × Unit {0}))) × (run_batch
        (assemble
          (governed_parts platform 1 counting tomorrow numbered_hash)
          (answering (simulated_perform "run_1")))
        book
        "run_1"
        Arm.agent
        6
        (engine, (0, tt))
      ≡ ok dry)
    × Rehearsed one_dump
        (governed_parts platform 1 counting tomorrow numbered_hash)
        executor
        executor_factory
        book
        "run_1"
        Arm.agent
        6
        1
        true
        0
        engine
        dry.1
governed_live-Rehearsed_example =
    governed_live-Rehearsed platform 1 counting tomorrow numbered_hash one_dump executor
      executor_factory book "run_1" Arm.agent 6 1 true 0 engine by_9999 (answering-Returns perform)
      (λ p q s tick. refl)

abbrev demand : List LinkRequest
demand = record { invoice_id = "inv_1"; tick = 4; outstanding_paise = 250000 } ∷ []

abbrev fresh : LiveExecutor FakeClient
fresh = executor_factory (new_allocator demand 1)

live_perform-Performs_example :
    Performs hexdigest
      (fake_create hexdigest)
      "run_1"
      none
      fresh
      (bill "inv_1" 250000)
      Intervention.payment_link
      4
      (perform fresh (bill "inv_1" 250000) Intervention.payment_link 4)
live_perform-Performs_example =
    live_perform-Performs hexdigest (fake_create hexdigest) "run_1" none fresh (bill "inv_1" 250000)
      Intervention.payment_link 4

-- The executor after one link.
abbrev used : LiveExecutor FakeClient
used = (perform fresh (bill "inv_1" 250000) Intervention.payment_link 4).1

Performed-IsWithinCapacity_example :
    IsWithinCapacity hexdigest
      (fake_create hexdigest)
      "run_1"
      none
      1
      (shortlisted (new_allocator demand 1))
      used.session.links
    × (funded used.session.links ≡ used.allocator.granted)
Performed-IsWithinCapacity_example =
    Performed-IsWithinCapacity hexdigest (fake_create hexdigest) "run_1" none client demand 1
      Arm.agent "rzp_test_1" (then_perform (bill "inv_1" 250000) Intervention.payment_link 4 idle)

one_link_made : funded used.session.links ≡ "inv_1" ∷ []
unfolding live_perform new_allocator spec may_spend ranked fake_create
one_link_made = refl
