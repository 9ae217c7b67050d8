-- ===== src/Runner/Live/Governed.antt =====
-- A live run of the agent as the command line composes it: the policy engine as the gate and the
-- seeded adjudicator as the payers.
use recoup_ai.Base.{ℕ, ◌≤◌, ◌≡◌, refl, some, Option, Bool, List, String}
use recoup_ai.Base.Errors.{ok}
use recoup_ai.Domain.Enums.{Arm}
use recoup_ai.Domain.Models.Invoices.{Invoice, Snapshot}
use recoup_ai.Domain.Models.Proposals.{Proposal}
use recoup_ai.Domain.Models.Rows.{AuditRow}
use recoup_ai.Ledger.Adjudicator.{Platform, resolve_response, resolve_promise, resolve_spontaneous}
use recoup_ai.Ledger.Clock.{VirtualClock, virtual_date, last_date}
use recoup_ai.Policy.Engine.{PolicyEngine, adjudicate}
use recoup_ai.Executor.Budget.{LinkAllocator}
use recoup_ai.Executor.Simulated.{Executor, Returns, answering, simulated_perform}
use recoup_ai.Runner.Batch.{Run}
use recoup_ai.Runner.Batch.Loop.{run_batch}
use recoup_ai.Runner.Batch.Governed.{in_order, engine_gate}
use recoup_ai.Runner.Batch.Simulated.{simulated-IsAccountable}
use recoup_ai.Runner.Batch.Replayed.{IsAccountable}
use recoup_ai.Runner.Live.{Parts, assemble}
use recoup_ai.Runner.Live.Outcomes.{Rehearsed, run_live_batch-Rehearsed}

-- The parts of a governed run.
abbrev pub governed_parts :
    {P : Type 0}
    → Platform
    → ℕ
    → (P → Snapshot → ℕ → Proposal × P)
    → (String → ℕ → Option ℕ)
    → (AuditRow → String)
    → Parts P PolicyEngine
governed_parts m seed propose resolve_phrase row_hash = record {
  propose = propose;
  policy = some (λ e. adjudicate (in_order e));
  resolve_response = resolve_response m seed;
  resolve_promise = resolve_promise m seed;
  resolve_spontaneous = resolve_spontaneous m seed;
  resolve_promise_phrase = resolve_phrase;
  row_hash = row_hash;
}

-- The dry pass is a run of the loop under the engine and the adjudicator.
dry_pass-IsAccountable :
    {P : Type 0} (m : Platform) (seed : ℕ) (propose : P → Snapshot → ℕ → Proposal × P)
    (resolve_phrase : String → ℕ → Option ℕ) (row_hash : AuditRow → String) (records : List Invoice)
    (run_id : String) (arm : Arm) (horizon : ℕ) (w : PolicyEngine × (P × Unit {0}))
    → virtual_date horizon ≤ last_date
    → IsAccountable
        (assemble
          (governed_parts m seed propose resolve_phrase row_hash)
          (answering (simulated_perform run_id)))
        records
        run_id
        arm
        horizon
        w
unfolding engine_gate
dry_pass-IsAccountable m seed propose resolve_phrase row_hash records run_id arm horizon w dates =
    simulated-IsAccountable m seed
      (assemble (governed_parts m seed propose resolve_phrase row_hash)
        (answering (simulated_perform run_id)))
      records run_id arm horizon w (λ w r i tick. (_, refl)) dates

module _ {P E : Type 0} (m : Platform) (seed : ℕ) (propose : P → Snapshot → ℕ → Proposal × P)
    (resolve_phrase : String → ℕ → Option ℕ) (row_hash dump : AuditRow → String)
    (executor : Executor E) (executor_factory : LinkAllocator → E) where
  -- A live run of any batch under the policy engine and the seeded adjudicator, up to a horizon by the
  -- end of year 9999, with an executor that does not raise and a proposer whose proposals depend on
  -- the snapshot and the tick alone. Its dry pass, the batch run over the simulated executor, returns.
  -- Then either the pre-flight test
  -- refuses, and the run raises just what the test raises; or the run returns, and its two passes
  -- agree in ledger, counters, gate and every row of the log, but for hashes, executors and
  -- references: the check that they do never fails.
  pub governed_live-Rehearsed :
      (records : List Invoice) (run_id : String) (arm : Arm) (horizon capacity : ℕ)
      (require_payable : Bool) (proposer : P) (e : PolicyEngine)
      → virtual_date horizon ≤ last_date
      → Returns executor
      → ((p q : P) (s : Snapshot) (tick : ℕ) → (propose p s tick).0 ≡ (propose q s tick).0)
      → (dry : VirtualClock × Run (PolicyEngine × (P × Unit {0}))) × (run_batch
            (assemble
              (governed_parts m seed propose resolve_phrase row_hash)
              (answering (simulated_perform run_id)))
            records
            run_id
            arm
            horizon
            (e, (proposer, tt))
          ≡ ok dry)
        × Rehearsed dump
            (governed_parts m seed propose resolve_phrase row_hash)
            executor
            executor_factory
            records
            run_id
            arm
            horizon
            capacity
            require_payable
            proposer
            e
            dry.1
  governed_live-Rehearsed records run_id arm horizon capacity require_payable proposer e dates
        executes steady =
      let a =
        dry_pass-IsAccountable m seed propose resolve_phrase row_hash records run_id arm horizon
          (e, (proposer, tt)) dates in
      (
        (_, a.last),
        a.returns,
        run_live_batch-Rehearsed dump (governed_parts m seed propose resolve_phrase row_hash)
            executor executor_factory records run_id arm horizon capacity require_payable proposer e
            (_, a.last) executes steady a.returns,
      )
