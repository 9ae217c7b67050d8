-- ===== src/Executor/Simulated.antt =====
-- src/recoup/executor/simulated.py, and the interface of src/recoup/executor/base.py over a state `E`
-- of the executor's own. A call may raise, which the loop does not catch.
use Prim.Native.String.{◌++◌}
use recoup_ai.Base.{◌≡◌, refl, ℕ, some, String, ◌==◌, if◌then◌else◌}
use recoup_ai.Base.Decimal.{decimal}
use recoup_ai.Base.Errors.{Result, ok}
use recoup_ai.Domain.Enums.{ExecutorKind, Intervention}
use recoup_ai.Domain.Interventions.{spec}
use recoup_ai.Domain.Models.Invoices.{Invoice}
use recoup_ai.Runner.Batch.{ExecutionResult, not_executed}

-- `Executor.perform`
abbrev pub Executor : Type 0 → Type 0
Executor E = E → Invoice → Intervention → ℕ → Result (ExecutionResult × E)

-- An executor that never raises, by what it returns.
abbrev pub answering :
    {E : Type 0} → (E → Invoice → Intervention → ℕ → ExecutionResult × E) → Executor E
answering f e r i tick = ok (f e r i tick)

-- An executor that returns, whatever it is asked.
abbrev pub Returns : {E : Type 0} → Executor E → Type 0
Returns {E} executor =
    (e : E) (r : Invoice) (i : Intervention) (tick : ℕ)
    → (done : ExecutionResult × E) × (executor e r i tick ≡ ok done)

pub answering-Returns :
    {E : Type 0} (f : E → Invoice → Intervention → ℕ → ExecutionResult × E) → Returns (answering f)
answering-Returns f e r i tick = (f e r i tick, refl)

-- `SimulatedExecutor.perform`; it keeps no state.
unfoldable pub simulated_perform :
    {E : Type 0} → String → E → Invoice → Intervention → ℕ → ExecutionResult × E
simulated_perform run_id e r i tick = if (spec i).api_units == 0 then (not_executed, e) else (
  record {
    kind = ExecutorKind.simulated;
    external_ref =
        some ("sim_link_" ++ (run_id ++ ("_" ++ (r.invoice_id ++ ("_" ++ decimal tick)))));
  },
  e,
)
