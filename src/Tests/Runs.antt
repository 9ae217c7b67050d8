-- ===== src/Tests/Runs.antt =====
-- Whole runs over a book of two bills.
use recoup_ai.Base.{refl}
use recoup_ai.Domain.Enums.{Arm}
use recoup_ai.Policy.Engine.{PolicyEngine}
use recoup_ai.Runner.Batch.{Collaborators}
use recoup_ai.Runner.Batch.Advance.{IsReliable}
use recoup_ai.Runner.Batch.Replayed.{IsAccountable, run_batch-IsAccountable}
use recoup_ai.Tests.Data.{by_9999, book, collaborators}

abbrev ungated : Collaborators Unit
ungated = collaborators

abbrev gated : Collaborators (PolicyEngine × Unit)
gated = collaborators

ungated-IsReliable : IsReliable ungated
ungated-IsReliable = record {
  gate_answers = λ f w r p tick l h. cc;
  response_answers = λ r tick i contacts h. (_, refl);
  executor_returns = λ w r i tick. (_, refl);
}

run_batch-IsAccountable_example : IsAccountable ungated book "run_1" Arm.baseline 6 tt
run_batch-IsAccountable_example =
    run_batch-IsAccountable ungated book ungated-IsReliable "run_1" Arm.baseline 6 tt by_9999
