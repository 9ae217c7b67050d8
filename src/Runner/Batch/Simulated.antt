-- ===== src/Runner/Batch/Simulated.antt =====
-- The loop with the policy engine as its gate and the seeded adjudicator as its payers, which is how
-- the batch commands run it.
use recoup_ai.Ledger.Clock.{virtual_date, last_date}
use recoup_ai.Base.{◌≤◌, ℕ, ◌≡◌, List, String}
use recoup_ai.Base.Errors.{ok}
use recoup_ai.Domain.Enums.{Arm, Intervention}
use recoup_ai.Domain.Models.Invoices.{Invoice}
use recoup_ai.Ledger.Adjudicator.{Platform, resolve_response, resolve_promise, resolve_spontaneous}
use recoup_ai.Ledger.Adjudicator.Answers.{resolve_response_lem}
use recoup_ai.Policy.Engine.{PolicyEngine}
use recoup_ai.Runner.Batch.{ExecutionResult, Collaborators}
use recoup_ai.Runner.Batch.Replayed.{IsAccountable}
use recoup_ai.Runner.Batch.Governed.{with_engine, governed-IsAccountable}

-- `Adjudicator(seed)` as the loop's adjudicator.
abbrev pub with_adjudicator : {W : Type 0} → Platform → ℕ → Collaborators W → Collaborators W
with_adjudicator m seed c = record c {
  resolve_response = resolve_response m seed;
  resolve_promise = resolve_promise m seed;
  resolve_spontaneous = resolve_spontaneous m seed;
}

-- Under the policy engine in its fixed rule order and the seeded adjudicator, a run over any batch,
-- with any seed, proposer, promise phrases and row hash, any executor that does not raise and any
-- horizon by the end of year 9999, returns with the clock at its horizon, after a turn of the loop
-- for every tick before it; its log's chain verifies, and replaying the log over the opening batch
-- gives the run's own ledger, contacts, API units and vetoes.
pub simulated-IsAccountable :
    {V : Type 0} (m : Platform) (seed : ℕ) (c : Collaborators (PolicyEngine × V))
    (records : List Invoice) (run_id : String) (arm : Arm) (horizon : ℕ) (w : PolicyEngine × V)
    → ((w : PolicyEngine × V) (r : Invoice) (i : Intervention) (tick : ℕ)
        → (done : ExecutionResult × (PolicyEngine × V)) × (c.perform w r i tick ≡ ok done))
    → virtual_date horizon ≤ last_date
    → IsAccountable (with_engine (with_adjudicator m seed c)) records run_id arm horizon w
simulated-IsAccountable m seed c records run_id arm horizon w returns dates =
    governed-IsAccountable (with_adjudicator m seed c) records run_id arm horizon w
      (λ r tick i contacts h.
        let (o, answers, priced) = (resolve_response_lem m seed r tick i contacts).0 h in
        (o, answers))
      returns dates
