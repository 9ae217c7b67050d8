-- ===== src/Runner/Live.antt =====
-- src/recoup/runner/batch.py: `run_live_batch`, the rehearsal of a run and the live pass after it.
-- The JSON form of a row (`model_dump`) is the parameter `dump`.
pub mod Alike
pub mod Steps
pub mod Choices
pub mod Rehearsal
pub mod Outcomes
pub mod Governed
use recoup_ai.Base.{
  ℕ, Bool, true, false, not, ◌&&◌, Option, none, some, List, [], ◌∷◌, map, length, String, ◌==◌,
  ◌=s=◌, if◌then◌else◌,
}
use recoup_ai.Base.Errors.{Error, Result, ok, err, ◌>>=◌, ◌>>◌, raise_if}
use recoup_ai.Domain.Enums.{Arm, ExecutorKind, Intervention}
use recoup_ai.Domain.Models.Invoices.{Invoice, Snapshot}
use recoup_ai.Domain.Models.Proposals.{PolicyVerdict, Proposal}
use recoup_ai.Domain.Models.Rows.{ActionRecord, AuditRow, OutcomeRecord}
use recoup_ai.Ledger.States.{is_terminal}
use recoup_ai.Ledger.Records.{Ledger, get}
use recoup_ai.Executor.Budget.{LinkAllocator, demand_from_log, new_allocator, shortlisted}
use recoup_ai.Executor.Simulated.{Executor, answering, simulated_perform}
use recoup_ai.Runner.Batch.{Collaborators, Run}
use recoup_ai.Runner.Batch.Loop.{run_batch}

-- What the two passes share: the proposer, over its own state `P`, the gate, over `G`, the
-- adjudicator and the hash.
pub record Parts (P G : Type 0) : Type 0 where
  pub propose : P → Snapshot → ℕ → Proposal × P
  pub policy : Option (G → Invoice → Proposal → ℕ → Ledger → Result (PolicyVerdict × G))
  pub resolve_response : Invoice → ℕ → Intervention → ℕ → Result OutcomeRecord
  pub resolve_promise : Invoice → ℕ → Option OutcomeRecord
  pub resolve_spontaneous : Invoice → ℕ → Option OutcomeRecord
  pub resolve_promise_phrase : String → ℕ → Option ℕ
  pub row_hash : AuditRow → String

module _ {P G E : Type 0} where
  -- A gate beside the states of the proposer and the executor.
  abbrev pub gate_beside :
      (G → Invoice → Proposal → ℕ → Ledger → Result (PolicyVerdict × G))
      → G × (P × E)
      → Invoice
      → Proposal
      → ℕ
      → Ledger
      → Result (PolicyVerdict × (G × (P × E)))
  gate_beside g w r p tick l = g w.0 r p tick l >>= λ a. ok (a.0, (a.1, w.1))

  abbrev pub policy_beside :
      Option (G → Invoice → Proposal → ℕ → Ledger → Result (PolicyVerdict × G))
      → Option
          (G × (P × E) → Invoice → Proposal → ℕ → Ledger → Result (PolicyVerdict × (G × (P × E))))
  policy_beside none = none
  policy_beside (some g) = some (gate_beside g)

  -- The collaborators of one pass.
  abbrev pub assemble : Parts P G → Executor E → Collaborators (G × (P × E))
  assemble parts executor = record {
    propose =
        λ w s tick. let asked = parts.propose w.1.0 s tick in (asked.0, (w.0, (asked.1, w.1.1)));
    policy = policy_beside parts.policy;
    perform = λ w r i tick. executor w.1.1 r i tick >>= λ done. ok (done.0, (w.0, (w.1.0, done.1)));
    resolve_response = parts.resolve_response;
    resolve_promise = parts.resolve_promise;
    resolve_spontaneous = parts.resolve_spontaneous;
    resolve_promise_phrase = parts.resolve_promise_phrase;
    row_hash = parts.row_hash;
  }

-- `action.pop("executor")`, `action.pop("external_ref")`: a field that is popped is given one value.
abbrev pub without_executor : Option ActionRecord → Option ActionRecord
without_executor none = none
without_executor (some a) =
    some (record a { executor = ExecutorKind.simulated; external_ref = none })

-- A row of `_decision_fingerprint`
unfoldable pub fingerprint : AuditRow → AuditRow
fingerprint row = record row { prev_row_hash = ""; action = without_executor row.action }

module _ (dump : AuditRow → String) where
  -- The loop of `assert_same_decisions`
  unfoldable pub assert_same_rows : List AuditRow → List AuditRow → Result (Unit {0})
  unfolding fingerprint
  assert_same_rows (a ∷ xs) (b ∷ ys) =
      let rest = assert_same_rows xs ys in
      if dump (fingerprint a) =s= dump (fingerprint b) then rest else err Error.live_run_divergence
  assert_same_rows _ _ = ok tt

  unfoldable pub assert_same_decisions : List AuditRow → List AuditRow → Result (Unit {0})
  unfolding assert_same_rows
  assert_same_decisions dry live = do
    raise_if (not (length dry == length live)) Error.live_run_divergence
    assert_same_rows dry live

-- `[... for allocation in shortlist if not is_terminal(...)]` has an item; a record that the ledger
-- lacks is a `KeyError`.
unfoldable pub any_payable : Ledger → List String → Result Bool
any_payable l [] = ok false
any_payable l (k ∷ ks) = do
  r ← get l k
  rest ← any_payable l ks
  ok (if is_terminal r.state then rest else true)

-- The pre-flight test.
unfoldable pub preflight : Bool → Ledger → List String → Result (Unit {0})
unfolding any_payable
preflight false l ks = ok tt
preflight true l ks = do payable ← any_payable l ks; raise_if (not payable) Error.no_payable_link

-- `LiveRunOutcome`
pub record LiveRunOutcome (P G E : Type 0) : Type 0 where
  pub dry : Run (G × (P × Unit {0}))
  pub live : Run (G × (P × E))
  pub allocator : LinkAllocator

module _ {P G E : Type 0} (dump : AuditRow → String) (parts : Parts P G)
    (executor : Executor E) where
  -- `run_live_batch`, over fresh gates `g`; the proposer of the live pass is the one that the dry
  -- pass leaves.
  unfoldable pub run_live_batch :
      (executor_factory : LinkAllocator → E) (records : List Invoice) (run_id : String) (arm : Arm)
      (horizon capacity : ℕ) (require_payable : Bool) (proposer : P) (g : G)
      → Result (LiveRunOutcome P G E)
  unfolding preflight assert_same_decisions
  run_live_batch executor_factory records run_id arm horizon capacity require_payable proposer g =
      do
        (_, dry) ←
            run_batch (assemble parts (answering (simulated_perform run_id))) records run_id arm
              horizon (g, (proposer, tt))
        let allocator = new_allocator (demand_from_log dry.log.rows) capacity
        preflight require_payable dry.ledger (shortlisted allocator)
        (_, live) ←
            run_batch (assemble parts executor) records run_id arm horizon
              (g, (dry.world.1.0, executor_factory allocator))
        assert_same_decisions dump dry.log.rows live.log.rows
        ok (record { dry = dry; live = live; allocator = allocator })
