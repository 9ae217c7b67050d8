-- ===== src/Runner/Live/Outcomes.antt =====
-- A live run from its rehearsal on: the check that the passes agree, and what a whole live run gives.
use text.Mathlib.TextPositions.{eq_refl}
use recoup_ai.Base.{
  ℕ, ◌≡◌, refl, sym, Bool, false, not, List, [], ◌∷◌, map, length, String, ◌==◌, arith,
}
use recoup_ai.Base.Errors.{Error, Result, ok, err}
use recoup_ai.Domain.Enums.{Arm}
use recoup_ai.Domain.Models.Invoices.{Invoice, Snapshot}
use recoup_ai.Domain.Models.Rows.{AuditRow}
use recoup_ai.Ledger.Clock.{VirtualClock}
use recoup_ai.Executor.Budget.{LinkAllocator, demand_from_log, new_allocator, shortlisted}
use recoup_ai.Executor.Simulated.{
  Executor, Returns, answering, answering-Returns, simulated_perform,
}
use recoup_ai.Runner.Batch.{Run}
use recoup_ai.Runner.Batch.Loop.{run_batch}
use recoup_ai.Runner.Live.{
  Parts, assemble, fingerprint, assert_same_rows, assert_same_decisions, preflight, run_live_batch,
}
use recoup_ai.Runner.Live.Alike.{Alike, length-SameLog, Same}
use recoup_ai.Runner.Live.Rehearsal.{run_batch-Alike}

module _ (dump : AuditRow → String) where
  same_rows :
      (xs ys : List AuditRow)
      → map fingerprint xs ≡ map fingerprint ys
      → assert_same_rows dump xs ys ≡ ok tt
  unfolding assert_same_rows
  same_rows [] [] h = refl
  same_rows [] (y ∷ ys) h = refl
  same_rows (x ∷ xs) [] h = refl
  same_rows (x ∷ xs) (y ∷ ys) h =
      let first : fingerprint x ≡ fingerprint y = cc in
      rw (first, eq_refl (dump (fingerprint y))) (same_rows xs ys cc)

  same_count : (n m : ℕ) → n ≡ m → not (n == m) ≡ false
  same_count n m h = ground (arith, h)

  pub Same-assert_same_decisions :
      {P G E F : Type 0} (run : Run (G × (P × E))) (other : Run (G × (P × F)))
      → Same run other
      → assert_same_decisions dump run.log.rows other.log.rows ≡ ok tt
  unfolding assert_same_decisions
  Same-assert_same_decisions run other h =
      rw
        (same_count (length run.log.rows) (length other.log.rows)
          (length-SameLog run.log other.log h.log))
        (same_rows run.log.rows other.log.rows h.log.rows)

-- The other result of two that are alike, where one returned.
returned-Alike {ℓ κ} :
    {A : Type ℓ} {B : Type κ} (R : A → B → Type 0) (m : Result A) (n : Result B) (a : A)
    → Alike R m n
    → m ≡ ok a
    → (b : B) × (n ≡ ok b) × R a b
returned-Alike R (ok x) (ok b) a h e = let same : x ≡ a = cc in (b, refl, rw (sym same) h)
returned-Alike R (ok x) (err f) a h e = absurd h
returned-Alike R (err f) n a h e = cc

module _ {P G E : Type 0} (dump : AuditRow → String) (parts : Parts P G) (executor : Executor E)
    (executor_factory : LinkAllocator → E) (records : List Invoice) (run_id : String) (arm : Arm)
    (horizon capacity : ℕ) where
  -- What a live run comes to after a dry pass that ends in `dry`: the refusal of its pre-flight test,
  -- or two passes that agree in all but what was real.
  pub record Rehearsed (require_payable : Bool) (proposer : P) (g : G)
      (dry : Run (G × (P × Unit {0}))) : Type 0 where
    pub allocator : LinkAllocator
    pub planned : allocator ≡ new_allocator (demand_from_log dry.log.rows) capacity
    pub refuses :
        (e : Error)
        → preflight require_payable dry.ledger (shortlisted allocator) ≡ err e
        → run_live_batch dump parts executor executor_factory records run_id arm horizon capacity
            require_payable proposer g
          ≡ err e
    pub live : Run (G × (P × E))
    pub agrees : Same dry live
    pub returns :
        preflight require_payable dry.ledger (shortlisted allocator) ≡ ok tt
        → run_live_batch dump parts executor executor_factory records run_id arm horizon capacity
            require_payable proposer g
          ≡ ok (record { dry = dry; live = live; allocator = allocator })

  pub run_live_batch-Rehearsed :
      (require_payable : Bool) (proposer : P) (g : G)
      (dry : VirtualClock × Run (G × (P × Unit {0})))
      → Returns executor
      → ((p q : P) (s : Snapshot) (tick : ℕ)
          → (parts.propose p s tick).0 ≡ (parts.propose q s tick).0)
      → run_batch
          (assemble parts (answering (simulated_perform run_id)))
          records
          run_id
          arm
          horizon
          (g, (proposer, tt))
        ≡ ok dry
      → Rehearsed require_payable proposer g dry.1
  unfolding run_live_batch
  run_live_batch-Rehearsed require_payable proposer g dry executes steady rehearsed =
      let allocator = new_allocator (demand_from_log dry.1.log.rows) capacity in
      let (ended, returned, same) =
        returned-Alike _ _ _ dry
          (run_batch-Alike parts (answering (simulated_perform run_id)) executor
            (answering-Returns (simulated_perform run_id)) executes steady records run_id arm
            horizon (g, (proposer, tt)) (g, (dry.1.world.1.0, executor_factory allocator)) refl)
          rehearsed in
      record {
        allocator = allocator;
        planned = refl;
        refuses = λ e h. rw (rehearsed, h) refl;
        live = ended.1;
        agrees = same.1;
        returns = λ h.
            rw (rehearsed, h, returned, Same-assert_same_decisions dump dry.1 ended.1 same.1) refl;
      }
