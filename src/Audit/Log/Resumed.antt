-- ===== src/Audit/Log/Resumed.antt =====
-- The log that `AuditLog.resume` gives: it may be appended to.
use recoup_ai.Base.{
  ℕ, ◌+◌, ◌≡◌, refl, sym, ◌∙◌, ap, true, List, [], ◌∷◌, String, arith, eq_iff, All,
}
use recoup_ai.Base.Errors.{ok, call-then}
use recoup_ai.Domain.Enums.{Arm, arm_eq}
use recoup_ai.Domain.Models.Rows.{AuditRow}
use recoup_ai.Audit.Log.{genesis_hash, AuditLog, same_run, verify_from, verify_chain, resume}
use recoup_ai.Audit.Log.Chain.{IsIntact}

arm_eq→eq : (a b : Arm) → arm_eq a b ≡ true → a ≡ b
unfolding arm_eq
arm_eq→eq a b h = ground arith

abbrev OwnedBy : AuditRow → AuditRow → Type 0
OwnedBy first r = (r.run_id ≡ first.run_id) × (r.arm ≡ first.arm)

module _ (row_hash : AuditRow → String) where
  -- Every row that the walk accepts is of the first row's run.
  owned_rows :
      (first : AuditRow) (index : ℕ) (previous : String) (rows : List AuditRow)
      → verify_from row_hash first index previous rows ≡ ok tt
      → All (OwnedBy first) rows
  unfolding verify_from same_run
  owned_rows first index previous [] h = tt
  owned_rows first index previous (r ∷ rs) h = (
    ground (arith, h, eq_iff r.run_id first.run_id, arm_eq→eq r.arm first.arm),
    owned_rows first (index + 1) (row_hash r) rs (ground (arith, h)),
  )

  -- The walk reads only the run and the arm of the first row.
  verify_from-first :
      (first other : AuditRow) (index : ℕ) (previous : String) (rows : List AuditRow)
      → OwnedBy first other
      → verify_from row_hash other index previous rows
        ≡ verify_from row_hash first index previous rows
  unfolding verify_from same_run
  verify_from-first first other index previous [] o = refl
  verify_from-first first other index previous (r ∷ rs) o =
      rw (o.0, o.1, verify_from-first first other (index + 1) (row_hash r) rs o) refl

  -- A log that has been resumed has its rows, and its chain is intact.
  pub resume-IsIntact :
      (rows : List AuditRow) (log : AuditLog)
      → resume row_hash rows ≡ ok log
      → IsIntact row_hash log × (log.rows ≡ rows)
  unfolding resume verify_chain
  resume-IsIntact [] log h = cc
  resume-IsIntact (row ∷ rows) log h =
      let (done, verified, h1) = call-then (verify_chain row_hash (row ∷ rows)) _ h in
      let e : _ ≡ log = cc in
      (
        rw (sym e) (record {
          verified = λ first p q.
              verify_from-first row first 0 genesis_hash (row ∷ rows) (p, q) ∙ verified;
          chained = refl;
          owned = owned_rows row 0 genesis_hash (row ∷ rows) verified;
        }),
        sym (ap (λ l. l.rows) e),
      )
