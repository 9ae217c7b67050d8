-- ===== src/Audit/Log/Chain.antt =====
-- The hash chain under appending, editing and resuming.
use recoup_ai.Base.{
  ℕ, ◌+◌, ◌≡◌, ◌≢◌, refl, sym, ◌∙◌, ap, Bool, true, ◌&&◌, List, [], ◌∷◌, ◌++◌, String, arith,
  length, ◌==◌, ◌=s=◌, eq_iff, All,
}
use text.Mathlib.TextPositions.{eq_refl}
use recoup_ai.Base.Errors.{ok}
use recoup_ai.Domain.Enums.{Arm, arm_eq_refl}
use recoup_ai.Domain.Models.Rows.{AuditRow}
use recoup_ai.Audit.Log.{
  genesis_hash, AuditLog, new_log, RowContent, next_row, same_run, append, verify_from,
  verify_chain, hash_after, resume,
}

-- The three tests that a row at `index` passes.
abbrev linked : AuditRow → ℕ → String → AuditRow → Bool
linked first index previous row =
    (row.row_id == index) && (same_run first row && (row.prev_row_hash =s= previous))

linked-next :
    (first : AuditRow) (index : ℕ) (previous : String) (row : AuditRow)
    → linked first index previous row ≡ true
    → row.prev_row_hash ≡ previous
linked-next first index previous row h = ground (arith, eq_iff row.prev_row_hash previous)

All-snoc {ℓ κ} :
    {A : Type ℓ} (P : A → Type κ) (xs : List A) (y : A) → All P xs → P y → All P (xs ++ y ∷ [])
All-snoc P [] y a p = (p, tt)
All-snoc P (x ∷ xs) y a p = (a.0, All-snoc P xs y a.1 p)

module _ (row_hash : AuditRow → String) where
  verify_cons :
      (first : AuditRow) (index : ℕ) (previous : String) (x : AuditRow) (xs : List AuditRow)
      → linked first index previous x ≡ true
      → verify_from row_hash first index previous (x ∷ xs)
        ≡ verify_from row_hash first (index + 1) (row_hash x) xs
  unfolding verify_from
  verify_cons first index previous x xs h = ground arith

  verify_uncons :
      (first : AuditRow) (index : ℕ) (previous : String) (x : AuditRow) (xs : List AuditRow)
      → verify_from row_hash first index previous (x ∷ xs) ≡ ok tt
      → linked first index previous x ≡ true
  unfolding verify_from
  verify_uncons first index previous x xs h = ground arith

  verify_from-append :
      (first : AuditRow) (index : ℕ) (previous : String) (xs ys : List AuditRow)
      → verify_from row_hash first index previous xs ≡ ok tt
      → verify_from row_hash first index previous (xs ++ ys)
        ≡ verify_from row_hash first (index + length xs) (hash_after row_hash previous xs) ys
  unfolding hash_after
  verify_from-append first index previous [] ys h =
      ap (λ n. verify_from row_hash first n previous ys) (omega arith)
  verify_from-append first index previous (x ∷ xs) ys h =
      let link = verify_uncons first index previous x xs h in
      verify_cons first index previous x (xs ++ ys) link
      ∙ verify_from-append first (index + 1) (row_hash x) xs ys
          (sym (verify_cons first index previous x xs link) ∙ h)
      ∙ ap (λ n. verify_from row_hash first n (hash_after row_hash (row_hash x) xs) ys)
          (omega arith)

  hash_after-append :
      (previous : String) (xs ys : List AuditRow)
      → hash_after row_hash previous (xs ++ ys)
        ≡ hash_after row_hash (hash_after row_hash previous xs) ys
  unfolding hash_after
  hash_after-append previous [] ys = refl
  hash_after-append previous (x ∷ xs) ys = hash_after-append (row_hash x) xs ys

  -- A log whose chain is intact, whoever its first row is taken to be.
  pub record IsIntact (log : AuditLog) : Type 0 where
    pub verified :
        (first : AuditRow)
        → first.run_id ≡ log.run_id
        → first.arm ≡ log.arm
        → verify_from row_hash first 0 genesis_hash log.rows ≡ ok tt
    pub chained : log.last_hash ≡ hash_after row_hash genesis_hash log.rows
    pub owned : All (λ r. (r.run_id ≡ log.run_id) × (r.arm ≡ log.arm)) log.rows

  pub new_log-IsIntact : (run_id : String) (arm : Arm) → IsIntact (new_log run_id arm)
  unfolding verify_from hash_after
  new_log-IsIntact run_id arm = record { verified = λ first p q. refl; chained = refl; owned = tt }

  next_row-linked :
      (log : AuditLog) (c : RowContent) (first : AuditRow)
      → first.run_id ≡ log.run_id
      → first.arm ≡ log.arm
      → linked first (length log.rows) log.last_hash (next_row log c) ≡ true
  unfolding next_row same_run
  next_row-linked log c first p q =
      ground
        (arith, p, q, eq_iff log.run_id first.run_id, eq_refl log.last_hash, arm_eq_refl log.arm)

  -- Appending a row keeps the chain intact.
  pub append-IsIntact :
      (log : AuditLog) (c : RowContent) → IsIntact log → IsIntact (append row_hash log c)
  unfolding append
  append-IsIntact log c h = record {
    verified = λ first p q.
        verify_from-append first 0 genesis_hash log.rows (next_row log c ∷ [])
          (h.verified first p q)
        ∙ ap
            (λ n.
              verify_from row_hash first n (hash_after row_hash genesis_hash log.rows)
                (next_row log c ∷ []))
            (omega arith)
        ∙ ap (λ n. verify_from row_hash first (length log.rows) n (next_row log c ∷ []))
            (sym h.chained)
        ∙ verify_cons first (length log.rows) log.last_hash (next_row log c) []
            (next_row-linked log c first p q)
        ∙ unfold verify_from in refl;
    chained =
        sym (
          hash_after-append genesis_hash log.rows (next_row log c ∷ [])
          ∙ unfold hash_after in refl);
    owned =
        All-snoc (λ r. (r.run_id ≡ log.run_id) × (r.arm ≡ log.arm)) log.rows (next_row log c)
          h.owned (unfold next_row in (refl, refl));
  }

  verify_chain_lem :
      (run_id : String) (arm : Arm) (rows : List AuditRow)
      → ((first : AuditRow)
          → first.run_id ≡ run_id
          → first.arm ≡ arm
          → verify_from row_hash first 0 genesis_hash rows ≡ ok tt)
      → All (λ r. (r.run_id ≡ run_id) × (r.arm ≡ arm)) rows
      → verify_chain row_hash rows ≡ ok tt
  unfolding verify_chain
  verify_chain_lem run_id arm [] v o = refl
  verify_chain_lem run_id arm (r ∷ rs) v o = v r o.0.0 o.0.1

  -- An intact log passes `verify_chain`.
  pub IsIntact-verify_chain :
      (log : AuditLog) → IsIntact log → verify_chain row_hash log.rows ≡ ok tt
  IsIntact-verify_chain log h = verify_chain_lem log.run_id log.arm log.rows h.verified h.owned

  -- A log after a run of calls of `append`.
  abbrev pub append_all : AuditLog → List RowContent → AuditLog
  append_all log [] = log
  append_all log (c ∷ cs) = append_all (append row_hash log c) cs

  append_all-IsIntact :
      (log : AuditLog) (cs : List RowContent) → IsIntact log → IsIntact (append_all log cs)
  append_all-IsIntact log [] h = h
  append_all-IsIntact log (c ∷ cs) h =
      append_all-IsIntact (append row_hash log c) cs (append-IsIntact log c h)

  -- Whatever rows are appended to a new log, and whatever the content hash is, its chain verifies.
  pub append_all-verify_chain :
      (run_id : String) (arm : Arm) (cs : List RowContent)
      → verify_chain row_hash (append_all (new_log run_id arm) cs).rows ≡ ok tt
  append_all-verify_chain run_id arm cs =
      IsIntact-verify_chain (append_all (new_log run_id arm) cs)
        (append_all-IsIntact (new_log run_id arm) cs (new_log-IsIntact run_id arm))

  -- The row after `b` in a chain that verifies names the hash of `b`.
  verify_from-next :
      (first : AuditRow) (index : ℕ) (previous : String) (xs : List AuditRow) (b y : AuditRow)
      (ys : List AuditRow)
      → verify_from row_hash first index previous (xs ++ b ∷ y ∷ ys) ≡ ok tt
      → y.prev_row_hash ≡ row_hash b
  verify_from-next first index previous [] b y ys h = linked-next first (index + 1) (row_hash b) y (
      verify_uncons first (index + 1) (row_hash b) y ys (
        sym (
          verify_cons first index previous b (y ∷ ys)
            (verify_uncons first index previous b (y ∷ ys) h))
        ∙ h))
  verify_from-next first index previous (x ∷ xs) b y ys h =
      verify_from-next first (index + 1) (row_hash x) xs b y ys (
        sym (
          verify_cons first index previous x (xs ++ b ∷ y ∷ ys)
            (verify_uncons first index previous x (xs ++ b ∷ y ∷ ys) h))
        ∙ h)

  verify_chain-next :
      (xs : List AuditRow) (b y : AuditRow) (ys : List AuditRow)
      → verify_chain row_hash (xs ++ b ∷ y ∷ ys) ≡ ok tt
      → y.prev_row_hash ≡ row_hash b
  unfolding verify_chain
  verify_chain-next [] b y ys h = verify_from-next b 0 genesis_hash [] b y ys h
  verify_chain-next (x ∷ xs) b y ys h = verify_from-next x 0 genesis_hash (x ∷ xs) b y ys h

  -- In a log whose chain verifies, putting a row of another content hash in the place of any row
  -- but the last breaks the chain.
  pub verify_chain-edit :
      (xs : List AuditRow) (a b y : AuditRow) (ys : List AuditRow)
      → row_hash a ≢ row_hash b
      → verify_chain row_hash (xs ++ a ∷ y ∷ ys) ≡ ok tt
      → verify_chain row_hash (xs ++ b ∷ y ∷ ys) ≢ ok tt
  verify_chain-edit xs a b y ys d h e =
      d (sym (verify_chain-next xs a y ys h) ∙ verify_chain-next xs b y ys e)

  resume_cons :
      (r : AuditRow) (rs : List AuditRow)
      → verify_chain row_hash (r ∷ rs) ≡ ok tt
      → resume row_hash (r ∷ rs)
        ≡ ok (record {
          run_id = r.run_id;
          arm = r.arm;
          rows = r ∷ rs;
          last_hash = hash_after row_hash genesis_hash (r ∷ rs);
        })
  unfolding resume
  resume_cons r rs v = rw v refl

  -- Resuming the rows of an intact log that has any gives that log back.
  pub resume_lem :
      (log : AuditLog) (r : AuditRow) (rs : List AuditRow)
      → log.rows ≡ r ∷ rs
      → IsIntact log
      → resume row_hash log.rows ≡ ok log
  resume_lem log r rs e h =
      let v : verify_chain row_hash (r ∷ rs) ≡ ok tt =
        ap (verify_chain row_hash) (sym e) ∙ IsIntact-verify_chain log h in
      let o : (r.run_id ≡ log.run_id) × (r.arm ≡ log.arm) = (rw e at h.owned).0 in
      let c : log.last_hash ≡ hash_after row_hash genesis_hash (r ∷ rs) =
        h.chained ∙ ap (hash_after row_hash genesis_hash) e in
      rw e (resume_cons r rs v ∙ ground (arith, o, c, e))
