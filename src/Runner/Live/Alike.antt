-- ===== src/Runner/Live/Alike.antt =====
-- Two passes that differ in their proposer's and executor's states and in what was real: their
-- results are alike when both raise the same or both return runs that agree in all else.
use recoup_ai.Base.{ℕ, suc, ◌≡◌, refl, sym, ◌∙◌, ap, List, [], ◌∷◌, ◌++◌, map, length, String}
use recoup_ai.Base.Errors.{Result, ok, err, ◌>>=◌}
use recoup_ai.Domain.Models.Rows.{AuditRow}
use recoup_ai.Domain.Enums.{Arm}
use recoup_ai.Audit.Log.{AuditLog, RowContent, append, next_row}
use recoup_ai.Runner.Batch.{Run, each}
use recoup_ai.Runner.Live.{without_executor, fingerprint}

-- Two results: both raised the same, or both returned values that `R` relates.
abbrev pub Alike {ℓ κ} : {A : Type ℓ} {B : Type κ} → (A → B → Type 0) → Result A → Result B → Type 0
Alike R (err e) (err f) = e ≡ f
Alike R (ok a) (ok b) = R a b
Alike R _ _ = ⊥

pub then-Alike {ℓ κ μ ν} :
    {A : Type ℓ} {B : Type κ} {C : Type μ} {D : Type ν} {R : A → B → Type 0} (S : C → D → Type 0)
    (m : Result A) (n : Result B) (f : A → Result C) (g : B → Result D)
    → Alike R m n
    → ((a : A) (b : B) → R a b → Alike S (f a) (g b))
    → Alike S (m >>= f) (n >>= g)
then-Alike S (err e) (err f') f g h k = h
then-Alike S (ok a) (ok b) f g h k = k a b h
then-Alike S (err e) (ok b) f g h k = absurd h
then-Alike S (ok a) (err e) f g h k = absurd h

-- The same call on both sides.
pub call-Alike {ℓ μ ν} :
    {A : Type ℓ} {C : Type μ} {D : Type ν} (S : C → D → Type 0) (m : Result A) (f : A → Result C)
    (g : A → Result D)
    → ((a : A) → Alike S (f a) (g a))
    → Alike S (m >>= f) (m >>= g)
call-Alike S (err e) f g k = refl
call-Alike S (ok a) f g k = k a

-- Logs that agree in all but the hashes and what was real.
pub record SameLog (log other : AuditLog) : Type 0 where
  pub run_id : log.run_id ≡ other.run_id
  pub arm : log.arm ≡ other.arm
  pub rows : map fingerprint log.rows ≡ map fingerprint other.rows

length-map {ℓ κ} :
    {A : Type ℓ} {B : Type κ} (f : A → B) (xs : List A) → length (map f xs) ≡ length xs
length-map f [] = refl
length-map f (x ∷ xs) = ap suc (length-map f xs)

map-append {ℓ κ} :
    {A : Type ℓ} {B : Type κ} (f : A → B) (xs ys : List A) → map f (xs ++ ys) ≡ map f xs ++ map f ys
map-append f [] ys = refl
map-append f (x ∷ xs) ys = ap (λ zs. f x ∷ zs) (map-append f xs ys)

pub length-SameLog :
    (log other : AuditLog) → SameLog log other → length log.rows ≡ length other.rows
length-SameLog log other h =
    sym (length-map fingerprint log.rows) ∙ ap length h.rows ∙ length-map fingerprint other.rows

abbrev bare : RowContent → RowContent
bare c = record c { action = without_executor c.action }

-- The fingerprint of the row that `append` builds.
abbrev framed : String → Arm → ℕ → RowContent → AuditRow
framed run_id arm row_id c = record {
  run_id = run_id;
  arm = arm;
  row_id = row_id;
  prev_row_hash = "";
  kind = c.kind;
  tick = c.tick;
  record_id = c.record_id;
  input_snapshot = c.input_snapshot;
  llm_proposal = c.llm_proposal;
  policy_verdict = c.policy_verdict;
  policy_rule = c.policy_rule;
  action = c.action;
  outcome = c.outcome;
}

next_row-fingerprint :
    (log other : AuditLog) (c d : RowContent)
    → SameLog log other
    → bare c ≡ bare d
    → fingerprint (next_row log c) ≡ fingerprint (next_row other d)
unfolding fingerprint next_row
next_row-fingerprint log other c d h e =
    ap (λ x. framed log.run_id log.arm (length log.rows) x) e
    ∙ ap (λ x. framed x log.arm (length log.rows) (bare d)) h.run_id
    ∙ ap (λ x. framed other.run_id x (length log.rows) (bare d)) h.arm
    ∙ ap (λ x. framed other.run_id other.arm x (bare d)) (length-SameLog log other h)

pub append-SameLog :
    (row_hash : AuditRow → String) (log other : AuditLog) (c d : RowContent)
    → SameLog log other
    → bare c ≡ bare d
    → SameLog (append row_hash log c) (append row_hash other d)
unfolding append next_row fingerprint
append-SameLog row_hash log other c d h e = record {
  run_id = h.run_id;
  arm = h.arm;
  rows =
      map-append fingerprint log.rows (next_row log c ∷ [])
      ∙ ap (λ rs. rs ++ fingerprint (next_row log c) ∷ []) h.rows
      ∙ ap (λ r. map fingerprint other.rows ++ r ∷ []) (next_row-fingerprint log other c d h e)
      ∙ sym (map-append fingerprint other.rows (next_row other d ∷ []));
}

module _ {P G E F : Type 0} where
  -- Two runs that agree in all but the states of proposer and executor and in their logs' hashes.
  pub record Same (run : Run (G × (P × E))) (other : Run (G × (P × F))) : Type 0 where
    pub ledger : run.ledger ≡ other.ledger
    pub log : SameLog run.log other.log
    pub contacts : run.contacts ≡ other.contacts
    pub api_units : run.api_units ≡ other.api_units
    pub vetoed : run.vetoed ≡ other.vetoed
    pub decisions : run.decisions ≡ other.decisions
    pub written_off : run.written_off ≡ other.written_off
    pub pending : run.pending ≡ other.pending
    pub gate : run.world.0 ≡ other.world.0

  -- A loop whose turns keep two runs alike keeps them alike.
  pub each-Alike {ℓ} :
      {A : Type ℓ} (f : A → Run (G × (P × E)) → Result (Run (G × (P × E))))
      (g : A → Run (G × (P × F)) → Result (Run (G × (P × F)))) (xs : List A)
      (run : Run (G × (P × E))) (other : Run (G × (P × F)))
      → ((x : A) (r : Run (G × (P × E))) (s : Run (G × (P × F)))
          → Same r s
          → Alike Same (f x r) (g x s))
      → Same run other
      → Alike Same (each f xs run) (each g xs other)
  unfolding each
  each-Alike f g [] run other turn h = h
  each-Alike f g (x ∷ xs) run other turn h =
      then-Alike Same (f x run) (g x other) (each f xs) (each g xs) (turn x run other h)
        (λ r s k. each-Alike f g xs r s turn k)

  -- The same over two lists that are equal.
  pub loop-Alike {ℓ} :
      {A : Type ℓ} (f : A → Run (G × (P × E)) → Result (Run (G × (P × E))))
      (g : A → Run (G × (P × F)) → Result (Run (G × (P × F)))) (xs ys : List A)
      (run : Run (G × (P × E))) (other : Run (G × (P × F)))
      → ((x : A) (r : Run (G × (P × E))) (s : Run (G × (P × F)))
          → Same r s
          → Alike Same (f x r) (g x s))
      → xs ≡ ys
      → Same run other
      → Alike Same (each f xs run) (each g ys other)
  loop-Alike f g xs ys run other turn e h = rw e (each-Alike f g ys run other turn h)
