-- ===== src/Audit/Replay/Rows.antt =====
-- Replaying row by row: the rows of two runs one after the other, and one more row at the end.
use recoup_ai.Base.{ℕ, ◌+◌, ◌≡◌, refl, sym, ◌∙◌, Option, List, [], ◌∷◌, ◌++◌, String}
use recoup_ai.Base.Errors.{Result, ok, err, ◌>>=◌}
use recoup_ai.Domain.Models.Invoices.{Invoice}
use recoup_ai.Domain.Models.Rows.{AuditRow}
use recoup_ai.Ledger.Records.{get}
use recoup_ai.Audit.Replay.{ReplayResult, apply_row, replay_row, replay_rows}

>>=-assoc {ℓ κ μ} :
    {A : Type ℓ} {B : Type κ} {C : Type μ} (m : Result A) (f : A → Result B) (g : B → Result C)
    → ((m >>= f) >>= g) ≡ (m >>= λ a. f a >>= g)
>>=-assoc (ok a) f g = refl
>>=-assoc (err e) f g = refl

>>=-ext {ℓ κ} :
    {A : Type ℓ} {B : Type κ} (m : Result A) (f g : A → Result B)
    → ((a : A) → f a ≡ g a)
    → (m >>= f) ≡ (m >>= g)
>>=-ext (ok a) f g h = h a
>>=-ext (err e) f g h = refl

module _ (resolve_phrase : String → ℕ → Option ℕ) where
  -- Replaying two lists of rows is replaying the first and then, from there, the second.
  pub replay_rows-append :
      (s : ReplayResult) (xs ys : List AuditRow)
      → replay_rows resolve_phrase s (xs ++ ys)
        ≡ (replay_rows resolve_phrase s xs >>= λ t. replay_rows resolve_phrase t ys)
  unfolding replay_rows
  replay_rows-append s [] ys = refl
  replay_rows-append s (x ∷ xs) ys =
      >>=-ext (replay_row resolve_phrase s x) (λ t. replay_rows resolve_phrase t (xs ++ ys))
        (λ t. replay_rows resolve_phrase t xs >>= λ u. replay_rows resolve_phrase u ys)
        (λ t. replay_rows-append t xs ys)
      ∙ sym (
          >>=-assoc (replay_row resolve_phrase s x) (λ t. replay_rows resolve_phrase t xs)
            (λ u. replay_rows resolve_phrase u ys))

  -- One more row, whose record is found and whose effect is `u`.
  pub replay_rows-snoc :
      (s t u : ReplayResult) (rows : List AuditRow) (row : AuditRow) (r : Invoice)
      → replay_rows resolve_phrase s rows ≡ ok t
      → get t.ledger row.record_id ≡ ok r
      → apply_row resolve_phrase t r row row.kind ≡ ok u
      → replay_rows resolve_phrase s (rows ++ row ∷ [])
        ≡ ok (record u { rows_applied = u.rows_applied + 1 })
  unfolding replay_rows replay_row
  replay_rows-snoc s t u rows row r h g a = replay_rows-append s rows (row ∷ []) ∙ rw (h, g, a) refl
