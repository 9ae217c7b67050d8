-- ===== src/Base/Sorting.antt =====
-- What a sort keeps, whatever its order.
use Prim.Native.Nat.{ℕ, suc, ◌+◌}
use Prim.Native.String.{String}
use mathlib.Core.Path.{◌≡◌, refl, ap, ◌∙◌}
use mathlib.Core.Logic.{inl, inr}
use mathlib.Core.Bool.{Bool, false, ◌||◌}
use mathlib.Core.List.{List, [], ◌∷◌, map}
use native.Mathlib.Omega.{arith}
use recoup_ai.Base.Tests.{if◌then◌else◌, ◌=s=◌, Bool-cases}
use text.Mathlib.TextEquality.{eq_iff}
use recoup_ai.Base.Distinct.{Unique}
use recoup_ai.Base.Lists.{length, contains, All, insert_by, sort_by}

-- How many different texts.
unfoldable pub distinct_count : List String → ℕ
distinct_count [] = 0
distinct_count (x ∷ xs) = let rest = distinct_count xs in if contains x xs then rest else rest + 1

module _ {ℓ} {A : Type ℓ} (le : A → A → Bool) where
  length-insert_by : (x : A) (xs : List A) → length (insert_by le x xs) ≡ suc (length xs)
  length-insert_by x [] = refl
  length-insert_by x (y ∷ ys) = ground (arith, length-insert_by x ys)

  pub length-sort_by : (xs : List A) → length (sort_by le xs) ≡ length xs
  length-sort_by [] = refl
  length-sort_by (x ∷ xs) = omega (arith, length-insert_by x (sort_by le xs), length-sort_by xs)

  All-insert_by {κ} :
      (P : A → Type κ) (x : A) (xs : List A) → P x → All P xs → All P (insert_by le x xs)
  All-insert_by P x [] p a = (p, tt)
  All-insert_by P x (y ∷ ys) p a = elim (Bool-cases (le x y)) [
    | inl h ↦ rw h (p, a)
    | inr h ↦ rw h (a.0, All-insert_by P x ys p a.1)
  ]

  pub All-sort_by {κ} : (P : A → Type κ) (xs : List A) → All P xs → All P (sort_by le xs)
  All-sort_by P [] a = tt
  All-sort_by P (x ∷ xs) a = All-insert_by P x (sort_by le xs) a.0 (All-sort_by P xs a.1)

  module _ (f : A → String) where
    contains-insert_by :
        (s : String) (x : A) (xs : List A)
        → contains s (map f (insert_by le x xs)) ≡ (f x =s= s) || contains s (map f xs)
    contains-insert_by s x [] = refl
    contains-insert_by s x (y ∷ ys) = ground (arith, contains-insert_by s x ys)

    pub contains-sort_by :
        (s : String) (xs : List A) → contains s (map f (sort_by le xs)) ≡ contains s (map f xs)
    contains-sort_by s [] = refl
    contains-sort_by s (x ∷ xs) =
        contains-insert_by s x (sort_by le xs) ∙ ap (λ b. (f x =s= s) || b) (contains-sort_by s xs)

    distinct_count-insert_by :
        (x : A) (xs : List A)
        → distinct_count (map f (insert_by le x xs)) ≡ distinct_count (f x ∷ map f xs)
    unfolding distinct_count
    distinct_count-insert_by x [] = refl
    distinct_count-insert_by x (y ∷ ys) = ground (
      arith,
      distinct_count-insert_by x ys,
      contains-insert_by (f y) x ys,
      eq_iff (f x) (f y),
      eq_iff (f y) (f x),
    )

    pub distinct_count-sort_by :
        (xs : List A) → distinct_count (map f (sort_by le xs)) ≡ distinct_count (map f xs)
    unfolding distinct_count
    distinct_count-sort_by [] = refl
    distinct_count-sort_by (x ∷ xs) =
        distinct_count-insert_by x (sort_by le xs)
        ∙ ground (arith, contains-sort_by (f x) xs, distinct_count-sort_by xs)

    Unique-insert_by :
        (x : A) (xs : List A)
        → contains (f x) (map f xs) ≡ false
        → Unique (map f xs)
        → Unique (map f (insert_by le x xs))
    Unique-insert_by x [] n u = (refl, tt)
    Unique-insert_by x (y ∷ ys) n u = elim (Bool-cases (le x y)) [
      | inl h ↦ rw h (n, u)
      | inr h ↦ rw h (
        ground
            (arith, contains-insert_by (f y) x ys, n, u.0, eq_iff (f x) (f y), eq_iff (f y) (f x)),
        Unique-insert_by x ys (ground (arith, n)) u.1,
      )
    ]

    pub Unique-sort_by : (xs : List A) → Unique (map f xs) → Unique (map f (sort_by le xs))
    Unique-sort_by [] u = tt
    Unique-sort_by (x ∷ xs) u =
        Unique-insert_by x (sort_by le xs) (contains-sort_by (f x) xs ∙ u.0) (Unique-sort_by xs u.1)

-- A sort by a key, and the sort of the keys.
module _ {ℓ} {A : Type ℓ} (le : String → String → Bool) (f : A → String) where
  map-insert_by :
      (x : A) (xs : List A)
      → map f (insert_by (λ a b. le (f a) (f b)) x xs) ≡ insert_by le (f x) (map f xs)
  map-insert_by x [] = refl
  map-insert_by x (y ∷ ys) = elim (Bool-cases (le (f x) (f y))) [
    | inl h ↦ rw h refl
    | inr h ↦ rw h (ap (λ zs. f y ∷ zs) (map-insert_by x ys))
  ]

  pub map-sort_by :
      (xs : List A) → map f (sort_by (λ a b. le (f a) (f b)) xs) ≡ sort_by le (map f xs)
  map-sort_by [] = refl
  map-sort_by (x ∷ xs) =
      map-insert_by x (sort_by (λ a b. le (f a) (f b)) xs)
      ∙ ap (insert_by le (f x)) (map-sort_by xs)
