-- ===== src/Base/Distinct.antt =====
-- Lists of texts without repetition.
use Prim.Native.Nat.{◌≤◌, ◌<◌}
use Prim.Native.String.{String}
use mathlib.Core.Path.{◌≡◌, refl}
use mathlib.Core.Bool.{Bool, true, false, ◌||◌, not}
use mathlib.Core.List.{List, [], ◌∷◌, ◌++◌}
use native.Mathlib.Omega.{arith}
use text.Mathlib.TextEquality.{eq_iff}
use text.Mathlib.TextPositions.{eq_refl}
use recoup_ai.Base.Tests.{◌=s=◌}
use recoup_ai.Base.Lists.{length, filter, contains}

abbrev pub Unique : List String → Type 0
Unique [] = Unit
Unique (x ∷ xs) = (contains x xs ≡ false) × Unique xs

abbrev pub IsAmong : List String → List String → Type 0
IsAmong xs ys = (s : String) → contains s xs ≡ true → contains s ys ≡ true

eq_comm : (a b : String) → (a =s= b) ≡ (b =s= a)
eq_comm a b = ground (arith, eq_iff a b, eq_iff b a)

length-filter : (p : String → Bool) (ys : List String) → length (filter p ys) ≤ length ys
length-filter p [] = omega arith
length-filter p (y ∷ ys) = ground (arith, length-filter p ys)

pub contains-snoc :
    (s k : String) (xs : List String) → contains s (xs ++ k ∷ []) ≡ contains s xs || (k =s= s)
contains-snoc s k [] = ground arith
contains-snoc s k (x ∷ xs) = ground (arith, contains-snoc s k xs)

pub Unique-snoc :
    (xs : List String) (k : String) → contains k xs ≡ false → Unique xs → Unique (xs ++ k ∷ [])
Unique-snoc [] k h u = (refl, tt)
Unique-snoc (x ∷ xs) k h u =
    (ground (arith, contains-snoc x k xs, u.0, h, eq_comm x k), Unique-snoc xs k (ground arith) u.1)

-- A list less every copy of one text.
abbrev without : String → List String → List String
without x = filter (λ y. not (y =s= x))

without-shorter :
    (x : String) (ys : List String) → contains x ys ≡ true → length (without x ys) < length ys
without-shorter x [] h = ground arith
without-shorter x (y ∷ ys) h =
    ground (arith, without-shorter x ys, length-filter (λ z. not (z =s= x)) ys)

contains-without :
    (s x : String) (ys : List String)
    → contains s ys ≡ true
    → (x =s= s) ≡ false
    → contains s (without x ys) ≡ true
contains-without s x [] h d = h
contains-without s x (y ∷ ys) h d =
    ground (arith, contains-without s x ys, h, d, eq_iff y x, eq_iff y s, eq_iff x s)

apart :
    (s x : String) (xs : List String)
    → contains s xs ≡ true
    → contains x xs ≡ false
    → (x =s= s) ≡ false
apart s x xs h d = ground (arith, h, d, eq_iff x s)

-- A list without repetition, all of it among another's items, is no longer than that other.
pub length-among : (xs ys : List String) → Unique xs → IsAmong xs ys → length xs ≤ length ys
length-among [] ys u a = omega arith
length-among (x ∷ xs) ys u a =
    let shorter = without-shorter x ys (a x (rw (eq_refl x) refl)) in
    let within =
      length-among xs (without x ys) u.1
        (λ s h. contains-without s x ys (a s (ground (arith, h))) (apart s x xs h u.0)) in
    omega (arith, shorter, within)
