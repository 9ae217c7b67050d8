-- ===== src/Proposers/Portfolio/Groups.antt =====
-- What the loop over the snapshots groups.
use recoup_ai.Base.{
  ◌≡◌, refl, sym, ◌∙◌, ap, inl, inr, Bool, true, false, ◌||◌, Option, none, some, List, [], ◌∷◌,
  ◌++◌, String, arith, eq_iff, ◌=s=◌, if◌then◌else◌, filter, contains, map, All, All-map, Unique,
  Bool-cases,
}
use text.Mathlib.TextPositions.{eq_refl}
use recoup_ai.Domain.Models.Invoices.{Snapshot}
use recoup_ai.Ledger.Records.{in_group}
use recoup_ai.Proposers.Portfolio.{group_of, append_to, append_if, group_all}

abbrev pub belongs : String → Snapshot → Bool
belongs g s = in_group g (group_of s)

filter-snoc :
    {A : Type 0} (p : A → Bool) (xs : List A) (x : A)
    → filter p (xs ++ x ∷ []) ≡ filter p xs ++ (if p x then x ∷ [] else [])
filter-snoc p [] x = elim (Bool-cases (p x)) [ inl h ↦ rw h refl | inr h ↦ rw h refl ]
filter-snoc p (y ∷ ys) x = elim (Bool-cases (p y)) [
  | inl h ↦ rw h (ap (λ zs. y ∷ zs) (filter-snoc p ys x))
  | inr h ↦ rw h (filter-snoc p ys x)
]

append-nil : {A : Type 0} (xs : List A) → xs ++ [] ≡ xs
append-nil [] = refl
append-nil (x ∷ xs) = ap (λ ys. x ∷ ys) (append-nil xs)

belongs-kept :
    (g : String) (seen : List Snapshot) (s : Snapshot)
    → belongs g s ≡ false
    → filter (belongs g) (seen ++ s ∷ []) ≡ filter (belongs g) seen
belongs-kept g seen s h =
    filter-snoc (belongs g) seen s
    ∙ ap (λ b. filter (belongs g) seen ++ (if b then s ∷ [] else [])) h
    ∙ append-nil (filter (belongs g) seen)

belongs-added :
    (g : String) (seen : List Snapshot) (s : Snapshot)
    → belongs g s ≡ true
    → filter (belongs g) (seen ++ s ∷ []) ≡ filter (belongs g) seen ++ s ∷ []
belongs-added g seen s h =
    filter-snoc (belongs g) seen s
    ∙ ap (λ b. filter (belongs g) seen ++ (if b then s ∷ [] else [])) h

-- The groups of the snapshots seen: each has all of its own, in order, and no group is missing.
pub record IsGrouped (seen : List Snapshot) (groups : List (String × List Snapshot)) : Type 0 where
  pub once : Unique (map (λ x. x.0) groups)
  pub complete : All (λ x. x.1 ≡ filter (belongs x.0) seen) groups
  pub others :
      (g : String) → contains g (map (λ x. x.0) groups) ≡ false → filter (belongs g) seen ≡ []

-- A snapshot of one group belongs to no other.
belongs-one : (g h : String) (s : Snapshot) → group_of s ≡ some g → belongs h s ≡ (g =s= h)
belongs-one g h s e = ap (in_group h) e

keys-append_to :
    (k g : String) (s : Snapshot) (groups : List (String × List Snapshot))
    → contains k (map (λ x. x.0) (append_to g s groups))
      ≡ contains k (map (λ x. x.0) groups) || (g =s= k)
unfolding append_to
keys-append_to k g s [] = ground arith
keys-append_to k g s ((h, rows) ∷ rest) =
    ground (arith, keys-append_to k g s rest, eq_iff h g, eq_iff h k, eq_iff g k)

once-append_to :
    (g : String) (s : Snapshot) (groups : List (String × List Snapshot))
    → Unique (map (λ x. x.0) groups)
    → Unique (map (λ x. x.0) (append_to g s groups))
unfolding append_to
once-append_to g s [] u = (refl, tt)
once-append_to g s ((h, rows) ∷ rest) u = elim (Bool-cases (h =s= g)) [
  | inl q ↦ rw q u
  | inr q ↦ rw q (
    ground (arith, keys-append_to h g s rest, u.0, eq_iff h g, eq_iff g h),
    once-append_to g s rest u.1,
  )
]

-- The groups that have no key `g` keep their rows.
kept :
    (g : String) (seen : List Snapshot) (s : Snapshot) (groups : List (String × List Snapshot))
    → group_of s ≡ some g
    → contains g (map (λ x. x.0) groups) ≡ false
    → All (λ x. x.1 ≡ filter (belongs x.0) seen) groups
    → All (λ x. x.1 ≡ filter (belongs x.0) (seen ++ s ∷ [])) groups
kept g seen s [] e n a = tt
kept g seen s ((h, rows) ∷ rest) e n a = (
  a.0
      ∙ sym
          (belongs-kept h seen s (belongs-one g h s e ∙ ground (arith, n, eq_iff g h, eq_iff h g))),
  kept g seen s rest e (ground (arith, n)) a.1,
)

complete-append_to :
    (g : String) (seen : List Snapshot) (s : Snapshot) (groups : List (String × List Snapshot))
    → group_of s ≡ some g
    → Unique (map (λ x. x.0) groups)
    → (contains g (map (λ x. x.0) groups) ≡ false → filter (belongs g) seen ≡ [])
    → All (λ x. x.1 ≡ filter (belongs x.0) seen) groups
    → All (λ x. x.1 ≡ filter (belongs x.0) (seen ++ s ∷ [])) (append_to g s groups)
unfolding append_to
complete-append_to g seen s [] e u o a = (
  sym (belongs-added g seen s (belongs-one g g s e ∙ eq_refl g) ∙ ap (λ xs. xs ++ s ∷ []) (o refl)),
  tt,
)
complete-append_to g seen s ((h, rows) ∷ rest) e u o a = elim (Bool-cases (h =s= g)) [
  | inl q ↦
      let same : h ≡ g = ground (arith, q, eq_iff h g) in
      rw q (
        ap (λ xs. xs ++ s ∷ []) a.0
            ∙ sym
                (belongs-added h seen s (belongs-one g h s e ∙ ap (λ k. g =s= k) same ∙ eq_refl g)),
        kept g seen s rest e (ap (λ k. contains k (map (λ x. x.0) rest)) (sym same) ∙ u.0) a.1,
      )
  | inr q ↦ rw q (
    a.0
        ∙ sym (
            belongs-kept h seen s
              (belongs-one g h s e ∙ ground (arith, q, eq_iff g h, eq_iff h g))),
    complete-append_to g seen s rest e u.1 (λ n. o (ground (arith, n, q))) a.1,
  )
]

append_if-IsGrouped :
    (seen : List Snapshot) (s : Snapshot) (o : Option String)
    (groups : List (String × List Snapshot))
    → group_of s ≡ o
    → IsGrouped seen groups
    → IsGrouped (seen ++ s ∷ []) (append_if o s groups)
append_if-IsGrouped seen s none groups e i =
    let kept_all : (g : String) → filter (belongs g) (seen ++ s ∷ []) ≡ filter (belongs g) seen =
      λ g. belongs-kept g seen s (ap (in_group g) e) in
    record {
      once = i.once;
      complete = All-map groups (λ x q. q ∙ sym (kept_all x.0)) i.complete;
      others = λ g n. kept_all g ∙ i.others g n;
    }
append_if-IsGrouped seen s (some g) groups e i = record {
  once = once-append_to g s groups i.once;
  complete = complete-append_to g seen s groups e i.once (i.others g) i.complete;
  others = λ h n.
      let q = sym (keys-append_to h g s groups) ∙ n in
      belongs-kept h seen s (belongs-one g h s e ∙ ground (arith, q))
      ∙ i.others h (ground (arith, q));
}

append_assoc :
    {A : Type 0} (xs : List A) (y : A) (ys : List A) → (xs ++ y ∷ []) ++ ys ≡ xs ++ y ∷ ys
append_assoc [] y ys = refl
append_assoc (x ∷ xs) y ys = ap (λ zs. x ∷ zs) (append_assoc xs y ys)

group_all-append-IsGrouped :
    (seen ss : List Snapshot) (groups : List (String × List Snapshot))
    → IsGrouped seen groups
    → IsGrouped (seen ++ ss) (group_all groups ss)
unfolding group_all
group_all-append-IsGrouped seen [] groups i = rw (append-nil seen) i
group_all-append-IsGrouped seen (s ∷ ss) groups i = rw⁻¹ (append_assoc seen s ss) (
    group_all-append-IsGrouped (seen ++ s ∷ []) ss (append_if (group_of s) s groups)
      (append_if-IsGrouped seen s (group_of s) groups refl i))

-- The groups of the loop are those of its snapshots.
pub group_all-IsGrouped : (ss : List Snapshot) → IsGrouped ss (group_all [] ss)
group_all-IsGrouped ss =
    group_all-append-IsGrouped [] ss [] (record { once = tt; complete = tt; others = λ g n. refl })
