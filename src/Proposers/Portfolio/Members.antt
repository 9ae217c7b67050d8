-- ===== src/Proposers/Portfolio/Members.antt =====
-- The open invoices of a group, among snapshots and in the ledger that they are of.
use recoup_ai.Base.{
  ℕ, ◌≡◌, refl, ◌∙◌, ap, inl, inr, Bool, true, false, ◌&&◌, Option, none, some, List, [], ◌∷◌,
  String, arith, eq_iff, ltb, ◌=s=◌, filter, contains, map, All, Unique, Bool-cases,
}
use text.Mathlib.TextPositions.{eq_refl}
use recoup_ai.Base.Errors.{ok}
use recoup_ai.Domain.Models.Invoices.{Invoice, Snapshot, outstanding_paise, to_snapshot}
use recoup_ai.Ledger.Records.{Ledger, find, in_group}
use recoup_ai.Ledger.Records.Lookup.{find-get}
use recoup_ai.Policy.Batch.{has_repeats, get_all}
use recoup_ai.Proposers.Portfolio.{group_of, least, precedes, open_group}
use recoup_ai.Proposers.Portfolio.Groups.{belongs}

-- An open invoice of a group.
abbrev pub member : String → Invoice → Bool
member g r = in_group g r.parent_group_id && ltb 0 (outstanding_paise r)

open_group-in_group :
    (g : String) (o : Option String) (n : ℕ)
    → (g =s= "") ≡ false
    → in_group g (open_group o n) ≡ in_group g o && ltb 0 n
open_group-in_group g none n h = refl
open_group-in_group g (some k) n h = ground (arith, h, eq_iff k g, eq_iff k "", eq_iff g "")

unnamed_group : (o : Option String) (n : ℕ) → in_group "" (open_group o n) ≡ false
unnamed_group none n = refl
unnamed_group (some k) n = ground arith

belongs-member :
    (g : String) (r : Invoice) (as_of tick : ℕ)
    → (g =s= "") ≡ false
    → belongs g (to_snapshot r as_of tick) ≡ member g r
unfolding group_of to_snapshot
belongs-member g r as_of tick n = open_group-in_group g r.parent_group_id (outstanding_paise r) n

belongs-unnamed : (s : Snapshot) → belongs "" s ≡ false
unfolding group_of
belongs-unnamed s = unnamed_group s.parent_group_id s.outstanding_paise

pub none_unnamed : (ss : List Snapshot) → filter (belongs "") ss ≡ []
none_unnamed [] = refl
none_unnamed (s ∷ ss) = rw (belongs-unnamed s) (none_unnamed ss)

-- A text of every snapshot in a group, and of its invoice.
pub map-belongs :
    (f : Snapshot → String) (h : Invoice → String) (g : String) (as_of tick : ℕ)
    → ((r : Invoice) → f (to_snapshot r as_of tick) ≡ h r)
    → (g =s= "") ≡ false
    → (rs : List Invoice)
    → map f (filter (belongs g) (map (λ r. to_snapshot r as_of tick) rs))
      ≡ map h (filter (member g) rs)
map-belongs f h g as_of tick e n [] = refl
map-belongs f h g as_of tick e n (r ∷ rs) =
    let b = belongs-member g r as_of tick n in
    let rest = map-belongs f h g as_of tick e n rs in
    elim (Bool-cases (member g r)) [
      | inl q ↦
          rw (b ∙ q, q)
            (ap (λ xs. f (to_snapshot r as_of tick) ∷ xs) rest
              ∙ ap (λ x. x ∷ map h (filter (member g) rs)) (e r))
      | inr q ↦ rw (b ∙ q, q) rest
    ]

pub All-least {κ} :
    (P : String × List Snapshot → Type κ) (x : String × List Snapshot)
    (xs : List (String × List Snapshot))
    → P x
    → All P xs
    → P (least x xs)
unfolding least
All-least P x [] p a = p
All-least P x (y ∷ ys) p a = elim (Bool-cases (precedes y x)) [
  | inl h ↦ rw h (All-least P y ys a.0 a.1)
  | inr h ↦ rw h (All-least P x ys p a.1)
]

pub filter-passes : {A : Type 0} (p : A → Bool) (xs : List A) → All (λ x. p x ≡ true) (filter p xs)
filter-passes p [] = tt
filter-passes p (x ∷ xs) = elim (Bool-cases (p x)) [
  | inl h ↦ rw h (h, filter-passes p xs)
  | inr h ↦ rw h (filter-passes p xs)
]

contains-filter :
    {A : Type 0} (f : A → String) (p : A → Bool) (s : String) (xs : List A)
    → contains s (map f xs) ≡ false
    → contains s (map f (filter p xs)) ≡ false
contains-filter f p s [] n = refl
contains-filter f p s (x ∷ xs) n = ground (arith, n, contains-filter f p s xs)

pub Unique-filter :
    {A : Type 0} (f : A → String) (p : A → Bool) (xs : List A)
    → Unique (map f xs)
    → Unique (map f (filter p xs))
Unique-filter f p [] u = tt
Unique-filter f p (x ∷ xs) u = elim (Bool-cases (p x)) [
  | inl h ↦ rw h (contains-filter f p (f x) xs u.0, Unique-filter f p xs u.1)
  | inr h ↦ rw h (Unique-filter f p xs u.1)
]

pub unrepeated : (xs : List String) → Unique xs → has_repeats xs ≡ false
unrepeated [] u = refl
unrepeated (x ∷ xs) u = ground (arith, u.0, unrepeated xs u.1)

-- Each record of a list without repeated ids is the one that its id finds.
found_later :
    (x : Invoice) (xs rs : List Invoice)
    → contains x.invoice_id (map (λ r. r.invoice_id) rs) ≡ false
    → All (λ r. find r.invoice_id xs ≡ some r) rs
    → All (λ r. find r.invoice_id (x ∷ xs) ≡ some r) rs
unfolding find
found_later x xs [] n a = tt
found_later x xs (r ∷ rs) n a =
    let other : (x.invoice_id =s= r.invoice_id) ≡ false =
      ground (arith, n, eq_iff x.invoice_id r.invoice_id, eq_iff r.invoice_id x.invoice_id) in
    (rw other a.0, found_later x xs rs (ground (arith, n)) a.1)

pub all_found :
    (rs : List Invoice)
    → Unique (map (λ r. r.invoice_id) rs)
    → All (λ r. find r.invoice_id rs ≡ some r) rs
all_found [] u = tt
all_found (x ∷ xs) u =
    (unfold find in rw (eq_refl x.invoice_id) refl, found_later x xs xs u.0 (all_found xs u.1))

pub get_all-found :
    (l : Ledger) (rs : List Invoice)
    → All (λ r. find r.invoice_id l.records ≡ some r) rs
    → get_all l (map (λ r. r.invoice_id) rs) ≡ ok rs
unfolding get_all
get_all-found l [] a = refl
get_all-found l (r ∷ rs) a = rw (find-get l r.invoice_id r a.0, get_all-found l rs a.1) refl
