-- ===== src/Executor/Budget/Fairness.antt =====
-- Sequences of spends: who is granted a link and why one is refused.
use recoup_ai.Base.{
  ℕ, suc, ◌-◌, ◌≤◌, ◌<◌, ◌≡◌, ◌≢◌, refl, sym, ap, true, false, List, [], ◌∷◌, ◌++◌, String, arith,
  length, length-append, contains, Unique, Unique-snoc, IsAmong, length-among, contains-snoc, map,
  Bool-cases, inl, inr, eq_iff,
}
use recoup_ai.Executor.Budget.{
  LinkRequest, LinkAllocator, Refusal, allocations, ranked, take, new_allocator, shortlisted,
  remaining, is_permitted, may_spend, spend, refusal_reason,
}

-- The allocators that a run reaches by spending.
pub data Spent (a : LinkAllocator) : LinkAllocator → Type 0 where
  unspent : Spent a a
  then_spend : {b : LinkAllocator} (k : String) → Spent a b → Spent a (spend b k).1

pub record IsFair (a : LinkAllocator) : Type 0 where
  pub within : length a.granted ≤ a.capacity
  pub once : Unique a.granted
  pub funded_shortlisted : IsAmong a.granted (shortlisted a)
  pub short : length (shortlisted a) ≤ a.capacity

length-take {ℓ} : {A : Type ℓ} (n : ℕ) (xs : List A) → length (take n xs) ≤ n
unfolding take
length-take n [] = omega arith
length-take n (x ∷ xs) = ground (arith, length-take (n - 1) xs)

length-map {ℓ κ} :
    {A : Type ℓ} {B : Type κ} (f : A → B) (xs : List A) → length (map f xs) ≡ length xs
length-map f [] = refl
length-map f (x ∷ xs) = ap suc (length-map f xs)

pub new_allocator-IsFair :
    (demand : List LinkRequest) (capacity : ℕ) → IsFair (new_allocator demand capacity)
unfolding new_allocator
new_allocator-IsFair demand capacity = record {
  within = omega arith;
  once = tt;
  funded_shortlisted = λ s h. ground arith;
  short =
      rw (length-map (λ x. x.invoice_id) (take capacity (allocations 0 (ranked demand))))
        (length-take capacity (allocations 0 (ranked demand)));
}

IsAmong-snoc :
    (xs ys : List String) (k : String)
    → IsAmong xs ys
    → contains k ys ≡ true
    → IsAmong (xs ++ k ∷ []) ys
IsAmong-snoc xs ys k a h s p = elim (Bool-cases (contains s xs)) [
  | inl q ↦ a s q
  | inr q ↦ let e : k ≡ s = ground (arith, contains-snoc s k xs, p, q, eq_iff k s) in rw (sym e) h
]

granted-IsFair :
    (a : LinkAllocator) (k : String)
    → IsFair a
    → may_spend a k ≡ true
    → IsFair (record a { granted = a.granted ++ k ∷ [] })
unfolding may_spend remaining is_permitted
granted-IsFair a k f h =
    let unfunded : contains k a.granted ≡ false = ground (arith, h) in
    let room : length a.granted < a.capacity = ground (arith, h) in
    let listed : contains k (shortlisted a) ≡ true = ground (arith, h) in
    record {
      within = rw (length-append a.granted (k ∷ [])) (omega (arith, room));
      once = Unique-snoc a.granted k unfunded f.once;
      funded_shortlisted = IsAmong-snoc a.granted (shortlisted a) k f.funded_shortlisted listed;
      short = f.short;
    }

spend-IsFair : (a : LinkAllocator) (k : String) → IsFair a → IsFair (spend a k).1
unfolding spend
spend-IsFair a k f = elim (Bool-cases (may_spend a k)) [
  | inl h ↦ rw h (granted-IsFair a k f h)
  | inr h ↦ rw h f
]

Spent-IsFair : {a b : LinkAllocator} → Spent a b → IsFair a → IsFair b
Spent-IsFair unspent f = f
Spent-IsFair (then_spend {b} k s) f = spend-IsFair b k (Spent-IsFair s f)

-- However often a new allocator is asked to spend, it grants no more links than its capacity, at
-- most one to a record, and only to shortlisted records.
pub Spent-new-IsFair :
    (demand : List LinkRequest) (capacity : ℕ) {b : LinkAllocator}
    → Spent (new_allocator demand capacity) b
    → IsFair b
Spent-new-IsFair demand capacity s = Spent-IsFair s (new_allocator-IsFair demand capacity)

-- A fair allocator has a unit for every shortlisted record that it has not funded.
never_exhausted :
    (a : LinkAllocator) (k : String)
    → IsFair a
    → is_permitted a k ≡ true
    → contains k a.granted ≡ false
    → may_spend a k ≡ true
unfolding may_spend remaining is_permitted
never_exhausted a k f p n =
    let grown : length (a.granted ++ k ∷ []) ≤ length (shortlisted a) =
      length-among (a.granted ++ k ∷ []) (shortlisted a) (Unique-snoc a.granted k n f.once)
        (IsAmong-snoc a.granted (shortlisted a) k f.funded_shortlisted p) in
    let room : length a.granted < a.capacity =
      omega (arith, length-append a.granted (k ∷ []), grown, f.short) in
    ground (arith, p, n, room)

refused_known :
    (a : LinkAllocator) (k : String)
    → IsFair a
    → may_spend a k ≡ false
    → refusal_reason a k ≢ Refusal.budget_exhausted
unfolding refusal_reason
refused_known a k f m e = elim (Bool-cases (contains k a.granted)) [
  | inl h ↦ ground (arith, e, h)
  | inr h ↦ elim (Bool-cases (is_permitted a k)) [
    | inl p ↦ cc (m, never_exhausted a k f p h)
    | inr p ↦ ground (arith, e, h, p)
  ]
]

-- Whatever was spent before, a refused record holds its link already or is outside the shortlist:
-- the budget never runs out on a shortlisted record.
pub refusal_reason_lem :
    (demand : List LinkRequest) (capacity : ℕ) {b : LinkAllocator} (k : String)
    → Spent (new_allocator demand capacity) b
    → (may_spend b k ≡ false → refusal_reason b k ≢ Refusal.budget_exhausted)
      × (is_permitted b k ≡ true → contains k b.granted ≡ false → (spend b k).0 ≡ true)
unfolding spend
refusal_reason_lem demand capacity {b} k s =
    let f = Spent-new-IsFair demand capacity s in
    (λ m e. refused_known b k f m e, λ p n. rw (never_exhausted b k f p n) refl)
