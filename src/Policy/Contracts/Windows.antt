-- ===== src/Policy/Contracts/Windows.antt =====
-- The two rules over a payer's whole contact history: the rolling window and the spacing, each
-- with a guarantee that does not speak of the sorted list that the rule reads.
use recoup_ai.Base.{
  ◌⊎◌, ℕ, ◌+◌, ◌-◌, ◌≤◌, ◌<◌, ◌≡◌, refl, ap, ◌∙◌, Bool, true, false, not, Option, none, some, List,
  [], ◌∷◌, ◌++◌, String, arith, leb, ltb, max, length, filter, count_by, sum_by, get_last?, All,
  map, ◌=s=◌, if◌then◌else◌, Bool-cases, inl, inr,
}
use recoup_ai.Domain.Interventions.{is_contact}
use recoup_ai.Domain.Models.Invoices.{Invoice, ContactAttempt}
use recoup_ai.Ledger.Records.{not_later, payer_contacts_since}
use recoup_ai.Policy.Context.{
  RuleContext, insert_tick, sort_ticks, contact_ticks_of, payer_contact_ticks,
  payer_contacts_in_window,
}
use recoup_ai.Policy.Rules.{
  qualifying, frequency_defer, payer_contact_frequency, payer_contact_frequency_check,
  payer_contact_spacing, payer_contact_spacing_check, spacing_verdict,
}
use recoup_ai.Policy.Contracts.{reduces-is_contact, Enforces, Answer, quiet, Answer-if, Answer-veto}

length-filter {ℓ} : {A : Type ℓ} (p : A → Bool) (xs : List A) → length (filter p xs) ≡ count_by p xs
length-filter p [] = refl
length-filter p (x ∷ xs) = ground (arith, length-filter p xs)

count_by-append {ℓ} :
    {A : Type ℓ} (p : A → Bool) (xs ys : List A)
    → count_by p (xs ++ ys) ≡ count_by p xs + count_by p ys
count_by-append p [] ys = omega arith
count_by-append p (x ∷ xs) ys = omega (arith, count_by-append p xs ys)

count_by-map {ℓ κ} :
    {A : Type ℓ} {B : Type κ} (p : B → Bool) (f : A → B) (xs : List A)
    → count_by p (map f xs) ≡ count_by (λ a. p (f a)) xs
count_by-map p f [] = refl
count_by-map p f (x ∷ xs) = ap (λ n. (if p (f x) then 1 else 0) + n) (count_by-map p f xs)

count_by-insert_tick :
    (p : ℕ → Bool) (t : ℕ) (us : List ℕ)
    → count_by p (insert_tick t us) ≡ (if p t then 1 else 0) + count_by p us
unfolding insert_tick
count_by-insert_tick p t [] = refl
count_by-insert_tick p t (u ∷ us) = ground (arith, count_by-insert_tick p t us)

count_by-sort_ticks : (p : ℕ → Bool) (ts : List ℕ) → count_by p (sort_ticks ts) ≡ count_by p ts
unfolding sort_ticks
count_by-sort_ticks p [] = refl
count_by-sort_ticks p (t ∷ ts) =
    count_by-insert_tick p t (sort_ticks ts)
    ∙ ap (λ n. (if p t then 1 else 0) + n) (count_by-sort_ticks p ts)

count_by-contact_ticks :
    (payer : String) (floor : ℕ) (rs : List Invoice)
    → count_by (λ t. leb floor t) (contact_ticks_of payer rs)
      ≡ sum_by
          (λ r. count_by (λ a. leb floor a.tick) r.contact_ledger.attempts)
          (filter (λ r. r.payer_id =s= payer) rs)
unfolding contact_ticks_of
count_by-contact_ticks payer floor [] = refl
count_by-contact_ticks payer floor (r ∷ rs) = elim (Bool-cases (r.payer_id =s= payer)) [
  | inl same ↦ rw same (
      count_by-append (λ t. leb floor t) (map (λ a. a.tick) r.contact_ledger.attempts)
        (contact_ticks_of payer rs)
      ∙ omega (
        arith,
        count_by-map (λ t. leb floor t) (λ (a : ContactAttempt). a.tick) r.contact_ledger.attempts,
        count_by-contact_ticks payer floor rs,
      ))
  | inr other ↦ rw other (count_by-contact_ticks payer floor rs)
]

-- What the frequency rule counts on the sorted history is the ledger's own count.
pub length-qualifying : (ctx : RuleContext) → length (qualifying ctx) ≡ payer_contacts_in_window ctx
unfolding qualifying payer_contacts_in_window payer_contacts_since payer_contact_ticks
length-qualifying ctx =
    let floor : ℕ = ctx.tick - ctx.config.contact_window_ticks in
    length-filter (λ t. leb floor t)
      (sort_ticks (contact_ticks_of ctx.subject.payer_id ctx.ledger.records))
    ∙ count_by-sort_ticks (λ t. leb floor t)
        (contact_ticks_of ctx.subject.payer_id ctx.ledger.records)
    ∙ count_by-contact_ticks ctx.subject.payer_id floor ctx.ledger.records

abbrev pub BelowFrequencyCap : RuleContext → Type 0
BelowFrequencyCap ctx =
    is_contact ctx.current ≡ true → payer_contacts_in_window ctx < ctx.config.max_contacts_per_payer

frequency_defer_later :
    (ctx : RuleContext) (q : List ℕ) → not_later (some (frequency_defer ctx q)) ctx.tick ≡ false
unfolding frequency_defer
frequency_defer_later ctx [] = ground arith
frequency_defer_later ctx (first ∷ rest) = ground arith

pub payer_contact_frequency-Enforces : Enforces payer_contact_frequency BelowFrequencyCap
unfolding payer_contact_frequency_check payer_contacts_in_window
payer_contact_frequency-Enforces = record {
  answers = λ ctx.
      Answer-if ctx (not (is_contact ctx.current)) (λ h c. ground arith)
        (λ h.
          Answer-if ctx (ltb (length (qualifying ctx)) ctx.config.max_contacts_per_payer)
            (λ k c. ground (arith, length-qualifying ctx))
            (λ k. Answer-veto ctx _ _ _ (frequency_defer_later ctx (qualifying ctx))));
  stable = λ ctx c r p k. p (reduces-is_contact ctx.current c r k);
}

abbrev Ascending : List ℕ → Type 0
Ascending [] = Unit
Ascending (t ∷ ts) = All (λ u. t ≤ u) ts × Ascending ts

All-insert_tick {ℓ} :
    (P : ℕ → Type ℓ) (t : ℕ) (us : List ℕ) → P t → All P us → All P (insert_tick t us)
unfolding insert_tick
All-insert_tick P t [] h a = (h, tt)
All-insert_tick P t (u ∷ us) h a = elim (Bool-cases (leb t u)) [
  | inl le ↦ rw le (h, a)
  | inr gt ↦ rw gt (a.0, All-insert_tick P t us h a.1)
]

insert_tick-All {ℓ} :
    (P : ℕ → Type ℓ) (t : ℕ) (us : List ℕ) → All P (insert_tick t us) → P t × All P us
unfolding insert_tick
insert_tick-All P t [] a = a
insert_tick-All P t (u ∷ us) a = go (insert_tick-All P t us) (Bool-cases (leb t u)) a
  where
    go :
        (All P (insert_tick t us) → P t × All P us)
        → (leb t u ≡ true) ⊎ (leb t u ≡ false)
        → All P (insert_tick t (u ∷ us))
        → P t × All P (u ∷ us)
    go ih (inl le) b = let c : All P (t ∷ u ∷ us) = rw le at b in c
    go ih (inr gt) b =
        let c : All P (u ∷ insert_tick t us) = rw gt at b in
        let d : P t × All P us = ih c.1 in (d.0, (c.0, d.1))

All-le_trans : (s t : ℕ) (us : List ℕ) → s ≤ t → All (λ u. t ≤ u) us → All (λ u. s ≤ u) us
All-le_trans s t [] h a = tt
All-le_trans s t (u ∷ us) h a = (omega arith, All-le_trans s t us h a.1)

insert_tick-Ascending : (t : ℕ) (us : List ℕ) → Ascending us → Ascending (insert_tick t us)
unfolding insert_tick
insert_tick-Ascending t [] a = (tt, tt)
insert_tick-Ascending t (u ∷ us) a = elim (Bool-cases (leb t u)) [
  | inl le ↦ rw le ((ground arith, All-le_trans t u us (ground arith) a.0), a)
  | inr gt ↦
      rw gt (All-insert_tick (λ v. u ≤ v) t us (ground arith) a.0, insert_tick-Ascending t us a.1)
]

sort_ticks-Ascending : (ts : List ℕ) → Ascending (sort_ticks ts)
unfolding sort_ticks
sort_ticks-Ascending [] = tt
sort_ticks-Ascending (t ∷ ts) = insert_tick-Ascending t (sort_ticks ts) (sort_ticks-Ascending ts)

sort_ticks-All {ℓ} : (P : ℕ → Type ℓ) (ts : List ℕ) → All P (sort_ticks ts) → All P ts
unfolding sort_ticks
sort_ticks-All P [] a = tt
sort_ticks-All P (t ∷ ts) a =
    let (h, b) = insert_tick-All P t (sort_ticks ts) a in (h, sort_ticks-All P ts b)

-- The last of an ascending list bounds it.
last_bounds : (d m : ℕ) (ts : List ℕ) → Ascending ts → get_last? ts ≡ some m → All (λ t. t ≤ m) ts
last_bounds d m [] a e = tt
last_bounds d m (t ∷ []) a e = (ground arith, tt)
last_bounds d m (t ∷ u ∷ us) a e =
    let b : All (λ v. v ≤ m) (u ∷ us) = last_bounds d m (u ∷ us) a.1 e in (omega arith, b)

All-spaced :
    (d m tick : ℕ) (ts : List ℕ) → m + d ≤ tick → All (λ t. t ≤ m) ts → All (λ t. t + d ≤ tick) ts
All-spaced d m tick [] h a = tt
All-spaced d m tick (t ∷ ts) h a = (omega arith, All-spaced d m tick ts h a.1)

no_last {ℓ} : (P : ℕ → Type ℓ) (ts : List ℕ) → get_last? ts ≡ none → All P ts
no_last P [] e = tt
no_last P (t ∷ []) e = cc
no_last P (t ∷ u ∷ us) e = absurd (get_last-cons u us e)
  where
    get_last-cons : (v : ℕ) (vs : List ℕ) → get_last? (v ∷ vs) ≡ none → ⊥
    get_last-cons v [] k = cc
    get_last-cons v (w ∷ ws) k = get_last-cons w ws k

abbrev pub SpacedOut : RuleContext → Type 0
SpacedOut ctx =
    is_contact ctx.current ≡ true
    → All (λ t. t + ctx.config.min_contact_spacing_ticks ≤ ctx.tick)
        (contact_ticks_of ctx.subject.payer_id ctx.ledger.records)

spacing_answers :
    (ctx : RuleContext) (last : Option ℕ)
    → get_last? (payer_contact_ticks ctx) ≡ last
    → Answer SpacedOut ctx (spacing_verdict ctx last)
unfolding spacing_verdict payer_contact_ticks
spacing_answers ctx none e = quiet (λ c. sort_ticks-All _ _ (no_last _ _ e))
spacing_answers ctx (some m) e =
    Answer-if ctx (leb (m + ctx.config.min_contact_spacing_ticks) ctx.tick)
      (λ h c. sort_ticks-All _ (contact_ticks_of ctx.subject.payer_id ctx.ledger.records) (
        All-spaced ctx.config.min_contact_spacing_ticks m ctx.tick _ (ground arith) (
          last_bounds 0 m _
            (sort_ticks-Ascending (contact_ticks_of ctx.subject.payer_id ctx.ledger.records)) e)))
      (λ h.
        Answer-veto ctx _ _ (some (max (ctx.tick + 1) (m + ctx.config.min_contact_spacing_ticks)))
          (ground arith))

pub payer_contact_spacing-Enforces : Enforces payer_contact_spacing SpacedOut
unfolding payer_contact_spacing_check
payer_contact_spacing-Enforces = record {
  answers = λ ctx.
      Answer-if ctx (not (is_contact ctx.current)) (λ h c. ground arith)
        (λ h. spacing_answers ctx (get_last? (payer_contact_ticks ctx)) refl);
  stable = λ ctx c r p k. p (reduces-is_contact ctx.current c r k);
}
