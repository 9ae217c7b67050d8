-- ===== src/Ledger/Records/Lookup.antt =====
-- Looking a record up by its id.
use recoup_ai.Base.{
  ℕ, leb, ◌≢◌, sym, ◌∙◌, ap, ◌&&◌, ◌≡◌, refl, Bool, true, Option, none, some, List, [], ◌∷◌, String,
  arith, eq_iff, is_some, All, All-filter, not,
}
use text.Mathlib.TextPositions.{eq_refl}
use recoup_ai.Base.Errors.{ok}
use recoup_ai.Domain.Enums.{RecordState, state_eq}
use recoup_ai.Domain.Models.Invoices.{Invoice}
use recoup_ai.Ledger.States.{is_terminal, is_in, unattended_states}
use recoup_ai.Ledger.Records.{
  Ledger, found, find, get, put, store, active, due_for_review, awaiting_write_off,
}

abbrev pub knows : Ledger → String → Bool
knows l k = is_some (find k l.records)

find-id : (k : String) (rs : List Invoice) (r : Invoice) → find k rs ≡ some r → r.invoice_id ≡ k
unfolding find
find-id k [] r h = ground arith
find-id k (x ∷ xs) r h = ground (arith, find-id k xs r, eq_iff x.invoice_id k)

find-put :
    (k : String) (r : Invoice) (rs : List Invoice)
    → is_some (find k rs) ≡ true
    → is_some (find k (put r rs)) ≡ true
unfolding find put
find-put k r [] h = ground arith
find-put k r (x ∷ xs) h =
    ground (arith, find-put k r xs, eq_iff x.invoice_id k, eq_iff x.invoice_id r.invoice_id)

-- Storing a record loses none.
pub knows-store :
    (l : Ledger) (r : Invoice) (k : String) → knows l k ≡ true → knows (store l r) k ≡ true
unfolding store
knows-store l r k h = find-put k r l.records h

found-known :
    (k : String) (rs : List Invoice) (o : Option Invoice)
    → find k rs ≡ o
    → is_some o ≡ true
    → (r : Invoice) × (found k o ≡ ok r) × (r.invoice_id ≡ k)
unfolding found
found-known k rs none e h = cc
found-known k rs (some r) e h = (r, refl, find-id k rs r e)

-- A known id has a record of that id, which `get` returns.
pub get_known :
    (l : Ledger) (k : String)
    → knows l k ≡ true
    → (r : Invoice) × (get l k ≡ ok r) × (r.invoice_id ≡ k)
unfolding get
get_known l k h = found-known k l.records (find k l.records) refl h

pub get-knows : (l : Ledger) (k : String) (r : Invoice) → get l k ≡ ok r → knows l k ≡ true
unfolding get found
get-knows l k r h = ground arith

find-cons :
    (k : String) (x : Invoice) (rs : List Invoice)
    → is_some (find k rs) ≡ true
    → is_some (find k (x ∷ rs)) ≡ true
unfolding find
find-cons k x rs h = ground arith

All-find :
    (rs xs : List Invoice)
    → ((k : String) → is_some (find k xs) ≡ true → is_some (find k rs) ≡ true)
    → All (λ r. is_some (find r.invoice_id rs) ≡ true) xs
unfolding find
All-find rs [] up = tt
All-find rs (x ∷ xs) up = (
  up x.invoice_id (rw (eq_refl x.invoice_id) refl),
  All-find rs xs (λ k h. up k (find-cons k x xs h)),
)

-- A record that is stored is found, and no other one moves.
pub find-put_same :
    (k : String) (m : Invoice) (rs : List Invoice) → m.invoice_id ≡ k → find k (put m rs) ≡ some m
unfolding find put
find-put_same k m [] e = ground (arith, e, eq_iff m.invoice_id k)
find-put_same k m (x ∷ xs) e = ground (
  arith,
  e,
  eq_iff m.invoice_id k,
  eq_iff x.invoice_id k,
  eq_iff x.invoice_id m.invoice_id,
  find-put_same k m xs e,
)

pub find-put_other :
    (k : String) (m : Invoice) (rs : List Invoice)
    → k ≢ m.invoice_id
    → find k (put m rs) ≡ find k rs
unfolding find put
find-put_other k m [] d = ground (arith, d, eq_iff m.invoice_id k)
find-put_other k m (x ∷ xs) d = ground (
  arith,
  d,
  eq_iff m.invoice_id k,
  eq_iff x.invoice_id k,
  eq_iff x.invoice_id m.invoice_id,
  find-put_other k m xs,
)

pub get-find : (l : Ledger) (k : String) (r : Invoice) → get l k ≡ ok r → find k l.records ≡ some r
unfolding get found
get-find l k r h = ground (arith, h)

pub get-id : (l : Ledger) (k : String) (r : Invoice) → get l k ≡ ok r → r.invoice_id ≡ k
get-id l k r h =
    let (s, g, e) = get_known l k (get-knows l k r h) in
    let same : s ≡ r = cc in ap (λ x. x.invoice_id) (sym same) ∙ e

module _ (l : Ledger) where
  pub All-knows : All (λ r. knows l r.invoice_id ≡ true) l.records
  All-knows = All-find l.records l.records (λ k h. h)

  pub active-known : All (λ r. knows l r.invoice_id ≡ true) (active l)
  unfolding active
  active-known =
      All-filter (λ r. knows l r.invoice_id ≡ true) (λ r. not (is_terminal r.state)) l.records
        All-knows

  pub due-known : (tick : ℕ) → All (λ r. knows l r.invoice_id ≡ true) (due_for_review l tick)
  unfolding due_for_review
  due-known tick =
      All-filter (λ r. knows l r.invoice_id ≡ true)
        (λ r. leb r.next_review_tick tick && not (is_in r.state unattended_states)) (active l)
        active-known

  pub awaiting-known : All (λ r. knows l r.invoice_id ≡ true) (awaiting_write_off l)
  unfolding awaiting_write_off
  awaiting-known =
      All-filter (λ r. knows l r.invoice_id ≡ true) (λ r. state_eq r.state RecordState.exhausted)
        l.records All-knows

pub find-get : (l : Ledger) (k : String) (r : Invoice) → find k l.records ≡ some r → get l k ≡ ok r
unfolding get found
find-get l k r h = rw h refl
