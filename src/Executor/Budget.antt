-- ===== src/Executor/Budget.antt =====
-- src/recoup/executor/budget.py: the demand for live links and its allocation. A capacity is a
-- natural number, so the constructor's test for a negative one never fires.
pub mod Fairness
use recoup_ai.Base.{
  ℕ, ◌+◌, ◌-◌, ◌≡◌, Bool, true, false, ◌&&◌, ◌||◌, not, Option, none, some, List, [], ◌∷◌, ◌++◌,
  sort_by, String, leb, ltb, ◌==◌, ◌=s=◌, if◌then◌else◌, length, contains, map,
}
use recoup_ai.Domain.Enums.{Intervention}
use recoup_ai.Domain.Models.Invoices.{Snapshot}
use recoup_ai.Domain.Models.Rows.{ActionRecord, AuditRow}
use recoup_ai.Ledger.Records.{text_le}
use recoup_ai.Policy.Rules.{is_payment_link}

pub record LinkRequest : Type 0 where
  pub invoice_id : String
  pub tick : ℕ
  pub outstanding_paise : ℕ

pub record Allocation : Type 0 where
  pub invoice_id : String
  pub rank : ℕ
  pub tick : ℕ
  pub expected_recovery_paise : ℕ

-- `int(snapshot.get("outstanding_paise", 0))`, where the row may have no snapshot
abbrev snapshot_outstanding : Option Snapshot → ℕ
snapshot_outstanding none = 0
snapshot_outstanding (some s) = s.outstanding_paise

-- Whether a row is a payment link that was sent.
abbrev sent_link : Option ActionRecord → Bool
sent_link none = false
sent_link (some a) = a.executed && is_payment_link a.intervention

unfoldable pub demand_from_log : List AuditRow → List LinkRequest
demand_from_log [] = []
demand_from_log (row ∷ rows) =
    let rest = demand_from_log rows in
    if sent_link row.action
    then record {
      invoice_id = row.record_id;
      tick = row.tick;
      outstanding_paise = snapshot_outstanding row.input_snapshot;
    }
      ∷ rest
    else rest

-- The order of the key `(r.tick, r.invoice_id)`.
unfoldable pub earlier : LinkRequest → LinkRequest → Bool
earlier r s =
    if ltb r.tick s.tick
    then true
    else if ltb s.tick r.tick
    then false
    else text_le r.invoice_id s.invoice_id

-- The order of the key `(-r.outstanding_paise, r.tick, r.invoice_id)`.
unfoldable pub worthier : LinkRequest → LinkRequest → Bool
unfolding earlier
worthier r s =
    if ltb s.outstanding_paise r.outstanding_paise
    then true
    else if ltb r.outstanding_paise s.outstanding_paise
    then false
    else earlier r s

-- `first_request.setdefault(request.invoice_id, request)`
unfoldable pub set_default : LinkRequest → List LinkRequest → List LinkRequest
set_default r [] = r ∷ []
set_default r (x ∷ xs) =
    let rest = set_default r xs in if x.invoice_id =s= r.invoice_id then x ∷ xs else x ∷ rest

-- The dictionary `first_request` after the requests, from the dictionary before them.
unfoldable pub first_requests : List LinkRequest → List LinkRequest → List LinkRequest
unfolding set_default
first_requests known [] = known
first_requests known (r ∷ rs) = first_requests (set_default r known) rs

-- `enumerate(ranked)`, from `rank` on.
unfoldable pub allocations : ℕ → List LinkRequest → List Allocation
allocations rank [] = []
allocations rank (r ∷ rs) =
    record {
      invoice_id = r.invoice_id;
      rank = rank;
      tick = r.tick;
      expected_recovery_paise = r.outstanding_paise;
    }
    ∷ allocations (rank + 1) rs

-- `xs[:n]`
unfoldable pub take {ℓ} : {A : Type ℓ} → ℕ → List A → List A
take n [] = []
take n (x ∷ xs) = let rest = take (n - 1) xs in if n == 0 then [] else x ∷ rest

pub record LinkAllocator : Type 0 where
  pub capacity : ℕ
  pub shortlist : List Allocation
  pub demand_size : ℕ
  pub granted : List String

-- The first request of each record, and these in order of worth.
unfoldable pub firsts : List LinkRequest → List LinkRequest
unfolding first_requests
firsts demand = first_requests [] (sort_by earlier demand)

unfoldable pub ranked : List LinkRequest → List LinkRequest
unfolding firsts
ranked demand = sort_by worthier (firsts demand)

-- `LinkAllocator.__init__`
unfoldable pub new_allocator : List LinkRequest → ℕ → LinkAllocator
unfolding allocations take
new_allocator demand capacity = record {
  capacity = capacity;
  shortlist = take capacity (allocations 0 (ranked demand));
  demand_size = length (firsts demand);
  granted = [];
}

abbrev pub shortlisted : LinkAllocator → List String
shortlisted a = map (λ x. x.invoice_id) a.shortlist

unfoldable pub remaining : LinkAllocator → ℕ
remaining a = a.capacity - length a.granted

unfoldable pub is_permitted : LinkAllocator → String → Bool
is_permitted a k = contains k (shortlisted a)

unfoldable pub may_spend : LinkAllocator → String → Bool
unfolding is_permitted remaining
may_spend a k = is_permitted a k && (not (contains k a.granted) && ltb 0 (remaining a))

-- The answer, and the allocator after the call.
unfoldable pub spend : LinkAllocator → String → Bool × LinkAllocator
spend a k = if may_spend a k then (true, record a { granted = a.granted ++ k ∷ [] }) else (false, a)

-- One constructor for each text.
pub data Refusal : Type 0 where
  already_funded outside_shortlist budget_exhausted : Refusal

unfoldable pub refusal_reason : LinkAllocator → String → Refusal
refusal_reason a k =
    if contains k a.granted
    then Refusal.already_funded
    else if not (is_permitted a k)
    then Refusal.outside_shortlist
    else Refusal.budget_exhausted
