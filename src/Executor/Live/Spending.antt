-- ===== src/Executor/Live/Spending.antt =====
-- A live executor over a whole run: its session and its budget.
use native.Mathlib.Omega.{arith}
use recoup_ai.Base.{
  ℕ, suc, inl, inr, Bool-cases, ◌≤◌, ◌≡◌, refl, sym, ◌∙◌, ap, true, Option, List, [], ◌∷◌, ◌++◌,
  String, map, length, All, All-append, Unique, IsAmong,
}
use recoup_ai.Base.Substrings.{begins_with}
use recoup_ai.Domain.Enums.{Arm, Intervention}
use recoup_ai.Domain.Models.Invoices.{Invoice}
use recoup_ai.Runner.Batch.{ExecutionResult}
use recoup_ai.Executor.Budget.{
  LinkRequest, LinkAllocator, new_allocator, shortlisted, may_spend, spend,
}
use recoup_ai.Executor.Budget.Fairness.{Spent, unspent, then_spend, Spent-new-IsFair}
use recoup_ai.Executor.Sessions.{LiveLink}
use recoup_ai.Executor.Live.{
  LinkPayload, ClientAnswer, min_link_paise, LiveExecutor, new_executor, live_perform,
}
use recoup_ai.Executor.Live.Booked.{Performs, not_asked, in_vain, one_link, live_perform-Performs}

-- A link of a session that can be paid and traced.
abbrev pub IsTraceable : String → LiveLink → Type 0
IsTraceable run_id link =
    (min_link_paise ≤ link.amount_paise)
    × (link.run_id ≡ run_id)
    × (begins_with link.payment_link_id "plink_" ≡ true)

abbrev pub funded : List LiveLink → List String
funded links = map (λ l. l.invoice_id) links

funded-append :
    (xs : List LiveLink) (l : LiveLink) → funded (xs ++ l ∷ []) ≡ funded xs ++ l.invoice_id ∷ []
funded-append [] l = refl
funded-append (x ∷ xs) l = ap (λ ks. x.invoice_id ∷ ks) (funded-append xs l)

granted-spend :
    (a : LinkAllocator) (k : String)
    → may_spend a k ≡ true
    → (spend a k).1.granted ≡ a.granted ++ k ∷ []
unfolding spend
granted-spend a k h = rw h refl

length-funded : (links : List LiveLink) → length (funded links) ≡ length links
length-funded [] = refl
length-funded (l ∷ ls) = ap suc (length-funded ls)

spend_keeps :
    (a : LinkAllocator) (k : String)
    → ((spend a k).1.capacity ≡ a.capacity) × (shortlisted (spend a k).1 ≡ shortlisted a)
unfolding spend
spend_keeps a k = elim (Bool-cases (may_spend a k)) [
  | inl h ↦ rw h (refl, refl)
  | inr h ↦ rw h (refl, refl)
]

Spent-kept :
    {a b : LinkAllocator} → Spent a b → (b.capacity ≡ a.capacity) × (shortlisted b ≡ shortlisted a)
Spent-kept unspent = (refl, refl)
Spent-kept (then_spend {b} k s) =
    let (c, l) = Spent-kept s in ((spend_keeps b k).0 ∙ c, (spend_keeps b k).1 ∙ l)

module _ {C : Type 0} where
  -- The session lists one link for each unit that was spent, in the same order.
  record Books (start : LinkAllocator) (run_id : String) (e : LiveExecutor C) : Type 0 where
    pub spent : Spent start e.allocator
    pub matched : funded e.session.links ≡ e.allocator.granted
    pub run : e.session.run_id ≡ run_id
    pub traceable : All (IsTraceable run_id) e.session.links

  Performs-Books :
      (hexdigest : String → String) (create : C → LinkPayload → ClientAnswer × C)
      (callback_url : Option String) (start : LinkAllocator) (run_id : String) (e : LiveExecutor C)
      (r : Invoice) (i : Intervention) (tick : ℕ) {done : ExecutionResult × LiveExecutor C}
      → Books start run_id e
      → Performs hexdigest create run_id callback_url e r i tick done
      → Books start run_id done.1
  Performs-Books hexdigest create callback_url start run_id e r i tick b (not_asked n q) = rw q b
  Performs-Books hexdigest create callback_url start run_id e r i tick b (in_vain d u q) =
      rw q (record { spent = b.spent; matched = b.matched; run = b.run; traceable = b.traceable })
  Performs-Books hexdigest create callback_url start run_id e r i tick b (one_link link d l q) =
      rw q (record {
        spent = then_spend r.invoice_id b.spent;
        matched =
            funded-append e.session.links link
            ∙ ap (λ k. funded e.session.links ++ k ∷ []) l.invoice
            ∙ ap (λ ks. ks ++ r.invoice_id ∷ []) b.matched
            ∙ sym (granted-spend e.allocator r.invoice_id d.funded);
        run = b.run;
        traceable =
            All-append (IsTraceable run_id) e.session.links (link ∷ []) b.traceable
              ((rw l.amount d.amount, l.run ∙ b.run, l.named), tt);
      })

  module _ (hexdigest : String → String) (create : C → LinkPayload → ClientAnswer × C)
      (run_id : String) (callback_url : Option String) where
    -- The executors that a run reaches by calls.
    pub data Performed (start : LiveExecutor C) : LiveExecutor C → Type 0 where
      idle : Performed start start
      then_perform :
          {e : LiveExecutor C} (r : Invoice) (i : Intervention) (tick : ℕ)
          → Performed start e
          → Performed start (live_perform hexdigest create run_id callback_url e r i tick).1

    Performed-Books :
        (start : LiveExecutor C) {e : LiveExecutor C}
        → Books start.allocator run_id start
        → Performed start e
        → Books start.allocator run_id e
    Performed-Books start b idle = b
    Performed-Books start b (then_perform {e} r i tick p) =
        Performs-Books hexdigest create callback_url start.allocator run_id e r i tick
          (Performed-Books start b p)
          (live_perform-Performs hexdigest create run_id callback_url e r i tick)

    -- What a run's live session may be.
    pub record IsWithinCapacity (capacity : ℕ) (shortlist : List String) (links : List LiveLink)
        : Type 0 where
      pub few : length links ≤ capacity
      pub once : Unique (funded links)
      pub chosen : IsAmong (funded links) shortlist
      pub traceable : All (IsTraceable run_id) links

    -- However often a new live executor is called, whatever the service answers, its session has no more
    -- links than the capacity, at most one to a record, only to shortlisted records, each of at least a
    -- rupee and with an id of the service's form, and one for each unit of the budget that was spent.
    pub Performed-IsWithinCapacity :
        (client : C) (demand : List LinkRequest) (capacity : ℕ) (arm : Arm) (key_id : String)
        {e : LiveExecutor C}
        → Performed (new_executor client (new_allocator demand capacity) run_id arm key_id) e
        → IsWithinCapacity capacity (shortlisted (new_allocator demand capacity)) e.session.links
          × (funded e.session.links ≡ e.allocator.granted)
    Performed-IsWithinCapacity client demand capacity arm key_id {e} p =
        let b : Books (new_allocator demand capacity) run_id e =
          Performed-Books (new_executor client (new_allocator demand capacity) run_id arm key_id)
            (record {
              spent = unspent;
              matched = unfold new_allocator in refl;
              run = refl;
              traceable = tt;
            })
            p in
        let f = Spent-new-IsFair demand capacity b.spent in
        let (same_capacity, same_list) = Spent-kept b.spent in
        let all : (new_allocator demand capacity).capacity ≡ capacity =
          unfold new_allocator in refl in
        (
          record {
            few =
                rw (sym (length-funded e.session.links), b.matched)
                  (omega (arith, f.within, same_capacity ∙ all));
            once = rw b.matched f.once;
            chosen = rw (b.matched, sym same_list) f.funded_shortlisted;
            traceable = b.traceable;
          },
          b.matched,
        )
