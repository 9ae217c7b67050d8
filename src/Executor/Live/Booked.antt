-- ===== src/Executor/Live/Booked.antt =====
-- What the live executor has booked, and what one call of it does.
use recoup_ai.Base.{
  ℕ, ◌≤◌, ◌≡◌, refl, sym, inl, inr, Bool, true, false, not, Option, none, some, [], ◌∷◌, ◌++◌,
  String, ltb, ◌==◌, arith, Bool-cases, if◌then◌else◌,
}
use recoup_ai.Base.Substrings.{begins_with}
use recoup_ai.Domain.Enums.{Intervention}
use recoup_ai.Domain.Interventions.{spec}
use recoup_ai.Domain.Models.Invoices.{Invoice, outstanding_paise}
use recoup_ai.Runner.Batch.{ExecutionResult, not_executed}
use recoup_ai.Executor.Budget.{may_spend, spend}
use recoup_ai.Executor.Sessions.{LiveLink, LiveSession}
use recoup_ai.Executor.Live.{
  LinkPayload, CreatedLink, ClientAnswer, created, raised, min_link_paise, text_or, LiveExecutor,
  read_link, live_result, book, receive, link_payload, live_perform,
}

-- A link for a record of a session, in the form that the executor takes it in.
pub record IsLinkFor (session : LiveSession) (r : Invoice) (tick : ℕ) (link : LiveLink)
    : Type 0 where
  pub invoice : link.invoice_id ≡ r.invoice_id
  pub run : link.run_id ≡ session.run_id
  pub made : link.tick ≡ tick
  pub amount : link.amount_paise ≡ outstanding_paise r
  pub named : begins_with link.payment_link_id "plink_" ≡ true

unless_none {ℓ} :
    {A : Type ℓ} (b : Bool) (x y : A)
    → (if not b then none else some x) ≡ some y
    → (b ≡ true) × (x ≡ y)
unless_none true x y h = (refl, cc)
unless_none false x y h = cc

read_link-IsLinkFor :
    (session : LiveSession) (answer : CreatedLink) (r : Invoice) (tick : ℕ) (link : LiveLink)
    → read_link session answer r tick ≡ some link
    → IsLinkFor session r tick link
unfolding read_link
read_link-IsLinkFor session answer r tick link h =
    let (named, e) = unless_none (begins_with (text_or answer.id "") "plink_") _ link h in
    rw (sym e) (record { invoice = refl; run = refl; made = refl; amount = refl; named = named })

api_units_one : (i : Intervention) → ((spec i).api_units == 0) ≡ false → (spec i).api_units ≡ 1
unfolding spec
api_units_one i h = ground (arith, h)

-- Whether a call is for a link that may be made.
pub record IsDue {C : Type 0} (e : LiveExecutor C) (r : Invoice) (i : Intervention) : Type 0 where
  pub link : (spec i).api_units ≡ 1
  pub amount : min_link_paise ≤ outstanding_paise r
  pub funded : may_spend e.allocator r.invoice_id ≡ true

module _ {C : Type 0} (hexdigest : String → String) (create : C → LinkPayload → ClientAnswer × C)
    (run_id : String) (callback_url : Option String) where
  -- What the service does when it is asked for the link of a record.
  abbrev pub asked : LiveExecutor C → Invoice → ℕ → ClientAnswer × C
  asked e r tick = create e.client (link_payload hexdigest create run_id callback_url r tick)

  -- An answer that no link can be read from.
  abbrev pub IsUseless : LiveSession → Invoice → ℕ → ClientAnswer → Type 0
  IsUseless session r tick (raised text) = Unit
  IsUseless session r tick (created answer) = read_link session answer r tick ≡ none

  -- One call: the service is not asked and nothing changes at all; or it is asked once, in vain, and
  -- only the failure is noted; or it is asked once, and the link that it made is booked with one unit
  -- of the budget.
  pub data Performs (e : LiveExecutor C) (r : Invoice) (i : Intervention) (tick : ℕ)
      : ExecutionResult × LiveExecutor C → Type 0 where
    not_asked :
        {done : ExecutionResult × LiveExecutor C}
        → ¬ IsDue e r i
        → done ≡ (not_executed, e)
        → Performs e r i tick done
    in_vain :
        {done : ExecutionResult × LiveExecutor C}
        → IsDue e r i
        → IsUseless e.session r tick (asked e r tick).0
        → done ≡ (
          not_executed,
          record e { failures = e.failures ++ r.invoice_id ∷ []; client = (asked e r tick).1 },
        )
        → Performs e r i tick done
    one_link :
        {done : ExecutionResult × LiveExecutor C} (link : LiveLink)
        → IsDue e r i
        → IsLinkFor e.session r tick link
        → done ≡ (
          live_result link.payment_link_id,
          record e {
            allocator = (spend e.allocator r.invoice_id).1;
            session = record e.session { links = e.session.links ++ link ∷ [] };
            client = (asked e r tick).1;
          },
        )
        → Performs e r i tick done

  read-Performs :
      (e : LiveExecutor C) (r : Invoice) (i : Intervention) (tick : ℕ) (answer : CreatedLink)
      (o : Option LiveLink)
      → IsDue e r i
      → (asked e r tick).0 ≡ created answer
      → read_link e.session answer r tick ≡ o
      → Performs e r i tick (book (record e { client = (asked e r tick).1 }) r o)
  unfolding book
  read-Performs e r i tick answer none d a h = in_vain d (rw a h) refl
  read-Performs e r i tick answer (some link) d a h =
      one_link link d (read_link-IsLinkFor e.session answer r tick link h) refl

  receive-Performs :
      (e : LiveExecutor C) (r : Invoice) (i : Intervention) (tick : ℕ) (answer : ClientAnswer)
      → IsDue e r i
      → (asked e r tick).0 ≡ answer
      → Performs e r i tick (receive (record e { client = (asked e r tick).1 }) r tick answer)
  unfolding receive book
  receive-Performs e r i tick (raised text) d a = in_vain d (rw a tt) refl
  receive-Performs e r i tick (created answer) d a =
      read-Performs e r i tick answer (read_link e.session answer r tick) d a refl

  -- A call of the live executor, whatever the service answers. Where the intervention is a link, the
  -- record owes at least a rupee and may have a link of the budget, the service is asked once: if a
  -- link can be read from its answer, that link, of the record's balance, is booked in the session
  -- with one unit of the budget, and the result is live and names it; if not, only the failure is
  -- noted. Otherwise the service is not asked and nothing changes.
  pub live_perform-Performs :
      (e : LiveExecutor C) (r : Invoice) (i : Intervention) (tick : ℕ)
      → Performs e r i tick (live_perform hexdigest create run_id callback_url e r i tick)
  unfolding live_perform
  live_perform-Performs e r i tick = elim (Bool-cases ((spec i).api_units == 0)) [
    | inl u ↦ rw u (not_asked (λ d. ground (arith, u, d.link)) refl)
    | inr u ↦ elim (Bool-cases (ltb (outstanding_paise r) min_link_paise)) [
      | inl a ↦ rw (u, a) (not_asked (λ d. ground (arith, a, d.amount)) refl)
      | inr a ↦ elim (Bool-cases (may_spend e.allocator r.invoice_id)) [
        | inl m ↦
            rw (u, a, m)
              (receive-Performs e r i tick _
                (record { link = api_units_one i u; amount = ground (arith, a); funded = m }) refl)
        | inr m ↦ rw (u, a, m) (not_asked (λ d. cc (m, d.funded)) refl)
      ]
    ]
  ]
