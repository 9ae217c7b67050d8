-- ===== src/Policy/Contracts/Cadence.antt =====
-- The rules on when, how often and as what a payer may be contacted: each keeps the contract, and
-- its deferral is later than the tick that it vetoes.
use recoup_ai.Base.{
  ℕ, zero, suc, ◌+◌, ◌-◌, ◌*◌, ◌%◌, ◌≤◌, ◌<◌, ◌≡◌, refl, Bool, true, false, ◌||◌, not, Option, none,
  some, arith, leb, Bool-cases, inl, inr,
}
use recoup_ai.Domain.Enums.{Intervention, MessageCategory, category_eq, category_eq→eq}
use recoup_ai.Domain.Interventions.{spec, is_contact}
use recoup_ai.Domain.Models.Proposals.{DraftedMessage}
use recoup_ai.Ledger.Clock.{hour_of_day}
use recoup_ai.Policy.Context.{RuleContext}
use recoup_ai.Policy.Rules.{
  next_allowed, in_contact_hours, in_promotional_band, next_contact_tick, next_promotional_tick,
  rbi_contact_hours, rbi_contact_hours_check, drafted, has_promotional_draft,
  trai_promotional_window, trai_promotional_window_check, trai_message_category, category_verdict,
  trai_message_category_check,
}
use recoup_ai.Ledger.Records.{not_later}
use recoup_ai.Policy.Contracts.{
  reduces, reduces-is_contact, Enforces, Answer, quiet, Answer-if, Answer-veto,
}

-- The search starts at its first candidate and moves forward.
pub next_allowed-ge : (allowed : ℕ → Bool) (fuel c : ℕ) → c ≤ next_allowed allowed fuel c
unfolding next_allowed
next_allowed-ge allowed zero c = omega arith
next_allowed-ge allowed (suc fuel) c = ground (arith, next_allowed-ge allowed fuel (c + 1))

-- It passes over no allowed tick.
pub next_allowed_least :
    (allowed : ℕ → Bool) (fuel c m : ℕ)
    → c ≤ m
    → m < next_allowed allowed fuel c
    → allowed m ≡ false
unfolding next_allowed
next_allowed_least allowed zero c m p q = absurd (omega arith)
next_allowed_least allowed (suc fuel) c m p q = elim (Bool-cases (allowed c)) [
  | inl yes_now ↦ ground arith
  | inr not_now ↦ elim (Bool-cases (leb (c + 1) m)) [
    | inl later ↦ ground (arith, next_allowed_least allowed fuel (c + 1) m)
    | inr same ↦ ground arith
  ]
]

-- It stops at an allowed tick, if one is within its fuel.
pub next_allowed_stops :
    (allowed : ℕ → Bool) (fuel c m : ℕ)
    → c ≤ m
    → m < c + fuel
    → allowed m ≡ true
    → allowed (next_allowed allowed fuel c) ≡ true
unfolding next_allowed
next_allowed_stops allowed zero c m p q h = absurd (omega arith)
next_allowed_stops allowed (suc fuel) c m p q h = elim (Bool-cases (allowed c)) [
  | inl yes_now ↦ rw yes_now yes_now
  | inr not_now ↦ elim (Bool-cases (leb (c + 1) m)) [
    | inl later ↦
        rw not_now (next_allowed_stops allowed fuel (c + 1) m (ground arith) (omega arith) h)
    | inr same ↦ ground arith
  ]
]

in_contact_hours_morning : (t : ℕ) → t % 4 ≡ 0 → in_contact_hours t ≡ true
unfolding in_contact_hours hour_of_day
in_contact_hours_morning t h = let e : (8 + 6 * t) % 24 ≡ 8 = omega arith in rw e

in_promotional_band_afternoon : (t : ℕ) → t % 4 ≡ 1 → in_promotional_band t ≡ true
unfolding in_promotional_band hour_of_day
in_promotional_band_afternoon t h = let e : (8 + 6 * t) % 24 ≡ 14 = omega arith in rw e

-- A contact vetoed by the hour is put off to the next tick inside the window: a later one, inside
-- it, with no such tick between.
pub next_contact_tick_lem :
    (tick : ℕ)
    → (tick < next_contact_tick tick)
      × (in_contact_hours (next_contact_tick tick) ≡ true)
      × ((m : ℕ) → tick < m → m < next_contact_tick tick → in_contact_hours m ≡ false)
next_contact_tick_lem tick = (
  unfold next_contact_tick in omega (arith, next_allowed-ge in_contact_hours 4 (tick + 1)),
  unfold next_contact_tick in
      next_allowed_stops in_contact_hours 4 (tick + 1) (tick + 4 - tick % 4) (omega arith)
        (omega arith) (in_contact_hours_morning (tick + 4 - tick % 4) (omega arith)),
  λ m p q.
      unfold next_contact_tick in
      next_allowed_least in_contact_hours 4 (tick + 1) m (omega arith) q,
)

-- A promotional contact vetoed by the hour is put off to the next tick inside the band: a later
-- one, inside it, with no such tick between.
pub next_promotional_tick_lem :
    (tick : ℕ)
    → (tick < next_promotional_tick tick)
      × (in_promotional_band (next_promotional_tick tick) ≡ true)
      × ((m : ℕ) → tick < m → m < next_promotional_tick tick → in_promotional_band m ≡ false)
next_promotional_tick_lem tick = (
  unfold next_promotional_tick in omega (arith, next_allowed-ge in_promotional_band 4 (tick + 1)),
  unfold next_promotional_tick in
      next_allowed_stops in_promotional_band 4 (tick + 1) (tick + 1 + (4 - tick % 4) % 4)
        (omega arith) (omega arith)
        (in_promotional_band_afternoon (tick + 1 + (4 - tick % 4) % 4) (omega arith)),
  λ m p q.
      unfold next_promotional_tick in
      next_allowed_least in_promotional_band 4 (tick + 1) m (omega arith) q,
)

not_later-some : (d tick : ℕ) → tick < d → not_later (some d) tick ≡ false
not_later-some d tick h = ground arith

abbrev pub WithinHours : RuleContext → Type 0
WithinHours ctx =
    is_contact ctx.current ≡ true → (8 ≤ hour_of_day ctx.tick) × (hour_of_day ctx.tick ≤ 19)

pub rbi_contact_hours-Enforces : Enforces rbi_contact_hours WithinHours
unfolding rbi_contact_hours_check in_contact_hours
rbi_contact_hours-Enforces = record {
  answers = λ ctx.
      Answer-if ctx (not (is_contact ctx.current) || in_contact_hours ctx.tick)
        (λ h c. ground arith)
        (λ h. Answer-veto ctx _ _ (some (next_contact_tick ctx.tick)) (
          not_later-some (next_contact_tick ctx.tick) ctx.tick (next_contact_tick_lem ctx.tick).0));
  stable = λ ctx c r p k. p (reduces-is_contact ctx.current c r k);
}

abbrev pub PromotionalInBand : RuleContext → Type 0
PromotionalInBand ctx =
    is_contact ctx.current ≡ true
    → has_promotional_draft ctx ≡ true
    → (10 ≤ hour_of_day ctx.tick) × (hour_of_day ctx.tick < 21)

pub trai_promotional_window-Enforces : Enforces trai_promotional_window PromotionalInBand
unfolding trai_promotional_window_check in_promotional_band has_promotional_draft
trai_promotional_window-Enforces = record {
  answers = λ ctx.
      Answer-if ctx
        (not (is_contact ctx.current)
          || (not (has_promotional_draft ctx) || in_promotional_band ctx.tick))
        (λ h c d. ground arith)
        (λ h. Answer-veto ctx _ _ (some (next_promotional_tick ctx.tick)) (
          not_later-some (next_promotional_tick ctx.tick) ctx.tick
            (next_promotional_tick_lem ctx.tick).0));
  stable = λ ctx c r p k. p (reduces-is_contact ctx.current c r k);
}

-- A draft for an intervention that carries a header category has that category.
abbrev pub CategoryFits : RuleContext → Type 0
CategoryFits ctx =
    (d : DraftedMessage) (expected : MessageCategory)
    → drafted ctx ≡ some d
    → (spec ctx.current).correct_category ≡ some expected
    → d.category ≡ expected

category_answers :
    (ctx : RuleContext) (m : Option DraftedMessage) (e : Option MessageCategory)
    → drafted ctx ≡ m
    → (spec ctx.current).correct_category ≡ e
    → Answer CategoryFits ctx (category_verdict ctx m e)
unfolding category_verdict
category_answers ctx none e p q = quiet (λ d x k l. ground (arith, p))
category_answers ctx (some m) none p q = quiet (λ d x k l. ground (arith, q))
category_answers ctx (some m) (some e) p q =
    Answer-if ctx (category_eq m.category e)
      (λ h d x k l. ground (arith, p, q, category_eq→eq m.category e))
      (λ h. Answer-veto ctx _ _ none refl)

-- A reduction to something that carries a category keeps the category.
category_kept :
    (a c : Intervention) (x : MessageCategory)
    → reduces a c ≡ true
    → (spec c).correct_category ≡ some x
    → (spec a).correct_category ≡ some x
unfolding reduces spec
category_kept a c x h e = ground arith

pub trai_message_category-Enforces : Enforces trai_message_category CategoryFits
unfolding trai_message_category_check
trai_message_category-Enforces = record {
  answers =
      λ ctx. category_answers ctx (drafted ctx) ((spec ctx.current).correct_category) refl refl;
  stable = λ ctx c r p d x k l. p d x k (category_kept ctx.current c x r l);
}
