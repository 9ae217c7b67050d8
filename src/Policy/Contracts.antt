-- ===== src/Policy/Contracts.antt =====
-- The contract between the engine of src/recoup/policy/engine.py and a rule: how a rule may answer,
-- what it guarantees of a proposal that it lets pass, and that later reductions keep the guarantee.
pub mod Walks
pub mod Quiet
pub mod Cadence
pub mod Windows
pub mod Compliance
pub mod Budgets
use recoup_ai.Base.{ltb, ℕ, ◌≡◌, refl, Bool, true, false, Option, none, some, arith, if◌then◌else◌}
use recoup_ai.Base.Errors.{Result, ok}
use recoup_ai.Domain.Enums.{Intervention, VerdictKind}
use recoup_ai.Domain.Interventions.{spec, is_contact}
use recoup_ai.Domain.Models.Proposals.{PolicyVerdict, RuleSource, Explanation}
use recoup_ai.Ledger.Records.{not_later}
use recoup_ai.Policy.Context.{Rule, RuleContext, contact_intensity, veto, modify}

-- The reductions that rules make: to a human, from a link to a reminder, and none at all.
unfoldable pub reduces : Intervention → Intervention → Bool
reduces _ Intervention.escalate_human = true
reduces Intervention.wait Intervention.wait = true
reduces Intervention.soft_reminder Intervention.soft_reminder = true
reduces Intervention.payment_link Intervention.payment_link = true
reduces Intervention.payment_link Intervention.soft_reminder = true
reduces Intervention.phone_followup Intervention.phone_followup = true
reduces Intervention.stop Intervention.stop = true
reduces _ _ = false

pub reduces_refl : (c : Intervention) → reduces c c ≡ true
unfolding reduces
reduces_refl c = ground arith

pub reduces_trans :
    (a b c : Intervention) → reduces a b ≡ true → reduces b c ≡ true → reduces a c ≡ true
unfolding reduces
reduces_trans Intervention.wait b c p q = ground arith
reduces_trans a b c p q = ground arith

-- A reduction leads to a contact only from a contact.
pub reduces-is_contact :
    (a b : Intervention) → reduces a b ≡ true → is_contact b ≡ true → is_contact a ≡ true
unfolding reduces is_contact
reduces-is_contact a b p q = ground arith

-- A reduction never raises the contact intensity.
pub reduces-lighter :
    (a b : Intervention)
    → reduces a b ≡ true
    → ltb (contact_intensity a) (contact_intensity b) ≡ false
unfolding reduces contact_intensity
reduces-lighter a b h = ground arith

-- The context in which the proposal has been reduced to `c`.
abbrev pub reduced_to : RuleContext → Intervention → RuleContext
reduced_to ctx c = record ctx { current = c }

-- A veto stops the proposal; a deferral that it names is later than the tick.
pub record IsVeto (original : Intervention) (tick : ℕ) (v : PolicyVerdict) : Type 0 where
  pub kind : v.verdict ≡ VerdictKind.vetoed
  pub nothing_final : v.final ≡ none
  pub reports : v.original ≡ original
  pub later : not_later v.defer_to_tick tick ≡ false

-- A modification reduces, and defers nothing.
pub record IsReduction (ctx : RuleContext) (v : PolicyVerdict) (c : Intervention) : Type 0 where
  pub kind : v.verdict ≡ VerdictKind.modified
  pub final_is : v.final ≡ some c
  pub reports : v.original ≡ ctx.original
  pub no_deferral : v.defer_to_tick ≡ none
  pub smaller : reduces ctx.current c ≡ true

-- An answer of a rule that guarantees `P` of whatever passes it.
pub data Answer (P : RuleContext → Type 0) (ctx : RuleContext)
    : Result (Option PolicyVerdict) → Type 0 where
  quiet : P ctx → Answer P ctx (ok none)
  vetoes : (v : PolicyVerdict) → IsVeto ctx.original ctx.tick v → Answer P ctx (ok (some v))
  lowers :
      (v : PolicyVerdict) (c : Intervention)
      → IsReduction ctx v c
      → P (reduced_to ctx c)
      → Answer P ctx (ok (some v))

pub record Enforces (rule : Rule) (P : RuleContext → Type 0) : Type 0 where
  pub answers : (ctx : RuleContext) → Answer P ctx (rule.check ctx)
  pub stable :
      (ctx : RuleContext) (c : Intervention)
      → reduces ctx.current c ≡ true
      → P ctx
      → P (reduced_to ctx c)

module _ {P : RuleContext → Type 0} (ctx : RuleContext) where
  pub Answer-if :
      (b : Bool) {m : Result (Option PolicyVerdict)}
      → (b ≡ true → P ctx)
      → (b ≡ false → Answer P ctx m)
      → Answer P ctx (if b then ok none else m)
  Answer-if true f g = quiet (f refl)
  Answer-if false f g = g refl

  pub Answer-branch :
      (b : Bool) {m n : Result (Option PolicyVerdict)}
      → (b ≡ true → Answer P ctx m)
      → (b ≡ false → Answer P ctx n)
      → Answer P ctx (if b then m else n)
  Answer-branch true f g = f refl
  Answer-branch false f g = g refl

  pub Answer-veto :
      (source : RuleSource) (explanation : Explanation) (defer : Option ℕ)
      → not_later defer ctx.tick ≡ false
      → Answer P ctx (veto ctx source explanation defer)
  unfolding veto
  Answer-veto source explanation defer h =
      vetoes _ (record { kind = refl; nothing_final = refl; reports = refl; later = h })

  pub Answer-modify :
      (c : Intervention) (source : RuleSource) (explanation : Explanation)
      → reduces ctx.current c ≡ true
      → P (reduced_to ctx c)
      → Answer P ctx (modify ctx c source explanation)
  unfolding modify
  Answer-modify c source explanation h p = rw (reduces-lighter ctx.current c h) (
      lowers _ c
        (record { kind = refl; final_is = refl; reports = refl; no_deferral = refl; smaller = h })
        p)
