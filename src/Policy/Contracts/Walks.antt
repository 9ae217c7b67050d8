-- ===== src/Policy/Contracts/Walks.antt =====
-- The loop of `PolicyEngine.adjudicate` over any rules that keep the contract.
use recoup_ai.Base.{◌≡◌, ◌≢◌, refl, true, Option, none, some, List, [], ◌∷◌, String, arith, ℕ}
use recoup_ai.Base.Errors.{Result, ok, ◌>>=◌}
use recoup_ai.Domain.Models.Proposals.{PolicyVerdict, Proposal}
use recoup_ai.Domain.Models.Invoices.{Invoice}
use recoup_ai.Ledger.Records.{Ledger}
use recoup_ai.Domain.Enums.{Intervention, VerdictKind}
use recoup_ai.Policy.Context.{Rule, RuleContext}
use recoup_ai.Policy.Engine.{
  PolicyEngine, Walk, vetoed_by, passed, stamp, keep_first, firing, stops, reduces_to, fire, walk,
  context, account, approval, finish, adjudicate,
}
use recoup_ai.Policy.Contracts.{
  reduces, reduces_refl, reduces_trans, reduced_to, IsVeto, IsReduction, Answer, quiet, vetoes,
  lowers, Enforces,
}

-- Rules, each with what it guarantees.
pub data EnforceAll : List Rule → List (RuleContext → Type 0) → Type 1 where
  none_left : EnforceAll [] []
  rule_then :
      {rule : Rule} {P : RuleContext → Type 0} {rules : List Rule}
      {Ps : List (RuleContext → Type 0)}
      → Enforces rule P
      → EnforceAll rules Ps
      → EnforceAll (rule ∷ rules) (P ∷ Ps)

abbrev pub Guarantees : List (RuleContext → Type 0) → RuleContext → Type 0
Guarantees [] ctx = Unit
Guarantees (P ∷ Ps) ctx = P ctx × Guarantees Ps ctx

-- The first modification, if there is one: it reports the original and defers nothing.
abbrev pub IsFirst : Intervention → Option PolicyVerdict → Type 0
IsFirst original none = Unit
IsFirst original (some v) =
    (v.verdict ≡ VerdictKind.modified) × (v.original ≡ original) × (v.defer_to_tick ≡ none)

-- How the loop may end: with a veto, or with a reduced proposal that meets every guarantee.
pub data Ends (Ps : List (RuleContext → Type 0)) (ctx : RuleContext) : Result Walk → Type 0 where
  by_veto : (v : PolicyVerdict) → IsVeto ctx.original ctx.tick v → Ends Ps ctx (ok (vetoed_by v))
  by_passing :
      (c : Intervention) (first : Option PolicyVerdict)
      → reduces ctx.current c ≡ true
      → IsFirst ctx.original first
      → Guarantees Ps (reduced_to ctx c)
      → Ends Ps ctx (ok (passed c first))

keep_first-IsFirst :
    (ctx : RuleContext) (first : Option PolicyVerdict) (rule_id : String) (v : PolicyVerdict)
    (c : Intervention)
    → IsFirst ctx.original first
    → IsReduction ctx v c
    → IsFirst ctx.original (some (keep_first first (stamp rule_id v)))
keep_first-IsFirst ctx none rule_id v c f h = (h.kind, h.reports, h.no_deferral)
keep_first-IsFirst ctx (some w) rule_id v c f h = f

-- Putting a guarantee before those of the rest of the loop.
Ends-cons :
    {P : RuleContext → Type 0} {Ps : List (RuleContext → Type 0)} {rule : Rule} (ctx : RuleContext)
    (c : Intervention) {w : Result Walk}
    → Enforces rule P
    → reduces ctx.current c ≡ true
    → P (reduced_to ctx c)
    → Ends Ps (reduced_to ctx c) w
    → Ends (P ∷ Ps) ctx w
Ends-cons ctx c en r p (by_veto v h) = by_veto v h
Ends-cons ctx c en r p (by_passing d first s f g) =
    by_passing d first (reduces_trans ctx.current c d r s) f (en.stable (reduced_to ctx c) d s p, g)

firing-vetoed :
    (kind : VerdictKind) (final : Option Intervention)
    → kind ≡ VerdictKind.vetoed
    → firing kind final ≡ stops
unfolding firing
firing-vetoed kind final h = ground arith

firing-modified :
    (kind : VerdictKind) (final : Option Intervention) (c : Intervention)
    → kind ≡ VerdictKind.modified
    → final ≡ some c
    → firing kind final ≡ reduces_to c
unfolding firing
firing-modified kind final c h e = ground arith

-- One answer of a rule, and the rest of the loop behind it.
fire-Ends :
    {P : RuleContext → Type 0} {Ps : List (RuleContext → Type 0)} {rule : Rule} (rules : List Rule)
    (ctx : RuleContext) (first : Option PolicyVerdict) {m : Result (Option PolicyVerdict)}
    → Enforces rule P
    → ((d : RuleContext) (f : Option PolicyVerdict)
        → IsFirst d.original f
        → Ends Ps d (walk rules d f))
    → IsFirst ctx.original first
    → Answer P ctx m
    → Ends (P ∷ Ps) ctx (m >>= λ v. fire (walk rules) ctx first rule.rule_id v)
fire-Ends rules ctx first en ih f (quiet p) =
    unfold fire in Ends-cons ctx ctx.current en (reduces_refl ctx.current) p (ih ctx first f)
fire-Ends {rule} rules ctx first en ih f (vetoes v h) =
    unfold fire in
    rw (firing-vetoed v.verdict v.final h.kind, fire)
      (by_veto (stamp rule.rule_id v) (record {
        kind = h.kind;
        nothing_final = h.nothing_final;
        reports = h.reports;
        later = h.later;
      }))
fire-Ends {rule} rules ctx first en ih f (lowers v c h p) =
    unfold fire in
    rw (firing-modified v.verdict v.final c h.kind h.final_is, fire)
      (Ends-cons ctx c en h.smaller p (
        ih (reduced_to ctx c) (some (keep_first first (stamp rule.rule_id v)))
          (keep_first-IsFirst ctx first rule.rule_id v c f h)))

pub walk-Ends :
    (rules : List Rule) (Ps : List (RuleContext → Type 0)) (ctx : RuleContext)
    (first : Option PolicyVerdict)
    → EnforceAll rules Ps
    → IsFirst ctx.original first
    → Ends Ps ctx (walk rules ctx first)
unfolding walk
walk-Ends [] [] ctx first none_left f = by_passing ctx.current first (reduces_refl ctx.current) f tt
walk-Ends [] (P ∷ Ps) ctx first x f = elim x [ ]
walk-Ends (rule ∷ rules) [] ctx first x f = elim x [ ]
walk-Ends (rule ∷ rules) (P ∷ Ps) ctx first (rule_then en all) f =
    fire-Ends rules ctx first en (λ d g h. walk-Ends rules Ps d g all h) f (en.answers ctx)

-- What an adjudication answers: a veto that leaves the engine alone, or an approval of a reduced
-- proposal that meets every guarantee and defers nothing.
pub data Adjudication (Ps : List (RuleContext → Type 0)) (e : PolicyEngine) (r : Invoice)
    (ctx : RuleContext) : Result (PolicyVerdict × PolicyEngine) → Type 0 where
  refuses :
      (v : PolicyVerdict) → IsVeto ctx.original ctx.tick v → Adjudication Ps e r ctx (ok (v, e))
  approves :
      (v : PolicyVerdict) (c : Intervention)
      → v.verdict ≢ VerdictKind.vetoed
      → v.final ≡ some c
      → v.original ≡ ctx.original
      → v.defer_to_tick ≡ none
      → reduces ctx.original c ≡ true
      → Guarantees Ps (reduced_to ctx c)
      → Adjudication Ps e r ctx (ok (v, account e r c))

finish-Adjudication :
    {Ps : List (RuleContext → Type 0)} (e : PolicyEngine) (r : Invoice) (ctx : RuleContext)
    {w : Result Walk}
    → ctx.current ≡ ctx.original
    → Ends Ps ctx w
    → Adjudication Ps e r ctx (w >>= λ x. ok (finish e r ctx.original x))
unfolding finish
finish-Adjudication e r ctx same (by_veto v h) = refuses v h
finish-Adjudication e r ctx same (by_passing c none s f g) =
    approves (approval ctx.original c none) c (ground arith) refl refl refl (rw same at s) g
finish-Adjudication e r ctx same (by_passing c (some w) s f g) =
    approves (approval ctx.original c (some w)) c (ground arith) refl f.1 f.2 (rw same at s) g

-- An engine whose rules keep the contract always answers: with a veto, or with an approval that
-- meets every guarantee.
pub adjudicate_answers :
    (e : PolicyEngine) (Ps : List (RuleContext → Type 0)) (r : Invoice) (p : Proposal) (tick : ℕ)
    (ledger : Ledger)
    → EnforceAll e.rules Ps
    → Adjudication Ps e r (context e r p tick ledger) (adjudicate e r p tick ledger)
unfolding adjudicate context
adjudicate_answers e Ps r p tick ledger all =
    finish-Adjudication e r (context e r p tick ledger) refl
      (walk-Ends e.rules Ps (context e r p tick ledger) none all tt)
