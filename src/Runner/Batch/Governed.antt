-- ===== src/Runner/Batch/Governed.antt =====
-- The policy engine as the loop's gate.
use recoup_ai.Ledger.Clock.{virtual_date, last_date}
use recoup_ai.Base.{
  ◌≤◌, ℕ, ◌≡◌, refl, sym, ap, true, false, get_or, Option, none, some, List, String,
}
use recoup_ai.Base.Errors.{Result, ok, ◌>>=◌}
use recoup_ai.Domain.Enums.{Arm, Intervention, VerdictKind}
use recoup_ai.Domain.Interventions.{is_contact}
use recoup_ai.Domain.Models.Invoices.{Invoice}
use recoup_ai.Domain.Models.Proposals.{PolicyVerdict, Proposal}
use recoup_ai.Domain.Models.Rows.{OutcomeRecord}
use recoup_ai.Ledger.Records.{Ledger, not_later}
use recoup_ai.Policy.Rules.{rule_order}
use recoup_ai.Policy.Engine.{PolicyEngine, context, account, adjudicate}
use recoup_ai.Policy.Contracts.Walks.{Adjudication, refuses, approves}
use recoup_ai.Policy.Contracts.Compliance.{rule_guarantees, adjudicate_answers_in_order}
use recoup_ai.Runner.Batch.{ExecutionResult, Collaborators, final_of}
use recoup_ai.Runner.Batch.Advance.{IsTimely}
use recoup_ai.Runner.Batch.Replayed.{IsAccountable, run_batch-IsAccountable}

-- An engine with the fixed rule order, which it keeps.
abbrev pub in_order : PolicyEngine → PolicyEngine
in_order e = record e { rules = rule_order }

-- A verdict and the engine after it, with the rest of the state.
abbrev beside :
    {V : Type 0} → V → PolicyVerdict × PolicyEngine → Result (PolicyVerdict × (PolicyEngine × V))
beside rest a = ok (a.0, (a.1, rest))

-- `adjudicate` of the engine in the collaborators' state.
unfoldable pub engine_gate :
    {V : Type 0}
    → PolicyEngine × V
    → Invoice
    → Proposal
    → ℕ
    → Ledger
    → Result (PolicyVerdict × (PolicyEngine × V))
engine_gate w r p tick l = adjudicate (in_order w.0) r p tick l >>= beside w.1

abbrev pub with_engine :
    {V : Type 0} → Collaborators (PolicyEngine × V) → Collaborators (PolicyEngine × V)
with_engine c = record c { policy = some engine_gate }

refused-IsTimely :
    (p : Proposal) (v : PolicyVerdict) (tick : ℕ)
    → v.verdict ≡ VerdictKind.vetoed
    → not_later v.defer_to_tick tick ≡ false
    → IsTimely tick v.defer_to_tick (final_of p (some v))
unfolding final_of
refused-IsTimely p v tick k h = rw k h

nothing_deferred :
    (tick : ℕ) (d : Option ℕ) (final : Option Intervention) → d ≡ none → IsTimely tick d final
nothing_deferred tick d none h = rw h refl
nothing_deferred tick d (some i) h = h

-- The engine's answer, as the loop needs it.
gate_answer :
    {V : Type 0} (w : PolicyEngine × V) (r : Invoice) (p : Proposal) (tick : ℕ) (l : Ledger)
    (m : Result (PolicyVerdict × PolicyEngine))
    → Adjudication rule_guarantees (in_order w.0) r (context (in_order w.0) r p tick l) m
    → (v : PolicyVerdict) × (w' : PolicyEngine × V) × ((m >>= beside w.1) ≡ ok (v, w'))
      × IsTimely tick v.defer_to_tick (final_of p (some v))
unfolding context
gate_answer w r p tick l m (refuses v h) =
    (v, (in_order w.0, w.1), refl, refused-IsTimely p v tick h.kind h.later)
gate_answer w r p tick l m (approves v i _ _ _ d _ _) = (
  v,
  (account (in_order w.0) r i, w.1),
  refl,
  nothing_deferred tick v.defer_to_tick (final_of p (some v)) d,
)

engine_gate_answers :
    {V : Type 0} (w : PolicyEngine × V) (r : Invoice) (p : Proposal) (tick : ℕ) (l : Ledger)
    → (v : PolicyVerdict) × (w' : PolicyEngine × V) × (engine_gate w r p tick l ≡ ok (v, w'))
      × IsTimely tick v.defer_to_tick (final_of p (some v))
unfolding engine_gate
engine_gate_answers w r p tick l =
    gate_answer w r p tick l (adjudicate (in_order w.0) r p tick l)
      (adjudicate_answers_in_order (in_order w.0) r p tick l refl)

module _ {V : Type 0} (c : Collaborators (PolicyEngine × V)) (records : List Invoice) where
  -- With the policy engine in its fixed rule order as the gate, an adjudicator that answers for
  -- contacts and an executor that does not raise, a run over any batch up to a horizon by year 9999
  -- is accountable.
  pub governed-IsAccountable :
      (run_id : String) (arm : Arm) (horizon : ℕ) (w : PolicyEngine × V)
      → ((r : Invoice) (tick : ℕ) (i : Intervention) (contacts : ℕ)
          → is_contact i ≡ true
          → (o : OutcomeRecord) × (c.resolve_response r tick i contacts ≡ ok o))
      → ((w : PolicyEngine × V) (r : Invoice) (i : Intervention) (tick : ℕ)
          → (done : ExecutionResult × (PolicyEngine × V)) × (c.perform w r i tick ≡ ok done))
      → virtual_date horizon ≤ last_date
      → IsAccountable (with_engine c) records run_id arm horizon w
  governed-IsAccountable run_id arm horizon w answers returns dates =
      run_batch-IsAccountable (with_engine c) records
        (record {
          gate_answers = λ f w r p tick l h.
              rw (sym (ap (λ o. get_or o engine_gate) h)) (engine_gate_answers w r p tick l);
          response_answers = answers;
          executor_returns = returns;
        })
        run_id arm horizon w dates
