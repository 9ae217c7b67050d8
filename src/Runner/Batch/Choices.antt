-- ===== src/Runner/Batch/Choices.antt =====
-- The fourth step of a tick: refused and executed decisions.
use recoup_ai.Base.{
  ℕ, ◌+◌, ◌≡◌, refl, inl, inr, Bool, true, false, Option, none, some, List, All, All-append,
  Bool-cases,
}
use recoup_ai.Base.Errors.{Result, ok}
use recoup_ai.Domain.Enums.{Intervention}
use recoup_ai.Domain.Interventions.{is_contact}
use recoup_ai.Domain.Models.Invoices.{Invoice, Snapshot, to_snapshot}
use recoup_ai.Domain.Models.Proposals.{PolicyVerdict, Proposal}
use recoup_ai.Ledger.Clock.{virtual_date}
use recoup_ai.Ledger.Records.{Ledger, get, due_for_review}
use recoup_ai.Ledger.Records.Results.{record_action_lem}
use recoup_ai.Ledger.Records.Lookup.{knows, knows-store, get_known, get-knows, due-known}
use recoup_ai.Audit.Log.{next_row}
use recoup_ai.Audit.Replay.{apply_decision, apply_row, counted, deferral}
use recoup_ai.Runner.Batch.{
  ExecutionResult, not_executed, Collaborators, Run, final_of, decision_row,
}
use recoup_ai.Runner.Batch.Decisions.{gate, perform, awaited, act, decide, take_decisions}
use recoup_ai.Runner.Batch.Advance.{
  IsReliable, IsTimely, IsAwaited, IsTracked, Advances, logs_advance,
}
use recoup_ai.Runner.Batch.Steps.{still-IsAwaited, records_advance}

module _ {W : Type 0} (c : Collaborators W) (records : List Invoice) where
  awaited-All :
      (l m : Ledger) (r : Invoice) (i : Intervention) (tick : ℕ)
      → knows m r.invoice_id ≡ true
      → All (IsAwaited c records m) (awaited c l r i tick)
  unfolding awaited
  awaited-All l m r i tick k = elim (Bool-cases (is_contact i)) [
    | inl h ↦ rw h ((k, h), tt)
    | inr h ↦ rw h tt
  ]

  performed :
      (reliable : IsReliable c) (w : W) (r : Invoice) (i : Intervention) (tick : ℕ) (b : Bool)
      → (done : ExecutionResult × W) × (perform c w r i tick b ≡ ok done)
  unfolding perform
  performed reliable w r i tick true = reliable.executor_returns w r i tick
  performed reliable w r i tick false = ((not_executed, w), refl)

  act-Advances :
      (r : Invoice) (s : Snapshot) (p : Proposal) (v : Option PolicyVerdict) (tick : ℕ)
      (final : Option Intervention) (run : Run W)
      → IsReliable c
      → IsTimely tick (deferral v) final
      → get run.ledger r.invoice_id ≡ ok r
      → IsTracked c records run
      → Advances c records run (act c r s p v tick final run)
  unfolding act apply_row apply_decision next_row counted
  act-Advances r s p v tick none run k d g t =
      let e = record_action_lem r p.intervention tick false (deferral v) d in
      rw e (
        logs_advance c records run _ (decision_row r.invoice_id s p v _ tick) r t refl g (rw e refl)
          (still-IsAwaited c records run.ledger _ run.pending t.awaits) (knows-store run.ledger _))
  act-Advances r s p v tick (some i) run k d g t =
      let (done, q) = performed k run.world r i tick (is_contact i) in
      let e = record_action_lem r i tick true none refl in
      rw (q, e)
        (logs_advance c records run _ (decision_row r.invoice_id s p v _ tick) r t refl g
          (rw (d, e) refl)
          (All-append (IsAwaited c records _) run.pending _
            (still-IsAwaited c records run.ledger _ run.pending t.awaits)
            (awaited-All run.ledger _ r i tick
              (knows-store run.ledger _ r.invoice_id (get-knows run.ledger r.invoice_id r g))))
          (knows-store run.ledger _))

  module _ (reliable : IsReliable c) where
    gate_lem :
        (o : Option (W → Invoice → Proposal → ℕ → Ledger → Result (PolicyVerdict × W))) (w : W)
        (r : Invoice) (p : Proposal) (tick : ℕ) (l : Ledger)
        → c.policy ≡ o
        → (v : Option PolicyVerdict) × (w' : W) × (gate c o w r p tick l ≡ ok (v, w'))
          × IsTimely tick (deferral v) (final_of p v)
    unfolding gate final_of
    gate_lem none w r p tick l h = (none, w, refl, refl)
    gate_lem (some f) w r p tick l h =
        let (v, w', e, d) = reliable.gate_answers f w r p tick l h in (some v, w', rw e refl, d)

    decide-Advances :
        (tick : ℕ) (listed : Invoice) (run : Run W)
        → knows run.ledger listed.invoice_id ≡ true
        → IsTracked c records run
        → Advances c records run (decide c tick listed run)
    unfolding decide
    decide-Advances tick listed run k t =
        let (r, g, e) = get_known run.ledger listed.invoice_id k in
        let s = to_snapshot r (virtual_date tick) tick in
        let asked = c.propose run.world s tick in
        let (v, w, q, d) = gate_lem c.policy asked.1 r asked.0 tick run.ledger refl in
        let run' : Run W = record run { decisions = run.decisions + 1; world = w } in
        let a =
          act-Advances r s asked.0 v tick (final_of asked.0 v) run' reliable d (rw e g)
            (record { intact = t.intact; tracks = t.tracks; awaits = t.awaits }) in
        rw (g, q)
          (record {
            next = a.next;
            returns = a.returns;
            tracked = a.tracked;
            remembers = a.remembers;
          })

    pub take_decisions-Advances :
        (tick : ℕ) (run : Run W)
        → IsTracked c records run
        → Advances c records run (take_decisions c tick run)
    unfolding take_decisions
    take_decisions-Advances tick run t =
        records_advance c records (decide c tick) (due_for_review run.ledger tick) run
          (decide-Advances tick) (due-known run.ledger tick) t
