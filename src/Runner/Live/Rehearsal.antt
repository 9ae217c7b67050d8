-- ===== src/Runner/Live/Rehearsal.antt =====
-- The live pass makes the decisions of its rehearsal.
use recoup_ai.Base.{ℕ, zero, suc, ◌+◌, ◌≡◌, refl, ap, inl, inr, List, String, Bool-cases}
use recoup_ai.Base.Errors.{Result, ok, ◌>>=◌}
use recoup_ai.Domain.Enums.{Arm}
use recoup_ai.Domain.Models.Invoices.{Invoice, Snapshot}
use recoup_ai.Ledger.Clock.{VirtualClock, clock_exhausted, advance, date_of}
use recoup_ai.Ledger.Records.{awaiting_write_off}
use recoup_ai.Executor.Simulated.{Executor, Returns}
use recoup_ai.Runner.Batch.{Collaborators, Run, each}
use recoup_ai.Runner.Batch.Loop.{
  write_off_outcome, intake, run_tick, run_ticks, write_off, opening, run_batch,
}
use recoup_ai.Runner.Live.{Parts, assemble}
use recoup_ai.Runner.Live.Alike.{Alike, then-Alike, call-Alike, append-SameLog, Same, loop-Alike}
use recoup_ai.Runner.Live.Steps.{
  turn-Alike, apply_outcome-Alike, land_responses-Alike, resolve_promises-Alike,
  draw_spontaneous-Alike,
}
use recoup_ai.Runner.Live.Choices.{take_decisions-Alike}

module _ {P G E F : Type 0} (parts : Parts P G) (ex : Executor E) (fx : Executor F)
    (rehearses : Returns ex) (executes : Returns fx)
    (steady : (p q : P) (s : Snapshot) (tick : ℕ)
      → (parts.propose p s tick).0 ≡ (parts.propose q s tick).0) where
  abbrev rehearsing : Collaborators (G × (P × E))
  rehearsing = assemble parts ex

  abbrev acting : Collaborators (G × (P × F))
  acting = assemble parts fx

  intake-Alike :
      (listed : Invoice) (run : Run (G × (P × E))) (other : Run (G × (P × F)))
      → Same run other
      → Alike Same (intake rehearsing listed run) (intake acting listed other)
  unfolding intake
  intake-Alike listed run other h = record {
    ledger = h.ledger;
    log = append-SameLog parts.row_hash run.log other.log _ _ h.log refl;
    contacts = h.contacts;
    api_units = h.api_units;
    vetoed = h.vetoed;
    decisions = h.decisions;
    written_off = h.written_off;
    pending = h.pending;
    gate = h.gate;
  }

  run_tick-Alike :
      (tick : ℕ) (run : Run (G × (P × E))) (other : Run (G × (P × F)))
      → Same run other
      → Alike Same (run_tick rehearsing tick run) (run_tick acting tick other)
  unfolding run_tick
  run_tick-Alike tick run other h = call-Alike Same (date_of tick) _ _ (λ as_of.
      then-Alike Same _ _ _ _ (land_responses-Alike parts ex fx tick run other h) (λ r s k.
        then-Alike Same _ _ _ _ (resolve_promises-Alike parts ex fx tick r s k) (λ r s k.
          then-Alike Same _ _ _ _ (draw_spontaneous-Alike parts ex fx tick r s k)
            (take_decisions-Alike parts ex fx rehearses executes steady tick))))

  -- Two ends of the loop.
  abbrev pub SameEnd : VirtualClock × Run (G × (P × E)) → VirtualClock × Run (G × (P × F)) → Type 0
  SameEnd a b = (a.0 ≡ b.0) × Same a.1 b.1

  run_ticks-Alike :
      (fuel : ℕ) (clock : VirtualClock) (run : Run (G × (P × E))) (other : Run (G × (P × F)))
      → Same run other
      → Alike SameEnd (run_ticks rehearsing fuel clock run) (run_ticks acting fuel clock other)
  unfolding run_ticks
  run_ticks-Alike zero clock run other h = (refl, h)
  run_ticks-Alike (suc fuel) clock run other h = elim (Bool-cases (clock_exhausted clock)) [
    | inl e ↦ rw e (refl, h)
    | inr e ↦ rw e (
        then-Alike SameEnd _ _ _ _ (run_tick-Alike clock.tick run other h)
          (λ r s k. run_ticks-Alike fuel (advance clock) r s k))
  ]

  counted-Same :
      (run : Run (G × (P × E))) (other : Run (G × (P × F)))
      → Same run other
      → Same
          (record run { written_off = run.written_off + 1 })
          (record other { written_off = other.written_off + 1 })
  counted-Same run other h = record {
    ledger = h.ledger;
    log = h.log;
    contacts = h.contacts;
    api_units = h.api_units;
    vetoed = h.vetoed;
    decisions = h.decisions;
    written_off = ap (λ n. n + 1) h.written_off;
    pending = h.pending;
    gate = h.gate;
  }

  write_off-Alike :
      (horizon : ℕ) (listed : Invoice) (run : Run (G × (P × E))) (other : Run (G × (P × F)))
      → Same run other
      → Alike Same (write_off rehearsing horizon listed run) (write_off acting horizon listed other)
  unfolding write_off
  write_off-Alike horizon listed run other h =
      turn-Alike parts ex fx listed.invoice_id run other _ _ h (λ r.
        then-Alike Same _ _ _ _
          (apply_outcome-Alike parts ex fx r write_off_outcome horizon run other h) counted-Same)

  opening-Same :
      (records : List Invoice) (run_id : String) (arm : Arm) (w : G × (P × E)) (v : G × (P × F))
      → w.0 ≡ v.0
      → Same (opening rehearsing records run_id arm w) (opening acting records run_id arm v)
  unfolding opening
  opening-Same records run_id arm w v h = record {
    ledger = refl;
    log = record { run_id = refl; arm = refl; rows = refl };
    contacts = refl;
    api_units = refl;
    vetoed = refl;
    decisions = refl;
    written_off = refl;
    pending = refl;
    gate = h;
  }

  abbrev ended : {X : Type 0} → VirtualClock → X → Result (VirtualClock × X)
  ended clock run = ok (clock, run)

  closing-Alike :
      (horizon : ℕ) (a : VirtualClock × Run (G × (P × E))) (b : VirtualClock × Run (G × (P × F)))
      → SameEnd a b
      → Alike SameEnd
          (each (write_off rehearsing horizon) (awaiting_write_off a.1.ledger) a.1 >>= λ x.
            ended a.0 x)
          (each (write_off acting horizon) (awaiting_write_off b.1.ledger) b.1 >>= λ x. ended b.0 x)
  closing-Alike horizon a b e =
      then-Alike {R = Same} SameEnd _ _ _ _
        (loop-Alike (write_off rehearsing horizon) (write_off acting horizon) _ _ a.1 b.1
          (write_off-Alike horizon) (ap awaiting_write_off e.1.ledger) e.1)
        (λ x y i. (e.0, i))

  -- Two passes from gates in one state.
  pub run_batch-Alike :
      (records : List Invoice) (run_id : String) (arm : Arm) (horizon : ℕ) (w : G × (P × E))
      (v : G × (P × F))
      → w.0 ≡ v.0
      → Alike SameEnd
          (run_batch rehearsing records run_id arm horizon w)
          (run_batch acting records run_id arm horizon v)
  unfolding run_batch
  run_batch-Alike records run_id arm horizon w v h =
      then-Alike {R = Same} SameEnd _ _ _ _
        (loop-Alike (intake rehearsing) (intake acting)
          (opening rehearsing records run_id arm w).ledger.records
          (opening acting records run_id arm v).ledger.records _ _ intake-Alike
          (unfold opening in refl) (opening-Same records run_id arm w v h))
        (λ r s k.
          then-Alike {R = SameEnd} SameEnd _ _ _ _
            (run_ticks-Alike horizon (record { tick = 0; horizon = horizon }) r s k)
            (closing-Alike horizon))
