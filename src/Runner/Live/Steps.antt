-- ===== src/Runner/Live/Steps.antt =====
-- Each step of the loop keeps two passes alike.
use recoup_ai.Base.{ℕ, ◌≡◌, refl, ap, Bool, true, false, Option, none, some, String, leb, filter}
use recoup_ai.Base.Errors.{Result, ◌>>=◌}
use recoup_ai.Domain.Enums.{OutcomeKind}
use recoup_ai.Domain.Models.Invoices.{Invoice}
use recoup_ai.Domain.Models.Rows.{OutcomeRecord}
use recoup_ai.Ledger.States.{is_terminal}
use recoup_ai.Ledger.Records.{get, store, active}
use recoup_ai.Executor.Simulated.{Executor}
use recoup_ai.Runner.Batch.{
  Collaborators, Pending, Run, settle, apply_outcome, respond, land, sort_pending, land_responses,
  draw, promise_turn, resolve_promises, spontaneous_turn, draw_spontaneous,
}
use recoup_ai.Runner.Live.{Parts, assemble}
use recoup_ai.Runner.Live.Alike.{Alike, call-Alike, append-SameLog, Same, each-Alike, loop-Alike}

module _ {P G E F : Type 0} (parts : Parts P G) (ex : Executor E) (fx : Executor F) where
  -- The collaborators of the two passes.
  abbrev rehearsing : Collaborators (G × (P × E))
  rehearsing = assemble parts ex

  abbrev acting : Collaborators (G × (P × F))
  acting = assemble parts fx

  settle_same :
      (r : Invoice) (o : OutcomeRecord) (tick : ℕ) (k : OutcomeKind)
      → settle rehearsing r o tick k ≡ settle acting r o tick k
  unfolding settle
  settle_same r o tick OutcomeKind.promised = refl
  settle_same r o tick _ = refl

  pub apply_outcome-Alike :
      (r : Invoice) (o : OutcomeRecord) (tick : ℕ) (run : Run (G × (P × E)))
      (other : Run (G × (P × F)))
      → Same run other
      → Alike Same (apply_outcome rehearsing r o tick run) (apply_outcome acting r o tick other)
  unfolding apply_outcome
  apply_outcome-Alike r o tick run other h = rw (settle_same r o tick o.kind) (
      call-Alike Same (settle acting r o tick o.kind) _ _ (λ moved. record {
        ledger = ap (λ l. store l moved) h.ledger;
        log = append-SameLog parts.row_hash run.log other.log _ _ h.log refl;
        contacts = h.contacts;
        api_units = h.api_units;
        vetoed = h.vetoed;
        decisions = h.decisions;
        written_off = h.written_off;
        pending = h.pending;
        gate = h.gate;
      }))

  respond-Alike :
      (tick : ℕ) (p : Pending) (r : Invoice) (settled : Bool) (run : Run (G × (P × E)))
      (other : Run (G × (P × F)))
      → Same run other
      → Alike Same (respond rehearsing tick p r settled run) (respond acting tick p r settled other)
  unfolding respond
  respond-Alike tick p r true run other h = h
  respond-Alike tick p r false run other h =
      call-Alike Same (parts.resolve_response r tick p.intervention p.contacts_at_send) _ _
        (λ o. apply_outcome-Alike r o tick run other h)

  -- A turn on the record of one id.
  pub turn-Alike :
      (k : String) (run : Run (G × (P × E))) (other : Run (G × (P × F)))
      (f : Invoice → Result (Run (G × (P × E)))) (g : Invoice → Result (Run (G × (P × F))))
      → Same run other
      → ((r : Invoice) → Alike Same (f r) (g r))
      → Alike Same (get run.ledger k >>= f) (get other.ledger k >>= g)
  turn-Alike k run other f g h turn = rw h.ledger (call-Alike Same (get other.ledger k) f g turn)

  land-Alike :
      (tick : ℕ) (p : Pending) (run : Run (G × (P × E))) (other : Run (G × (P × F)))
      → Same run other
      → Alike Same (land rehearsing tick p run) (land acting tick p other)
  unfolding land
  land-Alike tick p run other h =
      turn-Alike p.record_id run other _ _ h
        (λ r. respond-Alike tick p r (is_terminal r.state) run other h)

  pub land_responses-Alike :
      (tick : ℕ) (run : Run (G × (P × E))) (other : Run (G × (P × F)))
      → Same run other
      → Alike Same (land_responses rehearsing tick run) (land_responses acting tick other)
  unfolding land_responses
  land_responses-Alike tick run other h = rw h.pending (
      each-Alike (land rehearsing tick) (land acting tick)
        (sort_pending (filter (λ p. leb p.due_tick tick) other.pending)) _ _ (land-Alike tick)
        (record {
          ledger = h.ledger;
          log = h.log;
          contacts = h.contacts;
          api_units = h.api_units;
          vetoed = h.vetoed;
          decisions = h.decisions;
          written_off = h.written_off;
          pending = refl;
          gate = h.gate;
        }))

  draw-Alike :
      (r : Invoice) (tick : ℕ) (o : Option OutcomeRecord) (run : Run (G × (P × E)))
      (other : Run (G × (P × F)))
      → Same run other
      → Alike Same (draw rehearsing r tick o run) (draw acting r tick o other)
  unfolding draw
  draw-Alike r tick none run other h = h
  draw-Alike r tick (some o) run other h = apply_outcome-Alike r o tick run other h

  promise_turn-Alike :
      (tick : ℕ) (listed : Invoice) (run : Run (G × (P × E))) (other : Run (G × (P × F)))
      → Same run other
      → Alike Same (promise_turn rehearsing tick listed run) (promise_turn acting tick listed other)
  unfolding promise_turn
  promise_turn-Alike tick listed run other h =
      turn-Alike listed.invoice_id run other _ _ h
        (λ r. draw-Alike r tick (parts.resolve_promise r tick) run other h)

  spontaneous_turn-Alike :
      (tick : ℕ) (listed : Invoice) (run : Run (G × (P × E))) (other : Run (G × (P × F)))
      → Same run other
      → Alike Same
          (spontaneous_turn rehearsing tick listed run)
          (spontaneous_turn acting tick listed other)
  unfolding spontaneous_turn
  spontaneous_turn-Alike tick listed run other h =
      turn-Alike listed.invoice_id run other _ _ h
        (λ r. draw-Alike r tick (parts.resolve_spontaneous r tick) run other h)

  pub resolve_promises-Alike :
      (tick : ℕ) (run : Run (G × (P × E))) (other : Run (G × (P × F)))
      → Same run other
      → Alike Same (resolve_promises rehearsing tick run) (resolve_promises acting tick other)
  unfolding resolve_promises
  resolve_promises-Alike tick run other h =
      loop-Alike (promise_turn rehearsing tick) (promise_turn acting tick) (active run.ledger)
        (active other.ledger) run other (promise_turn-Alike tick) (ap active h.ledger) h

  pub draw_spontaneous-Alike :
      (tick : ℕ) (run : Run (G × (P × E))) (other : Run (G × (P × F)))
      → Same run other
      → Alike Same (draw_spontaneous rehearsing tick run) (draw_spontaneous acting tick other)
  unfolding draw_spontaneous
  draw_spontaneous-Alike tick run other h =
      loop-Alike (spontaneous_turn rehearsing tick) (spontaneous_turn acting tick)
        (active run.ledger) (active other.ledger) run other (spontaneous_turn-Alike tick)
        (ap active h.ledger) h
