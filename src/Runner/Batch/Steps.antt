-- ===== src/Runner/Batch/Steps.antt =====
-- The steps of a tick up to the decisions: outcomes, landing responses, promises and spontaneous
-- payments.
use recoup_ai.Base.{
  ℕ, ◌≡◌, refl, inl, inr, true, Option, none, some, List, [], ◌∷◌, leb, ltb, filter, All, All-map,
  All-filter, Bool-cases,
}
use recoup_ai.Base.Errors.{Result, ok}
use recoup_ai.Domain.Enums.{OutcomeKind}
use recoup_ai.Domain.Interventions.{is_contact}
use recoup_ai.Domain.Models.Invoices.{Invoice}
use recoup_ai.Domain.Models.Rows.{OutcomeRecord}
use recoup_ai.Ledger.States.{is_terminal}
use recoup_ai.Ledger.Records.{Ledger, get, store, active}
use recoup_ai.Ledger.Records.Results.{
  after_outcome, after_promise, record_outcome_lem, set_promise_lem,
}
use recoup_ai.Ledger.Records.Lookup.{knows, knows-store, get_known, active-known}
use recoup_ai.Audit.Log.{next_row}
use recoup_ai.Audit.Replay.{apply_outcome_kind, apply_row}
use recoup_ai.Runner.Batch.{
  Pending, Collaborators, Run, each, outcome_row, apply_outcome, settle, land, respond,
  insert_pending, pending_le, sort_pending, land_responses, draw, promise_turn, resolve_promises,
  spontaneous_turn, draw_spontaneous,
}
use recoup_ai.Runner.Batch.Advance.{
  IsReliable, IsAwaited, IsTracked, Advances, stays, each-Advances, logs_advance,
}

All-insert_pending :
    (P : Pending → Type 0) (p : Pending) (ps : List Pending)
    → P p
    → All P ps
    → All P (insert_pending p ps)
unfolding insert_pending
All-insert_pending P p [] a b = (a, tt)
All-insert_pending P p (q ∷ qs) a b = elim (Bool-cases (pending_le p q)) [
  | inl h ↦ rw h (a, b)
  | inr h ↦ rw h (b.0, All-insert_pending P p qs a b.1)
]

All-sort_pending : (P : Pending → Type 0) (ps : List Pending) → All P ps → All P (sort_pending ps)
unfolding sort_pending
All-sort_pending P [] a = tt
All-sort_pending P (p ∷ ps) a =
    All-insert_pending P p (sort_pending ps) a.0 (All-sort_pending P ps a.1)

module _ {W : Type 0} (c : Collaborators W) (records : List Invoice) where
  settle_lem :
      (r : Invoice) (o : OutcomeRecord) (tick : ℕ) (k : OutcomeKind)
      → (moved : Invoice) × (settle c r o tick k ≡ ok moved)
        × (apply_outcome_kind c.resolve_promise_phrase r o tick k ≡ ok moved)
  unfolding settle apply_outcome_kind
  settle_lem r o tick OutcomeKind.promised =
      let due = c.resolve_promise_phrase o.detail tick in
      (
        after_promise r o.detail due tick,
        set_promise_lem r o.detail due tick,
        set_promise_lem r o.detail due tick,
      )
  settle_lem r o tick _ =
      (after_outcome r o tick, record_outcome_lem r o tick, record_outcome_lem r o tick)

  pub still-IsAwaited :
      (l : Ledger) (r : Invoice) (ps : List Pending)
      → All (IsAwaited c records l) ps
      → All (IsAwaited c records (store l r)) ps
  still-IsAwaited l r ps a = All-map ps (λ p h. (knows-store l r p.record_id h.0, h.1)) a

  pub outcome-Advances :
      (r : Invoice) (o : OutcomeRecord) (tick : ℕ) (run : Run W)
      → get run.ledger r.invoice_id ≡ ok r
      → IsTracked c records run
      → Advances c records run (apply_outcome c r o tick run)
  unfolding apply_outcome apply_row next_row
  outcome-Advances r o tick run g t =
      let (moved, p, q) = settle_lem r o tick o.kind in
      rw p (
        logs_advance c records run _ (outcome_row r.invoice_id o tick) r t refl g (rw q refl)
          (still-IsAwaited run.ledger moved run.pending t.awaits) (knows-store run.ledger moved))

  module _ (reliable : IsReliable c) where
    land-Advances :
        (tick : ℕ) (p : Pending) (run : Run W)
        → is_contact p.intervention ≡ true
        → knows run.ledger p.record_id ≡ true
        → IsTracked c records run
        → Advances c records run (land c tick p run)
    unfolding land respond
    land-Advances tick p run i k t =
        let (r, g, e) = get_known run.ledger p.record_id k in
        let (o, q) = reliable.response_answers r tick p.intervention p.contacts_at_send i in
        rw g (elim (Bool-cases (is_terminal r.state)) [
          | inl h ↦ rw h (stays c records run t)
          | inr h ↦ rw (h, q) (outcome-Advances r o tick run (rw e g) t)
        ])

    pub land_responses-Advances :
        (tick : ℕ) (run : Run W)
        → IsTracked c records run
        → Advances c records run (land_responses c tick run)
    unfolding land_responses
    land_responses-Advances tick run t =
        let rest = filter (λ p. ltb tick p.due_tick) run.pending in
        let due = filter (λ p. leb p.due_tick tick) run.pending in
        let a =
          each-Advances c records (λ p. p.record_id) (λ p. is_contact p.intervention ≡ true)
            (land c tick) (sort_pending due) (record run { pending = rest })
            (λ p s i k u. land-Advances tick p s i k u)
            (All-sort_pending (IsAwaited c records run.ledger) due (
              All-filter (IsAwaited c records run.ledger) (λ p. leb p.due_tick tick) run.pending
                t.awaits))
            (record {
              intact = t.intact;
              tracks = t.tracks;
              awaits =
                  All-filter (IsAwaited c records run.ledger) (λ p. ltb tick p.due_tick) run.pending
                    t.awaits;
            }) in
        record { next = a.next; returns = a.returns; tracked = a.tracked; remembers = a.remembers }

  draw-Advances :
      (r : Invoice) (tick : ℕ) (o : Option OutcomeRecord) (run : Run W)
      → get run.ledger r.invoice_id ≡ ok r
      → IsTracked c records run
      → Advances c records run (draw c r tick o run)
  unfolding draw
  draw-Advances r tick none run g t = stays c records run t
  draw-Advances r tick (some o) run g t = outcome-Advances r o tick run g t

  promise_turn-Advances :
      (tick : ℕ) (listed : Invoice) (run : Run W)
      → knows run.ledger listed.invoice_id ≡ true
      → IsTracked c records run
      → Advances c records run (promise_turn c tick listed run)
  unfolding promise_turn
  promise_turn-Advances tick listed run k t =
      let (r, g, e) = get_known run.ledger listed.invoice_id k in
      rw g (draw-Advances r tick (c.resolve_promise r tick) run (rw e g) t)

  spontaneous_turn-Advances :
      (tick : ℕ) (listed : Invoice) (run : Run W)
      → knows run.ledger listed.invoice_id ≡ true
      → IsTracked c records run
      → Advances c records run (spontaneous_turn c tick listed run)
  unfolding spontaneous_turn
  spontaneous_turn-Advances tick listed run k t =
      let (r, g, e) = get_known run.ledger listed.invoice_id k in
      rw g (draw-Advances r tick (c.resolve_spontaneous r tick) run (rw e g) t)

  -- A loop over records of the ledger advances, if each turn on a known record does.
  pub records_advance :
      (f : Invoice → Run W → Result (Run W)) (xs : List Invoice) (run : Run W)
      → ((x : Invoice) (s : Run W)
          → knows s.ledger x.invoice_id ≡ true
          → IsTracked c records s
          → Advances c records s (f x s))
      → All (λ x. knows run.ledger x.invoice_id ≡ true) xs
      → IsTracked c records run
      → Advances c records run (each f xs run)
  records_advance f xs run turn a t =
      each-Advances c records (λ x. x.invoice_id) (λ _. Unit) f xs run (λ x s _ k u. turn x s k u)
        (All-map xs (λ x h. (h, tt)) a) t

  pub resolve_promises-Advances :
      (tick : ℕ) (run : Run W)
      → IsTracked c records run
      → Advances c records run (resolve_promises c tick run)
  unfolding resolve_promises
  resolve_promises-Advances tick run t =
      records_advance (promise_turn c tick) (active run.ledger) run (promise_turn-Advances tick)
        (active-known run.ledger) t

  pub draw_spontaneous-Advances :
      (tick : ℕ) (run : Run W)
      → IsTracked c records run
      → Advances c records run (draw_spontaneous c tick run)
  unfolding draw_spontaneous
  draw_spontaneous-Advances tick run t =
      records_advance (spontaneous_turn c tick) (active run.ledger) run
        (spontaneous_turn-Advances tick) (active-known run.ledger) t
