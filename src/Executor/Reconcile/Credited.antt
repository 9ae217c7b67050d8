-- ===== src/Executor/Reconcile/Credited.antt =====
-- The money and the state of a record whose payment is applied.
use recoup_ai.Base.{
  ℕ, ◌+◌, ◌≤◌, ◌<◌, ◌≡◌, ◌≢◌, ◌∙◌, true, false, Option, some, List, String, arith, le→leb,
  lt→not_leb,
}
use recoup_ai.Base.Errors.{ok}
use recoup_ai.Domain.Enums.{OutcomeKind, RecordState}
use recoup_ai.Domain.Models.Invoices.{Invoice, outstanding_paise}
use recoup_ai.Domain.Models.Rows.{AuditRow}
use recoup_ai.Ledger.States.{is_terminal, state_after_outcome}
use recoup_ai.Ledger.Records.{find, put, store, credit}
use recoup_ai.Ledger.Records.Lookup.{find-put_same, find-put_other, get-id, get-find}
use recoup_ai.Ledger.Records.Results.{after_outcome, id-after_outcome, recovered-moved, state-moved}
use recoup_ai.Audit.Replay.{ReplayResult, replay}
use recoup_ai.Audit.Replay.Compare.{compare}
use recoup_ai.Executor.Stored.{
  StoredRun, has_any, Payment, Reconciled, ArmDir, latest_tick, payment_outcome,
}
use recoup_ai.Executor.Reconcile.{reconcile_payment}
use recoup_ai.Executor.Reconcile.Applied.{Opens, reconcile_payment-Applied, write_payment-Written}

full_state :
    (s : RecordState)
    → is_terminal s ≡ false
    → state_after_outcome s OutcomeKind.paid_full ≡ RecordState.paid
unfolding is_terminal state_after_outcome
full_state s h = ground arith

part_state : (s : RecordState) → state_after_outcome s OutcomeKind.paid_partial ≡ s
unfolding is_terminal state_after_outcome
part_state s = ground arith

-- A payment of at least the balance settles the record; a smaller one adds to what is recovered.
pub record IsCredited (p : Payment) (r s : Invoice) : Type 0 where
  pub full :
      outstanding_paise r ≤ p.amount_paise
      → (s.state ≡ RecordState.paid) × (s.recovered_paise ≡ r.amount_paise)
  pub part :
      p.amount_paise < outstanding_paise r
      → (s.state ≡ r.state) × (s.recovered_paise ≡ r.recovered_paise + p.amount_paise)

after_outcome-IsCredited :
    (p : Payment) (r : Invoice) (tick : ℕ)
    → is_terminal r.state ≡ false
    → IsCredited p r (after_outcome r (payment_outcome p r) tick)
unfolding after_outcome payment_outcome credit
after_outcome-IsCredited p r tick h = record {
  full = λ g.
      rw (le→leb (outstanding_paise r) p.amount_paise g)
        (state-moved _ _ tick ∙ full_state r.state h, recovered-moved _ _ tick ∙ omega (arith, g));
  part = λ g.
      rw (lt→not_leb (outstanding_paise r) p.amount_paise g)
        (state-moved _ _ tick ∙ part_state r.state, recovered-moved _ _ tick ∙ omega (arith, g));
}

module _ (resolve_phrase : String → ℕ → Option ℕ) (row_hash : AuditRow → String) where
  -- What a payment that is applied does: the directory's own log replays over its own batch to the
  -- ledger that is paid into, with which its stored closing position agrees.
  pub record Credits (dir : ArmDir) (p : Payment) (res : Reconciled) (after : ArmDir) : Type 0 where
    pub run : StoredRun
    pub opened : Opens dir.log dir.batch dir.final run
    pub replayed : ReplayResult
    pub replays : replay resolve_phrase row_hash run.batch run.rows true ≡ ok replayed
    pub agrees : has_any (compare run.final replayed.ledger.records) ≡ false
    pub final : List Invoice
    pub paid : Invoice
    pub settled : Invoice
    pub final_file : after.final ≡ some final
    pub was_known : find p.invoice_id replayed.ledger.records ≡ some paid
    pub was_open : is_terminal paid.state ≡ false
    pub now_known : find p.invoice_id final ≡ some settled
    pub credited : IsCredited p paid settled
    pub reported : res.state_after ≡ settled.state
    pub others : (k : String) → k ≢ p.invoice_id → find k final ≡ find k replayed.ledger.records

  -- A payment that is applied was of an open record of the ledger that the directory's log replays to,
  -- with which the stored closing position agreed: if it covers the balance, the record is now paid
  -- and its whole bill recovered; if not, its state is the same and the payment is added to what is
  -- recovered. The answer reports the new state, and every other record is stored as the log
  -- replays it.
  pub reconcile_payment-Credits :
      (dir : ArmDir) (p : Payment) (res : Reconciled) (after : ArmDir)
      → reconcile_payment resolve_phrase row_hash dir p ≡ ok (res, after)
      → res.already_applied ≡ false
      → Credits dir p res after
  unfolding store
  reconcile_payment-Credits dir p res after h fresh =
      let a = reconcile_payment-Applied resolve_phrase row_hash dir p res after h fresh in
      let w =
        write_payment-Written resolve_phrase row_hash dir p a.run a.replayed a.paid res after
          a.writes in
      let tick = latest_tick a.run.rows in
      let outcome = payment_outcome p a.paid in
      let id =
        id-after_outcome a.paid outcome tick
        ∙ get-id a.replayed.ledger p.invoice_id a.paid a.payable.known in
      record {
        run = a.run;
        opened = a.opened;
        replayed = a.replayed;
        replays = a.replays;
        agrees = a.payable.agrees;
        final = put (after_outcome a.paid outcome tick) a.replayed.ledger.records;
        paid = a.paid;
        settled = after_outcome a.paid outcome tick;
        final_file = w.final_file;
        was_known = get-find a.replayed.ledger p.invoice_id a.paid a.payable.known;
        was_open = a.payable.unsettled;
        now_known = find-put_same p.invoice_id _ a.replayed.ledger.records id;
        credited = after_outcome-IsCredited p a.paid tick a.payable.unsettled;
        reported = w.state;
        others = λ k d. find-put_other k _ a.replayed.ledger.records (λ e. d (e ∙ id));
      }
