-- ===== src/Executor/Reconcile/Consistent.antt =====
-- A run that a payment was applied to can still be replayed to its own closing position.
use recoup_ai.Base.{
  ℕ, ◌+◌, ◌≡◌, refl, ◌∙◌, Bool, true, false, Option, some, List, String, leb, if◌then◌else◌,
}
use recoup_ai.Base.Errors.{ok, call-then}
use recoup_ai.Domain.Enums.{OutcomeKind}
use recoup_ai.Domain.Models.Invoices.{Invoice, outstanding_paise}
use recoup_ai.Domain.Models.Rows.{AuditRow, OutcomeRecord}
use recoup_ai.Ledger.Records.{store, record_outcome}
use recoup_ai.Ledger.Records.Results.{after_outcome, record_outcome_lem}
use recoup_ai.Audit.Log.{AuditLog, append, next_row, verify_chain}
use recoup_ai.Audit.Log.Chain.{append-IsIntact, IsIntact-verify_chain}
use recoup_ai.Audit.Log.Resumed.{resume-IsIntact}
use recoup_ai.Audit.Replay.{ReplayResult, start, replay, apply_row, apply_outcome_kind}
use recoup_ai.Audit.Replay.Rows.{replay_rows-snoc}
use recoup_ai.Runner.Batch.{outcome_row}
use recoup_ai.Executor.Stored.{StoredRun, Payment, Reconciled, ArmDir, latest_tick, payment_outcome}
use recoup_ai.Executor.Reconcile.{reconcile_payment}
use recoup_ai.Executor.Reconcile.Applied.{
  Applied, reconcile_payment-Applied, Written, write_payment-Written,
}

module _ (resolve_phrase : String → ℕ → Option ℕ) (row_hash : AuditRow → String) where
  -- A directory whose log verifies and replays over its batch to its closing position.
  pub record IsConsistent (dir : ArmDir) : Type 0 where
    pub rows : List AuditRow
    pub batch : List Invoice
    pub replayed : ReplayResult
    pub log_file : dir.log ≡ some rows
    pub batch_file : dir.batch ≡ some batch
    pub final_file : dir.final ≡ some replayed.ledger.records
    pub replays : replay resolve_phrase row_hash batch rows true ≡ ok replayed

  -- Replaying the outcome of a payment is recording it.
  payment_kind :
      (b : Bool) (r : Invoice) (o : OutcomeRecord) (tick : ℕ)
      → apply_outcome_kind resolve_phrase r o tick
          (if b then OutcomeKind.paid_full else OutcomeKind.paid_partial)
        ≡ record_outcome r o tick
  unfolding apply_outcome_kind
  payment_kind true r o tick = refl
  payment_kind false r o tick = refl

  replays_payment :
      (p : Payment) (run : StoredRun) (log : AuditLog) (replayed : ReplayResult) (r : Invoice)
      → let row =
          next_row log (outcome_row p.invoice_id (payment_outcome p r) (latest_tick run.rows)) in
        apply_row resolve_phrase replayed r row row.kind
        ≡ ok (record replayed {
          ledger =
              store replayed.ledger (after_outcome r (payment_outcome p r) (latest_tick run.rows));
        })
  unfolding apply_row next_row payment_outcome
  replays_payment p run log replayed r =
      rw
        (
          payment_kind (leb (outstanding_paise r) p.amount_paise) r (payment_outcome p r)
              (latest_tick run.rows),
          record_outcome_lem r (payment_outcome p r) (latest_tick run.rows),
        )
        refl

  Written-IsConsistent :
      (dir : ArmDir) (p : Payment) (res : Reconciled) (after : ArmDir)
      (a : Applied resolve_phrase row_hash dir p res after)
      → Written resolve_phrase row_hash dir p a.run a.replayed a.paid res after
      → IsConsistent after
  unfolding replay append
  Written-IsConsistent dir p res after a w =
      let content = outcome_row p.invoice_id (payment_outcome p a.paid) (latest_tick a.run.rows) in
      let (intact, same) = resume-IsIntact row_hash a.run.rows w.log w.resumed in
      let verified =
        IsIntact-verify_chain row_hash (append row_hash w.log content)
          (append-IsIntact row_hash w.log content intact) in
      let (done, verified_before, replayed) =
        call-then (verify_chain row_hash a.run.rows) _ a.replays in
      let next : ReplayResult = record a.replayed {
        ledger =
            store a.replayed.ledger
              (after_outcome a.paid (payment_outcome p a.paid) (latest_tick a.run.rows));
      } in
      record {
        rows = (append row_hash w.log content).rows;
        batch = a.run.batch;
        replayed = record next { rows_applied = next.rows_applied + 1 };
        log_file = w.log_file;
        batch_file = w.batch_file ∙ a.opened.batch_file;
        final_file = w.final_file;
        replays = rw verified (
            replay_rows-snoc resolve_phrase (start a.run.batch) a.replayed next w.log.rows
              (next_row w.log content) a.paid (rw same replayed) a.payable.known
              (replays_payment p a.run w.log a.replayed a.paid));
      }

  -- Applying a payment, where it is not refused and was not recorded before, leaves a directory whose
  -- log verifies and replays over the opening batch to exactly the closing position stored there,
  -- whatever the stored position was before.
  pub reconcile_payment-IsConsistent :
      (dir : ArmDir) (p : Payment) (res : Reconciled) (after : ArmDir)
      → reconcile_payment resolve_phrase row_hash dir p ≡ ok (res, after)
      → res.already_applied ≡ false
      → IsConsistent after
  reconcile_payment-IsConsistent dir p res after h fresh =
      let a = reconcile_payment-Applied resolve_phrase row_hash dir p res after h fresh in
      Written-IsConsistent dir p res after a (
        write_payment-Written resolve_phrase row_hash dir p a.run a.replayed a.paid res after
          a.writes)
