-- ===== src/Executor/Reconcile.antt =====
-- src/recoup/executor/reconcile.py: `reconcile_payment`, a payment applied to the stored run of one
-- arm. Nothing is written before the last test has passed, so a refusal leaves the directory as it
-- was.
pub mod Applied
pub mod Consistent
pub mod Repeated
pub mod Credited
use Prim.Native.String.{◌++◌ as ◌+s+◌}
use recoup_ai.Base.{
  ℕ, ◌+◌, max, Bool, true, false, ◌&&◌, ◌||◌, not, Option, none, some, List, [], ◌∷◌, ◌++◌, map,
  String, length, sum_by, leb, ◌==◌, ◌=s=◌, if◌then◌else◌,
}
use recoup_ai.Base.Substrings.{mentions}
use recoup_ai.Base.Errors.{Error, Result, ok, err, ◌>>=◌, ◌>>◌, raise_if}
use recoup_ai.Domain.Enums.{Arm, OutcomeKind, RecordState}
use recoup_ai.Domain.Models.Invoices.{Invoice, outstanding_paise}
use recoup_ai.Domain.Models.Rows.{AuditRow, OutcomeRecord}
use recoup_ai.Ledger.States.{is_terminal}
use recoup_ai.Ledger.Records.{Ledger, get, find, store, record_outcome, text_le}
use recoup_ai.Audit.Log.{AuditLog, resume, append, next_row}
use recoup_ai.Audit.Replay.{ReplayResult, replay}
use recoup_ai.Audit.Replay.Compare.{Difference, compare}
use recoup_ai.Runner.Batch.{outcome_row}
use recoup_ai.Executor.Sessions.{LiveSession, mark_paid}
use recoup_ai.Executor.Stored.{
  StoredRun, open_run, Payment, Reconciled, ArmDir, payment_already_applied, refresh_summary,
  mark_link_paid, stored_record, known_record, has_any, latest_tick, payment_outcome, map_option,
}

-- The answer to a payment that row `row_id` has recorded.
unfoldable pub applied_before : ArmDir → Payment → StoredRun → ℕ → Result (Reconciled × ArmDir)
unfolding stored_record
applied_before dir p run row_id = do
  r ← stored_record p.invoice_id (find p.invoice_id run.final)
  ok (
    record {
      invoice_id = p.invoice_id;
      run_id = run.first.run_id;
      arm = run.first.arm;
      payment_id = p.payment_id;
      payment_link_id = p.payment_link_id;
      amount_paise = p.amount_paise;
      state_before = r.state;
      state_after = r.state;
      row_id = row_id;
      already_applied = true;
    },
    dir,
  )

-- The tests before a payment is applied, and the record that it pays.
unfoldable pub payable : Payment → List Invoice → ReplayResult → Result Invoice
unfolding known_record
payable p final replayed = do
  raise_if (has_any (compare final replayed.ledger.records)) Error.refused
  r ← known_record replayed.ledger p.invoice_id
  raise_if (is_terminal r.state) Error.refused
  raise_if (p.amount_paise == 0) Error.refused
  ok r

module _ (resolve_phrase : String → ℕ → Option ℕ) (row_hash : AuditRow → String) where
  -- What is written.
  unfoldable pub write_payment :
      ArmDir → Payment → StoredRun → ReplayResult → Invoice → Result (Reconciled × ArmDir)
  unfolding payment_outcome latest_tick refresh_summary mark_link_paid
  write_payment dir p run replayed r = do
    let outcome = payment_outcome p r
    let tick = latest_tick run.rows
    moved ← record_outcome r outcome tick
    let ledger = store replayed.ledger moved
    log ← resume row_hash run.rows
    let row = next_row log (outcome_row p.invoice_id outcome tick)
    let appended = append row_hash log (outcome_row p.invoice_id outcome tick)
    ok (
      record {
        invoice_id = p.invoice_id;
        run_id = run.first.run_id;
        arm = run.first.arm;
        payment_id = p.payment_id;
        payment_link_id = p.payment_link_id;
        amount_paise = p.amount_paise;
        state_before = r.state;
        state_after = moved.state;
        row_id = row.row_id;
        already_applied = false;
      },
      record dir {
        log = some appended.rows;
        final = some ledger.records;
        summary = map_option (refresh_summary ledger.records (length appended.rows)) dir.summary;
        session = map_option (mark_link_paid p.payment_link_id) dir.session;
        events =
            dir.events
            ++ record {
              payment = p;
              audit_row_id = row.row_id;
              state_before = r.state;
              state_after = moved.state;
            }
              ∷ [];
      },
    )

  -- What is done about a payment that a row may have recorded.
  unfoldable pub answer : ArmDir → Payment → StoredRun → Option ℕ → Result (Reconciled × ArmDir)
  unfolding applied_before payable write_payment
  answer dir p run (some row_id) = applied_before dir p run row_id
  answer dir p run none = do
    replayed ← replay resolve_phrase row_hash run.batch run.rows true
    r ← payable p run.final replayed
    write_payment dir p run replayed r

  -- `reconcile_payment`
  unfoldable pub reconcile_payment : ArmDir → Payment → Result (Reconciled × ArmDir)
  unfolding open_run payment_already_applied answer
  reconcile_payment dir p = do
    run ← open_run dir.log dir.batch dir.final
    answer dir p run (payment_already_applied run.rows p.payment_id)
