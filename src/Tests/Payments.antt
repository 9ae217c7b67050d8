-- ===== src/Tests/Payments.antt =====
-- A payment of part of one bill, applied to a run whose log has one row.
use recoup_ai.Base.{ℕ, ◌≡◌, ◌≢◌, refl, ap, false, none, some, Option, [], ◌∷◌, String, ◌=s=◌}
use recoup_ai.Base.Errors.{ok}
use recoup_ai.Domain.Enums.{Arm, OutcomeKind, RecordState, arm_eq, state_eq}
use recoup_ai.Domain.Models.Rows.{OutcomeRecord}
use recoup_ai.Runner.Batch.{outcome_row}
use recoup_ai.Audit.Log.{AuditLog, new_log, append, next_row, verify_chain, same_run, resume}
use recoup_ai.Audit.Replay.{replay}
use recoup_ai.Audit.Replay.Compare.{compare}
use recoup_ai.Ledger.States.{is_terminal, state_after_outcome}
use recoup_ai.Ledger.Records.{init, get, record_outcome, transition, store}
use recoup_ai.Executor.Sessions.{LiveLink, LiveSession}
use recoup_ai.Executor.Stored.{Payment, Reconciled, ArmDir}
use recoup_ai.Executor.Reconcile.{reconcile_payment}
use recoup_ai.Executor.Reconcile.Consistent.{IsConsistent, reconcile_payment-IsConsistent}
use recoup_ai.Executor.Reconcile.Credited.{Credits, reconcile_payment-Credits}
use recoup_ai.Tests.Data.{bill, book, content, numbered_hash, opening_ledger}

abbrev pub no_phrase : String → ℕ → Option ℕ
no_phrase phrase tick = none

abbrev one_row : AuditLog
one_row = append numbered_hash (new_log "run_1" Arm.agent) (content "inv_1")

abbrev link : LiveLink
link = record {
  payment_link_id = "plink_1";
  reference_id = "run_1_inv_1";
  short_url = "https://rzp.io/i/1";
  invoice_id = "inv_1";
  run_id = "run_1";
  arm = Arm.agent;
  tick = 0;
  amount_paise = 250000;
  status = "created";
}

abbrev session : LiveSession
session = record { run_id = "run_1"; arm = Arm.agent; key_id = "rzp_test_1"; links = link ∷ [] }

abbrev pub dir : ArmDir
dir = record {
  log = some one_row.rows;
  batch = some book;
  final = some opening_ledger.records;
  summary = none;
  session = some session;
  events = [];
}

abbrev payment : Payment
payment = record {
  invoice_id = "inv_1";
  payment_id = "pay_1";
  payment_link_id = "plink_1";
  amount_paise = 100000;
  received_at = "";
}

abbrev outcome : OutcomeRecord
outcome = record {
  kind = OutcomeKind.paid_partial;
  amount_paise = 100000;
  detail = "razorpay payment pay_1 settling link plink_1";
}

abbrev pub answered : Reconciled
answered = record {
  invoice_id = "inv_1";
  run_id = "run_1";
  arm = Arm.agent;
  payment_id = "pay_1";
  payment_link_id = "plink_1";
  amount_paise = 100000;
  state_before = RecordState.at_risk;
  state_after = RecordState.at_risk;
  row_id = 1;
  already_applied = false;
}

abbrev pub paid_dir : ArmDir
paid_dir = record dir {
  log = some (append numbered_hash one_row (outcome_row "inv_1" outcome 0)).rows;
  final =
      some (record (bill "inv_1" 250000) { recovered_paise = 100000 } ∷ bill "inv_2" 70000 ∷ []);
  session = some (record session { links = record link { status = "paid" } ∷ [] });
  events =
      record {
        payment = payment;
        audit_row_id = 1;
        state_before = RecordState.at_risk;
        state_after = RecordState.at_risk;
      }
      ∷ [];
}

applies : reconcile_payment no_phrase numbered_hash dir payment ≡ ok (answered, paid_dir)
unfolding reconcile_payment append next_row init replay verify_chain same_run arm_eq get compare
    state_eq is_terminal record_outcome transition state_after_outcome resume store
applies = refl

pub has_id : payment.payment_id ≢ ""
has_id e = cc (ap (λ k. k =s= "") e)

reconcile_payment-IsConsistent_example : IsConsistent no_phrase numbered_hash paid_dir
reconcile_payment-IsConsistent_example =
    reconcile_payment-IsConsistent no_phrase numbered_hash dir payment answered paid_dir applies
      refl

reconcile_payment-Credits_example : Credits no_phrase numbered_hash dir payment answered paid_dir
reconcile_payment-Credits_example =
    reconcile_payment-Credits no_phrase numbered_hash dir payment answered paid_dir applies refl
