-- ===== src/Executor/Reconcile/Applied.antt =====
-- What has passed when a payment is applied, and what it comes to.
use recoup_ai.Base.{
  ℕ, ◌≡◌, refl, sym, ◌∙◌, ap, Bool, true, false, Option, none, some, List, [], ◌∷◌, String, length,
  ◌==◌, if◌then◌else◌, arith,
}
use recoup_ai.Base.Errors.{Error, Result, ok, err, ◌>>=◌, raise_if, call-then}
use recoup_ai.Domain.Models.Invoices.{Invoice}
use recoup_ai.Domain.Models.Rows.{AuditRow}
use recoup_ai.Ledger.States.{is_terminal}
use recoup_ai.Ledger.Records.{Ledger, get, find, store}
use recoup_ai.Ledger.Records.Results.{after_outcome, record_outcome_lem}
use recoup_ai.Audit.Log.{AuditLog, resume, append, next_row}
use recoup_ai.Audit.Replay.{ReplayResult, replay}
use recoup_ai.Audit.Replay.Compare.{compare}
use recoup_ai.Runner.Batch.{outcome_row}
use recoup_ai.Executor.Stored.{
  is_protected, StoredRun, open_run, Payment, Reconciled, ArmDir, payment_already_applied,
  known_record, stored_record, has_any, latest_tick, payment_outcome, mark_link_paid, map_option,
}
use recoup_ai.Executor.Reconcile.{applied_before, payable, write_payment, answer, reconcile_payment}

-- The files of a run that may be written to.
pub record Opens (log : Option (List AuditRow)) (batch final : Option (List Invoice))
    (run : StoredRun) : Type 0 where
  pub log_file : log ≡ some run.rows
  pub batch_file : batch ≡ some run.batch
  pub final_file : final ≡ some run.final
  pub rest : List AuditRow
  pub starts : run.rows ≡ run.first ∷ rest
  pub unprotected : is_protected run.first.run_id ≡ false

guard_lem {ℓ} :
    {A : Type ℓ} (b : Bool) (e : Error) (a c : A)
    → (if b then err e else ok a) ≡ ok c
    → (b ≡ false) × (a ≡ c)
guard_lem true e a c h = cc
guard_lem false e a c h = (refl, cc)

raise_if_lem :
    (b : Bool) (e : Error) {A : Type 0} (after : Result A) (a : A)
    → (raise_if b e >>= λ done. after) ≡ ok a
    → (b ≡ false) × (after ≡ ok a)
raise_if_lem true e after a h = cc
raise_if_lem false e after a h = (refl, h)

open_run-Opens :
    (log : Option (List AuditRow)) (batch final : Option (List Invoice)) (run : StoredRun)
    → open_run log batch final ≡ ok run
    → Opens log batch final run
unfolding open_run
open_run-Opens (some (row ∷ rows)) (some batch) (some final) run h =
    let (u, e) = guard_lem (is_protected row.run_id) _ _ run h in
    rw (sym e) (record {
      log_file = refl;
      batch_file = refl;
      final_file = refl;
      rest = rows;
      starts = refl;
      unprotected = u;
    })
open_run-Opens (some []) _ _ run h = cc
open_run-Opens none _ _ run h = cc
open_run-Opens (some (row ∷ rows)) none _ run h = cc
open_run-Opens (some (row ∷ rows)) (some batch) none run h = cc

-- The tests that a payment has passed.
pub record IsPayable (p : Payment) (final : List Invoice) (replayed : ReplayResult) (r : Invoice)
    : Type 0 where
  pub agrees : has_any (compare final replayed.ledger.records) ≡ false
  pub known : get replayed.ledger p.invoice_id ≡ ok r
  pub unsettled : is_terminal r.state ≡ false
  pub positive : (p.amount_paise == 0) ≡ false

known_record_lem :
    (l : Ledger) (k : String) (r : Invoice) → known_record l k ≡ ok r → get l k ≡ ok r
unfolding known_record
known_record_lem l k r h = ground (arith, h)

payable-IsPayable :
    (p : Payment) (final : List Invoice) (replayed : ReplayResult) (r : Invoice)
    → payable p final replayed ≡ ok r
    → IsPayable p final replayed r
unfolding payable
payable-IsPayable p final replayed r h =
    let (agrees, h1) = raise_if_lem (has_any (compare final replayed.ledger.records)) _ _ r h in
    let (s, known, h2) = call-then (known_record replayed.ledger p.invoice_id) _ h1 in
    let (unsettled, h3) = raise_if_lem (is_terminal s.state) _ _ r h2 in
    let (positive, h4) = raise_if_lem (p.amount_paise == 0) _ _ r h3 in
    let e : s ≡ r = cc in
    record {
      agrees = agrees;
      known = known_record_lem replayed.ledger p.invoice_id s known ∙ ap ok e;
      unsettled = ap (λ x. is_terminal x.state) (sym e) ∙ unsettled;
      positive = positive;
    }

-- Two results of one call.
ok-injective {ℓ} : {A : Type ℓ} (a b : A) → ok a ≡ ok b → a ≡ b
ok-injective a b h = cc

pub applied_before_lem :
    (dir : ArmDir) (p : Payment) (run : StoredRun) (row_id : ℕ) (res : Reconciled) (after : ArmDir)
    → applied_before dir p run row_id ≡ ok (res, after)
    → (res.already_applied ≡ true) × (res.row_id ≡ row_id) × (after ≡ dir)
unfolding applied_before
applied_before_lem dir p run row_id res after h =
    let (r, found, h1) = call-then (stored_record p.invoice_id (find p.invoice_id run.final)) _ h in
    let e = ok-injective _ _ h1 in
    (sym (ap (λ x. x.0.already_applied) e), sym (ap (λ x. x.0.row_id) e), sym (ap (λ x. x.1) e))

module _ (resolve_phrase : String → ℕ → Option ℕ) (row_hash : AuditRow → String) where
  -- The run that a payment is applied to, and the record that it pays.
  pub record Applied (dir : ArmDir) (p : Payment) (res : Reconciled) (after : ArmDir) : Type 0 where
    pub run : StoredRun
    pub replayed : ReplayResult
    pub paid : Invoice
    pub opened : Opens dir.log dir.batch dir.final run
    pub unrecorded : payment_already_applied run.rows p.payment_id ≡ none
    pub replays : replay resolve_phrase row_hash run.batch run.rows true ≡ ok replayed
    pub payable : IsPayable p run.final replayed paid
    pub writes : write_payment resolve_phrase row_hash dir p run replayed paid ≡ ok (res, after)

  answer-Applied :
      (dir : ArmDir) (p : Payment) (res : Reconciled) (after : ArmDir) (run : StoredRun)
      (row_id : Option ℕ)
      → payment_already_applied run.rows p.payment_id ≡ row_id
      → Opens dir.log dir.batch dir.final run
      → answer resolve_phrase row_hash dir p run row_id ≡ ok (res, after)
      → res.already_applied ≡ false
      → Applied dir p res after
  unfolding answer
  answer-Applied dir p res after run (some row_id) e o h fresh =
      let old = (applied_before_lem dir p run row_id res after h).0 in cc
  answer-Applied dir p res after run none e o h fresh =
      let (replayed, replays, h1) =
        call-then (replay resolve_phrase row_hash run.batch run.rows true) _ h in
      let (paid, found, writes) = call-then (payable p run.final replayed) _ h1 in
      record {
        run = run;
        replayed = replayed;
        paid = paid;
        opened = o;
        unrecorded = e;
        replays = replays;
        payable = payable-IsPayable p run.final replayed paid found;
        writes = writes;
      }

  -- A payment that was not recorded before, and that is not refused, has passed every test.
  pub reconcile_payment-Applied :
      (dir : ArmDir) (p : Payment) (res : Reconciled) (after : ArmDir)
      → reconcile_payment resolve_phrase row_hash dir p ≡ ok (res, after)
      → res.already_applied ≡ false
      → Applied dir p res after
  unfolding reconcile_payment
  reconcile_payment-Applied dir p res after h fresh =
      let (run, opened, h1) = call-then (open_run dir.log dir.batch dir.final) _ h in
      answer-Applied dir p res after run (payment_already_applied run.rows p.payment_id) refl
        (open_run-Opens dir.log dir.batch dir.final run opened) h1 fresh

  -- What applying a payment writes: a row at the end of the log, and the ledger with the payment.
  pub record Written (dir : ArmDir) (p : Payment) (run : StoredRun) (replayed : ReplayResult)
      (paid : Invoice) (res : Reconciled) (after : ArmDir) : Type 0 where
    pub log : AuditLog
    pub resumed : resume row_hash run.rows ≡ ok log
    pub log_file :
        after.log
        ≡ some
            (append row_hash log
              (outcome_row p.invoice_id (payment_outcome p paid) (latest_tick run.rows))).rows
    pub batch_file : after.batch ≡ dir.batch
    pub final_file :
        after.final
        ≡ some
            (store replayed.ledger
              (after_outcome paid (payment_outcome p paid) (latest_tick run.rows))).records
    pub session_file : after.session ≡ map_option (mark_link_paid p.payment_link_id) dir.session
    pub row : res.row_id ≡ length log.rows
    pub state :
        res.state_after ≡ (after_outcome paid (payment_outcome p paid) (latest_tick run.rows)).state

  pub write_payment-Written :
      (dir : ArmDir) (p : Payment) (run : StoredRun) (replayed : ReplayResult) (paid : Invoice)
      (res : Reconciled) (after : ArmDir)
      → write_payment resolve_phrase row_hash dir p run replayed paid ≡ ok (res, after)
      → Written dir p run replayed paid res after
  unfolding write_payment next_row
  write_payment-Written dir p run replayed paid res after h =
      let (log, resumed, h2) =
        call-then (resume row_hash run.rows) _
          (rw (record_outcome_lem paid (payment_outcome p paid) (latest_tick run.rows)) at h) in
      let e = ok-injective _ _ h2 in
      record {
        log = log;
        resumed = resumed;
        log_file = sym (ap (λ x. x.1.log) e);
        batch_file = sym (ap (λ x. x.1.batch) e);
        final_file = sym (ap (λ x. x.1.final) e);
        session_file = sym (ap (λ x. x.1.session) e);
        row = sym (ap (λ x. x.0.row_id) e);
        state = sym (ap (λ x. x.0.state_after) e);
      }
