-- ===== src/Executor/Reconcile/Repeated.antt =====
-- A payment that is delivered again, and the money of one that is applied.
use Prim.Native.String.{◌++◌ as ◌+s+◌}
use recoup_ai.Base.{
  ℕ, ◌≡◌, ◌≢◌, refl, sym, ◌∙◌, ap, true, false, Option, none, some, List, [], ◌∷◌, ◌++◌, String,
  arith, eq_iff,
}
use recoup_ai.Base.Substrings.{mentions-append}
use recoup_ai.Base.Errors.{ok}
use recoup_ai.Domain.Models.Invoices.{Invoice}
use recoup_ai.Domain.Models.Rows.{AuditRow}
use recoup_ai.Ledger.Records.{find, put, store}
use recoup_ai.Ledger.Records.Lookup.{find-put_same, get-id}
use recoup_ai.Ledger.Records.Results.{after_outcome, id-after_outcome}
use recoup_ai.Audit.Log.{append, next_row}
use recoup_ai.Audit.Log.Resumed.{resume-IsIntact}
use recoup_ai.Runner.Batch.{outcome_row}
use recoup_ai.Executor.Stored.{
  StoredRun, open_run, is_protected, Payment, Reconciled, ArmDir, records_payment,
  payment_already_applied, stored_record, latest_tick, payment_outcome,
}
use recoup_ai.Executor.Reconcile.{applied_before, answer, reconcile_payment}
use recoup_ai.Executor.Reconcile.Applied.{reconcile_payment-Applied, write_payment-Written}

recorded-snoc :
    (rows : List AuditRow) (row : AuditRow) (k : String)
    → payment_already_applied rows k ≡ none
    → records_payment k row.outcome ≡ true
    → payment_already_applied (rows ++ row ∷ []) k ≡ some row.row_id
unfolding payment_already_applied
recorded-snoc [] row k h q = rw q refl
recorded-snoc (x ∷ xs) row k h q = ground (arith, h, recorded-snoc xs row k)

payment_named :
    (p : Payment) (r : Invoice)
    → p.payment_id ≢ ""
    → records_payment p.payment_id (some (payment_outcome p r)) ≡ true
unfolding records_payment payment_outcome
payment_named p r d = ground (
  arith,
  d,
  eq_iff p.payment_id "",
  mentions-append "razorpay payment " p.payment_id (" settling link " +s+ p.payment_link_id),
)

-- The answer to a payment that is recorded.
abbrev old_answer : Payment → StoredRun → ℕ → Invoice → Reconciled
old_answer p run row_id r = record {
  invoice_id = p.invoice_id;
  run_id = run.first.run_id;
  arm = run.first.arm;
  payment_id = p.payment_id;
  payment_link_id = p.payment_link_id;
  amount_paise = p.amount_paise;
  state_before = r.state;
  state_after = r.state;
  row_id = row_id;
  already_applied = true;
}

applied_again :
    (dir : ArmDir) (p : Payment) (run : StoredRun) (row_id : ℕ) (r : Invoice)
    → find p.invoice_id run.final ≡ some r
    → applied_before dir p run row_id ≡ ok (old_answer p run row_id r, dir)
unfolding applied_before stored_record
applied_again dir p run row_id r h = rw h refl

reopens :
    (log : Option (List AuditRow)) (batch final : Option (List Invoice)) (run : StoredRun)
    (more : List AuditRow)
    → log ≡ some run.rows
    → batch ≡ some run.batch
    → final ≡ some run.final
    → run.rows ≡ run.first ∷ more
    → is_protected run.first.run_id ≡ false
    → open_run log batch final ≡ ok run
unfolding open_run
reopens log batch final run more l b f s u = rw (l, b, f, s, u) refl

module _ (resolve_phrase : String → ℕ → Option ℕ) (row_hash : AuditRow → String) where
  redelivered :
      (dir : ArmDir) (p : Payment) (run : StoredRun) (row_id : ℕ) (r : Invoice)
      → open_run dir.log dir.batch dir.final ≡ ok run
      → payment_already_applied run.rows p.payment_id ≡ some row_id
      → find p.invoice_id run.final ≡ some r
      → reconcile_payment resolve_phrase row_hash dir p ≡ ok (old_answer p run row_id r, dir)
  unfolding reconcile_payment answer
  redelivered dir p run row_id r o e f = rw (o, e) (applied_again dir p run row_id r f)

  -- A second delivery of a payment that was applied: it is answered with the row that recorded the
  -- first and with the state that the record was left in, and the directory stays as it is. The
  -- payment has an id.
  pub reconcile_payment-repeated :
      (dir : ArmDir) (p : Payment) (res : Reconciled) (after : ArmDir)
      → reconcile_payment resolve_phrase row_hash dir p ≡ ok (res, after)
      → res.already_applied ≡ false
      → p.payment_id ≢ ""
      → (again : Reconciled) × (reconcile_payment resolve_phrase row_hash after p
          ≡ ok (again, after))
        × (again.already_applied ≡ true)
        × (again.row_id ≡ res.row_id)
        × (again.state_after ≡ res.state_after)
  unfolding append store
  reconcile_payment-repeated dir p res after h fresh named =
      let a = reconcile_payment-Applied resolve_phrase row_hash dir p res after h fresh in
      let w =
        write_payment-Written resolve_phrase row_hash dir p a.run a.replayed a.paid res after
          a.writes in
      let (intact, same) = resume-IsIntact row_hash a.run.rows w.log w.resumed in
      let tick = latest_tick a.run.rows in
      let outcome = payment_outcome p a.paid in
      let row = next_row w.log (outcome_row p.invoice_id outcome tick) in
      let settled = after_outcome a.paid outcome tick in
      let rows : w.log.rows ++ row ∷ [] ≡ a.run.first ∷ (a.opened.rest ++ row ∷ []) =
        ap (λ rs. rs ++ row ∷ []) (same ∙ a.opened.starts) in
      let recorded =
        recorded-snoc a.run.rows row p.payment_id a.unrecorded (payment_named p a.paid named) in
      let stored = find-put_same p.invoice_id settled a.replayed.ledger.records (
        id-after_outcome a.paid outcome tick
        ∙ get-id a.replayed.ledger p.invoice_id a.paid a.payable.known) in
      let reopened : StoredRun = record {
        rows = a.run.first ∷ (a.opened.rest ++ row ∷ []);
        batch = a.run.batch;
        final = put settled a.replayed.ledger.records;
        first = a.run.first;
      } in
      let opened =
        reopens after.log after.batch after.final reopened (a.opened.rest ++ row ∷ [])
          (w.log_file ∙ ap some rows) (w.batch_file ∙ a.opened.batch_file) w.final_file refl
          a.opened.unprotected in
      (
        old_answer p reopened row.row_id settled,
        redelivered after p reopened row.row_id settled opened
            (ap (λ rs. payment_already_applied rs p.payment_id)
                (sym rows ∙ ap (λ rs. rs ++ row ∷ []) same)
              ∙ recorded)
            stored,
        refl,
        unfold next_row in sym w.row,
        sym w.state,
      )
