-- ===== src/Executor/Stored.antt =====
-- src/recoup/executor/reconcile.py: the files of an arm's directory, as values, and what is read from
-- them and brought up to date in them. A file that is missing is `none`.
use Prim.Native.String.{◌++◌ as ◌+s+◌}
use recoup_ai.Base.{
  ℕ, ◌+◌, max, Bool, true, false, ◌&&◌, ◌||◌, not, Option, none, some, List, [], ◌∷◌, String,
  sum_by, leb, ◌=s=◌, if◌then◌else◌,
}
use recoup_ai.Base.Substrings.{mentions}
use recoup_ai.Base.Errors.{Error, Result, ok, err}
use recoup_ai.Domain.Enums.{Arm, OutcomeKind, RecordState}
use recoup_ai.Domain.Models.Invoices.{Invoice, outstanding_paise}
use recoup_ai.Domain.Models.Rows.{AuditRow, OutcomeRecord}
use recoup_ai.Ledger.Records.{Ledger, get, text_le}
use recoup_ai.Executor.Sessions.{LiveSession, mark_paid}

-- `PROTECTED_RUN_IDS`
abbrev pub is_protected : String → Bool
is_protected run_id = (run_id =s= "seed42") || (run_id =s= "seed42-tiered")

-- The arguments of `reconcile_payment`; a negative amount, which is refused as 0 is, is left out.
pub record Payment : Type 0 where
  pub invoice_id : String
  pub payment_id : String
  pub payment_link_id : String
  pub amount_paise : ℕ
  pub received_at : String

pub record Reconciled : Type 0 where
  pub invoice_id : String
  pub run_id : String
  pub arm : Arm
  pub payment_id : String
  pub payment_link_id : String
  pub amount_paise : ℕ
  pub state_before : RecordState
  pub state_after : RecordState
  pub row_id : ℕ
  pub already_applied : Bool

-- The fields of summary.json that a payment changes, and the rest of it.
pub record Summary : Type 0 where
  pub states : List (String × ℕ)
  pub paid_records : ℕ
  pub recovered_paise : ℕ
  pub audit_rows : ℕ
  pub others : String

-- A line of reconciliation.jsonl
pub record Event : Type 0 where
  pub payment : Payment
  pub audit_row_id : ℕ
  pub state_before : RecordState
  pub state_after : RecordState

pub record ArmDir : Type 0 where
  pub log : Option (List AuditRow)
  pub batch : Option (List Invoice)
  pub final : Option (List Invoice)
  pub summary : Option Summary
  pub session : Option LiveSession
  pub events : List Event

-- What is read of a directory that a payment may be applied to: `first` is `rows[0]`.
pub record StoredRun : Type 0 where
  pub rows : List AuditRow
  pub batch : List Invoice
  pub final : List Invoice
  pub first : AuditRow

-- The three files are there, the log has a row, and its run is not protected.
unfoldable pub open_run :
    Option (List AuditRow) → Option (List Invoice) → Option (List Invoice) → Result StoredRun
open_run (some (row ∷ rows)) (some batch) (some final) =
    if is_protected row.run_id
    then err Error.refused
    else ok (record { rows = row ∷ rows; batch = batch; final = final; first = row })
open_run _ _ _ = err Error.refused

-- `outcome is not None and payment_id and payment_id in outcome.detail`
unfoldable pub records_payment : String → Option OutcomeRecord → Bool
records_payment k none = false
records_payment k (some o) = not (k =s= "") && mentions o.detail k

-- `_payment_already_applied`
unfoldable pub payment_already_applied : List AuditRow → String → Option ℕ
unfolding records_payment
payment_already_applied [] k = none
payment_already_applied (row ∷ rows) k =
    let later = payment_already_applied rows k in
    if records_payment k row.outcome then some row.row_id else later

-- `str(record.state)`
unfoldable pub state_name : RecordState → String
state_name RecordState.at_risk = "AT_RISK"
state_name RecordState.contacted = "CONTACTED"
state_name RecordState.promised = "PROMISED"
state_name RecordState.paid = "PAID"
state_name RecordState.disputed = "DISPUTED"
state_name RecordState.human_queue = "HUMAN_QUEUE"
state_name RecordState.exhausted = "EXHAUSTED"
state_name RecordState.written_off = "WRITTEN_OFF"

-- `states[k] = states.get(k, 0) + 1`, in a dictionary that is kept in the order of its keys.
unfoldable pub tally : String → List (String × ℕ) → List (String × ℕ)
tally k [] = (k, 1) ∷ []
tally k ((j, n) ∷ rest) =
    let later = tally k rest in
    if j =s= k
    then (j, n + 1) ∷ rest
    else if text_le k j
    then (k, 1) ∷ (j, n) ∷ rest
    else (j, n) ∷ later

unfoldable pub tallies : List Invoice → List (String × ℕ)
unfolding tally state_name
tallies [] = []
tallies (r ∷ rs) = tally (state_name r.state) (tallies rs)

-- `states.get("PAID", 0)`
unfoldable pub count_of : String → List (String × ℕ) → ℕ
count_of k [] = 0
count_of k ((j, n) ∷ rest) = if j =s= k then n else count_of k rest

-- `_refresh_summary`
unfoldable pub refresh_summary : List Invoice → ℕ → Summary → Summary
unfolding tallies count_of
refresh_summary records audit_rows summary = record summary {
  states = tallies records;
  paid_records = count_of "PAID" (tallies records);
  recovered_paise = sum_by (λ r. r.recovered_paise) records;
  audit_rows = audit_rows;
}

-- `_mark_link_paid`
unfoldable pub mark_link_paid : String → LiveSession → LiveSession
unfolding mark_paid
mark_link_paid k session = record session { links = mark_paid k session.links }

-- `_stored_record`
unfoldable pub stored_record : String → Option Invoice → Result Invoice
stored_record k none = err Error.refused
stored_record k (some r) = ok r

-- `ledger.get(invoice_id)`, refused where the key is unknown.
unfoldable pub known_record : Ledger → String → Result Invoice
known_record l k = elim (get l k) [ err _ ↦ err Error.refused | ok r ↦ ok r ]

abbrev pub has_any : {A : Type 0} → List A → Bool
has_any [] = false
has_any (x ∷ xs) = true

-- `max(row.tick for row in rows)`
unfoldable pub latest_tick : List AuditRow → ℕ
latest_tick [] = 0
latest_tick (row ∷ rows) = max row.tick (latest_tick rows)

-- The outcome that a payment is recorded as.
unfoldable pub payment_outcome : Payment → Invoice → OutcomeRecord
payment_outcome p r = record {
  kind =
      if leb (outstanding_paise r) p.amount_paise
      then OutcomeKind.paid_full
      else OutcomeKind.paid_partial;
  amount_paise = p.amount_paise;
  detail = "razorpay payment " +s+ (p.payment_id +s+ (" settling link " +s+ p.payment_link_id));
}

abbrev pub map_option : {A B : Type 0} → (A → B) → Option A → Option B
map_option f none = none
map_option f (some a) = some (f a)
