-- ===== src/Metrics.antt =====
-- src/recoup/metrics/compute.py: the counts of contacts, links and false interventions that
-- `compute_arm_metrics` reads out of a log. Rates are decimal quotients of such counts.
pub mod Counts
use recoup_ai.Base.{
  ℕ, ◌+◌, ◌≡◌, Bool, true, false, ◌&&◌, ◌||◌, Option, none, some, List, [], ◌∷◌, String, ltb,
  filter, sum_by, any, if◌then◌else◌,
}
use recoup_ai.Base.Errors.{Result, ok, err, value_error, ◌>>=◌}
use recoup_ai.Domain.Enums.{Flag}
use recoup_ai.Domain.Models.Invoices.{Invoice}
use recoup_ai.Domain.Models.Rows.{ActionRecord, AuditRow}
use recoup_ai.Ledger.Records.{find}

-- `row.action is not None and row.action.executed and row.action.contact_units > 0`
unfoldable pub is_contact_action : Option ActionRecord → Bool
is_contact_action none = false
is_contact_action (some a) = a.executed && ltb 0 a.contact_units

unfoldable pub contact_rows : List AuditRow → List AuditRow
contact_rows = filter (λ row. is_contact_action row.action)

-- `row.action.contact_units`, where the row has an action.
abbrev pub units : Option ActionRecord → ℕ
units none = 0
units (some a) = a.contact_units

unfoldable pub contacts_made : List AuditRow → ℕ
contacts_made rows = sum_by (λ row. units row.action) (contact_rows rows)

-- The API units of an executed action.
unfoldable pub links_of : Option ActionRecord → ℕ
links_of none = 0
links_of (some a) = if a.executed then a.api_units else 0

unfoldable pub payment_links_sent : List AuditRow → ℕ
payment_links_sent rows = sum_by (λ row. links_of row.action) rows

abbrev is_disputed : Flag → Bool
is_disputed Flag.disputed = true
is_disputed _ = false

abbrev is_already_paid : Flag → Bool
is_already_paid Flag.already_paid_unreconciled = true
is_already_paid _ = false

pub record FalseInterventions : Type 0 where
  pub harmful : ℕ
  pub disputed : ℕ
  pub already_paid : ℕ

-- One contact to a record with these flags, added to the counts after it.
unfoldable pub blame : List Flag → ℕ → FalseInterventions → FalseInterventions
blame flags n f = record {
  harmful = (if any is_disputed flags || any is_already_paid flags then n else 0) + f.harmful;
  disputed = (if any is_disputed flags then n else 0) + f.disputed;
  already_paid = (if any is_already_paid flags then n else 0) + f.already_paid;
}

-- The record of a row, which must be known.
unfoldable pub known_record : Option Invoice → Result Invoice
known_record none = err value_error
known_record (some r) = ok r

-- The loop over the contact rows.
unfoldable pub false_interventions : List Invoice → List AuditRow → Result FalseInterventions
unfolding blame known_record
false_interventions records [] = ok (record { harmful = 0; disputed = 0; already_paid = 0 })
false_interventions records (row ∷ rows) = do
  r ← known_record (find row.record_id records)
  rest ← false_interventions records rows
  ok (blame r.flags (units row.action) rest)
