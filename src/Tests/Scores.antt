-- ===== src/Tests/Scores.antt =====
-- The metrics of a log of one contact.
use recoup_ai.Base.{ℕ, ◌+◌, ◌≡◌, refl, [], ◌∷◌, String, Option, some, none, true}
use recoup_ai.Base.Errors.{ok}
use recoup_ai.Domain.Enums.{state_eq, Arm, Flag, Intervention, RowKind}
use recoup_ai.Domain.Interventions.{spec}
use recoup_ai.Ledger.States.{state_after_action, permits, is_terminal}
use recoup_ai.Domain.Models.Invoices.{Invoice}
use recoup_ai.Domain.Models.Rows.{AuditRow}
use recoup_ai.Ledger.Records.{
  store, find, get, put, apply_action, transition, log_contact, executed_action, record_action,
}
use recoup_ai.Ledger.Records.Results.{after_action, moved}
use recoup_ai.Audit.Replay.{
  ReplayResult, replay_rows, replay_row, apply_row, apply_decision, counted,
}
use recoup_ai.Audit.Log.{new_log, next_row}
use recoup_ai.Metrics.{contacts_made, payment_links_sent, FalseInterventions}
use recoup_ai.Metrics.Counts.{contacts_made_lem}
use recoup_ai.Tests.Data.{bill, content}

abbrev contested : Invoice
contested = record (bill "inv_1" 250000) { flags = Flag.disputed ∷ [] }

abbrev chase : AuditRow
chase = record (next_row (new_log "run_1" Arm.baseline) (content "inv_1")) {
  kind = RowKind.decision;
  record_id = "inv_1";
  tick = 1;
  action = some (executed_action Intervention.payment_link);
}

abbrev before : ReplayResult
before = record {
  ledger = record { records = contested ∷ [] };
  rows_applied = 0;
  contacts = 0;
  api_units = 0;
  vetoed = 0;
}

abbrev after : ReplayResult
after = record {
  ledger = store before.ledger (after_action contested Intervention.payment_link 1 true 13);
  rows_applied = 1;
  contacts = 1;
  api_units = 1;
  vetoed = 0;
}

abbrev phrases : String → ℕ → Option ℕ
phrases phrase tick = none

one_chase : replay_rows phrases before (chase ∷ []) ≡ ok after
unfolding replay_rows replay_row apply_row apply_decision counted next_row get find record_action
    apply_action transition store put after_action moved log_contact spec state_after_action permits
    state_eq is_terminal
one_chase = refl

contacts_made_lem_example :
    (after.contacts ≡ before.contacts + contacts_made (chase ∷ []))
    × (after.api_units ≡ before.api_units + payment_links_sent (chase ∷ []))
contacts_made_lem_example = contacts_made_lem phrases before after (chase ∷ []) (tt, tt) one_chase

abbrev blamed : FalseInterventions
blamed = record { harmful = 1; disputed = 1; already_paid = 0 }
