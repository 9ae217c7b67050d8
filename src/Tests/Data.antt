-- ===== src/Tests/Data.antt =====
-- Concrete records, proposals and collaborators.
use recoup_ai.Base.{
  ◌≤◌, arith, ℕ, ◌+◌, false, none, some, List, [], ◌∷◌, String, ◌==◌, if◌then◌else◌,
}
use recoup_ai.Base.Errors.{ok}
use recoup_ai.Domain.Enums.{
  RecordState, Archetype, RecordSource, Intervention, OutcomeKind, RowKind,
}
use recoup_ai.Domain.Models.Invoices.{Invoice}
use recoup_ai.Domain.Models.Proposals.{Proposal}
use recoup_ai.Domain.Models.Rows.{AuditRow, OutcomeRecord}
use recoup_ai.Ledger.Records.{Ledger, init}
use recoup_ai.Policy.Context.{MerchantPolicy}
use recoup_ai.Policy.Rules.{rule_order}
use recoup_ai.Policy.Engine.{PolicyEngine, new_engine}
use recoup_ai.Audit.Log.{RowContent}
use recoup_ai.Ledger.Clock.{virtual_date, last_date}
use recoup_ai.Runner.Batch.{Collaborators, not_executed}

pub by_9999 : virtual_date 6 ≤ last_date
unfolding virtual_date
by_9999 = omega arith

abbrev pub bill : String → ℕ → Invoice
bill k amount = record {
  invoice_id = k;
  parent_group_id = some "group_1";
  payer_id = "payer_1";
  payer_name = "Acme";
  payer_city = "Pune";
  payer_contact_name = "Asha";
  payer_contact_role = "accounts";
  payer_archetype = Archetype.reliable_but_slow;
  flags = [];
  provenance = record { template_ids = []; signals = []; cluster_hint_strength = none };
  spotlight = false;
  amount_paise = amount;
  issued_on = 739650;
  due_on = 739680;
  state = RecordState.at_risk;
  source = RecordSource.invoice;
  history = [];
  free_text = record { payer_notes = ""; email_replies = []; dispute_description = none };
  contact_ledger = record { attempts = []; payment_links_sent = 0 };
  next_review_tick = 0;
  recovered_paise = 0;
  promise_phrase = none;
  promise_due_tick = none;
  resolved_tick = none;
}

abbrev pub book : List Invoice
book = bill "inv_2" 70000 ∷ bill "inv_1" 250000 ∷ []

abbrev pub opening_ledger : Ledger
opening_ledger = init book

abbrev pub paid : OutcomeRecord
paid = record { kind = OutcomeKind.paid_full; amount_paise = 250000; detail = "settled" }

abbrev pub link_proposal : Proposal
link_proposal = record { intervention = Intervention.payment_link; llm_proposal = none }

abbrev pub budgeted : MerchantPolicy
budgeted = record {
  max_contacts_per_payer = 4;
  contact_window_ticks = 120;
  min_contact_spacing_ticks = 12;
  max_links_per_invoice = 3;
  escalation_threshold_paise = 50000000;
  link_budget = some 1;
  min_batch_group_invoices = 3;
  min_batch_group_payers = 3;
}

abbrev pub engine : PolicyEngine
engine = new_engine budgeted rule_order

-- A hash that tells rows apart by their number.
abbrev pub numbered_hash : AuditRow → String
numbered_hash row = if row.row_id == 0 then "aa" else if row.row_id == 1 then "bb" else "cc"

abbrev pub content : String → RowContent
content k = record {
  kind = RowKind.intake;
  tick = 0;
  record_id = k;
  input_snapshot = none;
  llm_proposal = none;
  policy_verdict = none;
  policy_rule = none;
  action = none;
  outcome = none;
}

-- A proposer of payment links, a simulated executor, and payers who pay a thousand rupees for each
-- contact and promise to pay tomorrow when nobody asks.
abbrev pub collaborators : {W : Type 0} → Collaborators W
collaborators = record {
  propose = λ w s tick. (link_proposal, w);
  policy = none;
  perform = λ w r i tick. ok (not_executed, w);
  resolve_response = λ r tick i contacts.
      ok (record { kind = OutcomeKind.paid_partial; amount_paise = 100000; detail = "part" });
  resolve_promise = λ r tick. none;
  resolve_spontaneous = λ r tick.
      some (record { kind = OutcomeKind.promised; amount_paise = 0; detail = "tomorrow" });
  resolve_promise_phrase = λ phrase tick. some (tick + 4);
  row_hash = numbered_hash;
}
