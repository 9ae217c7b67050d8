-- ===== src/Domain/Models/Invoices.antt =====
-- src/recoup/domain/models.py: the at-risk record, its contact ledger and its snapshot.
use recoup_ai.Base.{
  ℕ, ◌-◌, ℤ, sub_ℕ, String, Bool, true, false, Option, none, some, List, [], ◌∷◌, length, count_by,
  get_last?, leb, ◌=s=◌, ◌&&◌,
}
use mathlib.Core.Option
use recoup_ai.Domain.Enums.{
  Archetype, Channel, Flag, Intervention, MessageCategory, PaymentEventKind, RecordSource,
  RecordState, SignalKind,
}

pub record PaymentEvent : Type 0 where
  pub kind : PaymentEventKind
  pub on : ℕ
  pub amount_paise : ℕ
  pub reference : Option String
  pub note : Option String

pub record EmailReply : Type 0 where
  pub received_on : ℕ
  pub from_name : String
  pub from_role : String
  pub subject : String
  pub body : String

pub record FreeText : Type 0 where
  pub payer_notes : String
  pub email_replies : List EmailReply
  pub dispute_description : Option String

-- Python's `not text` on an optional text: absent or empty.
abbrev blank : Option String → Bool
blank none = true
blank (some s) = s =s= ""

abbrev no_replies : List EmailReply → Bool
no_replies [] = true
no_replies (x ∷ xs) = false

unfoldable pub is_empty : FreeText → Bool
is_empty t = (t.payer_notes =s= "") && no_replies t.email_replies && blank t.dispute_description

pub record TextProvenance : Type 0 where
  pub template_ids : List String
  pub signals : List SignalKind
  pub cluster_hint_strength : Option String

pub record ContactAttempt : Type 0 where
  pub tick : ℕ
  pub intervention : Intervention
  pub channel : Channel
  pub category : MessageCategory

pub record ContactLedger : Type 0 where
  pub attempts : List ContactAttempt
  pub payment_links_sent : ℕ

-- `ContactLedger.count`
abbrev pub contact_count : ContactLedger → ℕ
contact_count c = length c.attempts

-- `ContactLedger.last_tick`
abbrev pub last_tick : ContactLedger → Option ℕ
last_tick c = Option.map (λ a. a.tick) (get_last? c.attempts)

-- `ContactLedger.count_since`: the lower bound is inclusive.
abbrev pub count_since : ContactLedger → ℕ → ℕ
count_since c tick = count_by (λ a. leb tick a.tick) c.attempts

pub record Invoice : Type 0 where
  pub invoice_id : String
  pub parent_group_id : Option String
  pub payer_id : String
  pub payer_name : String
  pub payer_city : String
  pub payer_contact_name : String
  pub payer_contact_role : String
  pub payer_archetype : Archetype
  pub flags : List Flag
  pub provenance : TextProvenance
  pub spotlight : Bool
  pub amount_paise : ℕ
  pub issued_on : ℕ
  pub due_on : ℕ
  pub state : RecordState
  pub source : RecordSource
  pub history : List PaymentEvent
  pub free_text : FreeText
  pub contact_ledger : ContactLedger
  pub next_review_tick : ℕ
  pub recovered_paise : ℕ
  pub promise_phrase : Option String
  pub promise_due_tick : Option ℕ
  pub resolved_tick : Option ℕ

-- `max(0, amount - recovered)`: subtraction on ℕ stops at 0.
abbrev pub outstanding_paise : Invoice → ℕ
outstanding_paise r = r.amount_paise - r.recovered_paise

-- Days past the due date, negative before it.
abbrev pub days_overdue : Invoice → ℕ → ℤ
days_overdue r as_of = sub_ℕ as_of r.due_on

abbrev pub age_days : Invoice → ℕ → ℤ
age_days r as_of = sub_ℕ as_of r.issued_on

-- The dictionary that `to_snapshot` builds, as a record with its keys.
pub record Snapshot : Type 0 where
  pub invoice_id : String
  pub parent_group_id : Option String
  pub payer_id : String
  pub payer_name : String
  pub payer_city : String
  pub payer_contact_name : String
  pub payer_contact_role : String
  pub amount_paise : ℕ
  pub outstanding_paise : ℕ
  pub issued_on : ℕ
  pub due_on : ℕ
  pub as_of : ℕ
  pub tick : ℕ
  pub days_overdue : ℤ
  pub state : RecordState
  pub source : RecordSource
  pub history : List PaymentEvent
  pub free_text : FreeText
  pub contacts_made : ℕ
  pub last_contact_tick : Option ℕ
  pub payment_links_sent : ℕ
  pub promise_phrase : Option String

unfoldable pub to_snapshot : Invoice → ℕ → ℕ → Snapshot
to_snapshot r as_of tick = record {
  invoice_id = r.invoice_id;
  parent_group_id = r.parent_group_id;
  payer_id = r.payer_id;
  payer_name = r.payer_name;
  payer_city = r.payer_city;
  payer_contact_name = r.payer_contact_name;
  payer_contact_role = r.payer_contact_role;
  amount_paise = r.amount_paise;
  outstanding_paise = outstanding_paise r;
  issued_on = r.issued_on;
  due_on = r.due_on;
  as_of = as_of;
  tick = tick;
  days_overdue = days_overdue r as_of;
  state = r.state;
  source = r.source;
  history = r.history;
  free_text = r.free_text;
  contacts_made = contact_count r.contact_ledger;
  last_contact_tick = last_tick r.contact_ledger;
  payment_links_sent = r.contact_ledger.payment_links_sent;
  promise_phrase = r.promise_phrase;
}
