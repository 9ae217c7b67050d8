-- ===== src/Domain/Models/Rows.antt =====
-- src/recoup/domain/models.py: actions, outcomes and the rows of the audit log.
use recoup_ai.Base.{ℕ, String, Bool, Option}
use recoup_ai.Domain.Enums.{
  Arm, Channel, ExecutorKind, Intervention, MessageCategory, OutcomeKind, RowKind,
}
use recoup_ai.Domain.Models.Proposals.{LlmProposal, PolicyVerdict}
use recoup_ai.Domain.Models.Invoices.{Snapshot}

pub record ActionRecord : Type 0 where
  pub intervention : Intervention
  pub executed : Bool
  pub executor : ExecutorKind
  pub channel : Option Channel
  pub category : Option MessageCategory
  pub external_ref : Option String
  pub contact_units : ℕ
  pub api_units : ℕ

pub record OutcomeRecord : Type 0 where
  pub kind : OutcomeKind
  pub amount_paise : ℕ
  pub detail : String

-- A hash is a text (32 hexadecimal digits); it is only compared.
pub record AuditRow : Type 0 where
  pub run_id : String
  pub arm : Arm
  pub row_id : ℕ
  pub prev_row_hash : String
  pub kind : RowKind
  pub tick : ℕ
  pub record_id : String
  pub input_snapshot : Option Snapshot
  pub llm_proposal : Option LlmProposal
  pub policy_verdict : Option PolicyVerdict
  pub policy_rule : Option String
  pub action : Option ActionRecord
  pub outcome : Option OutcomeRecord
