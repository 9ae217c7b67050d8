-- ===== src/Audit/Log.antt =====
-- src/recoup/audit/log.py: the append-only log with its hash chain. The content hash of a row
-- (BLAKE2b over canonical JSON) is a parameter; nothing is assumed of it.
pub mod Chain
pub mod Resumed
use recoup_ai.Base.{
  ℕ, ◌+◌, ◌≡◌, Bool, true, false, ◌&&◌, ◌||◌, not, Option, none, some, List, [], ◌∷◌, ◌++◌, String,
  length, ◌==◌, ◌=s=◌, if◌then◌else◌,
}
use recoup_ai.Base.Errors.{Result, ok, err, value_error, chain_broken, ◌>>=◌, ◌>>◌}
use recoup_ai.Domain.Enums.{Arm, RowKind, arm_eq}
use recoup_ai.Domain.Models.Proposals.{LlmProposal, PolicyVerdict}
use recoup_ai.Domain.Models.Invoices.{Snapshot}
use recoup_ai.Domain.Models.Rows.{ActionRecord, AuditRow, OutcomeRecord}

abbrev pub genesis_hash : String
genesis_hash = "00000000000000000000000000000000"

pub record AuditLog : Type 0 where
  pub run_id : String
  pub arm : Arm
  pub rows : List AuditRow
  pub last_hash : String

-- `AuditLog.__init__`
abbrev pub new_log : String → Arm → AuditLog
new_log run_id arm = record { run_id = run_id; arm = arm; rows = []; last_hash = genesis_hash }

-- The keyword arguments of `append`.
pub record RowContent : Type 0 where
  pub kind : RowKind
  pub tick : ℕ
  pub record_id : String
  pub input_snapshot : Option Snapshot
  pub llm_proposal : Option LlmProposal
  pub policy_verdict : Option PolicyVerdict
  pub policy_rule : Option String
  pub action : Option ActionRecord
  pub outcome : Option OutcomeRecord

-- The row that `append` builds.
unfoldable pub next_row : AuditLog → RowContent → AuditRow
next_row log c = record {
  run_id = log.run_id;
  arm = log.arm;
  row_id = length log.rows;
  prev_row_hash = log.last_hash;
  kind = c.kind;
  tick = c.tick;
  record_id = c.record_id;
  input_snapshot = c.input_snapshot;
  llm_proposal = c.llm_proposal;
  policy_verdict = c.policy_verdict;
  policy_rule = c.policy_rule;
  action = c.action;
  outcome = c.outcome;
}

-- `row.run_id != rows[0].run_id or row.arm is not rows[0].arm`, negated.
unfoldable pub same_run : AuditRow → AuditRow → Bool
same_run first row = (row.run_id =s= first.run_id) && arm_eq row.arm first.arm

module _ (row_hash : AuditRow → String) where
  unfoldable pub append : AuditLog → RowContent → AuditLog
  unfolding next_row
  append log c = record log {
    rows = log.rows ++ next_row log c ∷ [];
    last_hash = row_hash (next_row log c);
  }

  -- The loop of `verify_chain`, from the row at `index` with the hash before it.
  unfoldable pub verify_from : AuditRow → ℕ → String → List AuditRow → Result (Unit {0})
  verify_from first index previous [] = ok tt
  verify_from first index previous (row ∷ rows) =
      let rest = verify_from first (index + 1) (row_hash row) rows in
      if not (row.row_id == index)
      then err (chain_broken index)
      else if not (same_run first row)
      then err (chain_broken row.row_id)
      else if not (row.prev_row_hash =s= previous)
      then err (chain_broken row.row_id)
      else rest

  unfoldable pub verify_chain : List AuditRow → Result (Unit {0})
  unfolding verify_from
  verify_chain [] = ok tt
  verify_chain (row ∷ rows) = verify_from row 0 genesis_hash (row ∷ rows)

  -- The hash of the last of a list of rows, given the hash before them.
  unfoldable pub hash_after : String → List AuditRow → String
  hash_after previous [] = previous
  hash_after previous (row ∷ rows) = hash_after (row_hash row) rows

  -- `AuditLog.resume`
  unfoldable pub resume : List AuditRow → Result AuditLog
  unfolding verify_chain hash_after
  resume [] = err value_error
  resume (row ∷ rows) = do
    verify_chain (row ∷ rows)
    ok (record {
      run_id = row.run_id;
      arm = row.arm;
      rows = row ∷ rows;
      last_hash = hash_after genesis_hash (row ∷ rows);
    })
