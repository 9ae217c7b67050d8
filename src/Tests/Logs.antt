-- ===== src/Tests/Logs.antt =====
-- Logs of a few rows.
use recoup_ai.Base.{All, ◌+◌, ap, ◌=s=◌, ℕ, ◌≡◌, ◌≢◌, refl, [], ◌∷◌, ◌++◌, String, some, Option}
use recoup_ai.Base.Errors.{ok}
use recoup_ai.Domain.Enums.{state_eq, Arm}
use recoup_ai.Domain.Models.Rows.{AuditRow}
use recoup_ai.Audit.Log.{AuditLog, new_log, next_row, append, verify_chain, resume}
use recoup_ai.Audit.Log.Chain.{
  IsIntact, new_log-IsIntact, append-IsIntact, append_all, append_all-verify_chain,
  verify_chain-edit, resume_lem,
}
use recoup_ai.Domain.Models.Invoices.{Invoice}
use recoup_ai.Audit.Replay.Compare.{
  by_id, tick_eq, phrase_eq, contacts_eq, differences, differences_from, compare, Agrees,
  compare_lem,
}
use recoup_ai.Tests.Data.{book, content, numbered_hash}

abbrev empty_log : AuditLog
empty_log = new_log "run_1" Arm.agent

abbrev one_row : AuditLog
one_row = append numbered_hash empty_log (content "inv_1")

abbrev row_0 : AuditRow
row_0 = next_row empty_log (content "inv_1")

abbrev row_1 : AuditRow
row_1 = next_row one_row (content "inv_2")

-- The first row with another number, and so another hash.
abbrev forged : AuditRow
forged = record row_0 { row_id = 7 }

one_row-IsIntact : IsIntact numbered_hash one_row
one_row-IsIntact =
    append-IsIntact numbered_hash empty_log (content "inv_1")
      (new_log-IsIntact numbered_hash "run_1" Arm.agent)

append_all-verify_chain_example :
    verify_chain numbered_hash
      (append_all numbered_hash empty_log (content "inv_1" ∷ content "inv_2" ∷ [])).rows
    ≡ ok tt
append_all-verify_chain_example =
    append_all-verify_chain numbered_hash "run_1" Arm.agent (content "inv_1" ∷ content "inv_2" ∷ [])

two_rows_verify : verify_chain numbered_hash ([] ++ row_0 ∷ row_1 ∷ []) ≡ ok tt
unfolding append next_row
two_rows_verify =
    append_all-verify_chain numbered_hash "run_1" Arm.agent (content "inv_1" ∷ content "inv_2" ∷ [])

hashes_differ : numbered_hash row_0 ≢ numbered_hash forged
unfolding next_row
hashes_differ e = cc (ap (λ h. h =s= "aa") e)

verify_chain-edit_example : verify_chain numbered_hash ([] ++ forged ∷ row_1 ∷ []) ≢ ok tt
verify_chain-edit_example =
    verify_chain-edit numbered_hash [] row_0 forged row_1 [] hashes_differ two_rows_verify

resume_lem_example : resume numbered_hash one_row.rows ≡ ok one_row
resume_lem_example =
    resume_lem numbered_hash one_row row_0 [] (unfold append in refl) one_row-IsIntact

abbrev tomorrow : String → ℕ → Option ℕ
tomorrow phrase tick = some (4 + tick)

-- A book compared with itself.
compared : compare book book ≡ []
unfolding compare by_id differences_from differences state_eq tick_eq phrase_eq contacts_eq
compared = refl

compare_lem_example :
    All
      (λ r.
        (o : Invoice) × (by_id r.invoice_id book ≡ some o)
        × (o.invoice_id ≡ r.invoice_id)
        × Agrees r o)
      book
compare_lem_example = compare_lem book book compared
