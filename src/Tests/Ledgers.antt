-- ===== src/Tests/Ledgers.antt =====
-- Ledger writes on one bill.
use recoup_ai.Base.{[], ◌∷◌, ◌≡◌, refl, true, false, some, arith}
use recoup_ai.Base.Errors.{ok}
use recoup_ai.Domain.Enums.{RecordState, Intervention, OutcomeKind}
use recoup_ai.Domain.Models.Invoices.{Invoice}
use recoup_ai.Ledger.States.{is_in, is_terminal, state_after_outcome}
use recoup_ai.Ledger.States.Machine as Machine
use recoup_ai.Ledger.Records.{record_action}
use recoup_ai.Ledger.Records.Results.{
  after_action, record_action_lem, after_outcome, record_outcome_lem,
}
use recoup_ai.Ledger.Records.Recorded.{IsReviewedAt, IsLogged, record_action-IsLogged}
use recoup_ai.Domain.Models.Rows.{ActionRecord}
use recoup_ai.Ledger.Records.Safety.{
  IsWellFormed, Extends, act, settle, Reach, here, next, Reach-IsWellFormed, Reach-Extends,
}
use recoup_ai.Tests.Data.{bill, paid}

abbrev first : Invoice
first = bill "inv_1" 250000

first-IsWellFormed : IsWellFormed first
unfolding is_terminal
first-IsWellFormed = record { money = omega arith; resolution = refl; links = refl }

abbrev chased : Invoice
chased = after_action first Intervention.payment_link 4 true 8

abbrev closed : Invoice
closed = after_outcome chased paid 6

chased-closed : Reach first closed
chased-closed =
    next
      (next here (
        act Intervention.payment_link 4 true (some 8)
          (record_action_lem first Intervention.payment_link 4 true (some 8) refl)))
      (settle paid 6 (record_outcome_lem chased paid 6))

Reach-IsWellFormed_example : IsWellFormed closed
Reach-IsWellFormed_example = Reach-IsWellFormed chased-closed first-IsWellFormed

Reach-Extends_example : Extends first closed
Reach-Extends_example = Reach-Extends chased-closed first-IsWellFormed

written_off_sources_example :
    (state_after_outcome RecordState.disputed OutcomeKind.written_off ≡ RecordState.written_off
      → is_in RecordState.disputed (
          RecordState.exhausted ∷ RecordState.disputed ∷ RecordState.human_queue
          ∷ RecordState.written_off ∷ [])
        ≡ true)
    × (is_in RecordState.disputed (
            RecordState.exhausted ∷ RecordState.disputed ∷ RecordState.human_queue
            ∷ RecordState.written_off ∷ [])
          ≡ true
        → state_after_outcome RecordState.disputed OutcomeKind.written_off
          ≡ RecordState.written_off)
written_off_sources_example = Machine.written_off_sources RecordState.disputed

record_action-IsLogged_example :
    (s : Invoice) × (a : ActionRecord) × (record_action first Intervention.soft_reminder 4 true
        (some 9)
      ≡ ok (s, a))
    × IsReviewedAt Intervention.soft_reminder 4 (some 9) s.next_review_tick
    × (true ≡ true → IsLogged first s a Intervention.soft_reminder 4)
    × (true ≡ false
        → (s ≡ record first { next_review_tick = s.next_review_tick })
          × (a.contact_units ≡ 0)
          × (a.api_units ≡ 0))
record_action-IsLogged_example =
    record_action-IsLogged first Intervention.soft_reminder 4 true (some 9) refl
