-- ===== src/Ledger/States/Machine.antt =====
-- Properties of the transition table: what the derivations can name.
use recoup_ai.Base.{[], ◌∷◌, ◌≡◌, ◌⊎◌, true, false, arith}
use recoup_ai.Domain.Enums.{RecordState, Intervention, OutcomeKind}
use recoup_ai.Ledger.States.{is_in, permits, is_terminal, state_after_action, state_after_outcome}

-- The derived state after an action is the current state or one that the table permits.
pub action_permitted :
    (s : RecordState) (i : Intervention)
    → (state_after_action s i ≡ s) ⊎ (permits s (state_after_action s i) ≡ true)
unfolding state_after_action permits
action_permitted s i = ground arith

-- The derived state after an outcome is the current state or one that the table permits.
pub outcome_permitted :
    (s : RecordState) (o : OutcomeKind)
    → (state_after_outcome s o ≡ s) ⊎ (permits s (state_after_outcome s o) ≡ true)
unfolding state_after_outcome permits
outcome_permitted s o = ground arith

pub permits-terminal : (s t : RecordState) → is_terminal s ≡ true → permits s t ≡ false
unfolding is_terminal permits
permits-terminal s t h = ground arith

-- A write-off takes effect from exactly four states: exhausted, disputed, in the human queue and
-- already written off.
pub written_off_sources :
    (s : RecordState)
    → (state_after_outcome s OutcomeKind.written_off ≡ RecordState.written_off
        → is_in s (
            RecordState.exhausted ∷ RecordState.disputed ∷ RecordState.human_queue
            ∷ RecordState.written_off ∷ [])
          ≡ true)
      × (is_in s (
              RecordState.exhausted ∷ RecordState.disputed ∷ RecordState.human_queue
              ∷ RecordState.written_off ∷ [])
            ≡ true
          → state_after_outcome s OutcomeKind.written_off ≡ RecordState.written_off)
unfolding state_after_outcome is_in
written_off_sources s = (λ h. ground arith, λ h. ground arith)
