-- ===== src/Ledger/States.antt =====
-- src/recoup/ledger/ledger.py: the transition table and the two pure derivations over it.
pub mod Machine
use recoup_ai.Base.{Bool, true, false, List, [], ◌∷◌, any, if◌then◌else◌}
use recoup_ai.Domain.Enums.{RecordState, Intervention, OutcomeKind, state_eq}
use recoup_ai.Domain.Interventions.{spec}

-- `state in states`, for a set of states.
unfoldable pub is_in : RecordState → List RecordState → Bool
unfolding state_eq
is_in s states = any (λ x. state_eq s x) states

abbrev pub terminal_states : List RecordState
terminal_states = RecordState.paid ∷ RecordState.written_off ∷ []

abbrev pub unattended_states : List RecordState
unattended_states = RecordState.human_queue ∷ []

-- `ALLOWED_TRANSITIONS`
abbrev pub allowed_transitions : RecordState → List RecordState
allowed_transitions RecordState.at_risk =
    RecordState.at_risk ∷ RecordState.contacted ∷ RecordState.promised ∷ RecordState.paid
    ∷ RecordState.disputed ∷ RecordState.human_queue ∷ RecordState.exhausted ∷ []
allowed_transitions RecordState.contacted =
    RecordState.contacted ∷ RecordState.promised ∷ RecordState.paid ∷ RecordState.disputed
    ∷ RecordState.human_queue ∷ RecordState.exhausted ∷ []
allowed_transitions RecordState.promised =
    RecordState.promised ∷ RecordState.contacted ∷ RecordState.paid ∷ RecordState.disputed
    ∷ RecordState.human_queue ∷ RecordState.exhausted ∷ []
allowed_transitions RecordState.disputed =
    RecordState.disputed ∷ RecordState.human_queue ∷ RecordState.paid ∷ RecordState.written_off ∷ []
allowed_transitions RecordState.human_queue =
    RecordState.human_queue ∷ RecordState.disputed ∷ RecordState.paid ∷ RecordState.written_off ∷ []
allowed_transitions RecordState.exhausted =
    RecordState.exhausted ∷ RecordState.disputed ∷ RecordState.human_queue ∷ RecordState.paid
    ∷ RecordState.written_off ∷ []
allowed_transitions RecordState.paid = []
allowed_transitions RecordState.written_off = []

-- `target in ALLOWED_TRANSITIONS[current]`
unfoldable pub permits : RecordState → RecordState → Bool
unfolding is_in
permits current target = is_in target (allowed_transitions current)

unfoldable pub is_terminal : RecordState → Bool
unfolding is_in
is_terminal s = is_in s terminal_states

-- `_legal`
unfoldable pub legal : RecordState → RecordState → RecordState
unfolding permits
legal current target = if permits current target then target else current

-- `current is RecordState.AT_RISK`, and so for PROMISED.
abbrev is_at_risk : RecordState → Bool
is_at_risk RecordState.at_risk = true
is_at_risk _ = false

abbrev is_promised : RecordState → Bool
is_promised RecordState.promised = true
is_promised _ = false

-- The last test of `state_after_action`, on the interventions that its first two let through.
contact_state : RecordState → Intervention → RecordState
unfolding legal spec
contact_state current intervention =
    if (spec intervention).is_contact
    then (if is_at_risk current then legal current RecordState.contacted else current)
    else current

-- The body of `state_after_action` behind the test for a terminal state.
live_state_after_action : RecordState → Intervention → RecordState
unfolding contact_state
live_state_after_action current Intervention.escalate_human = legal current RecordState.human_queue
live_state_after_action current Intervention.stop = legal current RecordState.exhausted
live_state_after_action current i = contact_state current i

unfoldable pub state_after_action : RecordState → Intervention → RecordState
unfolding is_terminal live_state_after_action
state_after_action current intervention =
    if is_terminal current then current else live_state_after_action current intervention

-- The `match` of `state_after_outcome`.
live_state_after_outcome : RecordState → OutcomeKind → RecordState
unfolding legal
live_state_after_outcome s OutcomeKind.paid_full = legal s RecordState.paid
live_state_after_outcome s OutcomeKind.promised = legal s RecordState.promised
live_state_after_outcome s OutcomeKind.dispute_raised = legal s RecordState.disputed
live_state_after_outcome s OutcomeKind.complaint = legal s RecordState.human_queue
live_state_after_outcome s OutcomeKind.escalated = legal s RecordState.human_queue
live_state_after_outcome s OutcomeKind.promise_broken =
    if is_promised s then RecordState.contacted else s
live_state_after_outcome s OutcomeKind.replied = if is_at_risk s then RecordState.contacted else s
live_state_after_outcome s OutcomeKind.written_off = legal s RecordState.written_off
live_state_after_outcome s OutcomeKind.paid_partial = s
live_state_after_outcome s OutcomeKind.no_response = s

unfoldable pub state_after_outcome : RecordState → OutcomeKind → RecordState
unfolding is_terminal live_state_after_outcome
state_after_outcome current outcome =
    if is_terminal current then current else live_state_after_outcome current outcome
