-- ===== src/StateMachine/SmsHooks.antt =====
-- src/domain/state_machine/sms_hooks_state_machine.rs: the states, the transitions and the tables,
-- and
-- the methods of Machine over them.
pub mod Laws
use backbone_mail.Prelude.{
  ℕ, Bool, true, false, List, [], ◌∷◌, ◌==◌, if◌then◌else◌, Result, ok, err, not, ◌&&◌,
}
use backbone_mail.Prelude.Text.{Text, codes, text_eq, to_lowercase}
use backbone_mail.StateMachine.Machine
use backbone_mail.StateMachine.Machine.{
  StateMachineError, invalid_state, invalid_transition, Workflow,
}

pub data SmsHooksState : Type 0 where
  outgoing process pending sent error canceled : SmsHooksState

pub data SmsHooksTransition : Type 0 where
  pickup iap_accepted delivery_confirmed send_failed stuck_requeued canceled : SmsHooksTransition

unfoldable pub default_state : SmsHooksState
default_state = SmsHooksState.outgoing

unfoldable pub state_name : SmsHooksState → Text
state_name SmsHooksState.outgoing = codes "outgoing"
state_name SmsHooksState.process = codes "process"
state_name SmsHooksState.pending = codes "pending"
state_name SmsHooksState.sent = codes "sent"
state_name SmsHooksState.error = codes "error"
state_name SmsHooksState.canceled = codes "canceled"

unfoldable pub parse_state : (ℕ → Text) → Text → Result StateMachineError SmsHooksState
parse_state unicode s =
    let folded = to_lowercase unicode s in
    if text_eq folded (codes "outgoing")
    then ok SmsHooksState.outgoing
    else if text_eq folded (codes "process")
    then ok SmsHooksState.process
    else if text_eq folded (codes "pending")
    then ok SmsHooksState.pending
    else if text_eq folded (codes "sent")
    then ok SmsHooksState.sent
    else if text_eq folded (codes "error")
    then ok SmsHooksState.error
    else if text_eq folded (codes "canceled")
    then ok SmsHooksState.canceled
    else err (invalid_state s)

unfoldable pub is_initial : SmsHooksState → Bool
is_initial SmsHooksState.outgoing = true
is_initial SmsHooksState.process = false
is_initial SmsHooksState.pending = false
is_initial SmsHooksState.sent = false
is_initial SmsHooksState.error = false
is_initial SmsHooksState.canceled = false

unfoldable pub is_final : SmsHooksState → Bool
is_final SmsHooksState.outgoing = false
is_final SmsHooksState.process = false
is_final SmsHooksState.pending = false
is_final SmsHooksState.sent = true
is_final SmsHooksState.error = false
is_final SmsHooksState.canceled = true

unfoldable pub all_states : List SmsHooksState
all_states =
    SmsHooksState.outgoing ∷ SmsHooksState.process ∷ SmsHooksState.pending ∷ SmsHooksState.sent
    ∷ SmsHooksState.error ∷ SmsHooksState.canceled ∷ []

unfoldable pub transition_name : SmsHooksTransition → Text
transition_name SmsHooksTransition.pickup = codes "pickup"
transition_name SmsHooksTransition.iap_accepted = codes "iap_accepted"
transition_name SmsHooksTransition.delivery_confirmed = codes "delivery_confirmed"
transition_name SmsHooksTransition.send_failed = codes "send_failed"
transition_name SmsHooksTransition.stuck_requeued = codes "stuck_requeued"
transition_name SmsHooksTransition.canceled = codes "canceled"

unfoldable pub parse_transition : (ℕ → Text) → Text → Result StateMachineError SmsHooksTransition
parse_transition unicode s =
    let folded = to_lowercase unicode s in
    if text_eq folded (codes "pickup")
    then ok SmsHooksTransition.pickup
    else if text_eq folded (codes "iap_accepted")
    then ok SmsHooksTransition.iap_accepted
    else if text_eq folded (codes "delivery_confirmed")
    then ok SmsHooksTransition.delivery_confirmed
    else if text_eq folded (codes "send_failed")
    then ok SmsHooksTransition.send_failed
    else if text_eq folded (codes "stuck_requeued")
    then ok SmsHooksTransition.stuck_requeued
    else if text_eq folded (codes "canceled")
    then ok SmsHooksTransition.canceled
    else err (invalid_transition s)

unfoldable pub target_state : SmsHooksTransition → SmsHooksState
target_state SmsHooksTransition.pickup = SmsHooksState.process
target_state SmsHooksTransition.iap_accepted = SmsHooksState.pending
target_state SmsHooksTransition.delivery_confirmed = SmsHooksState.sent
target_state SmsHooksTransition.send_failed = SmsHooksState.error
target_state SmsHooksTransition.stuck_requeued = SmsHooksState.outgoing
target_state SmsHooksTransition.canceled = SmsHooksState.canceled

unfoldable pub all_transitions : List SmsHooksTransition
all_transitions =
    SmsHooksTransition.pickup ∷ SmsHooksTransition.iap_accepted
    ∷ SmsHooksTransition.delivery_confirmed ∷ SmsHooksTransition.send_failed
    ∷ SmsHooksTransition.stuck_requeued ∷ SmsHooksTransition.canceled ∷ []

unfoldable pub allowed_roles : SmsHooksTransition → List Text
allowed_roles SmsHooksTransition.pickup = []
allowed_roles SmsHooksTransition.iap_accepted = []
allowed_roles SmsHooksTransition.delivery_confirmed = []
allowed_roles SmsHooksTransition.send_failed = []
allowed_roles SmsHooksTransition.stuck_requeued = []
allowed_roles SmsHooksTransition.canceled = []

-- the `match` of `can_transition`
unfoldable pub is_edge : SmsHooksState → SmsHooksTransition → Bool
is_edge SmsHooksState.outgoing SmsHooksTransition.pickup = true
is_edge SmsHooksState.process SmsHooksTransition.iap_accepted = true
is_edge SmsHooksState.process SmsHooksTransition.delivery_confirmed = true
is_edge SmsHooksState.pending SmsHooksTransition.delivery_confirmed = true
is_edge SmsHooksState.process SmsHooksTransition.send_failed = true
is_edge SmsHooksState.pending SmsHooksTransition.send_failed = true
is_edge SmsHooksState.process SmsHooksTransition.stuck_requeued = true
is_edge SmsHooksState.outgoing SmsHooksTransition.canceled = true
is_edge SmsHooksState.process SmsHooksTransition.canceled = true
is_edge SmsHooksState.pending SmsHooksTransition.canceled = true
is_edge _ _ = false

-- the states that its first test refuses
unfoldable pub is_closed : SmsHooksState → Bool
is_closed SmsHooksState.outgoing = false
is_closed SmsHooksState.process = false
is_closed SmsHooksState.pending = false
is_closed SmsHooksState.sent = true
is_closed SmsHooksState.error = false
is_closed SmsHooksState.canceled = true

unfoldable pub can_transition : SmsHooksState → SmsHooksTransition → Bool
unfolding is_closed is_edge
can_transition s t = if is_closed s then false else is_edge s t

-- the derived `PartialEq`, by the place of a constructor
unfoldable pub ordinal : SmsHooksState → ℕ
ordinal SmsHooksState.outgoing = 0
ordinal SmsHooksState.process = 1
ordinal SmsHooksState.pending = 2
ordinal SmsHooksState.sent = 3
ordinal SmsHooksState.error = 4
ordinal SmsHooksState.canceled = 5

unfoldable pub workflow : Workflow SmsHooksState SmsHooksTransition
unfolding can_transition target_state all_transitions allowed_roles ordinal state_name
    transition_name
workflow = record {
  can = can_transition;
  target = target_state;
  transitions = all_transitions;
  roles = allowed_roles;
  same = λ a b. ordinal a == ordinal b;
  state_name = state_name;
  transition_name = transition_name;
}

unfoldable pub can_transition_with_role : SmsHooksState → SmsHooksTransition → Text → Bool
unfolding workflow Machine.can_transition_with_role
can_transition_with_role = Machine.can_transition_with_role workflow

unfoldable pub transition :
    SmsHooksState → SmsHooksTransition → SmsHooksState × Result StateMachineError SmsHooksState
unfolding workflow Machine.transition
transition = Machine.transition workflow

unfoldable pub transition_with_role :
    SmsHooksState
    → SmsHooksTransition
    → Text
    → SmsHooksState × Result StateMachineError SmsHooksState
unfolding workflow Machine.transition_with_role
transition_with_role = Machine.transition_with_role workflow

unfoldable pub available_transitions : SmsHooksState → List SmsHooksTransition
unfolding workflow Machine.available_transitions
available_transitions = Machine.available_transitions workflow

unfoldable pub available_transitions_for_role : SmsHooksState → Text → List SmsHooksTransition
unfolding workflow Machine.available_transitions_for_role
available_transitions_for_role = Machine.available_transitions_for_role workflow

unfoldable pub transition_to_state :
    SmsHooksState → SmsHooksState → SmsHooksState × Result StateMachineError SmsHooksState
unfolding workflow Machine.transition_to_state
transition_to_state = Machine.transition_to_state workflow
