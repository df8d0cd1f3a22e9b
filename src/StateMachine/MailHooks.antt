-- ===== src/StateMachine/MailHooks.antt =====
-- src/domain/state_machine/mail_hooks_state_machine.rs: the states, the transitions and the tables,
-- and
-- the methods of Machine over them.
pub mod Laws
use backbone_mail.Prelude.{
  ℕ, Bool, true, false, List, [], ◌∷◌, ◌==◌, if◌then◌else◌, Result, ok, err, not, ◌&&◌,
}
use backbone_mail.Prelude.Text.{Text, codes, text_eq, to_lowercase}
use backbone_mail.StateMachine.Machine
use backbone_mail.StateMachine.Machine.{
  StateMachineError, invalid_state, invalid_transition, Workflow,
}

pub data MailHooksState : Type 0 where
  outgoing sent received exception cancel : MailHooksState

pub data MailHooksTransition : Type 0 where
  smtp_accepted smtp_failed inbound_acknowledged requeued cancelled : MailHooksTransition

unfoldable pub default_state : MailHooksState
default_state = MailHooksState.outgoing

unfoldable pub state_name : MailHooksState → Text
state_name MailHooksState.outgoing = codes "outgoing"
state_name MailHooksState.sent = codes "sent"
state_name MailHooksState.received = codes "received"
state_name MailHooksState.exception = codes "exception"
state_name MailHooksState.cancel = codes "cancel"

unfoldable pub parse_state : (ℕ → Text) → Text → Result StateMachineError MailHooksState
parse_state unicode s =
    let folded = to_lowercase unicode s in
    if text_eq folded (codes "outgoing")
    then ok MailHooksState.outgoing
    else if text_eq folded (codes "sent")
    then ok MailHooksState.sent
    else if text_eq folded (codes "received")
    then ok MailHooksState.received
    else if text_eq folded (codes "exception")
    then ok MailHooksState.exception
    else if text_eq folded (codes "cancel")
    then ok MailHooksState.cancel
    else err (invalid_state s)

unfoldable pub is_initial : MailHooksState → Bool
is_initial MailHooksState.outgoing = true
is_initial MailHooksState.sent = false
is_initial MailHooksState.received = false
is_initial MailHooksState.exception = false
is_initial MailHooksState.cancel = false

unfoldable pub is_final : MailHooksState → Bool
is_final MailHooksState.outgoing = false
is_final MailHooksState.sent = true
is_final MailHooksState.received = true
is_final MailHooksState.exception = false
is_final MailHooksState.cancel = true

unfoldable pub all_states : List MailHooksState
all_states =
    MailHooksState.outgoing ∷ MailHooksState.sent ∷ MailHooksState.received
    ∷ MailHooksState.exception ∷ MailHooksState.cancel ∷ []

unfoldable pub transition_name : MailHooksTransition → Text
transition_name MailHooksTransition.smtp_accepted = codes "smtp_accepted"
transition_name MailHooksTransition.smtp_failed = codes "smtp_failed"
transition_name MailHooksTransition.inbound_acknowledged = codes "inbound_acknowledged"
transition_name MailHooksTransition.requeued = codes "requeued"
transition_name MailHooksTransition.cancelled = codes "cancelled"

unfoldable pub parse_transition : (ℕ → Text) → Text → Result StateMachineError MailHooksTransition
parse_transition unicode s =
    let folded = to_lowercase unicode s in
    if text_eq folded (codes "smtp_accepted")
    then ok MailHooksTransition.smtp_accepted
    else if text_eq folded (codes "smtp_failed")
    then ok MailHooksTransition.smtp_failed
    else if text_eq folded (codes "inbound_acknowledged")
    then ok MailHooksTransition.inbound_acknowledged
    else if text_eq folded (codes "requeued")
    then ok MailHooksTransition.requeued
    else if text_eq folded (codes "cancelled")
    then ok MailHooksTransition.cancelled
    else err (invalid_transition s)

unfoldable pub target_state : MailHooksTransition → MailHooksState
target_state MailHooksTransition.smtp_accepted = MailHooksState.sent
target_state MailHooksTransition.smtp_failed = MailHooksState.exception
target_state MailHooksTransition.inbound_acknowledged = MailHooksState.received
target_state MailHooksTransition.requeued = MailHooksState.outgoing
target_state MailHooksTransition.cancelled = MailHooksState.cancel

unfoldable pub all_transitions : List MailHooksTransition
all_transitions =
    MailHooksTransition.smtp_accepted ∷ MailHooksTransition.smtp_failed
    ∷ MailHooksTransition.inbound_acknowledged ∷ MailHooksTransition.requeued
    ∷ MailHooksTransition.cancelled ∷ []

unfoldable pub allowed_roles : MailHooksTransition → List Text
allowed_roles MailHooksTransition.smtp_accepted = []
allowed_roles MailHooksTransition.smtp_failed = []
allowed_roles MailHooksTransition.inbound_acknowledged = []
allowed_roles MailHooksTransition.requeued = []
allowed_roles MailHooksTransition.cancelled = []

-- the `match` of `can_transition`
unfoldable pub is_edge : MailHooksState → MailHooksTransition → Bool
is_edge MailHooksState.outgoing MailHooksTransition.smtp_accepted = true
is_edge MailHooksState.exception MailHooksTransition.smtp_accepted = true
is_edge MailHooksState.outgoing MailHooksTransition.smtp_failed = true
is_edge MailHooksState.sent MailHooksTransition.inbound_acknowledged = true
is_edge MailHooksState.exception MailHooksTransition.requeued = true
is_edge MailHooksState.outgoing MailHooksTransition.cancelled = true
is_edge MailHooksState.exception MailHooksTransition.cancelled = true
is_edge _ _ = false

-- the states that its first test refuses
unfoldable pub is_closed : MailHooksState → Bool
is_closed MailHooksState.outgoing = false
is_closed MailHooksState.sent = false
is_closed MailHooksState.received = true
is_closed MailHooksState.exception = false
is_closed MailHooksState.cancel = true

unfoldable pub can_transition : MailHooksState → MailHooksTransition → Bool
unfolding is_closed is_edge
can_transition s t = if is_closed s then false else is_edge s t

-- the derived `PartialEq`, by the place of a constructor
unfoldable pub ordinal : MailHooksState → ℕ
ordinal MailHooksState.outgoing = 0
ordinal MailHooksState.sent = 1
ordinal MailHooksState.received = 2
ordinal MailHooksState.exception = 3
ordinal MailHooksState.cancel = 4

unfoldable pub workflow : Workflow MailHooksState MailHooksTransition
unfolding can_transition target_state all_transitions allowed_roles ordinal state_name
    transition_name
workflow = record {
  can = can_transition;
  target = target_state;
  transitions = all_transitions;
  roles = allowed_roles;
  same = λ a b. ordinal a == ordinal b;
  state_name = state_name;
  transition_name = transition_name;
}

unfoldable pub can_transition_with_role : MailHooksState → MailHooksTransition → Text → Bool
unfolding workflow Machine.can_transition_with_role
can_transition_with_role = Machine.can_transition_with_role workflow

unfoldable pub transition :
    MailHooksState → MailHooksTransition → MailHooksState × Result StateMachineError MailHooksState
unfolding workflow Machine.transition
transition = Machine.transition workflow

unfoldable pub transition_with_role :
    MailHooksState
    → MailHooksTransition
    → Text
    → MailHooksState × Result StateMachineError MailHooksState
unfolding workflow Machine.transition_with_role
transition_with_role = Machine.transition_with_role workflow

unfoldable pub available_transitions : MailHooksState → List MailHooksTransition
unfolding workflow Machine.available_transitions
available_transitions = Machine.available_transitions workflow

unfoldable pub available_transitions_for_role : MailHooksState → Text → List MailHooksTransition
unfolding workflow Machine.available_transitions_for_role
available_transitions_for_role = Machine.available_transitions_for_role workflow

unfoldable pub transition_to_state :
    MailHooksState → MailHooksState → MailHooksState × Result StateMachineError MailHooksState
unfolding workflow Machine.transition_to_state
transition_to_state = Machine.transition_to_state workflow
