-- ===== src/StateMachine/MailNotificationHooks.antt =====
-- src/domain/state_machine/mail_notification_hooks_state_machine.rs: the states, the transitions
-- and the tables, and
-- the methods of Machine over them.
pub mod Laws
use backbone_mail.Prelude.{
  ℕ, Bool, true, false, List, [], ◌∷◌, ◌==◌, if◌then◌else◌, Result, ok, err, not, ◌&&◌,
}
use backbone_mail.Prelude.Text.{Text, codes, text_eq, to_lowercase}
use backbone_mail.StateMachine.Machine
use backbone_mail.StateMachine.Machine.{
  StateMachineError, invalid_state, invalid_transition, Workflow,
}

pub data MailNotificationHooksState : Type 0 where
  ready process pending sent bounce exception canceled : MailNotificationHooksState

pub data MailNotificationHooksTransition : Type 0 where
  dispatch_started smtp_accepted delivery_confirmed instant_delivered bounced send_failed
        accepted_unpicked delivered_unpicked failed_unpicked canceled :
      MailNotificationHooksTransition

unfoldable pub default_state : MailNotificationHooksState
default_state = MailNotificationHooksState.ready

unfoldable pub state_name : MailNotificationHooksState → Text
state_name MailNotificationHooksState.ready = codes "ready"
state_name MailNotificationHooksState.process = codes "process"
state_name MailNotificationHooksState.pending = codes "pending"
state_name MailNotificationHooksState.sent = codes "sent"
state_name MailNotificationHooksState.bounce = codes "bounce"
state_name MailNotificationHooksState.exception = codes "exception"
state_name MailNotificationHooksState.canceled = codes "canceled"

unfoldable pub parse_state : (ℕ → Text) → Text → Result StateMachineError MailNotificationHooksState
parse_state unicode s =
    let folded = to_lowercase unicode s in
    if text_eq folded (codes "ready")
    then ok MailNotificationHooksState.ready
    else if text_eq folded (codes "process")
    then ok MailNotificationHooksState.process
    else if text_eq folded (codes "pending")
    then ok MailNotificationHooksState.pending
    else if text_eq folded (codes "sent")
    then ok MailNotificationHooksState.sent
    else if text_eq folded (codes "bounce")
    then ok MailNotificationHooksState.bounce
    else if text_eq folded (codes "exception")
    then ok MailNotificationHooksState.exception
    else if text_eq folded (codes "canceled")
    then ok MailNotificationHooksState.canceled
    else err (invalid_state s)

unfoldable pub is_initial : MailNotificationHooksState → Bool
is_initial MailNotificationHooksState.ready = true
is_initial MailNotificationHooksState.process = false
is_initial MailNotificationHooksState.pending = false
is_initial MailNotificationHooksState.sent = false
is_initial MailNotificationHooksState.bounce = false
is_initial MailNotificationHooksState.exception = false
is_initial MailNotificationHooksState.canceled = false

unfoldable pub is_final : MailNotificationHooksState → Bool
is_final MailNotificationHooksState.ready = false
is_final MailNotificationHooksState.process = false
is_final MailNotificationHooksState.pending = false
is_final MailNotificationHooksState.sent = true
is_final MailNotificationHooksState.bounce = true
is_final MailNotificationHooksState.exception = false
is_final MailNotificationHooksState.canceled = true

unfoldable pub all_states : List MailNotificationHooksState
all_states =
    MailNotificationHooksState.ready ∷ MailNotificationHooksState.process
    ∷ MailNotificationHooksState.pending ∷ MailNotificationHooksState.sent
    ∷ MailNotificationHooksState.bounce ∷ MailNotificationHooksState.exception
    ∷ MailNotificationHooksState.canceled ∷ []

unfoldable pub transition_name : MailNotificationHooksTransition → Text
transition_name MailNotificationHooksTransition.dispatch_started = codes "dispatch_started"
transition_name MailNotificationHooksTransition.smtp_accepted = codes "smtp_accepted"
transition_name MailNotificationHooksTransition.delivery_confirmed = codes "delivery_confirmed"
transition_name MailNotificationHooksTransition.instant_delivered = codes "instant_delivered"
transition_name MailNotificationHooksTransition.bounced = codes "bounced"
transition_name MailNotificationHooksTransition.send_failed = codes "send_failed"
transition_name MailNotificationHooksTransition.accepted_unpicked = codes "accepted_unpicked"
transition_name MailNotificationHooksTransition.delivered_unpicked = codes "delivered_unpicked"
transition_name MailNotificationHooksTransition.failed_unpicked = codes "failed_unpicked"
transition_name MailNotificationHooksTransition.canceled = codes "canceled"

unfoldable pub parse_transition :
    (ℕ → Text) → Text → Result StateMachineError MailNotificationHooksTransition
parse_transition unicode s =
    let folded = to_lowercase unicode s in
    if text_eq folded (codes "dispatch_started")
    then ok MailNotificationHooksTransition.dispatch_started
    else if text_eq folded (codes "smtp_accepted")
    then ok MailNotificationHooksTransition.smtp_accepted
    else if text_eq folded (codes "delivery_confirmed")
    then ok MailNotificationHooksTransition.delivery_confirmed
    else if text_eq folded (codes "instant_delivered")
    then ok MailNotificationHooksTransition.instant_delivered
    else if text_eq folded (codes "bounced")
    then ok MailNotificationHooksTransition.bounced
    else if text_eq folded (codes "send_failed")
    then ok MailNotificationHooksTransition.send_failed
    else if text_eq folded (codes "accepted_unpicked")
    then ok MailNotificationHooksTransition.accepted_unpicked
    else if text_eq folded (codes "delivered_unpicked")
    then ok MailNotificationHooksTransition.delivered_unpicked
    else if text_eq folded (codes "failed_unpicked")
    then ok MailNotificationHooksTransition.failed_unpicked
    else if text_eq folded (codes "canceled")
    then ok MailNotificationHooksTransition.canceled
    else err (invalid_transition s)

unfoldable pub target_state : MailNotificationHooksTransition → MailNotificationHooksState
target_state MailNotificationHooksTransition.dispatch_started = MailNotificationHooksState.process
target_state MailNotificationHooksTransition.smtp_accepted = MailNotificationHooksState.pending
target_state MailNotificationHooksTransition.delivery_confirmed = MailNotificationHooksState.sent
target_state MailNotificationHooksTransition.instant_delivered = MailNotificationHooksState.sent
target_state MailNotificationHooksTransition.bounced = MailNotificationHooksState.bounce
target_state MailNotificationHooksTransition.send_failed = MailNotificationHooksState.exception
target_state MailNotificationHooksTransition.accepted_unpicked = MailNotificationHooksState.pending
target_state MailNotificationHooksTransition.delivered_unpicked = MailNotificationHooksState.sent
target_state MailNotificationHooksTransition.failed_unpicked = MailNotificationHooksState.exception
target_state MailNotificationHooksTransition.canceled = MailNotificationHooksState.canceled

unfoldable pub all_transitions : List MailNotificationHooksTransition
all_transitions =
    MailNotificationHooksTransition.dispatch_started ∷ MailNotificationHooksTransition.smtp_accepted
    ∷ MailNotificationHooksTransition.delivery_confirmed
    ∷ MailNotificationHooksTransition.instant_delivered ∷ MailNotificationHooksTransition.bounced
    ∷ MailNotificationHooksTransition.send_failed
    ∷ MailNotificationHooksTransition.accepted_unpicked
    ∷ MailNotificationHooksTransition.delivered_unpicked
    ∷ MailNotificationHooksTransition.failed_unpicked ∷ MailNotificationHooksTransition.canceled
    ∷ []

unfoldable pub allowed_roles : MailNotificationHooksTransition → List Text
allowed_roles MailNotificationHooksTransition.dispatch_started = []
allowed_roles MailNotificationHooksTransition.smtp_accepted = []
allowed_roles MailNotificationHooksTransition.delivery_confirmed = []
allowed_roles MailNotificationHooksTransition.instant_delivered = []
allowed_roles MailNotificationHooksTransition.bounced = []
allowed_roles MailNotificationHooksTransition.send_failed = []
allowed_roles MailNotificationHooksTransition.accepted_unpicked = []
allowed_roles MailNotificationHooksTransition.delivered_unpicked = []
allowed_roles MailNotificationHooksTransition.failed_unpicked = []
allowed_roles MailNotificationHooksTransition.canceled = []

-- the `match` of `can_transition`
unfoldable pub is_edge : MailNotificationHooksState → MailNotificationHooksTransition → Bool
is_edge MailNotificationHooksState.ready MailNotificationHooksTransition.dispatch_started = true
is_edge MailNotificationHooksState.process MailNotificationHooksTransition.smtp_accepted = true
is_edge MailNotificationHooksState.exception MailNotificationHooksTransition.smtp_accepted = true
is_edge MailNotificationHooksState.pending MailNotificationHooksTransition.delivery_confirmed = true
is_edge MailNotificationHooksState.process MailNotificationHooksTransition.instant_delivered = true
is_edge MailNotificationHooksState.pending MailNotificationHooksTransition.bounced = true
is_edge MailNotificationHooksState.process MailNotificationHooksTransition.bounced = true
is_edge MailNotificationHooksState.exception MailNotificationHooksTransition.bounced = true
is_edge MailNotificationHooksState.process MailNotificationHooksTransition.send_failed = true
is_edge MailNotificationHooksState.pending MailNotificationHooksTransition.send_failed = true
is_edge MailNotificationHooksState.ready MailNotificationHooksTransition.accepted_unpicked = true
is_edge MailNotificationHooksState.ready MailNotificationHooksTransition.delivered_unpicked = true
is_edge MailNotificationHooksState.ready MailNotificationHooksTransition.failed_unpicked = true
is_edge MailNotificationHooksState.ready MailNotificationHooksTransition.canceled = true
is_edge MailNotificationHooksState.process MailNotificationHooksTransition.canceled = true
is_edge MailNotificationHooksState.pending MailNotificationHooksTransition.canceled = true
is_edge _ _ = false

-- the states that its first test refuses
unfoldable pub is_closed : MailNotificationHooksState → Bool
is_closed MailNotificationHooksState.ready = false
is_closed MailNotificationHooksState.process = false
is_closed MailNotificationHooksState.pending = false
is_closed MailNotificationHooksState.sent = true
is_closed MailNotificationHooksState.bounce = true
is_closed MailNotificationHooksState.exception = false
is_closed MailNotificationHooksState.canceled = true

unfoldable pub can_transition : MailNotificationHooksState → MailNotificationHooksTransition → Bool
unfolding is_closed is_edge
can_transition s t = if is_closed s then false else is_edge s t

-- the derived `PartialEq`, by the place of a constructor
unfoldable pub ordinal : MailNotificationHooksState → ℕ
ordinal MailNotificationHooksState.ready = 0
ordinal MailNotificationHooksState.process = 1
ordinal MailNotificationHooksState.pending = 2
ordinal MailNotificationHooksState.sent = 3
ordinal MailNotificationHooksState.bounce = 4
ordinal MailNotificationHooksState.exception = 5
ordinal MailNotificationHooksState.canceled = 6

unfoldable pub workflow : Workflow MailNotificationHooksState MailNotificationHooksTransition
unfolding can_transition target_state all_transitions allowed_roles ordinal state_name
    transition_name
workflow = record {
  can = can_transition;
  target = target_state;
  transitions = all_transitions;
  roles = allowed_roles;
  same = λ a b. ordinal a == ordinal b;
  state_name = state_name;
  transition_name = transition_name;
}

unfoldable pub can_transition_with_role :
    MailNotificationHooksState → MailNotificationHooksTransition → Text → Bool
unfolding workflow Machine.can_transition_with_role
can_transition_with_role = Machine.can_transition_with_role workflow

unfoldable pub transition :
    MailNotificationHooksState
    → MailNotificationHooksTransition
    → MailNotificationHooksState × Result StateMachineError MailNotificationHooksState
unfolding workflow Machine.transition
transition = Machine.transition workflow

unfoldable pub transition_with_role :
    MailNotificationHooksState
    → MailNotificationHooksTransition
    → Text
    → MailNotificationHooksState × Result StateMachineError MailNotificationHooksState
unfolding workflow Machine.transition_with_role
transition_with_role = Machine.transition_with_role workflow

unfoldable pub available_transitions :
    MailNotificationHooksState → List MailNotificationHooksTransition
unfolding workflow Machine.available_transitions
available_transitions = Machine.available_transitions workflow

unfoldable pub available_transitions_for_role :
    MailNotificationHooksState → Text → List MailNotificationHooksTransition
unfolding workflow Machine.available_transitions_for_role
available_transitions_for_role = Machine.available_transitions_for_role workflow

unfoldable pub transition_to_state :
    MailNotificationHooksState
    → MailNotificationHooksState
    → MailNotificationHooksState × Result StateMachineError MailNotificationHooksState
unfolding workflow Machine.transition_to_state
transition_to_state = Machine.transition_to_state workflow
