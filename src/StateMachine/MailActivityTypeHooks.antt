-- ===== src/StateMachine/MailActivityTypeHooks.antt =====
-- src/domain/state_machine/mail_activity_type_hooks_state_machine.rs: the states, the transitions
-- and the tables, and
-- the methods of Machine over them.
pub mod Laws
use backbone_mail.Prelude.{
  ℕ, Bool, true, false, List, [], ◌∷◌, ◌==◌, if◌then◌else◌, Result, ok, err, not, ◌&&◌,
}
use backbone_mail.Prelude.Text.{Text, codes, text_eq, to_lowercase}
use backbone_mail.StateMachine.Machine
use backbone_mail.StateMachine.Machine.{
  StateMachineError, invalid_state, invalid_transition, Workflow,
}

pub data MailActivityTypeHooksState : Type 0 where
  suggest trigger : MailActivityTypeHooksState

pub data MailActivityTypeHooksTransition : Type 0 where
  enable_trigger : MailActivityTypeHooksTransition

unfoldable pub default_state : MailActivityTypeHooksState
default_state = MailActivityTypeHooksState.suggest

unfoldable pub state_name : MailActivityTypeHooksState → Text
state_name MailActivityTypeHooksState.suggest = codes "suggest"
state_name MailActivityTypeHooksState.trigger = codes "trigger"

unfoldable pub parse_state : (ℕ → Text) → Text → Result StateMachineError MailActivityTypeHooksState
parse_state unicode s =
    let folded = to_lowercase unicode s in
    if text_eq folded (codes "suggest")
    then ok MailActivityTypeHooksState.suggest
    else if text_eq folded (codes "trigger")
    then ok MailActivityTypeHooksState.trigger
    else err (invalid_state s)

unfoldable pub is_initial : MailActivityTypeHooksState → Bool
is_initial MailActivityTypeHooksState.suggest = true
is_initial MailActivityTypeHooksState.trigger = false

unfoldable pub is_final : MailActivityTypeHooksState → Bool
is_final MailActivityTypeHooksState.suggest = false
is_final MailActivityTypeHooksState.trigger = true

unfoldable pub all_states : List MailActivityTypeHooksState
all_states = MailActivityTypeHooksState.suggest ∷ MailActivityTypeHooksState.trigger ∷ []

unfoldable pub transition_name : MailActivityTypeHooksTransition → Text
transition_name MailActivityTypeHooksTransition.enable_trigger = codes "enable_trigger"

unfoldable pub parse_transition :
    (ℕ → Text) → Text → Result StateMachineError MailActivityTypeHooksTransition
parse_transition unicode s =
    let folded = to_lowercase unicode s in
    if text_eq folded (codes "enable_trigger")
    then ok MailActivityTypeHooksTransition.enable_trigger
    else err (invalid_transition s)

unfoldable pub target_state : MailActivityTypeHooksTransition → MailActivityTypeHooksState
target_state MailActivityTypeHooksTransition.enable_trigger = MailActivityTypeHooksState.trigger

unfoldable pub all_transitions : List MailActivityTypeHooksTransition
all_transitions = MailActivityTypeHooksTransition.enable_trigger ∷ []

unfoldable pub allowed_roles : MailActivityTypeHooksTransition → List Text
allowed_roles MailActivityTypeHooksTransition.enable_trigger = []

-- the `match` of `can_transition`
unfoldable pub is_edge : MailActivityTypeHooksState → MailActivityTypeHooksTransition → Bool
is_edge MailActivityTypeHooksState.suggest MailActivityTypeHooksTransition.enable_trigger = true
is_edge _ _ = false

-- the states that its first test refuses
unfoldable pub is_closed : MailActivityTypeHooksState → Bool
is_closed MailActivityTypeHooksState.suggest = false
is_closed MailActivityTypeHooksState.trigger = true

unfoldable pub can_transition : MailActivityTypeHooksState → MailActivityTypeHooksTransition → Bool
unfolding is_closed is_edge
can_transition s t = if is_closed s then false else is_edge s t

-- the derived `PartialEq`, by the place of a constructor
unfoldable pub ordinal : MailActivityTypeHooksState → ℕ
ordinal MailActivityTypeHooksState.suggest = 0
ordinal MailActivityTypeHooksState.trigger = 1

unfoldable pub workflow : Workflow MailActivityTypeHooksState MailActivityTypeHooksTransition
unfolding can_transition target_state all_transitions allowed_roles ordinal state_name
    transition_name
workflow = record {
  can = can_transition;
  target = target_state;
  transitions = all_transitions;
  roles = allowed_roles;
  same = λ a b. ordinal a == ordinal b;
  state_name = state_name;
  transition_name = transition_name;
}

unfoldable pub can_transition_with_role :
    MailActivityTypeHooksState → MailActivityTypeHooksTransition → Text → Bool
unfolding workflow Machine.can_transition_with_role
can_transition_with_role = Machine.can_transition_with_role workflow

unfoldable pub transition :
    MailActivityTypeHooksState
    → MailActivityTypeHooksTransition
    → MailActivityTypeHooksState × Result StateMachineError MailActivityTypeHooksState
unfolding workflow Machine.transition
transition = Machine.transition workflow

unfoldable pub transition_with_role :
    MailActivityTypeHooksState
    → MailActivityTypeHooksTransition
    → Text
    → MailActivityTypeHooksState × Result StateMachineError MailActivityTypeHooksState
unfolding workflow Machine.transition_with_role
transition_with_role = Machine.transition_with_role workflow

unfoldable pub available_transitions :
    MailActivityTypeHooksState → List MailActivityTypeHooksTransition
unfolding workflow Machine.available_transitions
available_transitions = Machine.available_transitions workflow

unfoldable pub available_transitions_for_role :
    MailActivityTypeHooksState → Text → List MailActivityTypeHooksTransition
unfolding workflow Machine.available_transitions_for_role
available_transitions_for_role = Machine.available_transitions_for_role workflow

unfoldable pub transition_to_state :
    MailActivityTypeHooksState
    → MailActivityTypeHooksState
    → MailActivityTypeHooksState × Result StateMachineError MailActivityTypeHooksState
unfolding workflow Machine.transition_to_state
transition_to_state = Machine.transition_to_state workflow
