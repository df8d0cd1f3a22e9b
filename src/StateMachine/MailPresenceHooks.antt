-- ===== src/StateMachine/MailPresenceHooks.antt =====
-- src/domain/state_machine/mail_presence_hooks_state_machine.rs: the states, the transitions and
-- the tables, and
-- the methods of Machine over them.
pub mod Laws
use backbone_mail.Prelude.{
  ℕ, Bool, true, false, List, [], ◌∷◌, ◌==◌, if◌then◌else◌, Result, ok, err, not, ◌&&◌,
}
use backbone_mail.Prelude.Text.{Text, codes, text_eq, to_lowercase}
use backbone_mail.StateMachine.Machine
use backbone_mail.StateMachine.Machine.{
  StateMachineError, invalid_state, invalid_transition, Workflow,
}

pub data MailPresenceHooksState : Type 0 where
  online away offline : MailPresenceHooksState

pub data MailPresenceHooksTransition : Type 0 where
  go_online go_away go_offline : MailPresenceHooksTransition

unfoldable pub default_state : MailPresenceHooksState
default_state = MailPresenceHooksState.offline

unfoldable pub state_name : MailPresenceHooksState → Text
state_name MailPresenceHooksState.online = codes "online"
state_name MailPresenceHooksState.away = codes "away"
state_name MailPresenceHooksState.offline = codes "offline"

unfoldable pub parse_state : (ℕ → Text) → Text → Result StateMachineError MailPresenceHooksState
parse_state unicode s =
    let folded = to_lowercase unicode s in
    if text_eq folded (codes "online")
    then ok MailPresenceHooksState.online
    else if text_eq folded (codes "away")
    then ok MailPresenceHooksState.away
    else if text_eq folded (codes "offline")
    then ok MailPresenceHooksState.offline
    else err (invalid_state s)

unfoldable pub is_initial : MailPresenceHooksState → Bool
is_initial MailPresenceHooksState.online = false
is_initial MailPresenceHooksState.away = false
is_initial MailPresenceHooksState.offline = true

unfoldable pub is_final : MailPresenceHooksState → Bool
is_final MailPresenceHooksState.online = false
is_final MailPresenceHooksState.away = false
is_final MailPresenceHooksState.offline = true

unfoldable pub all_states : List MailPresenceHooksState
all_states =
    MailPresenceHooksState.online ∷ MailPresenceHooksState.away ∷ MailPresenceHooksState.offline
    ∷ []

unfoldable pub transition_name : MailPresenceHooksTransition → Text
transition_name MailPresenceHooksTransition.go_online = codes "go_online"
transition_name MailPresenceHooksTransition.go_away = codes "go_away"
transition_name MailPresenceHooksTransition.go_offline = codes "go_offline"

unfoldable pub parse_transition :
    (ℕ → Text) → Text → Result StateMachineError MailPresenceHooksTransition
parse_transition unicode s =
    let folded = to_lowercase unicode s in
    if text_eq folded (codes "go_online")
    then ok MailPresenceHooksTransition.go_online
    else if text_eq folded (codes "go_away")
    then ok MailPresenceHooksTransition.go_away
    else if text_eq folded (codes "go_offline")
    then ok MailPresenceHooksTransition.go_offline
    else err (invalid_transition s)

unfoldable pub target_state : MailPresenceHooksTransition → MailPresenceHooksState
target_state MailPresenceHooksTransition.go_online = MailPresenceHooksState.online
target_state MailPresenceHooksTransition.go_away = MailPresenceHooksState.away
target_state MailPresenceHooksTransition.go_offline = MailPresenceHooksState.offline

unfoldable pub all_transitions : List MailPresenceHooksTransition
all_transitions =
    MailPresenceHooksTransition.go_online ∷ MailPresenceHooksTransition.go_away
    ∷ MailPresenceHooksTransition.go_offline ∷ []

unfoldable pub allowed_roles : MailPresenceHooksTransition → List Text
allowed_roles MailPresenceHooksTransition.go_online = []
allowed_roles MailPresenceHooksTransition.go_away = []
allowed_roles MailPresenceHooksTransition.go_offline = []

-- the `match` of `can_transition`
unfoldable pub is_edge : MailPresenceHooksState → MailPresenceHooksTransition → Bool
is_edge MailPresenceHooksState.away MailPresenceHooksTransition.go_online = true
is_edge MailPresenceHooksState.offline MailPresenceHooksTransition.go_online = true
is_edge MailPresenceHooksState.online MailPresenceHooksTransition.go_away = true
is_edge MailPresenceHooksState.offline MailPresenceHooksTransition.go_away = true
is_edge MailPresenceHooksState.online MailPresenceHooksTransition.go_offline = true
is_edge MailPresenceHooksState.away MailPresenceHooksTransition.go_offline = true
is_edge _ _ = false

unfoldable pub can_transition : MailPresenceHooksState → MailPresenceHooksTransition → Bool
unfolding is_edge
can_transition s t = is_edge s t

-- the derived `PartialEq`, by the place of a constructor
unfoldable pub ordinal : MailPresenceHooksState → ℕ
ordinal MailPresenceHooksState.online = 0
ordinal MailPresenceHooksState.away = 1
ordinal MailPresenceHooksState.offline = 2

unfoldable pub workflow : Workflow MailPresenceHooksState MailPresenceHooksTransition
unfolding can_transition target_state all_transitions allowed_roles ordinal state_name
    transition_name
workflow = record {
  can = can_transition;
  target = target_state;
  transitions = all_transitions;
  roles = allowed_roles;
  same = λ a b. ordinal a == ordinal b;
  state_name = state_name;
  transition_name = transition_name;
}

unfoldable pub can_transition_with_role :
    MailPresenceHooksState → MailPresenceHooksTransition → Text → Bool
unfolding workflow Machine.can_transition_with_role
can_transition_with_role = Machine.can_transition_with_role workflow

unfoldable pub transition :
    MailPresenceHooksState
    → MailPresenceHooksTransition
    → MailPresenceHooksState × Result StateMachineError MailPresenceHooksState
unfolding workflow Machine.transition
transition = Machine.transition workflow

unfoldable pub transition_with_role :
    MailPresenceHooksState
    → MailPresenceHooksTransition
    → Text
    → MailPresenceHooksState × Result StateMachineError MailPresenceHooksState
unfolding workflow Machine.transition_with_role
transition_with_role = Machine.transition_with_role workflow

unfoldable pub available_transitions : MailPresenceHooksState → List MailPresenceHooksTransition
unfolding workflow Machine.available_transitions
available_transitions = Machine.available_transitions workflow

unfoldable pub available_transitions_for_role :
    MailPresenceHooksState → Text → List MailPresenceHooksTransition
unfolding workflow Machine.available_transitions_for_role
available_transitions_for_role = Machine.available_transitions_for_role workflow

unfoldable pub transition_to_state :
    MailPresenceHooksState
    → MailPresenceHooksState
    → MailPresenceHooksState × Result StateMachineError MailPresenceHooksState
unfolding workflow Machine.transition_to_state
transition_to_state = Machine.transition_to_state workflow
