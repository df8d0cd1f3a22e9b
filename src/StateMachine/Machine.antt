-- ===== src/StateMachine/Machine.antt =====
-- The methods that every `*HooksStateMachine` of src/domain/state_machine has, over the tables that
-- differ: `can_transition`, `target_state`, `all`, `allowed_roles` and the `Display` names.
-- A machine is its current state; a method that takes `&mut self` returns the state beside the
-- result.
pub mod Laws
use backbone_mail.Prelude.{
  Bool, true, false, List, [], ◌∷◌, Option, none, some, any, find, filterb, is_empty, not, ◌||◌,
  ◌==◌, if◌then◌else◌, Result, ok, err,
}
use backbone_mail.Prelude.Text.{Text, codes, text_eq}

pub data StateMachineError : Type 0 where
  invalid_state : Text → StateMachineError
  invalid_transition : Text → StateMachineError
  transition_not_allowed : Text → Text → StateMachineError
  role_not_authorized : Text → Text → StateMachineError
  guard_failed : Text → StateMachineError
  final_state_reached : Text → StateMachineError

pub record Workflow (S T : Type 0) : Type 0 where
  pub can : S → T → Bool
  pub target : T → S
  pub transitions : List T
  pub roles : T → List Text
  pub same : S → S → Bool
  pub state_name : S → Text
  pub transition_name : T → Text

module _ {S T : Type 0} (w : Workflow S T) where
  unfoldable pub can_transition_with_role : S → T → Text → Bool
  can_transition_with_role s t role =
      if not (w.can s t)
      then false
      else if is_empty (w.roles t)
      then true
      else any (λ r. text_eq r role || text_eq r (codes "*")) (w.roles t)

  unfoldable pub transition : S → T → S × Result StateMachineError S
  transition s t =
      if not (w.can s t)
      then (s, err (transition_not_allowed (w.transition_name t) (w.state_name s)))
      else (w.target t, ok (w.target t))

  unfoldable pub transition_with_role : S → T → Text → S × Result StateMachineError S
  unfolding can_transition_with_role
  transition_with_role s t role =
      if not (w.can s t)
      then (s, err (transition_not_allowed (w.transition_name t) (w.state_name s)))
      else if not (can_transition_with_role s t role)
      then (s, err (role_not_authorized role (w.transition_name t)))
      else (w.target t, ok (w.target t))

  unfoldable pub available_transitions : S → List T
  available_transitions s = filterb (w.can s) w.transitions

  unfoldable pub available_transitions_for_role : S → Text → List T
  unfolding can_transition_with_role
  available_transitions_for_role s role =
      filterb (λ t. can_transition_with_role s t role) w.transitions

  -- the branch of `transition_to_state` after the search
  abbrev pub transition_by : S → S → Option T → S × Result StateMachineError S
  transition_by s goal none = (s, err (transition_not_allowed (w.state_name goal) (w.state_name s)))
  transition_by s goal (some t) = transition s t

  unfoldable pub transition_to_state : S → S → S × Result StateMachineError S
  unfolding transition
  transition_to_state s goal =
      transition_by s goal (find (λ t. w.same (w.target t) goal) (filterb (w.can s) w.transitions))
