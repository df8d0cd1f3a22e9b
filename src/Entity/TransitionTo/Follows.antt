-- ===== src/Entity/TransitionTo/Follows.antt =====
-- `transition_to` over any machine and any column that mirror each other.
use backbone_mail.Prelude.{◌≡◌, refl, ◌⊎◌, inl, inr, Result, ok, err}
use backbone_mail.Prelude.Text.{Text}
use backbone_mail.StateMachine.Machine.{
  StateMachineError, Workflow, transition_to_state, transition_not_allowed,
}
use backbone_mail.StateMachine.Machine.Laws.{IsComplete, transition_to_state_lem}
use backbone_mail.Entity.TransitionTo.{transition_to}

module _ {S T V : Type 0} (machine : Workflow S T) (parse : Text → Result StateMachineError S)
    (display : V → Text) (from_str : Text → Result Text V) where
  -- Every column value is a state of the machine, and every state is a column value of that name.
  pub record IsMirror : Type 0 where
    pub reads : (v : V) → (s : S) × (parse (display v) ≡ ok s)
    pub writes :
        (s : S)
        → (v : V) × (from_str (machine.state_name s) ≡ ok v) × (display v ≡ machine.state_name s)

  -- Either the machine moves from the state in the column to the new one, and the column becomes
  -- the value of that name, or it refuses, and the column stays with the machine's error.
  abbrev pub Follows : (V → S → V × Result StateMachineError (Unit {0})) → V → S → Type 0
  Follows method v goal =
      (s : S) × (parse (display v) ≡ ok s)
      × (((u : V) × (method v goal ≡ (u, ok tt))
            × (display u ≡ machine.state_name goal)
            × (transition_to_state machine s goal ≡ (goal, ok goal)))
          ⊎ ((e : StateMachineError) × (method v goal ≡ (v, err e))
              × (transition_to_state machine s goal ≡ (s, err e))))

  pub transition_to_lem :
      IsComplete machine
      → IsMirror
      → (v : V) (goal : S) → Follows (transition_to machine parse display from_str) v goal
  unfolding transition_to
  transition_to_lem complete mirror v goal =
      let (s, parsed) = mirror.reads v in
      let (u, written, shown) = mirror.writes goal in
      (
        s,
        parsed,
        elim (transition_to_state_lem machine complete s goal) [
          | inl (t, can, target, moved) ↦
              inl (u, rw parsed (rw moved (rw written refl)), shown, moved)
          | inr (nowhere, stays) ↦ inr (
            transition_not_allowed (machine.state_name goal) (machine.state_name s),
            rw parsed (rw stays refl),
            stays,
          )
        ],
      )
