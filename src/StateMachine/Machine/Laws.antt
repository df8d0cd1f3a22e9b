-- ===== src/StateMachine/Machine/Laws.antt =====
-- Laws of the methods that the machines share.
use backbone_mail.Prelude.{
  ◌≡◌, ◌↔◌, ◌≢◌, ◌⊎◌, inl, inr, Bool, true, none, some, Memb, find, filterb, arith, Option-cases,
  ok, err, Memb-filterb, filterb-Memb, find-some, find-none,
}
use backbone_mail.StateMachine.Machine.{
  Workflow, available_transitions, transition_to_state, transition_not_allowed,
}

pub record IsComplete {S T : Type 0} (w : Workflow S T) : Type 0 where
  pub lists_all : (t : T) → Memb t w.transitions
  pub same_iff : (a b : S) → (w.same a b ≡ true) ↔ (a ≡ b)

module _ {S T : Type 0} (w : Workflow S T) (c : IsComplete w) where
  -- Over tables that list every transition, a transition is listed for a state exactly when it is
  -- legal there.
  pub available_transitions-Memb :
      (s : S) (t : T) → Memb t (available_transitions w s) ↔ (w.can s t ≡ true)
  unfolding available_transitions
  available_transitions-Memb s t = (
    λ m. (filterb-Memb (w.can s) t w.transitions m).1,
    Memb-filterb (w.can s) t w.transitions (c.lists_all t),
  )

  abbrev leads_to : S → T → Bool
  leads_to goal t = w.same (w.target t) goal

  found_leads :
      (s goal : S) (u : T)
      → find (leads_to goal) (filterb (w.can s) w.transitions) ≡ some u
      → (w.can s u ≡ true) × (w.target u ≡ goal)
  found_leads s goal u found =
      let (m, e) = find-some (leads_to goal) (filterb (w.can s) w.transitions) found in
      ((filterb-Memb (w.can s) u w.transitions m).1, (c.same_iff (w.target u) goal).0 e)

  none_leads :
      (s goal : S) (t : T)
      → find (leads_to goal) (filterb (w.can s) w.transitions) ≡ none
      → w.can s t ≡ true
      → w.target t ≢ goal
  none_leads s goal t missed h e =
      let m = Memb-filterb (w.can s) t w.transitions (c.lists_all t) h in
      let misses = find-none (leads_to goal) t (filterb (w.can s) w.transitions) missed m in
      cc (misses, (c.same_iff (w.target t) goal).1 e)

  -- Over tables that list every transition and compare states rightly: either some legal transition
  -- leads to the goal, and the machine is then there, or none does,
  -- and it stays where it is with the error that names both states.
  pub transition_to_state_lem :
      (s goal : S)
      → ((t : T) × (w.can s t ≡ true)
          × (w.target t ≡ goal)
          × (transition_to_state w s goal ≡ (goal, ok goal)))
        ⊎ (((t : T) → w.can s t ≡ true → w.target t ≢ goal)
            × (transition_to_state w s goal
                ≡ (s, err (transition_not_allowed (w.state_name goal) (w.state_name s)))))
  unfolding transition_to_state
  transition_to_state_lem s goal =
      elim (Option-cases (find (leads_to goal) (filterb (w.can s) w.transitions))) [
        | inl missed ↦ inr ((λ t. none_leads s goal t missed), rw missed)
        | inr (u, found) ↦
            let (legal, arrives) = found_leads s goal u found in
            inl (u, legal, arrives, rw found (ground arith))
      ]
