-- ===== src/Transition/Guard.antt =====
-- What stands between a request for a transition and the store.
use backbone_mail.Prelude.{
  ◌≡◌, refl, ◌≢◌, ◌⊎◌, inl, inr, true, Bool-cases, List, Option, none, some, Result, ok, err, arith,
}
use backbone_mail.Prelude.Text.{Text}
use backbone_mail.StateMachine.Machine.{StateMachineError, Workflow, transition}
use backbone_mail.Transition.{Route, Reply, granted, transition_handler, update_reply}

module _ {S T E W : Type 0} (machine : Workflow S T) (parse : Text → Result StateMachineError S)
    (entity_name : Text) (shown : E → Text) (get_by_id : Text → W → Result Text (Option E))
    (partial_update : Text → Text → Text → Text → W → W × Result Text (Option E))
    (route : Route T) where
  abbrev handler : Text → Option (List Text) → W → W × Reply E
  handler = transition_handler machine parse entity_name shown get_by_id partial_update route

  -- The entity is there, the caller is authenticated and granted, the stored text is a state of the
  -- machine, and the machine moves from it.
  abbrev pub Admits : Text → Option (List Text) → W → Type 0
  Admits id auth db =
      (e : E) × (permissions : List Text) × (s : S) × (get_by_id id db ≡ ok (some e))
      × (auth ≡ some permissions)
      × (granted permissions route.permission ≡ true)
      × (parse (shown e) ≡ ok s)
      × (transition machine s route.transition
          ≡ (machine.target route.transition, ok (machine.target route.transition)))

  moved-can :
      (s : S)
      → transition machine s route.transition
        ≡ (machine.target route.transition, ok (machine.target route.transition))
      → machine.can s route.transition ≡ true
  unfolding transition
  moved-can s moved = ground arith

  abbrev Written : Text → Option (List Text) → W → Type 0
  Written id auth db = handler id auth db ≡ (
    (partial_update route.name id route.field route.value db).0,
    update_reply machine parse entity_name shown get_by_id partial_update route id
        (partial_update route.name id route.field route.value db).1,
  )

  abbrev Refused : Text → Option (List Text) → W → Type 0
  Refused id auth db =
      ((handler id auth db).0 ≡ db) × ((e : E) → (handler id auth db).1 ≢ Reply.success e)

  abbrev pub Decision : Text → Option (List Text) → W → Type 0
  Decision id auth db =
      (Admits id auth db × Written id auth db) ⊎ (¬ (Admits id auth db) × Refused id auth db)

  module _ (id : Text) (db : W) (e : E) (found : get_by_id id db ≡ ok (some e)) where
    decide_parsed :
        (permissions : List Text) (r : Result StateMachineError S)
        → granted permissions route.permission ≡ true
        → parse (shown e) ≡ r
        → Decision id (some permissions) db
    unfolding transition_handler transition
    decide_parsed permissions (err x) allowed parsed =
        inr (λ (f, ps, s, g, c, a, q, m). cc, rw found (rw allowed (rw parsed (refl, λ u h. cc h))))
    decide_parsed permissions (ok s) allowed parsed =
        elim (Bool-cases (machine.can s route.transition)) [
          | inl can ↦ inl (
            (e, permissions, s, found, refl, allowed, parsed, rw can refl),
            rw found (rw allowed (rw parsed (rw can refl))),
          )
          | inr cannot ↦ inr (
            λ (f, ps, s2, g, c, a, q, m). let same : s2 ≡ s = cc in let can = moved-can s2 m in cc,
            rw found (rw allowed (rw parsed (rw cannot (refl, λ u h. cc h)))),
          )
        ]

    decide_authorized : (permissions : List Text) → Decision id (some permissions) db
    unfolding transition_handler
    decide_authorized permissions = elim (Bool-cases (granted permissions route.permission)) [
      | inl allowed ↦ decide_parsed permissions (parse (shown e)) allowed refl
      | inr denied ↦ inr (
        λ (f, ps, s, g, c, a, q, m). let same : ps ≡ permissions = cc in cc,
        rw found (rw denied (refl, λ u h. cc h)),
      )
    ]

    decide_found : (auth : Option (List Text)) → Decision id auth db
    unfolding transition_handler
    decide_found none = inr (λ (f, ps, s, g, c, a, q, m). cc c, rw found (refl, λ u h. cc h))
    decide_found (some permissions) = decide_authorized permissions

  decide_loaded :
      (id : Text) (auth : Option (List Text)) (db : W) (r : Result Text (Option E))
      → get_by_id id db ≡ r
      → Decision id auth db
  unfolding transition_handler
  decide_loaded id auth db (err x) h =
      inr (λ (f, ps, s, g, c, a, q, m). cc (h, g), rw h (refl, λ u e. cc e))
  decide_loaded id auth db (ok none) h =
      inr (λ (f, ps, s, g, c, a, q, m). cc (h, g), rw h (refl, λ u e. cc e))
  decide_loaded id auth db (ok (some e)) h = decide_found id db e h auth

  -- Either the request is admitted, and the handler is one write of the route's field and value to
  -- that entity under the route's name, or it is not, and the store stays as it was and the reply
  -- is no success.
  pub transition_gate : (id : Text) (auth : Option (List Text)) (db : W) → Decision id auth db
  transition_gate id auth db = decide_loaded id auth db (get_by_id id db) refl
