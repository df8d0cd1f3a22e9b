-- ===== src/Transition/Scenarios.antt =====
-- Requests for transitions, and the theorems at them.
use backbone_mail.Prelude.{
  ℕ, true, ◌≡◌, refl, ◌↔◌, List, [], ◌∷◌, Option, some, Result, ok, err, Memb,
}
use backbone_mail.Prelude.Text.{Text, codes, text_eq, split_on, to_lowercase}
use backbone_mail.StateMachine.MailHooks
use backbone_mail.StateMachine.MailPresenceHooks
use backbone_mail.Entity.MailState
use backbone_mail.Transition.{
  Reply, segments_match, ends_in_star, grants, granted, transition_handler,
}
use backbone_mail.Transition.Grants.{Covers, granted_iff}
use backbone_mail.Transition.Guard.{transition_gate, Decision}
use backbone_mail.Transition.Routes.{routes_agree}
use backbone_mail.Transition.Mail
use backbone_mail.Transition.MailPresence

abbrev unfolded : ℕ → Text
unfolded c = c ∷ []

-- A store of one mail, which reads back what is written to it.
abbrev Store : Type 0
Store = MailState.MailState

abbrev get_by_id : Text → Store → Result Text (Option MailState.MailState)
get_by_id id db = ok (some db)

abbrev after_parse :
    Store → Result Text MailState.MailState → Store × Result Text (Option MailState.MailState)
after_parse db (ok v) = (v, ok (some v))
after_parse db (err e) = (db, err e)

abbrev partial_update :
    Text → Text → Text → Text → Store → Store × Result Text (Option MailState.MailState)
partial_update name id field value db = after_parse db (MailState.from_str unfolded value)

abbrev post : Option (List Text) → Store → Store × Reply MailState.MailState
post =
    Mail.requeued_transition unfolded (λ (e : MailState.MailState). e) get_by_id partial_update
      (codes "m1")

-- A failed mail is put back by a caller with a wildcard, and by no caller without a permission.
requeues :
    (post (some (codes "mail:transition:*" ∷ [])) MailState.MailState.exception
      ≡ (MailState.MailState.outgoing, Reply.success MailState.MailState.outgoing))
    × (post (some (codes "sms:*" ∷ [])) MailState.MailState.exception ≡ (
      MailState.MailState.exception,
      Reply.error 403 (codes "requeued needs mail:transition:requeued"),
    ))
    × (post (some (codes "*" ∷ [])) MailState.MailState.sent ≡ (
      MailState.MailState.sent,
      Reply.error 400 (codes "Transition not allowed from current state"),
    ))
unfolding Mail.requeued_transition Mail.requeued_route transition_handler granted grants
    segments_match ends_in_star MailHooks.workflow MailHooks.parse_state MailHooks.can_transition
    MailState.display MailState.from_str to_lowercase text_eq split_on
requeues = (refl, refl, refl)

transition_gate_example :
    Decision MailHooks.workflow
      (MailHooks.parse_state unfolded)
      (codes "Mail")
      MailState.display
      get_by_id
      partial_update
      Mail.requeued_route
      (codes "m1")
      (some (codes "mail:*" ∷ []))
      MailState.MailState.exception
transition_gate_example =
    transition_gate MailHooks.workflow (MailHooks.parse_state unfolded) (codes "Mail")
      MailState.display get_by_id partial_update Mail.requeued_route (codes "m1")
      (some (codes "mail:*" ∷ [])) MailState.MailState.exception

granted_iff_example : (granted (codes "mail:*" ∷ []) (codes "mail:transition:requeued") ≡ true) ↔ (
    (p : Text) × Memb p (codes "mail:*" ∷ [])
    × Covers (split_on b':' p) (split_on b':' (codes "mail:transition:requeued")))
granted_iff_example = granted_iff (codes "mail:*" ∷ []) (codes "mail:transition:requeued")

routes_agree_example :
    MailPresenceHooks.parse_state unfolded MailPresence.go_online_route.value
    ≡ ok (MailPresenceHooks.workflow.target MailPresence.go_online_route.transition)
routes_agree_example = (routes_agree unfolded).3.0.0
