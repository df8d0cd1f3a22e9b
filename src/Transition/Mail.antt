-- ===== src/Transition/Mail.antt =====
-- The transition handlers of src/presentation/http/mail_handler.rs.
use backbone_mail.Prelude.{ℕ, List, [], ◌∷◌, Option, Result}
use backbone_mail.Prelude.Text.{Text, codes}
use backbone_mail.StateMachine.MailHooks
use backbone_mail.StateMachine.MailHooks.{MailHooksTransition}
use backbone_mail.Entity.MailState
use backbone_mail.Transition.{Route, Reply, transition_handler}

unfoldable pub smtp_accepted_route : Route MailHooksTransition
smtp_accepted_route = record {
  permission = codes "mail:transition:smtp_accepted";
  forbidden = codes "smtp_accepted needs mail:transition:smtp_accepted";
  transition = MailHooksTransition.smtp_accepted;
  field = codes "state";
  value = codes "sent";
  name = codes "smtp_accepted";
}

unfoldable pub smtp_failed_route : Route MailHooksTransition
smtp_failed_route = record {
  permission = codes "mail:transition:smtp_failed";
  forbidden = codes "smtp_failed needs mail:transition:smtp_failed";
  transition = MailHooksTransition.smtp_failed;
  field = codes "state";
  value = codes "exception";
  name = codes "smtp_failed";
}

unfoldable pub inbound_acknowledged_route : Route MailHooksTransition
inbound_acknowledged_route = record {
  permission = codes "mail:transition:inbound_acknowledged";
  forbidden = codes "inbound_acknowledged needs mail:transition:inbound_acknowledged";
  transition = MailHooksTransition.inbound_acknowledged;
  field = codes "state";
  value = codes "received";
  name = codes "inbound_acknowledged";
}

unfoldable pub requeued_route : Route MailHooksTransition
requeued_route = record {
  permission = codes "mail:transition:requeued";
  forbidden = codes "requeued needs mail:transition:requeued";
  transition = MailHooksTransition.requeued;
  field = codes "state";
  value = codes "outgoing";
  name = codes "requeued";
}

unfoldable pub cancelled_route : Route MailHooksTransition
cancelled_route = record {
  permission = codes "mail:transition:cancelled";
  forbidden = codes "cancelled needs mail:transition:cancelled";
  transition = MailHooksTransition.cancelled;
  field = codes "state";
  value = codes "cancel";
  name = codes "cancelled";
}

abbrev pub routes : List (Route MailHooksTransition)
routes =
    smtp_accepted_route ∷ smtp_failed_route ∷ inbound_acknowledged_route ∷ requeued_route
    ∷ cancelled_route ∷ []

module _ {E W : Type 0} (unicode : ℕ → Text) (state : E → MailState.MailState)
    (get_by_id : Text → W → Result Text (Option E))
    (partial_update : Text → Text → Text → Text → W → W × Result Text (Option E)) where
  abbrev handler : Route MailHooksTransition → Text → Option (List Text) → W → W × Reply E
  handler =
      transition_handler MailHooks.workflow (MailHooks.parse_state unicode) (codes "Mail")
        (λ (e : E). MailState.display (state e)) get_by_id partial_update

  unfoldable pub smtp_accepted_transition : Text → Option (List Text) → W → W × Reply E
  smtp_accepted_transition = handler smtp_accepted_route

  unfoldable pub smtp_failed_transition : Text → Option (List Text) → W → W × Reply E
  smtp_failed_transition = handler smtp_failed_route

  unfoldable pub inbound_acknowledged_transition : Text → Option (List Text) → W → W × Reply E
  inbound_acknowledged_transition = handler inbound_acknowledged_route

  unfoldable pub requeued_transition : Text → Option (List Text) → W → W × Reply E
  requeued_transition = handler requeued_route

  unfoldable pub cancelled_transition : Text → Option (List Text) → W → W × Reply E
  cancelled_transition = handler cancelled_route
