-- ===== src/Transition/MailNotification.antt =====
-- The transition handlers of src/presentation/http/mail_notification_handler.rs.
use backbone_mail.Prelude.{ℕ, List, [], ◌∷◌, Option, Result}
use backbone_mail.Prelude.Text.{Text, codes}
use backbone_mail.StateMachine.MailNotificationHooks
use backbone_mail.StateMachine.MailNotificationHooks.{MailNotificationHooksTransition}
use backbone_mail.Entity.MailNotificationStatus
use backbone_mail.Transition.{Route, Reply, transition_handler}

unfoldable pub dispatch_started_route : Route MailNotificationHooksTransition
dispatch_started_route = record {
  permission = codes "mail_notification:transition:dispatch_started";
  forbidden = codes "dispatch_started needs mail_notification:transition:dispatch_started";
  transition = MailNotificationHooksTransition.dispatch_started;
  field = codes "notification_status";
  value = codes "process";
  name = codes "dispatch_started";
}

unfoldable pub smtp_accepted_route : Route MailNotificationHooksTransition
smtp_accepted_route = record {
  permission = codes "mail_notification:transition:smtp_accepted";
  forbidden = codes "smtp_accepted needs mail_notification:transition:smtp_accepted";
  transition = MailNotificationHooksTransition.smtp_accepted;
  field = codes "notification_status";
  value = codes "pending";
  name = codes "smtp_accepted";
}

unfoldable pub delivery_confirmed_route : Route MailNotificationHooksTransition
delivery_confirmed_route = record {
  permission = codes "mail_notification:transition:delivery_confirmed";
  forbidden = codes "delivery_confirmed needs mail_notification:transition:delivery_confirmed";
  transition = MailNotificationHooksTransition.delivery_confirmed;
  field = codes "notification_status";
  value = codes "sent";
  name = codes "delivery_confirmed";
}

unfoldable pub instant_delivered_route : Route MailNotificationHooksTransition
instant_delivered_route = record {
  permission = codes "mail_notification:transition:instant_delivered";
  forbidden = codes "instant_delivered needs mail_notification:transition:instant_delivered";
  transition = MailNotificationHooksTransition.instant_delivered;
  field = codes "notification_status";
  value = codes "sent";
  name = codes "instant_delivered";
}

unfoldable pub bounced_route : Route MailNotificationHooksTransition
bounced_route = record {
  permission = codes "mail_notification:transition:bounced";
  forbidden = codes "bounced needs mail_notification:transition:bounced";
  transition = MailNotificationHooksTransition.bounced;
  field = codes "notification_status";
  value = codes "bounce";
  name = codes "bounced";
}

unfoldable pub send_failed_route : Route MailNotificationHooksTransition
send_failed_route = record {
  permission = codes "mail_notification:transition:send_failed";
  forbidden = codes "send_failed needs mail_notification:transition:send_failed";
  transition = MailNotificationHooksTransition.send_failed;
  field = codes "notification_status";
  value = codes "exception";
  name = codes "send_failed";
}

unfoldable pub accepted_unpicked_route : Route MailNotificationHooksTransition
accepted_unpicked_route = record {
  permission = codes "mail_notification:transition:accepted_unpicked";
  forbidden = codes "accepted_unpicked needs mail_notification:transition:accepted_unpicked";
  transition = MailNotificationHooksTransition.accepted_unpicked;
  field = codes "notification_status";
  value = codes "pending";
  name = codes "accepted_unpicked";
}

unfoldable pub delivered_unpicked_route : Route MailNotificationHooksTransition
delivered_unpicked_route = record {
  permission = codes "mail_notification:transition:delivered_unpicked";
  forbidden = codes "delivered_unpicked needs mail_notification:transition:delivered_unpicked";
  transition = MailNotificationHooksTransition.delivered_unpicked;
  field = codes "notification_status";
  value = codes "sent";
  name = codes "delivered_unpicked";
}

unfoldable pub failed_unpicked_route : Route MailNotificationHooksTransition
failed_unpicked_route = record {
  permission = codes "mail_notification:transition:failed_unpicked";
  forbidden = codes "failed_unpicked needs mail_notification:transition:failed_unpicked";
  transition = MailNotificationHooksTransition.failed_unpicked;
  field = codes "notification_status";
  value = codes "exception";
  name = codes "failed_unpicked";
}

unfoldable pub canceled_route : Route MailNotificationHooksTransition
canceled_route = record {
  permission = codes "mail_notification:transition:canceled";
  forbidden = codes "canceled needs mail_notification:transition:canceled";
  transition = MailNotificationHooksTransition.canceled;
  field = codes "notification_status";
  value = codes "canceled";
  name = codes "canceled";
}

abbrev pub routes : List (Route MailNotificationHooksTransition)
routes =
    dispatch_started_route ∷ smtp_accepted_route ∷ delivery_confirmed_route
    ∷ instant_delivered_route ∷ bounced_route ∷ send_failed_route ∷ accepted_unpicked_route
    ∷ delivered_unpicked_route ∷ failed_unpicked_route ∷ canceled_route ∷ []

module _ {E W : Type 0} (unicode : ℕ → Text)
    (notification_status : E → MailNotificationStatus.MailNotificationStatus)
    (get_by_id : Text → W → Result Text (Option E))
    (partial_update : Text → Text → Text → Text → W → W × Result Text (Option E)) where
  abbrev handler :
      Route MailNotificationHooksTransition → Text → Option (List Text) → W → W × Reply E
  handler =
      transition_handler MailNotificationHooks.workflow (MailNotificationHooks.parse_state unicode)
        (codes "MailNotification")
        (λ (e : E). MailNotificationStatus.display (notification_status e)) get_by_id partial_update

  unfoldable pub dispatch_started_transition : Text → Option (List Text) → W → W × Reply E
  dispatch_started_transition = handler dispatch_started_route

  unfoldable pub smtp_accepted_transition : Text → Option (List Text) → W → W × Reply E
  smtp_accepted_transition = handler smtp_accepted_route

  unfoldable pub delivery_confirmed_transition : Text → Option (List Text) → W → W × Reply E
  delivery_confirmed_transition = handler delivery_confirmed_route

  unfoldable pub instant_delivered_transition : Text → Option (List Text) → W → W × Reply E
  instant_delivered_transition = handler instant_delivered_route

  unfoldable pub bounced_transition : Text → Option (List Text) → W → W × Reply E
  bounced_transition = handler bounced_route

  unfoldable pub send_failed_transition : Text → Option (List Text) → W → W × Reply E
  send_failed_transition = handler send_failed_route

  unfoldable pub accepted_unpicked_transition : Text → Option (List Text) → W → W × Reply E
  accepted_unpicked_transition = handler accepted_unpicked_route

  unfoldable pub delivered_unpicked_transition : Text → Option (List Text) → W → W × Reply E
  delivered_unpicked_transition = handler delivered_unpicked_route

  unfoldable pub failed_unpicked_transition : Text → Option (List Text) → W → W × Reply E
  failed_unpicked_transition = handler failed_unpicked_route

  unfoldable pub canceled_transition : Text → Option (List Text) → W → W × Reply E
  canceled_transition = handler canceled_route
