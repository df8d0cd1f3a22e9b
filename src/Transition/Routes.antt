-- ===== src/Transition/Routes.antt =====
-- The names in the transition handlers against the tables of the machines.
use backbone_mail.Prelude.{ℕ, ◌≡◌, refl, ◌++◌, All, Result, ok}
use backbone_mail.Prelude.Text.{Text, codes, text_eq, to_lowercase}
use backbone_mail.StateMachine.Machine.{StateMachineError, Workflow}
use backbone_mail.StateMachine.MailHooks
use backbone_mail.StateMachine.SmsHooks
use backbone_mail.StateMachine.MailNotificationHooks
use backbone_mail.StateMachine.MailPresenceHooks
use backbone_mail.StateMachine.MailActivityTypeHooks
use backbone_mail.Entity.MailState
use backbone_mail.Entity.SmsState
use backbone_mail.Entity.MailNotificationStatus
use backbone_mail.Entity.MailPresenceStatus
use backbone_mail.Entity.MailActivityChainingType
use backbone_mail.Transition.{Route}
use backbone_mail.Transition.Mail
use backbone_mail.Transition.Sms
use backbone_mail.Transition.MailNotification
use backbone_mail.Transition.MailPresence
use backbone_mail.Transition.MailActivityType

-- A handler writes the value that its machine and its column read as the target of its transition,
-- and
-- asks for the permission of that name on its entity.
abbrev pub Agrees :
    {S T V : Type 0}
    → Workflow S T
    → (Text → Result StateMachineError S)
    → (Text → Result Text V)
    → (V → Text)
    → Text
    → Route T
    → Type 0
Agrees {V} machine parse from_str display entity route =
    (parse route.value ≡ ok (machine.target route.transition))
    × ((v : V) × (from_str route.value ≡ ok v) × (display v ≡ route.value))
    × (route.name ≡ machine.transition_name route.transition)
    × (route.permission ≡ entity ++ (codes ":transition:" ++ route.name))
    × (route.forbidden ≡ route.name ++ (codes " needs " ++ route.permission))

module _ (unicode : ℕ → Text) where
  mail_routes :
      All
        (Agrees MailHooks.workflow
          (MailHooks.parse_state unicode)
          (MailState.from_str unicode)
          MailState.display
          (codes "mail"))
        Mail.routes
  unfolding MailHooks.parse_state MailHooks.workflow MailHooks.target_state
      MailHooks.transition_name MailState.from_str MailState.display Mail.smtp_accepted_route
      Mail.smtp_failed_route Mail.inbound_acknowledged_route Mail.requeued_route
      Mail.cancelled_route to_lowercase text_eq
  mail_routes = (
    (refl, (MailState.MailState.sent, refl, refl), refl, refl, refl),
    (
      (refl, (MailState.MailState.exception, refl, refl), refl, refl, refl),
      (
        (refl, (MailState.MailState.received, refl, refl), refl, refl, refl),
        (
          (refl, (MailState.MailState.outgoing, refl, refl), refl, refl, refl),
          ((refl, (MailState.MailState.cancel, refl, refl), refl, refl, refl), tt),
        ),
      ),
    ),
  )

  sms_routes :
      All
        (Agrees SmsHooks.workflow
          (SmsHooks.parse_state unicode)
          (SmsState.from_str unicode)
          SmsState.display
          (codes "sms"))
        Sms.routes
  unfolding SmsHooks.parse_state SmsHooks.workflow SmsHooks.target_state SmsHooks.transition_name
      SmsState.from_str SmsState.display Sms.pickup_route Sms.iap_accepted_route
      Sms.delivery_confirmed_route Sms.send_failed_route Sms.stuck_requeued_route Sms.canceled_route
      to_lowercase text_eq
  sms_routes = (
    (refl, (SmsState.SmsState.process, refl, refl), refl, refl, refl),
    (
      (refl, (SmsState.SmsState.pending, refl, refl), refl, refl, refl),
      (
        (refl, (SmsState.SmsState.sent, refl, refl), refl, refl, refl),
        (
          (refl, (SmsState.SmsState.error, refl, refl), refl, refl, refl),
          (
            (refl, (SmsState.SmsState.outgoing, refl, refl), refl, refl, refl),
            ((refl, (SmsState.SmsState.canceled, refl, refl), refl, refl, refl), tt),
          ),
        ),
      ),
    ),
  )

  mail_notification_routes :
      All
        (Agrees MailNotificationHooks.workflow
          (MailNotificationHooks.parse_state unicode)
          (MailNotificationStatus.from_str unicode)
          MailNotificationStatus.display
          (codes "mail_notification"))
        MailNotification.routes
  unfolding MailNotificationHooks.parse_state MailNotificationHooks.workflow
      MailNotificationHooks.target_state MailNotificationHooks.transition_name
      MailNotificationStatus.from_str MailNotificationStatus.display
      MailNotification.dispatch_started_route MailNotification.smtp_accepted_route
      MailNotification.delivery_confirmed_route MailNotification.instant_delivered_route
      MailNotification.bounced_route MailNotification.send_failed_route
      MailNotification.accepted_unpicked_route MailNotification.delivered_unpicked_route
      MailNotification.failed_unpicked_route MailNotification.canceled_route to_lowercase text_eq
  mail_notification_routes = (
    (refl, (MailNotificationStatus.MailNotificationStatus.process, refl, refl), refl, refl, refl),
    (
      (refl, (MailNotificationStatus.MailNotificationStatus.pending, refl, refl), refl, refl, refl),
      (
        (refl, (MailNotificationStatus.MailNotificationStatus.sent, refl, refl), refl, refl, refl),
        (
          (
            refl,
            (MailNotificationStatus.MailNotificationStatus.sent, refl, refl),
            refl,
            refl,
            refl,
          ),
          (
            (
              refl,
              (MailNotificationStatus.MailNotificationStatus.bounce, refl, refl),
              refl,
              refl,
              refl,
            ),
            (
              (
                refl,
                (MailNotificationStatus.MailNotificationStatus.exception, refl, refl),
                refl,
                refl,
                refl,
              ),
              (
                (
                  refl,
                  (MailNotificationStatus.MailNotificationStatus.pending, refl, refl),
                  refl,
                  refl,
                  refl,
                ),
                (
                  (
                    refl,
                    (MailNotificationStatus.MailNotificationStatus.sent, refl, refl),
                    refl,
                    refl,
                    refl,
                  ),
                  (
                    (
                      refl,
                      (MailNotificationStatus.MailNotificationStatus.exception, refl, refl),
                      refl,
                      refl,
                      refl,
                    ),
                    (
                      (
                        refl,
                        (MailNotificationStatus.MailNotificationStatus.canceled, refl, refl),
                        refl,
                        refl,
                        refl,
                      ),
                      tt,
                    ),
                  ),
                ),
              ),
            ),
          ),
        ),
      ),
    ),
  )

  mail_presence_routes :
      All
        (Agrees MailPresenceHooks.workflow
          (MailPresenceHooks.parse_state unicode)
          (MailPresenceStatus.from_str unicode)
          MailPresenceStatus.display
          (codes "mail_presence"))
        MailPresence.routes
  unfolding MailPresenceHooks.parse_state MailPresenceHooks.workflow MailPresenceHooks.target_state
      MailPresenceHooks.transition_name MailPresenceStatus.from_str MailPresenceStatus.display
      MailPresence.go_online_route MailPresence.go_away_route MailPresence.go_offline_route
      to_lowercase text_eq
  mail_presence_routes = (
    (refl, (MailPresenceStatus.MailPresenceStatus.online, refl, refl), refl, refl, refl),
    (
      (refl, (MailPresenceStatus.MailPresenceStatus.away, refl, refl), refl, refl, refl),
      ((refl, (MailPresenceStatus.MailPresenceStatus.offline, refl, refl), refl, refl, refl), tt),
    ),
  )

  mail_activity_type_routes :
      All
        (Agrees MailActivityTypeHooks.workflow
          (MailActivityTypeHooks.parse_state unicode)
          (MailActivityChainingType.from_str unicode)
          MailActivityChainingType.display
          (codes "mail_activity_type"))
        MailActivityType.routes
  unfolding MailActivityTypeHooks.parse_state MailActivityTypeHooks.workflow
      MailActivityTypeHooks.target_state MailActivityTypeHooks.transition_name
      MailActivityChainingType.from_str MailActivityChainingType.display
      MailActivityType.enable_trigger_route to_lowercase text_eq
  mail_activity_type_routes = (
    (
      refl,
      (MailActivityChainingType.MailActivityChainingType.trigger, refl, refl),
      refl,
      refl,
      refl,
    ),
    tt,
  )

  -- Every one of the 25 transition handlers writes the value that both its state machine and its
  -- column's enum read, and for the machine it is the target of the transition; it names the
  -- transition as the machine does, asks for the permission spelled from the entity and that name,
  -- and says so in its refusal.
  pub routes_agree :
      All
        (Agrees MailHooks.workflow
          (MailHooks.parse_state unicode)
          (MailState.from_str unicode)
          MailState.display
          (codes "mail"))
        Mail.routes
      × All
          (Agrees SmsHooks.workflow
            (SmsHooks.parse_state unicode)
            (SmsState.from_str unicode)
            SmsState.display
            (codes "sms"))
          Sms.routes
      × All
          (Agrees MailNotificationHooks.workflow
            (MailNotificationHooks.parse_state unicode)
            (MailNotificationStatus.from_str unicode)
            MailNotificationStatus.display
            (codes "mail_notification"))
          MailNotification.routes
      × All
          (Agrees MailPresenceHooks.workflow
            (MailPresenceHooks.parse_state unicode)
            (MailPresenceStatus.from_str unicode)
            MailPresenceStatus.display
            (codes "mail_presence"))
          MailPresence.routes
      × All
          (Agrees MailActivityTypeHooks.workflow
            (MailActivityTypeHooks.parse_state unicode)
            (MailActivityChainingType.from_str unicode)
            MailActivityChainingType.display
            (codes "mail_activity_type"))
          MailActivityType.routes
  routes_agree = (
    mail_routes, sms_routes, mail_notification_routes, mail_presence_routes,
    mail_activity_type_routes,
  )
