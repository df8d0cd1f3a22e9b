-- ===== src/Entity/TransitionTo/Mirror.antt =====
-- The column of an entity against the machine that governs it.
use backbone_mail.Prelude.{ℕ, ◌≡◌, refl, ok}
use backbone_mail.Prelude.Text.{Text, text_eq, to_lowercase}
use backbone_mail.Entity.TransitionTo.{
  mail_transition_to, sms_transition_to, mail_notification_transition_to,
  mail_presence_transition_to, mail_activity_type_transition_to,
}
use backbone_mail.StateMachine.MailHooks
use backbone_mail.Entity.MailState
use backbone_mail.StateMachine.SmsHooks
use backbone_mail.Entity.SmsState
use backbone_mail.StateMachine.MailNotificationHooks
use backbone_mail.Entity.MailNotificationStatus
use backbone_mail.StateMachine.MailPresenceHooks
use backbone_mail.Entity.MailPresenceStatus
use backbone_mail.StateMachine.MailActivityTypeHooks
use backbone_mail.Entity.MailActivityChainingType
use backbone_mail.Entity.TransitionTo.Follows.{IsMirror, Follows, transition_to_lem}

module _ (unicode : ℕ → Text) where
  module _ where
    mail_reads :
        (v : MailState.MailState)
        → (s : MailHooks.MailHooksState) × (MailHooks.parse_state unicode (MailState.display v)
            ≡ ok s)
    unfolding MailHooks.parse_state MailState.display to_lowercase text_eq
    mail_reads MailState.MailState.outgoing = (MailHooks.MailHooksState.outgoing, refl)
    mail_reads MailState.MailState.sent = (MailHooks.MailHooksState.sent, refl)
    mail_reads MailState.MailState.received = (MailHooks.MailHooksState.received, refl)
    mail_reads MailState.MailState.exception = (MailHooks.MailHooksState.exception, refl)
    mail_reads MailState.MailState.cancel = (MailHooks.MailHooksState.cancel, refl)

    mail_writes :
        (s : MailHooks.MailHooksState)
        → (v : MailState.MailState) × (MailState.from_str unicode (MailHooks.state_name s) ≡ ok v)
          × (MailState.display v ≡ MailHooks.state_name s)
    unfolding MailHooks.state_name MailState.from_str MailState.display to_lowercase text_eq
    mail_writes MailHooks.MailHooksState.outgoing = (MailState.MailState.outgoing, refl, refl)
    mail_writes MailHooks.MailHooksState.sent = (MailState.MailState.sent, refl, refl)
    mail_writes MailHooks.MailHooksState.received = (MailState.MailState.received, refl, refl)
    mail_writes MailHooks.MailHooksState.exception = (MailState.MailState.exception, refl, refl)
    mail_writes MailHooks.MailHooksState.cancel = (MailState.MailState.cancel, refl, refl)

    mail-IsMirror :
        IsMirror MailHooks.workflow
          (MailHooks.parse_state unicode)
          MailState.display
          (MailState.from_str unicode)
    unfolding MailHooks.workflow
    mail-IsMirror = record { reads = mail_reads; writes = mail_writes }

  module _ where
    sms_reads :
        (v : SmsState.SmsState)
        → (s : SmsHooks.SmsHooksState) × (SmsHooks.parse_state unicode (SmsState.display v) ≡ ok s)
    unfolding SmsHooks.parse_state SmsState.display to_lowercase text_eq
    sms_reads SmsState.SmsState.outgoing = (SmsHooks.SmsHooksState.outgoing, refl)
    sms_reads SmsState.SmsState.process = (SmsHooks.SmsHooksState.process, refl)
    sms_reads SmsState.SmsState.pending = (SmsHooks.SmsHooksState.pending, refl)
    sms_reads SmsState.SmsState.sent = (SmsHooks.SmsHooksState.sent, refl)
    sms_reads SmsState.SmsState.error = (SmsHooks.SmsHooksState.error, refl)
    sms_reads SmsState.SmsState.canceled = (SmsHooks.SmsHooksState.canceled, refl)

    sms_writes :
        (s : SmsHooks.SmsHooksState)
        → (v : SmsState.SmsState) × (SmsState.from_str unicode (SmsHooks.state_name s) ≡ ok v)
          × (SmsState.display v ≡ SmsHooks.state_name s)
    unfolding SmsHooks.state_name SmsState.from_str SmsState.display to_lowercase text_eq
    sms_writes SmsHooks.SmsHooksState.outgoing = (SmsState.SmsState.outgoing, refl, refl)
    sms_writes SmsHooks.SmsHooksState.process = (SmsState.SmsState.process, refl, refl)
    sms_writes SmsHooks.SmsHooksState.pending = (SmsState.SmsState.pending, refl, refl)
    sms_writes SmsHooks.SmsHooksState.sent = (SmsState.SmsState.sent, refl, refl)
    sms_writes SmsHooks.SmsHooksState.error = (SmsState.SmsState.error, refl, refl)
    sms_writes SmsHooks.SmsHooksState.canceled = (SmsState.SmsState.canceled, refl, refl)

    sms-IsMirror :
        IsMirror SmsHooks.workflow
          (SmsHooks.parse_state unicode)
          SmsState.display
          (SmsState.from_str unicode)
    unfolding SmsHooks.workflow
    sms-IsMirror = record { reads = sms_reads; writes = sms_writes }

  module _ where
    mail_notification_reads :
        (v : MailNotificationStatus.MailNotificationStatus)
        → (s : MailNotificationHooks.MailNotificationHooksState)
          × (MailNotificationHooks.parse_state unicode (MailNotificationStatus.display v) ≡ ok s)
    unfolding MailNotificationHooks.parse_state MailNotificationStatus.display to_lowercase text_eq
    mail_notification_reads MailNotificationStatus.MailNotificationStatus.ready =
        (MailNotificationHooks.MailNotificationHooksState.ready, refl)
    mail_notification_reads MailNotificationStatus.MailNotificationStatus.process =
        (MailNotificationHooks.MailNotificationHooksState.process, refl)
    mail_notification_reads MailNotificationStatus.MailNotificationStatus.pending =
        (MailNotificationHooks.MailNotificationHooksState.pending, refl)
    mail_notification_reads MailNotificationStatus.MailNotificationStatus.sent =
        (MailNotificationHooks.MailNotificationHooksState.sent, refl)
    mail_notification_reads MailNotificationStatus.MailNotificationStatus.bounce =
        (MailNotificationHooks.MailNotificationHooksState.bounce, refl)
    mail_notification_reads MailNotificationStatus.MailNotificationStatus.exception =
        (MailNotificationHooks.MailNotificationHooksState.exception, refl)
    mail_notification_reads MailNotificationStatus.MailNotificationStatus.canceled =
        (MailNotificationHooks.MailNotificationHooksState.canceled, refl)

    mail_notification_writes :
        (s : MailNotificationHooks.MailNotificationHooksState)
        → (v : MailNotificationStatus.MailNotificationStatus) × (MailNotificationStatus.from_str
              unicode
              (MailNotificationHooks.state_name s)
            ≡ ok v)
          × (MailNotificationStatus.display v ≡ MailNotificationHooks.state_name s)
    unfolding MailNotificationHooks.state_name MailNotificationStatus.from_str
        MailNotificationStatus.display to_lowercase text_eq
    mail_notification_writes MailNotificationHooks.MailNotificationHooksState.ready =
        (MailNotificationStatus.MailNotificationStatus.ready, refl, refl)
    mail_notification_writes MailNotificationHooks.MailNotificationHooksState.process =
        (MailNotificationStatus.MailNotificationStatus.process, refl, refl)
    mail_notification_writes MailNotificationHooks.MailNotificationHooksState.pending =
        (MailNotificationStatus.MailNotificationStatus.pending, refl, refl)
    mail_notification_writes MailNotificationHooks.MailNotificationHooksState.sent =
        (MailNotificationStatus.MailNotificationStatus.sent, refl, refl)
    mail_notification_writes MailNotificationHooks.MailNotificationHooksState.bounce =
        (MailNotificationStatus.MailNotificationStatus.bounce, refl, refl)
    mail_notification_writes MailNotificationHooks.MailNotificationHooksState.exception =
        (MailNotificationStatus.MailNotificationStatus.exception, refl, refl)
    mail_notification_writes MailNotificationHooks.MailNotificationHooksState.canceled =
        (MailNotificationStatus.MailNotificationStatus.canceled, refl, refl)

    mail_notification-IsMirror :
        IsMirror MailNotificationHooks.workflow
          (MailNotificationHooks.parse_state unicode)
          MailNotificationStatus.display
          (MailNotificationStatus.from_str unicode)
    unfolding MailNotificationHooks.workflow
    mail_notification-IsMirror = record {
      reads = mail_notification_reads;
      writes = mail_notification_writes;
    }

  module _ where
    mail_presence_reads :
        (v : MailPresenceStatus.MailPresenceStatus)
        → (s : MailPresenceHooks.MailPresenceHooksState) × (MailPresenceHooks.parse_state unicode
              (MailPresenceStatus.display v)
            ≡ ok s)
    unfolding MailPresenceHooks.parse_state MailPresenceStatus.display to_lowercase text_eq
    mail_presence_reads MailPresenceStatus.MailPresenceStatus.online =
        (MailPresenceHooks.MailPresenceHooksState.online, refl)
    mail_presence_reads MailPresenceStatus.MailPresenceStatus.away =
        (MailPresenceHooks.MailPresenceHooksState.away, refl)
    mail_presence_reads MailPresenceStatus.MailPresenceStatus.offline =
        (MailPresenceHooks.MailPresenceHooksState.offline, refl)

    mail_presence_writes :
        (s : MailPresenceHooks.MailPresenceHooksState)
        → (v : MailPresenceStatus.MailPresenceStatus) × (MailPresenceStatus.from_str unicode
              (MailPresenceHooks.state_name s)
            ≡ ok v)
          × (MailPresenceStatus.display v ≡ MailPresenceHooks.state_name s)
    unfolding MailPresenceHooks.state_name MailPresenceStatus.from_str MailPresenceStatus.display
        to_lowercase text_eq
    mail_presence_writes MailPresenceHooks.MailPresenceHooksState.online =
        (MailPresenceStatus.MailPresenceStatus.online, refl, refl)
    mail_presence_writes MailPresenceHooks.MailPresenceHooksState.away =
        (MailPresenceStatus.MailPresenceStatus.away, refl, refl)
    mail_presence_writes MailPresenceHooks.MailPresenceHooksState.offline =
        (MailPresenceStatus.MailPresenceStatus.offline, refl, refl)

    mail_presence-IsMirror :
        IsMirror MailPresenceHooks.workflow
          (MailPresenceHooks.parse_state unicode)
          MailPresenceStatus.display
          (MailPresenceStatus.from_str unicode)
    unfolding MailPresenceHooks.workflow
    mail_presence-IsMirror = record { reads = mail_presence_reads; writes = mail_presence_writes }

  module _ where
    mail_activity_type_reads :
        (v : MailActivityChainingType.MailActivityChainingType)
        → (s : MailActivityTypeHooks.MailActivityTypeHooksState)
          × (MailActivityTypeHooks.parse_state unicode (MailActivityChainingType.display v) ≡ ok s)
    unfolding MailActivityTypeHooks.parse_state MailActivityChainingType.display to_lowercase
        text_eq
    mail_activity_type_reads MailActivityChainingType.MailActivityChainingType.suggest =
        (MailActivityTypeHooks.MailActivityTypeHooksState.suggest, refl)
    mail_activity_type_reads MailActivityChainingType.MailActivityChainingType.trigger =
        (MailActivityTypeHooks.MailActivityTypeHooksState.trigger, refl)

    mail_activity_type_writes :
        (s : MailActivityTypeHooks.MailActivityTypeHooksState)
        → (v : MailActivityChainingType.MailActivityChainingType)
          × (MailActivityChainingType.from_str unicode (MailActivityTypeHooks.state_name s) ≡ ok v)
          × (MailActivityChainingType.display v ≡ MailActivityTypeHooks.state_name s)
    unfolding MailActivityTypeHooks.state_name MailActivityChainingType.from_str
        MailActivityChainingType.display to_lowercase text_eq
    mail_activity_type_writes MailActivityTypeHooks.MailActivityTypeHooksState.suggest =
        (MailActivityChainingType.MailActivityChainingType.suggest, refl, refl)
    mail_activity_type_writes MailActivityTypeHooks.MailActivityTypeHooksState.trigger =
        (MailActivityChainingType.MailActivityChainingType.trigger, refl, refl)

    mail_activity_type-IsMirror :
        IsMirror MailActivityTypeHooks.workflow
          (MailActivityTypeHooks.parse_state unicode)
          MailActivityChainingType.display
          (MailActivityChainingType.from_str unicode)
    unfolding MailActivityTypeHooks.workflow
    mail_activity_type-IsMirror = record {
      reads = mail_activity_type_reads;
      writes = mail_activity_type_writes;
    }

  -- In each of the five entities `transition_to` follows the machine: either the machine moves from
  -- the state that the column holds to the new one and the column becomes the value that prints as
  -- it, or the machine refuses, and the column stays and the machine's error is returned. No column
  -- value fails to parse as a state.
  pub columns_follow :
      ((v : MailState.MailState) (goal : MailHooks.MailHooksState)
        → Follows MailHooks.workflow
            (MailHooks.parse_state unicode)
            MailState.display
            (MailState.from_str unicode)
            (mail_transition_to unicode)
            v
            goal)
      × ((v : SmsState.SmsState) (goal : SmsHooks.SmsHooksState)
          → Follows SmsHooks.workflow
              (SmsHooks.parse_state unicode)
              SmsState.display
              (SmsState.from_str unicode)
              (sms_transition_to unicode)
              v
              goal)
      × ((v : MailNotificationStatus.MailNotificationStatus)
            (goal : MailNotificationHooks.MailNotificationHooksState)
          → Follows MailNotificationHooks.workflow
              (MailNotificationHooks.parse_state unicode)
              MailNotificationStatus.display
              (MailNotificationStatus.from_str unicode)
              (mail_notification_transition_to unicode)
              v
              goal)
      × ((v : MailPresenceStatus.MailPresenceStatus)
            (goal : MailPresenceHooks.MailPresenceHooksState)
          → Follows MailPresenceHooks.workflow
              (MailPresenceHooks.parse_state unicode)
              MailPresenceStatus.display
              (MailPresenceStatus.from_str unicode)
              (mail_presence_transition_to unicode)
              v
              goal)
      × ((v : MailActivityChainingType.MailActivityChainingType)
            (goal : MailActivityTypeHooks.MailActivityTypeHooksState)
          → Follows MailActivityTypeHooks.workflow
              (MailActivityTypeHooks.parse_state unicode)
              MailActivityChainingType.display
              (MailActivityChainingType.from_str unicode)
              (mail_activity_type_transition_to unicode)
              v
              goal)
  unfolding mail_transition_to sms_transition_to mail_notification_transition_to
      mail_presence_transition_to mail_activity_type_transition_to
  columns_follow = (
    transition_to_lem MailHooks.workflow (MailHooks.parse_state unicode) MailState.display
        (MailState.from_str unicode) MailHooks.Laws.workflow-IsComplete mail-IsMirror,
    transition_to_lem SmsHooks.workflow (SmsHooks.parse_state unicode) SmsState.display
        (SmsState.from_str unicode) SmsHooks.Laws.workflow-IsComplete sms-IsMirror,
    transition_to_lem MailNotificationHooks.workflow (MailNotificationHooks.parse_state unicode)
        MailNotificationStatus.display (MailNotificationStatus.from_str unicode)
        MailNotificationHooks.Laws.workflow-IsComplete mail_notification-IsMirror,
    transition_to_lem MailPresenceHooks.workflow (MailPresenceHooks.parse_state unicode)
        MailPresenceStatus.display (MailPresenceStatus.from_str unicode)
        MailPresenceHooks.Laws.workflow-IsComplete mail_presence-IsMirror,
    transition_to_lem MailActivityTypeHooks.workflow (MailActivityTypeHooks.parse_state unicode)
        MailActivityChainingType.display (MailActivityChainingType.from_str unicode)
        MailActivityTypeHooks.Laws.workflow-IsComplete mail_activity_type-IsMirror,
  )
