-- ===== src/Entity/Exact.antt =====
-- `Display` against `FromStr` for the enums of src/domain/entity.
use backbone_mail.Prelude.{ℕ, arith}
use backbone_mail.Prelude.Text.{Text, codes, text_eq_iff, to_lowercase}
use backbone_mail.Entity.DiscussChannelType
use backbone_mail.Entity.FetchmailState
use backbone_mail.Entity.MailActivityCategory
use backbone_mail.Entity.MailActivityChainingType
use backbone_mail.Entity.MailActivityDelayFrom
use backbone_mail.Entity.MailActivityDelayUnit
use backbone_mail.Entity.MailActivityState
use backbone_mail.Entity.MailAliasContact
use backbone_mail.Entity.MailFailureType
use backbone_mail.Entity.MailMessageType
use backbone_mail.Entity.MailModerationStatus
use backbone_mail.Entity.MailNotificationStatus
use backbone_mail.Entity.MailNotificationType
use backbone_mail.Entity.MailPresenceStatus
use backbone_mail.Entity.MailState
use backbone_mail.Entity.MemberCustomNotifications
use backbone_mail.Entity.NotificationFailureType
use backbone_mail.Entity.SidebarFoldState
use backbone_mail.Entity.SmsFailureType
use backbone_mail.Entity.SmsState
use backbone_mail.Entity.SmtpAuthentication
use backbone_mail.Entity.SmtpEncryption
use backbone_mail.Entity.Readers.{
  IsExact, discuss_channel_type-IsExact, fetchmail_state-IsExact, mail_activity_category-IsExact,
  mail_activity_chaining_type-IsExact, mail_activity_delay_from-IsExact,
  mail_activity_delay_unit-IsExact, mail_activity_state-IsExact, mail_alias_contact-IsExact,
}

mail_failure_type-IsExact :
    (unicode : ℕ → Text) → IsExact unicode MailFailureType.from_str MailFailureType.display
unfolding MailFailureType.from_str MailFailureType.display
mail_failure_type-IsExact unicode t a =
    let folded = to_lowercase unicode t in
    ground (
      arith,
      text_eq_iff folded (codes "mail_smtp"),
      text_eq_iff folded (codes "mail_email_invalid"),
      text_eq_iff folded (codes "mail_bounce"),
      text_eq_iff folded (codes "mail_blacklist"),
      text_eq_iff folded (codes "mail_recipient"),
      text_eq_iff folded (codes "mail_server"),
      text_eq_iff folded (codes "unknown"),
    )

mail_message_type-IsExact :
    (unicode : ℕ → Text) → IsExact unicode MailMessageType.from_str MailMessageType.display
unfolding MailMessageType.from_str MailMessageType.display
mail_message_type-IsExact unicode t a =
    let folded = to_lowercase unicode t in
    ground (
      arith,
      text_eq_iff folded (codes "email"),
      text_eq_iff folded (codes "comment"),
      text_eq_iff folded (codes "notification"),
      text_eq_iff folded (codes "sms"),
    )

mail_moderation_status-IsExact :
    (unicode : ℕ → Text)
    → IsExact unicode MailModerationStatus.from_str MailModerationStatus.display
unfolding MailModerationStatus.from_str MailModerationStatus.display
mail_moderation_status-IsExact unicode t a =
    let folded = to_lowercase unicode t in
    ground (
      arith,
      text_eq_iff folded (codes "pending"),
      text_eq_iff folded (codes "accepted"),
      text_eq_iff folded (codes "rejected_moderation"),
    )

mail_notification_status-IsExact :
    (unicode : ℕ → Text)
    → IsExact unicode MailNotificationStatus.from_str MailNotificationStatus.display
unfolding MailNotificationStatus.from_str MailNotificationStatus.display
mail_notification_status-IsExact unicode t a =
    let folded = to_lowercase unicode t in
    ground (
      arith,
      text_eq_iff folded (codes "ready"),
      text_eq_iff folded (codes "process"),
      text_eq_iff folded (codes "pending"),
      text_eq_iff folded (codes "sent"),
      text_eq_iff folded (codes "bounce"),
      text_eq_iff folded (codes "exception"),
      text_eq_iff folded (codes "canceled"),
    )

mail_notification_type-IsExact :
    (unicode : ℕ → Text)
    → IsExact unicode MailNotificationType.from_str MailNotificationType.display
unfolding MailNotificationType.from_str MailNotificationType.display
mail_notification_type-IsExact unicode t a =
    let folded = to_lowercase unicode t in
    ground (
      arith,
      text_eq_iff folded (codes "inbox"),
      text_eq_iff folded (codes "email"),
      text_eq_iff folded (codes "sms"),
    )

mail_presence_status-IsExact :
    (unicode : ℕ → Text) → IsExact unicode MailPresenceStatus.from_str MailPresenceStatus.display
unfolding MailPresenceStatus.from_str MailPresenceStatus.display
mail_presence_status-IsExact unicode t a =
    let folded = to_lowercase unicode t in
    ground (
      arith,
      text_eq_iff folded (codes "online"),
      text_eq_iff folded (codes "away"),
      text_eq_iff folded (codes "offline"),
    )

mail_state-IsExact : (unicode : ℕ → Text) → IsExact unicode MailState.from_str MailState.display
unfolding MailState.from_str MailState.display
mail_state-IsExact unicode t a =
    let folded = to_lowercase unicode t in
    ground (
      arith,
      text_eq_iff folded (codes "outgoing"),
      text_eq_iff folded (codes "sent"),
      text_eq_iff folded (codes "received"),
      text_eq_iff folded (codes "exception"),
      text_eq_iff folded (codes "cancel"),
    )

member_custom_notifications-IsExact :
    (unicode : ℕ → Text)
    → IsExact unicode MemberCustomNotifications.from_str MemberCustomNotifications.display
unfolding MemberCustomNotifications.from_str MemberCustomNotifications.display
member_custom_notifications-IsExact unicode t a =
    let folded = to_lowercase unicode t in
    ground (
      arith,
      text_eq_iff folded (codes "all"),
      text_eq_iff folded (codes "mentions"),
      text_eq_iff folded (codes "no_notif"),
    )

notification_failure_type-IsExact :
    (unicode : ℕ → Text)
    → IsExact unicode NotificationFailureType.from_str NotificationFailureType.display
unfolding NotificationFailureType.from_str NotificationFailureType.display
notification_failure_type-IsExact unicode t a =
    let folded = to_lowercase unicode t in
    ground (
      arith,
      text_eq_iff folded (codes "mail_smtp"),
      text_eq_iff folded (codes "mail_email_invalid"),
      text_eq_iff folded (codes "mail_bounce"),
      text_eq_iff folded (codes "mail_blacklist"),
      text_eq_iff folded (codes "mail_recipient"),
      text_eq_iff folded (codes "mail_server"),
      text_eq_iff folded (codes "unknown"),
      text_eq_iff folded (codes "sms_number_missing"),
      text_eq_iff folded (codes "sms_number_format"),
      text_eq_iff folded (codes "sms_country_not_supported"),
      text_eq_iff folded (codes "sms_registration_needed"),
      text_eq_iff folded (codes "sms_credit"),
      text_eq_iff folded (codes "sms_server"),
      text_eq_iff folded (codes "sms_acc"),
      text_eq_iff folded (codes "sms_blacklist"),
      text_eq_iff folded (codes "sms_duplicate"),
      text_eq_iff folded (codes "sms_optout"),
      text_eq_iff folded (codes "sms_expired"),
      text_eq_iff folded (codes "sms_invalid_destination"),
      text_eq_iff folded (codes "sms_not_allowed"),
      text_eq_iff folded (codes "sms_not_delivered"),
      text_eq_iff folded (codes "sms_rejected"),
    )

sidebar_fold_state-IsExact :
    (unicode : ℕ → Text) → IsExact unicode SidebarFoldState.from_str SidebarFoldState.display
unfolding SidebarFoldState.from_str SidebarFoldState.display
sidebar_fold_state-IsExact unicode t a =
    let folded = to_lowercase unicode t in
    ground (arith, text_eq_iff folded (codes "open"), text_eq_iff folded (codes "closed"))

sms_failure_type-IsExact :
    (unicode : ℕ → Text) → IsExact unicode SmsFailureType.from_str SmsFailureType.display
unfolding SmsFailureType.from_str SmsFailureType.display
sms_failure_type-IsExact unicode t a =
    let folded = to_lowercase unicode t in
    ground (
      arith,
      text_eq_iff folded (codes "sms_number_missing"),
      text_eq_iff folded (codes "sms_number_format"),
      text_eq_iff folded (codes "sms_country_not_supported"),
      text_eq_iff folded (codes "sms_registration_needed"),
      text_eq_iff folded (codes "sms_credit"),
      text_eq_iff folded (codes "sms_server"),
      text_eq_iff folded (codes "sms_acc"),
      text_eq_iff folded (codes "sms_blacklist"),
      text_eq_iff folded (codes "sms_duplicate"),
      text_eq_iff folded (codes "sms_optout"),
      text_eq_iff folded (codes "unknown"),
    )

sms_state-IsExact : (unicode : ℕ → Text) → IsExact unicode SmsState.from_str SmsState.display
unfolding SmsState.from_str SmsState.display
sms_state-IsExact unicode t a =
    let folded = to_lowercase unicode t in
    ground (
      arith,
      text_eq_iff folded (codes "outgoing"),
      text_eq_iff folded (codes "process"),
      text_eq_iff folded (codes "pending"),
      text_eq_iff folded (codes "sent"),
      text_eq_iff folded (codes "error"),
      text_eq_iff folded (codes "canceled"),
    )

smtp_authentication-IsExact :
    (unicode : ℕ → Text) → IsExact unicode SmtpAuthentication.from_str SmtpAuthentication.display
unfolding SmtpAuthentication.from_str SmtpAuthentication.display
smtp_authentication-IsExact unicode t a =
    let folded = to_lowercase unicode t in
    ground (arith, text_eq_iff folded (codes "login"), text_eq_iff folded (codes "certificate"))

smtp_encryption-IsExact :
    (unicode : ℕ → Text) → IsExact unicode SmtpEncryption.from_str SmtpEncryption.display
unfolding SmtpEncryption.from_str SmtpEncryption.display
smtp_encryption-IsExact unicode t a =
    let folded = to_lowercase unicode t in
    ground (
      arith,
      text_eq_iff folded (codes "none"),
      text_eq_iff folded (codes "starttls"),
      text_eq_iff folded (codes "ssl"),
    )

-- In each of the 22 enums of the columns a text is read as a value exactly when its lowercase form
-- is what the value prints as, whatever the Unicode table folds beyond ASCII.
pub enums-IsExact :
    (unicode : ℕ → Text)
    → IsExact unicode DiscussChannelType.from_str DiscussChannelType.display
      × IsExact unicode FetchmailState.from_str FetchmailState.display
      × IsExact unicode MailActivityCategory.from_str MailActivityCategory.display
      × IsExact unicode MailActivityChainingType.from_str MailActivityChainingType.display
      × IsExact unicode MailActivityDelayFrom.from_str MailActivityDelayFrom.display
      × IsExact unicode MailActivityDelayUnit.from_str MailActivityDelayUnit.display
      × IsExact unicode MailActivityState.from_str MailActivityState.display
      × IsExact unicode MailAliasContact.from_str MailAliasContact.display
      × IsExact unicode MailFailureType.from_str MailFailureType.display
      × IsExact unicode MailMessageType.from_str MailMessageType.display
      × IsExact unicode MailModerationStatus.from_str MailModerationStatus.display
      × IsExact unicode MailNotificationStatus.from_str MailNotificationStatus.display
      × IsExact unicode MailNotificationType.from_str MailNotificationType.display
      × IsExact unicode MailPresenceStatus.from_str MailPresenceStatus.display
      × IsExact unicode MailState.from_str MailState.display
      × IsExact unicode MemberCustomNotifications.from_str MemberCustomNotifications.display
      × IsExact unicode NotificationFailureType.from_str NotificationFailureType.display
      × IsExact unicode SidebarFoldState.from_str SidebarFoldState.display
      × IsExact unicode SmsFailureType.from_str SmsFailureType.display
      × IsExact unicode SmsState.from_str SmsState.display
      × IsExact unicode SmtpAuthentication.from_str SmtpAuthentication.display
      × IsExact unicode SmtpEncryption.from_str SmtpEncryption.display
enums-IsExact unicode = (
  discuss_channel_type-IsExact unicode,
  fetchmail_state-IsExact unicode,
  mail_activity_category-IsExact unicode,
  mail_activity_chaining_type-IsExact unicode,
  mail_activity_delay_from-IsExact unicode,
  mail_activity_delay_unit-IsExact unicode,
  mail_activity_state-IsExact unicode,
  mail_alias_contact-IsExact unicode,
  mail_failure_type-IsExact unicode,
  mail_message_type-IsExact unicode,
  mail_moderation_status-IsExact unicode,
  mail_notification_status-IsExact unicode,
  mail_notification_type-IsExact unicode,
  mail_presence_status-IsExact unicode,
  mail_state-IsExact unicode,
  member_custom_notifications-IsExact unicode,
  notification_failure_type-IsExact unicode,
  sidebar_fold_state-IsExact unicode,
  sms_failure_type-IsExact unicode,
  sms_state-IsExact unicode,
  smtp_authentication-IsExact unicode,
  smtp_encryption-IsExact unicode,
)
