-- ===== src/Entity.antt =====
-- The enums of src/domain/entity as the columns keep them: `Display`, `FromStr` and `Default`, and
-- the
-- `transition_to` of the entities that a state machine governs.
pub mod DiscussChannelType
pub mod FetchmailState
pub mod MailActivityCategory
pub mod MailActivityChainingType
pub mod MailActivityDelayFrom
pub mod MailActivityDelayUnit
pub mod MailActivityState
pub mod MailAliasContact
pub mod MailFailureType
pub mod MailMessageType
pub mod MailModerationStatus
pub mod MailNotificationStatus
pub mod MailNotificationType
pub mod MailPresenceStatus
pub mod MailState
pub mod MemberCustomNotifications
pub mod NotificationFailureType
pub mod SidebarFoldState
pub mod SmsFailureType
pub mod SmsState
pub mod SmtpAuthentication
pub mod SmtpEncryption
pub mod Readers
pub mod Exact
mod Scenarios
pub mod TransitionTo
