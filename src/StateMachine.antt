-- ===== src/StateMachine.antt =====
-- The state machines of src/domain/state_machine: the code that the five generated files share
-- (Machine), and each file's own tables.
pub mod Machine
pub mod MailHooks
pub mod SmsHooks
pub mod MailNotificationHooks
pub mod MailPresenceHooks
pub mod MailActivityTypeHooks
pub mod Names
pub mod Finals
mod Scenarios
