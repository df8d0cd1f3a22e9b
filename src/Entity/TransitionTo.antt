-- ===== src/Entity/TransitionTo.antt =====
-- `transition_to` of the entities in src/domain/entity whose column a state machine governs. The
-- method
-- assigns to that column alone, so the column stands for the entity.
pub mod Follows
pub mod Mirror
use backbone_mail.Prelude.{ℕ, Result, ok, err}
use backbone_mail.Prelude.Text.{Text}
use backbone_mail.StateMachine.Machine.{
  StateMachineError, invalid_state, Workflow, transition_to_state,
}
use backbone_mail.StateMachine.MailHooks
use backbone_mail.Entity.MailState
use backbone_mail.StateMachine.SmsHooks
use backbone_mail.Entity.SmsState
use backbone_mail.StateMachine.MailNotificationHooks
use backbone_mail.Entity.MailNotificationStatus
use backbone_mail.StateMachine.MailPresenceHooks
use backbone_mail.Entity.MailPresenceStatus
use backbone_mail.StateMachine.MailActivityTypeHooks
use backbone_mail.Entity.MailActivityChainingType

module _ {S T V : Type 0} (machine : Workflow S T) (parse : Text → Result StateMachineError S)
    (display : V → Text) (from_str : Text → Result Text V) where
  -- the assignment of the parsed name
  abbrev pub assign : V → Result Text V → V × Result StateMachineError (Unit {0})
  assign column (ok v) = (v, ok tt)
  assign column (err e) = (column, err (invalid_state e))

  -- from the result of `transition_to_state` on
  abbrev pub on_moved : V → S → Result StateMachineError S → V × Result StateMachineError (Unit {0})
  on_moved column new_state (err e) = (column, err e)
  on_moved column new_state (ok _) = assign column (from_str (machine.state_name new_state))

  -- from the parsed state on
  abbrev pub on_parsed :
      V → S → Result StateMachineError S → V × Result StateMachineError (Unit {0})
  on_parsed column new_state (err e) = (column, err e)
  on_parsed column new_state (ok current) =
      on_moved column new_state (transition_to_state machine current new_state).1

  unfoldable pub transition_to : V → S → V × Result StateMachineError (Unit {0})
  transition_to column new_state = on_parsed column new_state (parse (display column))

module _ (unicode : ℕ → Text) where
  unfoldable pub mail_transition_to :
      MailState.MailState
      → MailHooks.MailHooksState
      → MailState.MailState × Result StateMachineError (Unit {0})
  unfolding transition_to MailHooks.workflow
  mail_transition_to =
      transition_to MailHooks.workflow (MailHooks.parse_state unicode) MailState.display
        (MailState.from_str unicode)

  unfoldable pub sms_transition_to :
      SmsState.SmsState
      → SmsHooks.SmsHooksState
      → SmsState.SmsState × Result StateMachineError (Unit {0})
  unfolding transition_to SmsHooks.workflow
  sms_transition_to =
      transition_to SmsHooks.workflow (SmsHooks.parse_state unicode) SmsState.display
        (SmsState.from_str unicode)

  unfoldable pub mail_notification_transition_to :
      MailNotificationStatus.MailNotificationStatus
      → MailNotificationHooks.MailNotificationHooksState
      → MailNotificationStatus.MailNotificationStatus × Result StateMachineError (Unit {0})
  unfolding transition_to MailNotificationHooks.workflow
  mail_notification_transition_to =
      transition_to MailNotificationHooks.workflow (MailNotificationHooks.parse_state unicode)
        MailNotificationStatus.display (MailNotificationStatus.from_str unicode)

  unfoldable pub mail_presence_transition_to :
      MailPresenceStatus.MailPresenceStatus
      → MailPresenceHooks.MailPresenceHooksState
      → MailPresenceStatus.MailPresenceStatus × Result StateMachineError (Unit {0})
  unfolding transition_to MailPresenceHooks.workflow
  mail_presence_transition_to =
      transition_to MailPresenceHooks.workflow (MailPresenceHooks.parse_state unicode)
        MailPresenceStatus.display (MailPresenceStatus.from_str unicode)

  unfoldable pub mail_activity_type_transition_to :
      MailActivityChainingType.MailActivityChainingType
      → MailActivityTypeHooks.MailActivityTypeHooksState
      → MailActivityChainingType.MailActivityChainingType × Result StateMachineError (Unit {0})
  unfolding transition_to MailActivityTypeHooks.workflow
  mail_activity_type_transition_to =
      transition_to MailActivityTypeHooks.workflow (MailActivityTypeHooks.parse_state unicode)
        MailActivityChainingType.display (MailActivityChainingType.from_str unicode)
