-- ===== src/Status/Machines.antt =====
-- The generated state machines against the lattice that the database guards.
use backbone_mail.Prelude.{◌≡◌, ◌↔◌, true, false, arith}
use backbone_mail.StateMachine.SmsHooks
use backbone_mail.StateMachine.MailNotificationHooks
use backbone_mail.Status.{notification_guard, sms_guard}

-- Of the legal transitions of the notification machine, the guard refuses exactly one:
-- `smtp_accepted` from `exception`.
pub notification_guard_gap :
    (s : MailNotificationHooks.MailNotificationHooksState)
    (t : MailNotificationHooks.MailNotificationHooksTransition)
    → MailNotificationHooks.can_transition s t ≡ true
    → (notification_guard s (MailNotificationHooks.target_state t) ≡ false) ↔ (
        (s ≡ MailNotificationHooks.MailNotificationHooksState.exception)
        × (t ≡ MailNotificationHooks.MailNotificationHooksTransition.smtp_accepted))
unfolding MailNotificationHooks.can_transition MailNotificationHooks.target_state notification_guard
notification_guard_gap s t h = ground arith

-- Of the legal transitions of the sms machine, an update that does not mint `swept_at` is refused
-- exactly for `stuck_requeued`, and an update that mints it is never refused.
pub sms_guard_gap :
    (s : SmsHooks.SmsHooksState) (t : SmsHooks.SmsHooksTransition)
    → SmsHooks.can_transition s t ≡ true
    → ((sms_guard s (SmsHooks.target_state t) false ≡ false)
        ↔ (t ≡ SmsHooks.SmsHooksTransition.stuck_requeued))
      × (sms_guard s (SmsHooks.target_state t) true ≡ true)
unfolding SmsHooks.can_transition SmsHooks.target_state sms_guard
sms_guard_gap s t h = ground arith
