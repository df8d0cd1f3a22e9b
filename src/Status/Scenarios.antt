-- ===== src/Status/Scenarios.antt =====
-- Runs of the status lattice, with the theorems at them.
use backbone_mail.Prelude.{◌≡◌, refl, err, ◌↔◌, true, false, [], ◌∷◌, Option, none, some, arith}
use backbone_mail.Prelude.Text.{Text}
use mathlib.Core.List.Perm
use backbone_mail.StateMachine.MailNotificationHooks
use backbone_mail.StateMachine.MailNotificationHooks.{
  MailNotificationHooksState, MailNotificationHooksTransition,
}
use backbone_mail.StateMachine.SmsHooks
use backbone_mail.StateMachine.SmsHooks.{SmsHooksState, SmsHooksTransition}
use backbone_mail.Store.{NotificationRow, NotificationChannel}
use backbone_mail.Status.{
  check_violation, notification_rank, notification_guard, sms_guard, advance_row,
}
use backbone_mail.Status.Lattice.{IsRefused, advance_all, advance_all-perm, advance_row_exact}
use backbone_mail.Status.Machines.{notification_guard_gap, sms_guard_gap}

abbrev fresh : NotificationRow
fresh = record {
  id = 1;
  mail_message_id = 2;
  res_partner_id = some 3;
  notification_type = NotificationChannel.email;
  notification_status = MailNotificationHooksState.ready;
  failure_type = none;
  failure_reason = none;
  mail_mail_id_int = some 4;
}

abbrev bounced : NotificationRow
bounced = record fresh { notification_status = MailNotificationHooksState.bounce }

abbrev Verdict : Type 0
Verdict = MailNotificationHooksState × Option Text × Option Text

abbrev to_pending : Verdict
to_pending = (MailNotificationHooksState.pending, none, none)

abbrev to_sent : Verdict
to_sent = (MailNotificationHooksState.sent, none, none)

advance_all-perm_example :
    (advance_all (to_pending ∷ to_sent ∷ []) fresh).notification_status
    ≡ (advance_all (to_sent ∷ to_pending ∷ []) fresh).notification_status
unfolding advance_all notification_rank
advance_all-perm_example =
    advance_all-perm (to_pending ∷ to_sent ∷ []) (to_sent ∷ to_pending ∷ []) fresh
      (Perm.swap to_sent to_pending []) (omega arith, (omega arith, tt))

abbrev already_sent : NotificationRow
already_sent = record fresh { notification_status = MailNotificationHooksState.sent }

-- A failure that is reported after the delivery.
advance_row_exact_example :
    (advance_row MailNotificationHooksState.exception none none already_sent ≡ err check_violation)
    ↔ IsRefused MailNotificationHooksState.sent MailNotificationHooksState.exception
advance_row_exact_example =
    (advance_row_exact MailNotificationHooksState.exception none none already_sent).1

notification_guard_gap_example :
    (notification_guard MailNotificationHooksState.exception
        (MailNotificationHooks.target_state MailNotificationHooksTransition.smtp_accepted)
      ≡ false)
    ↔ ((MailNotificationHooksState.exception ≡ MailNotificationHooksState.exception)
        × (MailNotificationHooksTransition.smtp_accepted
            ≡ MailNotificationHooksTransition.smtp_accepted))
unfolding MailNotificationHooks.can_transition
notification_guard_gap_example =
    notification_guard_gap MailNotificationHooksState.exception
      MailNotificationHooksTransition.smtp_accepted refl

sms_guard_gap_example :
    ((sms_guard SmsHooksState.process
          (SmsHooks.target_state SmsHooksTransition.stuck_requeued)
          false
        ≡ false)
      ↔ (SmsHooksTransition.stuck_requeued ≡ SmsHooksTransition.stuck_requeued))
    × (sms_guard SmsHooksState.process
          (SmsHooks.target_state SmsHooksTransition.stuck_requeued)
          true
        ≡ true)
unfolding SmsHooks.can_transition
sms_guard_gap_example = sms_guard_gap SmsHooksState.process SmsHooksTransition.stuck_requeued refl
