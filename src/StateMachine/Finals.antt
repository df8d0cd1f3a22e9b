-- ===== src/StateMachine/Finals.antt =====
-- Which states of the machines can be left.
use backbone_mail.Prelude.{◌≡◌, ◌↔◌, true, false, arith}
use backbone_mail.StateMachine.MailHooks
use backbone_mail.StateMachine.SmsHooks
use backbone_mail.StateMachine.MailNotificationHooks

-- The mail machine has exactly one way out of the states that `is_final` names: `sent` is left by
-- `inbound_acknowledged`. No other transition leaves `sent`, and none leaves another final state.
pub mail_final_exit :
    (s : MailHooks.MailHooksState) (t : MailHooks.MailHooksTransition)
    → MailHooks.is_final s ≡ true
    → (MailHooks.can_transition s t ≡ true) ↔ (
        (s ≡ MailHooks.MailHooksState.sent)
        × (t ≡ MailHooks.MailHooksTransition.inbound_acknowledged))
unfolding MailHooks.is_final MailHooks.can_transition
mail_final_exit s t f = ground arith

-- In the sms and the notification machines no transition at all leaves a final state.
pub final_absorbs :
    ((s : SmsHooks.SmsHooksState) (t : SmsHooks.SmsHooksTransition)
      → SmsHooks.is_final s ≡ true
      → SmsHooks.can_transition s t ≡ false)
    × ((s : MailNotificationHooks.MailNotificationHooksState)
          (t : MailNotificationHooks.MailNotificationHooksTransition)
        → MailNotificationHooks.is_final s ≡ true
        → MailNotificationHooks.can_transition s t ≡ false)
unfolding SmsHooks.is_final SmsHooks.can_transition MailNotificationHooks.is_final
    MailNotificationHooks.can_transition
final_absorbs = (λ s t h. ground arith, λ s t h. ground arith)
