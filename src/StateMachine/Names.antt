-- ===== src/StateMachine/Names.antt =====
-- The `Display` names and `FromStr` of the five machines together.
use backbone_mail.Prelude.{ℕ, ◌≡◌, ◌↔◌, ok}
use backbone_mail.Prelude.Text.{Text, to_lowercase}
use backbone_mail.StateMachine.MailHooks
use backbone_mail.StateMachine.SmsHooks
use backbone_mail.StateMachine.MailNotificationHooks
use backbone_mail.StateMachine.MailPresenceHooks
use backbone_mail.StateMachine.MailActivityTypeHooks

-- In each of the five machines a text is read as a state exactly when its lowercase form is the
-- name that `Display` prints for that state, whatever the Unicode table folds beyond ASCII.
pub parse_state_exact :
    (unicode : ℕ → Text) (t : Text)
    → ((s : MailHooks.MailHooksState)
        → (MailHooks.parse_state unicode t ≡ ok s)
          ↔ (to_lowercase unicode t ≡ MailHooks.state_name s))
      × ((s : SmsHooks.SmsHooksState)
          → (SmsHooks.parse_state unicode t ≡ ok s)
            ↔ (to_lowercase unicode t ≡ SmsHooks.state_name s))
      × ((s : MailNotificationHooks.MailNotificationHooksState)
          → (MailNotificationHooks.parse_state unicode t ≡ ok s)
            ↔ (to_lowercase unicode t ≡ MailNotificationHooks.state_name s))
      × ((s : MailPresenceHooks.MailPresenceHooksState)
          → (MailPresenceHooks.parse_state unicode t ≡ ok s)
            ↔ (to_lowercase unicode t ≡ MailPresenceHooks.state_name s))
      × ((s : MailActivityTypeHooks.MailActivityTypeHooksState)
          → (MailActivityTypeHooks.parse_state unicode t ≡ ok s)
            ↔ (to_lowercase unicode t ≡ MailActivityTypeHooks.state_name s))
parse_state_exact unicode t = (
  MailHooks.Laws.parse_state_iff unicode t,
  SmsHooks.Laws.parse_state_iff unicode t,
  MailNotificationHooks.Laws.parse_state_iff unicode t,
  MailPresenceHooks.Laws.parse_state_iff unicode t,
  MailActivityTypeHooks.Laws.parse_state_iff unicode t,
)
