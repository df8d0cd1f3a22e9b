-- ===== src/Entity/MailNotificationType.antt =====
-- src/domain/entity/mail_notification_type.rs
use backbone_mail.Prelude.{ℕ, if◌then◌else◌, Result, ok, err, ◌++◌}
use backbone_mail.Prelude.Text.{Text, codes, text_eq, to_lowercase}

pub data MailNotificationType : Type 0 where
  inbox email sms : MailNotificationType

unfoldable pub display : MailNotificationType → Text
display MailNotificationType.inbox = codes "inbox"
display MailNotificationType.email = codes "email"
display MailNotificationType.sms = codes "sms"

unfoldable pub from_str : (ℕ → Text) → Text → Result Text MailNotificationType
from_str unicode s =
    let folded = to_lowercase unicode s in
    if text_eq folded (codes "inbox")
    then ok MailNotificationType.inbox
    else if text_eq folded (codes "email")
    then ok MailNotificationType.email
    else if text_eq folded (codes "sms")
    then ok MailNotificationType.sms
    else err (codes "Unknown MailNotificationType variant: " ++ s)

unfoldable pub default_value : MailNotificationType
default_value = MailNotificationType.email
