-- ===== src/Entity/MailMessageType.antt =====
-- src/domain/entity/mail_message_type.rs
use backbone_mail.Prelude.{ℕ, if◌then◌else◌, Result, ok, err, ◌++◌}
use backbone_mail.Prelude.Text.{Text, codes, text_eq, to_lowercase}

pub data MailMessageType : Type 0 where
  email comment notification sms : MailMessageType

unfoldable pub display : MailMessageType → Text
display MailMessageType.email = codes "email"
display MailMessageType.comment = codes "comment"
display MailMessageType.notification = codes "notification"
display MailMessageType.sms = codes "sms"

unfoldable pub from_str : (ℕ → Text) → Text → Result Text MailMessageType
from_str unicode s =
    let folded = to_lowercase unicode s in
    if text_eq folded (codes "email")
    then ok MailMessageType.email
    else if text_eq folded (codes "comment")
    then ok MailMessageType.comment
    else if text_eq folded (codes "notification")
    then ok MailMessageType.notification
    else if text_eq folded (codes "sms")
    then ok MailMessageType.sms
    else err (codes "Unknown MailMessageType variant: " ++ s)

unfoldable pub default_value : MailMessageType
default_value = MailMessageType.comment
