-- ===== src/Entity/MailNotificationStatus.antt =====
-- src/domain/entity/mail_notification_status.rs
use backbone_mail.Prelude.{ℕ, if◌then◌else◌, Result, ok, err, ◌++◌}
use backbone_mail.Prelude.Text.{Text, codes, text_eq, to_lowercase}

pub data MailNotificationStatus : Type 0 where
  ready process pending sent bounce exception canceled : MailNotificationStatus

unfoldable pub display : MailNotificationStatus → Text
display MailNotificationStatus.ready = codes "ready"
display MailNotificationStatus.process = codes "process"
display MailNotificationStatus.pending = codes "pending"
display MailNotificationStatus.sent = codes "sent"
display MailNotificationStatus.bounce = codes "bounce"
display MailNotificationStatus.exception = codes "exception"
display MailNotificationStatus.canceled = codes "canceled"

unfoldable pub from_str : (ℕ → Text) → Text → Result Text MailNotificationStatus
from_str unicode s =
    let folded = to_lowercase unicode s in
    if text_eq folded (codes "ready")
    then ok MailNotificationStatus.ready
    else if text_eq folded (codes "process")
    then ok MailNotificationStatus.process
    else if text_eq folded (codes "pending")
    then ok MailNotificationStatus.pending
    else if text_eq folded (codes "sent")
    then ok MailNotificationStatus.sent
    else if text_eq folded (codes "bounce")
    then ok MailNotificationStatus.bounce
    else if text_eq folded (codes "exception")
    then ok MailNotificationStatus.exception
    else if text_eq folded (codes "canceled")
    then ok MailNotificationStatus.canceled
    else err (codes "Unknown MailNotificationStatus variant: " ++ s)

unfoldable pub default_value : MailNotificationStatus
default_value = MailNotificationStatus.ready
