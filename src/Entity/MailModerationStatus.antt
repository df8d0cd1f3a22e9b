-- ===== src/Entity/MailModerationStatus.antt =====
-- src/domain/entity/mail_moderation_status.rs
use backbone_mail.Prelude.{ℕ, if◌then◌else◌, Result, ok, err, ◌++◌}
use backbone_mail.Prelude.Text.{Text, codes, text_eq, to_lowercase}

pub data MailModerationStatus : Type 0 where
  pending accepted rejected_moderation : MailModerationStatus

unfoldable pub display : MailModerationStatus → Text
display MailModerationStatus.pending = codes "pending"
display MailModerationStatus.accepted = codes "accepted"
display MailModerationStatus.rejected_moderation = codes "rejected_moderation"

unfoldable pub from_str : (ℕ → Text) → Text → Result Text MailModerationStatus
from_str unicode s =
    let folded = to_lowercase unicode s in
    if text_eq folded (codes "pending")
    then ok MailModerationStatus.pending
    else if text_eq folded (codes "accepted")
    then ok MailModerationStatus.accepted
    else if text_eq folded (codes "rejected_moderation")
    then ok MailModerationStatus.rejected_moderation
    else err (codes "Unknown MailModerationStatus variant: " ++ s)

unfoldable pub default_value : MailModerationStatus
default_value = MailModerationStatus.pending
