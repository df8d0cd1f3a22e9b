-- ===== src/Entity/MailFailureType.antt =====
-- src/domain/entity/mail_failure_type.rs
use backbone_mail.Prelude.{ℕ, if◌then◌else◌, Result, ok, err, ◌++◌}
use backbone_mail.Prelude.Text.{Text, codes, text_eq, to_lowercase}

pub data MailFailureType : Type 0 where
  mail_smtp mail_email_invalid mail_bounce mail_blacklist mail_recipient mail_server unknown :
      MailFailureType

unfoldable pub display : MailFailureType → Text
display MailFailureType.mail_smtp = codes "mail_smtp"
display MailFailureType.mail_email_invalid = codes "mail_email_invalid"
display MailFailureType.mail_bounce = codes "mail_bounce"
display MailFailureType.mail_blacklist = codes "mail_blacklist"
display MailFailureType.mail_recipient = codes "mail_recipient"
display MailFailureType.mail_server = codes "mail_server"
display MailFailureType.unknown = codes "unknown"

unfoldable pub from_str : (ℕ → Text) → Text → Result Text MailFailureType
from_str unicode s =
    let folded = to_lowercase unicode s in
    if text_eq folded (codes "mail_smtp")
    then ok MailFailureType.mail_smtp
    else if text_eq folded (codes "mail_email_invalid")
    then ok MailFailureType.mail_email_invalid
    else if text_eq folded (codes "mail_bounce")
    then ok MailFailureType.mail_bounce
    else if text_eq folded (codes "mail_blacklist")
    then ok MailFailureType.mail_blacklist
    else if text_eq folded (codes "mail_recipient")
    then ok MailFailureType.mail_recipient
    else if text_eq folded (codes "mail_server")
    then ok MailFailureType.mail_server
    else if text_eq folded (codes "unknown")
    then ok MailFailureType.unknown
    else err (codes "Unknown MailFailureType variant: " ++ s)

unfoldable pub default_value : MailFailureType
default_value = MailFailureType.unknown
