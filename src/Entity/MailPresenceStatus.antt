-- ===== src/Entity/MailPresenceStatus.antt =====
-- src/domain/entity/mail_presence_status.rs
use backbone_mail.Prelude.{ℕ, if◌then◌else◌, Result, ok, err, ◌++◌}
use backbone_mail.Prelude.Text.{Text, codes, text_eq, to_lowercase}

pub data MailPresenceStatus : Type 0 where
  online away offline : MailPresenceStatus

unfoldable pub display : MailPresenceStatus → Text
display MailPresenceStatus.online = codes "online"
display MailPresenceStatus.away = codes "away"
display MailPresenceStatus.offline = codes "offline"

unfoldable pub from_str : (ℕ → Text) → Text → Result Text MailPresenceStatus
from_str unicode s =
    let folded = to_lowercase unicode s in
    if text_eq folded (codes "online")
    then ok MailPresenceStatus.online
    else if text_eq folded (codes "away")
    then ok MailPresenceStatus.away
    else if text_eq folded (codes "offline")
    then ok MailPresenceStatus.offline
    else err (codes "Unknown MailPresenceStatus variant: " ++ s)

unfoldable pub default_value : MailPresenceStatus
default_value = MailPresenceStatus.offline
