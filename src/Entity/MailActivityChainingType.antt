-- ===== src/Entity/MailActivityChainingType.antt =====
-- src/domain/entity/mail_activity_chaining_type.rs
use backbone_mail.Prelude.{ℕ, if◌then◌else◌, Result, ok, err, ◌++◌}
use backbone_mail.Prelude.Text.{Text, codes, text_eq, to_lowercase}

pub data MailActivityChainingType : Type 0 where
  suggest trigger : MailActivityChainingType

unfoldable pub display : MailActivityChainingType → Text
display MailActivityChainingType.suggest = codes "suggest"
display MailActivityChainingType.trigger = codes "trigger"

unfoldable pub from_str : (ℕ → Text) → Text → Result Text MailActivityChainingType
from_str unicode s =
    let folded = to_lowercase unicode s in
    if text_eq folded (codes "suggest")
    then ok MailActivityChainingType.suggest
    else if text_eq folded (codes "trigger")
    then ok MailActivityChainingType.trigger
    else err (codes "Unknown MailActivityChainingType variant: " ++ s)

unfoldable pub default_value : MailActivityChainingType
default_value = MailActivityChainingType.suggest
