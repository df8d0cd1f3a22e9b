-- ===== src/Entity/MailActivityDelayUnit.antt =====
-- src/domain/entity/mail_activity_delay_unit.rs
use backbone_mail.Prelude.{ℕ, if◌then◌else◌, Result, ok, err, ◌++◌}
use backbone_mail.Prelude.Text.{Text, codes, text_eq, to_lowercase}

pub data MailActivityDelayUnit : Type 0 where
  days weeks months : MailActivityDelayUnit

unfoldable pub display : MailActivityDelayUnit → Text
display MailActivityDelayUnit.days = codes "days"
display MailActivityDelayUnit.weeks = codes "weeks"
display MailActivityDelayUnit.months = codes "months"

unfoldable pub from_str : (ℕ → Text) → Text → Result Text MailActivityDelayUnit
from_str unicode s =
    let folded = to_lowercase unicode s in
    if text_eq folded (codes "days")
    then ok MailActivityDelayUnit.days
    else if text_eq folded (codes "weeks")
    then ok MailActivityDelayUnit.weeks
    else if text_eq folded (codes "months")
    then ok MailActivityDelayUnit.months
    else err (codes "Unknown MailActivityDelayUnit variant: " ++ s)

unfoldable pub default_value : MailActivityDelayUnit
default_value = MailActivityDelayUnit.days
