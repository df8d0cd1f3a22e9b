-- ===== src/Entity/MailActivityDelayFrom.antt =====
-- src/domain/entity/mail_activity_delay_from.rs
use backbone_mail.Prelude.{ℕ, if◌then◌else◌, Result, ok, err, ◌++◌}
use backbone_mail.Prelude.Text.{Text, codes, text_eq, to_lowercase}

pub data MailActivityDelayFrom : Type 0 where
  plan_date previous_activity : MailActivityDelayFrom

unfoldable pub display : MailActivityDelayFrom → Text
display MailActivityDelayFrom.plan_date = codes "plan_date"
display MailActivityDelayFrom.previous_activity = codes "previous_activity"

unfoldable pub from_str : (ℕ → Text) → Text → Result Text MailActivityDelayFrom
from_str unicode s =
    let folded = to_lowercase unicode s in
    if text_eq folded (codes "plan_date")
    then ok MailActivityDelayFrom.plan_date
    else if text_eq folded (codes "previous_activity")
    then ok MailActivityDelayFrom.previous_activity
    else err (codes "Unknown MailActivityDelayFrom variant: " ++ s)

unfoldable pub default_value : MailActivityDelayFrom
default_value = MailActivityDelayFrom.previous_activity
