-- ===== src/Entity/MailActivityState.antt =====
-- src/domain/entity/mail_activity_state.rs
use backbone_mail.Prelude.{ℕ, if◌then◌else◌, Result, ok, err, ◌++◌}
use backbone_mail.Prelude.Text.{Text, codes, text_eq, to_lowercase}

pub data MailActivityState : Type 0 where
  overdue today planned done : MailActivityState

unfoldable pub display : MailActivityState → Text
display MailActivityState.overdue = codes "overdue"
display MailActivityState.today = codes "today"
display MailActivityState.planned = codes "planned"
display MailActivityState.done = codes "done"

unfoldable pub from_str : (ℕ → Text) → Text → Result Text MailActivityState
from_str unicode s =
    let folded = to_lowercase unicode s in
    if text_eq folded (codes "overdue")
    then ok MailActivityState.overdue
    else if text_eq folded (codes "today")
    then ok MailActivityState.today
    else if text_eq folded (codes "planned")
    then ok MailActivityState.planned
    else if text_eq folded (codes "done")
    then ok MailActivityState.done
    else err (codes "Unknown MailActivityState variant: " ++ s)

unfoldable pub default_value : MailActivityState
default_value = MailActivityState.today
