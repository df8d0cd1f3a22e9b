-- ===== src/Entity/MailState.antt =====
-- src/domain/entity/mail_state.rs
use backbone_mail.Prelude.{ℕ, if◌then◌else◌, Result, ok, err, ◌++◌}
use backbone_mail.Prelude.Text.{Text, codes, text_eq, to_lowercase}

pub data MailState : Type 0 where
  outgoing sent received exception cancel : MailState

unfoldable pub display : MailState → Text
display MailState.outgoing = codes "outgoing"
display MailState.sent = codes "sent"
display MailState.received = codes "received"
display MailState.exception = codes "exception"
display MailState.cancel = codes "cancel"

unfoldable pub from_str : (ℕ → Text) → Text → Result Text MailState
from_str unicode s =
    let folded = to_lowercase unicode s in
    if text_eq folded (codes "outgoing")
    then ok MailState.outgoing
    else if text_eq folded (codes "sent")
    then ok MailState.sent
    else if text_eq folded (codes "received")
    then ok MailState.received
    else if text_eq folded (codes "exception")
    then ok MailState.exception
    else if text_eq folded (codes "cancel")
    then ok MailState.cancel
    else err (codes "Unknown MailState variant: " ++ s)

unfoldable pub default_value : MailState
default_value = MailState.outgoing
