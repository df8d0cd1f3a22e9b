-- ===== src/Entity/SmsState.antt =====
-- src/domain/entity/sms_state.rs
use backbone_mail.Prelude.{ℕ, if◌then◌else◌, Result, ok, err, ◌++◌}
use backbone_mail.Prelude.Text.{Text, codes, text_eq, to_lowercase}

pub data SmsState : Type 0 where
  outgoing process pending sent error canceled : SmsState

unfoldable pub display : SmsState → Text
display SmsState.outgoing = codes "outgoing"
display SmsState.process = codes "process"
display SmsState.pending = codes "pending"
display SmsState.sent = codes "sent"
display SmsState.error = codes "error"
display SmsState.canceled = codes "canceled"

unfoldable pub from_str : (ℕ → Text) → Text → Result Text SmsState
from_str unicode s =
    let folded = to_lowercase unicode s in
    if text_eq folded (codes "outgoing")
    then ok SmsState.outgoing
    else if text_eq folded (codes "process")
    then ok SmsState.process
    else if text_eq folded (codes "pending")
    then ok SmsState.pending
    else if text_eq folded (codes "sent")
    then ok SmsState.sent
    else if text_eq folded (codes "error")
    then ok SmsState.error
    else if text_eq folded (codes "canceled")
    then ok SmsState.canceled
    else err (codes "Unknown SmsState variant: " ++ s)

unfoldable pub default_value : SmsState
default_value = SmsState.outgoing
