-- ===== src/Entity/SmtpEncryption.antt =====
-- src/domain/entity/smtp_encryption.rs
use backbone_mail.Prelude.{ℕ, if◌then◌else◌, Result, ok, err, ◌++◌}
use backbone_mail.Prelude.Text.{Text, codes, text_eq, to_lowercase}

pub data SmtpEncryption : Type 0 where
  none starttls ssl : SmtpEncryption

unfoldable pub display : SmtpEncryption → Text
display SmtpEncryption.none = codes "none"
display SmtpEncryption.starttls = codes "starttls"
display SmtpEncryption.ssl = codes "ssl"

unfoldable pub from_str : (ℕ → Text) → Text → Result Text SmtpEncryption
from_str unicode s =
    let folded = to_lowercase unicode s in
    if text_eq folded (codes "none")
    then ok SmtpEncryption.none
    else if text_eq folded (codes "starttls")
    then ok SmtpEncryption.starttls
    else if text_eq folded (codes "ssl")
    then ok SmtpEncryption.ssl
    else err (codes "Unknown SmtpEncryption variant: " ++ s)

unfoldable pub default_value : SmtpEncryption
default_value = SmtpEncryption.none
