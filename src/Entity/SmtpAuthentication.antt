-- ===== src/Entity/SmtpAuthentication.antt =====
-- src/domain/entity/smtp_authentication.rs
use backbone_mail.Prelude.{ℕ, if◌then◌else◌, Result, ok, err, ◌++◌}
use backbone_mail.Prelude.Text.{Text, codes, text_eq, to_lowercase}

pub data SmtpAuthentication : Type 0 where
  login certificate : SmtpAuthentication

unfoldable pub display : SmtpAuthentication → Text
display SmtpAuthentication.login = codes "login"
display SmtpAuthentication.certificate = codes "certificate"

unfoldable pub from_str : (ℕ → Text) → Text → Result Text SmtpAuthentication
from_str unicode s =
    let folded = to_lowercase unicode s in
    if text_eq folded (codes "login")
    then ok SmtpAuthentication.login
    else if text_eq folded (codes "certificate")
    then ok SmtpAuthentication.certificate
    else err (codes "Unknown SmtpAuthentication variant: " ++ s)

unfoldable pub default_value : SmtpAuthentication
default_value = SmtpAuthentication.login
