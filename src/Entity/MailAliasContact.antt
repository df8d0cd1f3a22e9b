-- ===== src/Entity/MailAliasContact.antt =====
-- src/domain/entity/mail_alias_contact.rs
use backbone_mail.Prelude.{ℕ, if◌then◌else◌, Result, ok, err, ◌++◌}
use backbone_mail.Prelude.Text.{Text, codes, text_eq, to_lowercase}

pub data MailAliasContact : Type 0 where
  everyone partners followers : MailAliasContact

unfoldable pub display : MailAliasContact → Text
display MailAliasContact.everyone = codes "everyone"
display MailAliasContact.partners = codes "partners"
display MailAliasContact.followers = codes "followers"

unfoldable pub from_str : (ℕ → Text) → Text → Result Text MailAliasContact
from_str unicode s =
    let folded = to_lowercase unicode s in
    if text_eq folded (codes "everyone")
    then ok MailAliasContact.everyone
    else if text_eq folded (codes "partners")
    then ok MailAliasContact.partners
    else if text_eq folded (codes "followers")
    then ok MailAliasContact.followers
    else err (codes "Unknown MailAliasContact variant: " ++ s)

unfoldable pub default_value : MailAliasContact
default_value = MailAliasContact.followers
