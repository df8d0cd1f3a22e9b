-- ===== src/Entity/MailActivityCategory.antt =====
-- src/domain/entity/mail_activity_category.rs
use backbone_mail.Prelude.{ℕ, if◌then◌else◌, Result, ok, err, ◌++◌}
use backbone_mail.Prelude.Text.{Text, codes, text_eq, to_lowercase}

pub data MailActivityCategory : Type 0 where
  upload_invoice phonecall meeting : MailActivityCategory

unfoldable pub display : MailActivityCategory → Text
display MailActivityCategory.upload_invoice = codes "upload_invoice"
display MailActivityCategory.phonecall = codes "phonecall"
display MailActivityCategory.meeting = codes "meeting"

unfoldable pub from_str : (ℕ → Text) → Text → Result Text MailActivityCategory
from_str unicode s =
    let folded = to_lowercase unicode s in
    if text_eq folded (codes "upload_invoice")
    then ok MailActivityCategory.upload_invoice
    else if text_eq folded (codes "phonecall")
    then ok MailActivityCategory.phonecall
    else if text_eq folded (codes "meeting")
    then ok MailActivityCategory.meeting
    else err (codes "Unknown MailActivityCategory variant: " ++ s)

unfoldable pub default_value : MailActivityCategory
default_value = MailActivityCategory.meeting
