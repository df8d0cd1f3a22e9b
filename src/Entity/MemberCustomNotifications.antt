-- ===== src/Entity/MemberCustomNotifications.antt =====
-- src/domain/entity/member_custom_notifications.rs
use backbone_mail.Prelude.{ℕ, if◌then◌else◌, Result, ok, err, ◌++◌}
use backbone_mail.Prelude.Text.{Text, codes, text_eq, to_lowercase}

pub data MemberCustomNotifications : Type 0 where
  all mentions no_notif : MemberCustomNotifications

unfoldable pub display : MemberCustomNotifications → Text
display MemberCustomNotifications.all = codes "all"
display MemberCustomNotifications.mentions = codes "mentions"
display MemberCustomNotifications.no_notif = codes "no_notif"

unfoldable pub from_str : (ℕ → Text) → Text → Result Text MemberCustomNotifications
from_str unicode s =
    let folded = to_lowercase unicode s in
    if text_eq folded (codes "all")
    then ok MemberCustomNotifications.all
    else if text_eq folded (codes "mentions")
    then ok MemberCustomNotifications.mentions
    else if text_eq folded (codes "no_notif")
    then ok MemberCustomNotifications.no_notif
    else err (codes "Unknown MemberCustomNotifications variant: " ++ s)

unfoldable pub default_value : MemberCustomNotifications
default_value = MemberCustomNotifications.all
