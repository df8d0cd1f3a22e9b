-- ===== src/Entity/Readers.antt =====
-- `Display` against `FromStr` for the enums of channels, activities and aliases in src/domain/entity.
use backbone_mail.Prelude.{ℕ, ◌≡◌, ◌↔◌, arith, Result, ok}
use backbone_mail.Prelude.Text.{Text, codes, text_eq_iff, to_lowercase}
use backbone_mail.Entity.DiscussChannelType
use backbone_mail.Entity.FetchmailState
use backbone_mail.Entity.MailActivityCategory
use backbone_mail.Entity.MailActivityChainingType
use backbone_mail.Entity.MailActivityDelayFrom
use backbone_mail.Entity.MailActivityDelayUnit
use backbone_mail.Entity.MailActivityState
use backbone_mail.Entity.MailAliasContact

-- A text is read as a value exactly when its lowercase is what the value prints as.
abbrev pub IsExact :
    {A : Type 0} → (ℕ → Text) → ((ℕ → Text) → Text → Result Text A) → (A → Text) → Type 0
IsExact {A} unicode from_str display =
    (t : Text) (a : A) → (from_str unicode t ≡ ok a) ↔ (to_lowercase unicode t ≡ display a)

pub discuss_channel_type-IsExact :
    (unicode : ℕ → Text) → IsExact unicode DiscussChannelType.from_str DiscussChannelType.display
unfolding DiscussChannelType.from_str DiscussChannelType.display
discuss_channel_type-IsExact unicode t a =
    let folded = to_lowercase unicode t in
    ground (
      arith,
      text_eq_iff folded (codes "chat"),
      text_eq_iff folded (codes "channel"),
      text_eq_iff folded (codes "group"),
    )

pub fetchmail_state-IsExact :
    (unicode : ℕ → Text) → IsExact unicode FetchmailState.from_str FetchmailState.display
unfolding FetchmailState.from_str FetchmailState.display
fetchmail_state-IsExact unicode t a =
    let folded = to_lowercase unicode t in
    ground (arith, text_eq_iff folded (codes "draft"), text_eq_iff folded (codes "done"))

pub mail_activity_category-IsExact :
    (unicode : ℕ → Text)
    → IsExact unicode MailActivityCategory.from_str MailActivityCategory.display
unfolding MailActivityCategory.from_str MailActivityCategory.display
mail_activity_category-IsExact unicode t a =
    let folded = to_lowercase unicode t in
    ground (
      arith,
      text_eq_iff folded (codes "upload_invoice"),
      text_eq_iff folded (codes "phonecall"),
      text_eq_iff folded (codes "meeting"),
    )

pub mail_activity_chaining_type-IsExact :
    (unicode : ℕ → Text)
    → IsExact unicode MailActivityChainingType.from_str MailActivityChainingType.display
unfolding MailActivityChainingType.from_str MailActivityChainingType.display
mail_activity_chaining_type-IsExact unicode t a =
    let folded = to_lowercase unicode t in
    ground (arith, text_eq_iff folded (codes "suggest"), text_eq_iff folded (codes "trigger"))

pub mail_activity_delay_from-IsExact :
    (unicode : ℕ → Text)
    → IsExact unicode MailActivityDelayFrom.from_str MailActivityDelayFrom.display
unfolding MailActivityDelayFrom.from_str MailActivityDelayFrom.display
mail_activity_delay_from-IsExact unicode t a =
    let folded = to_lowercase unicode t in
    ground (
      arith,
      text_eq_iff folded (codes "plan_date"),
      text_eq_iff folded (codes "previous_activity"),
    )

pub mail_activity_delay_unit-IsExact :
    (unicode : ℕ → Text)
    → IsExact unicode MailActivityDelayUnit.from_str MailActivityDelayUnit.display
unfolding MailActivityDelayUnit.from_str MailActivityDelayUnit.display
mail_activity_delay_unit-IsExact unicode t a =
    let folded = to_lowercase unicode t in
    ground (
      arith,
      text_eq_iff folded (codes "days"),
      text_eq_iff folded (codes "weeks"),
      text_eq_iff folded (codes "months"),
    )

pub mail_activity_state-IsExact :
    (unicode : ℕ → Text) → IsExact unicode MailActivityState.from_str MailActivityState.display
unfolding MailActivityState.from_str MailActivityState.display
mail_activity_state-IsExact unicode t a =
    let folded = to_lowercase unicode t in
    ground (
      arith,
      text_eq_iff folded (codes "overdue"),
      text_eq_iff folded (codes "today"),
      text_eq_iff folded (codes "planned"),
      text_eq_iff folded (codes "done"),
    )

pub mail_alias_contact-IsExact :
    (unicode : ℕ → Text) → IsExact unicode MailAliasContact.from_str MailAliasContact.display
unfolding MailAliasContact.from_str MailAliasContact.display
mail_alias_contact-IsExact unicode t a =
    let folded = to_lowercase unicode t in
    ground (
      arith,
      text_eq_iff folded (codes "everyone"),
      text_eq_iff folded (codes "partners"),
      text_eq_iff folded (codes "followers"),
    )
