-- ===== src/Store/Channel.antt =====
-- src/domain/event/constants.rs: the constructors of channel keys. A key is kept as the call that
-- built it; `render` is the text of that call, for a printer of identifiers.
use backbone_mail.Prelude.{ℕ, ◌++◌}
use backbone_mail.Prelude.Text.{Text, codes}

abbrev pub Uuid : Type 0
Uuid = ℕ

-- `Uuid::nil()`
abbrev pub nil_uuid : Uuid
nil_uuid = 0

pub data ChannelKey : Type 0 where
  record_channel : Text → Uuid → ChannelKey
  partner_channel : Uuid → ChannelKey
  discuss_channel : Uuid → ChannelKey
  guest_channel : Uuid → ChannelKey
  -- `format!("mail.message_{id}")`, for a post with no record
  message_channel : Uuid → ChannelKey
  -- `format!("mail_{id}")`, for a notification with no partner
  mail_channel : Uuid → ChannelKey
  -- a constant of the source
  ops_channel : Text → ChannelKey

unfoldable pub render : (Uuid → Text) → ChannelKey → Text
render show (record_channel model id) = model ++ codes "_" ++ show id
render show (partner_channel id) = codes "res.partner_" ++ show id
render show (discuss_channel id) = codes "discuss.channel_" ++ show id
render show (guest_channel id) = codes "mail.guest_" ++ show id
render show (message_channel id) = codes "mail.message_" ++ show id
render show (mail_channel id) = codes "mail_" ++ show id
render show (ops_channel name) = name
