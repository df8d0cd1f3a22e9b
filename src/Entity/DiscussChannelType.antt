-- ===== src/Entity/DiscussChannelType.antt =====
-- src/domain/entity/discuss_channel_type.rs
use backbone_mail.Prelude.{ℕ, if◌then◌else◌, Result, ok, err, ◌++◌}
use backbone_mail.Prelude.Text.{Text, codes, text_eq, to_lowercase}

pub data DiscussChannelType : Type 0 where
  chat channel group : DiscussChannelType

unfoldable pub display : DiscussChannelType → Text
display DiscussChannelType.chat = codes "chat"
display DiscussChannelType.channel = codes "channel"
display DiscussChannelType.group = codes "group"

unfoldable pub from_str : (ℕ → Text) → Text → Result Text DiscussChannelType
from_str unicode s =
    let folded = to_lowercase unicode s in
    if text_eq folded (codes "chat")
    then ok DiscussChannelType.chat
    else if text_eq folded (codes "channel")
    then ok DiscussChannelType.channel
    else if text_eq folded (codes "group")
    then ok DiscussChannelType.group
    else err (codes "Unknown DiscussChannelType variant: " ++ s)

unfoldable pub default_value : DiscussChannelType
default_value = DiscussChannelType.channel
