-- ===== src/Chatter.antt =====
-- src/application/service/chatter_acl.rs: who is asking, and the resolvers that decide who may read
-- or
-- post on a document's chatter. The database that a resolver may look into is a value of a type `W`.
pub mod Closed
mod Scenarios
use backbone_mail.Prelude.{
  Bool, true, false, List, Option, none, some, ◌&&◌, ◌||◌, ◌==◌, any, is_some,
}
use backbone_mail.Prelude.Text.{Text, codes, text_eq}
use backbone_mail.Store.Channel.{Uuid, partner_channel, guest_channel, render}

pub data MessagingIdentity : Type 0 where
  user : Uuid → MessagingIdentity
  guest : Uuid → MessagingIdentity

-- over the printer of identifiers
unfoldable pub channel : (Uuid → Text) → MessagingIdentity → Text
unfolding render
channel show (user p) = render show (partner_channel p)
channel show (guest g) = render show (guest_channel g)

unfoldable pub partner_id : MessagingIdentity → Option Uuid
partner_id (user p) = some p
partner_id (guest g) = none

unfoldable pub guest_id : MessagingIdentity → Option Uuid
guest_id (user p) = none
guest_id (guest g) = some g

-- `==` of an optional identifier with `Some(id)`
abbrev pub is_that : Option Uuid → Uuid → Bool
is_that none id = false
is_that (some a) id = a == id

unfoldable pub is_own_partner_wall : MessagingIdentity → Text → Uuid → Bool
unfolding partner_id
is_own_partner_wall identity model res_id =
    text_eq model (codes "res.partner") && is_that (partner_id identity) res_id

pub record ThreadAccessResolver (W : Type 0) : Type 0 where
  pub can_read : W → MessagingIdentity → Text → Uuid → Bool
  pub can_post : W → MessagingIdentity → Text → Uuid → Bool

pub record ThreadAclSlot (W : Type 0) : Type 0 where
  pub inner : ThreadAccessResolver W

unfoldable pub opens : List Text → MessagingIdentity → Text → Uuid → Bool
unfolding is_own_partner_wall partner_id
opens open_models identity model res_id =
    is_own_partner_wall identity model res_id
    || (any (λ m. text_eq m model) open_models && is_some (partner_id identity))

module _ {W : Type 0} where
  unfoldable pub deny_host_docs : ThreadAccessResolver W
  unfolding is_own_partner_wall
  deny_host_docs = record {
    can_read = λ pool. is_own_partner_wall;
    can_post = λ pool. is_own_partner_wall;
  }

  unfoldable pub static_thread_access : List Text → ThreadAccessResolver W
  unfolding opens
  static_thread_access open_models = record {
    can_read = λ pool. opens open_models;
    can_post = λ pool. opens open_models;
  }

  unfoldable pub install : ThreadAclSlot W → ThreadAccessResolver W → ThreadAclSlot W
  install slot resolver = record slot { inner = resolver }

  unfoldable pub current : ThreadAclSlot W → ThreadAccessResolver W
  current slot = slot.inner

  unfoldable pub default_slot : ThreadAclSlot W
  unfolding deny_host_docs
  default_slot = record { inner = deny_host_docs }

  unfoldable pub slot_can_read : ThreadAclSlot W → W → MessagingIdentity → Text → Uuid → Bool
  unfolding current
  slot_can_read slot = (current slot).can_read

  unfoldable pub slot_can_post : ThreadAclSlot W → W → MessagingIdentity → Text → Uuid → Bool
  unfolding current
  slot_can_post slot = (current slot).can_post
