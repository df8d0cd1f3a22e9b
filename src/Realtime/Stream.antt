-- ===== src/Realtime/Stream.antt =====
-- src/realtime/sse.rs: the allowlist of a connection and the frames that the forwarder sends. tokio's
-- broadcast channel is not part of the repository: a `Broadcast` is its documented interface, and the
-- parameter `received` is what a subscription yields before it lags. The membership query is a
-- parameter's answer.
use backbone_mail.Prelude.{
  ℕ, Bool, true, false, List, [], ◌∷◌, ◌++◌, Option, none, some, Result, ok, err, leb, any, length,
  filterb, if◌then◌else◌,
}
use backbone_mail.Prelude.Text.{Text, text_eq}
use backbone_mail.Store.Channel.{Uuid, discuss_channel, render}
use backbone_mail.Chatter.{MessagingIdentity, channel, ThreadAclSlot, slot_can_read}
use backbone_mail.Realtime.Registry.{
  TailedEvent, RealtimeRegistry, identity_key, reserve_connection, replay_after, publish,
}
use backbone_mail.Realtime.Tailer.{parse_record_key}

abbrev pub max_streams_per_identity : ℕ
max_streams_per_identity = 4

abbrev pub max_membership_channels : ℕ
max_membership_channels = 64

pub record Allowlist : Type 0 where
  pub own : Text
  pub membership : List Text

-- `HashSet::insert`
abbrev pub insert : Text → List Text → List Text
insert name names = if any (λ n. text_eq n name) names then names else name ∷ names

-- the loop over the identifiers, which stops when the set is full
unfoldable pub add_channels : ℕ → (Uuid → Text) → List Uuid → List Text → List Text
unfolding render
add_channels ceiling show [] names = names
add_channels ceiling show (id ∷ ids) names =
    let added = add_channels ceiling show ids (insert (render show (discuss_channel id)) names) in
    if leb ceiling (length names) then names else added

unfoldable pub build : (Uuid → Text) → Result Text (List Uuid) → MessagingIdentity → Allowlist
unfolding add_channels channel
build show (ok ids) identity = record {
  own = channel show identity;
  membership = add_channels max_membership_channels show ids [];
}
build show (err e) identity = record { own = channel show identity; membership = [] }

module _ {W : Type 0} (parse_str : Text → Option Uuid) where
  unfoldable pub resolved : W → MessagingIdentity → ThreadAclSlot W → Option (Text × Uuid) → Bool
  unfolding slot_can_read
  resolved pool identity acl none = false
  resolved pool identity acl (some (model, res_id)) = slot_can_read acl pool identity model res_id

  unfoldable pub permits : Allowlist → W → MessagingIdentity → ThreadAclSlot W → TailedEvent → Bool
  unfolding resolved parse_record_key
  permits allow pool identity acl event =
      if text_eq event.channel allow.own
      then true
      else if any (λ c. text_eq c event.channel) allow.membership
      then true
      else resolved pool identity acl (parse_record_key parse_str event.channel)

-- A channel that sends, and subscriptions to it.
pub record Broadcast : Type 1 where
  pub Sender : Type 0
  pub Receiver : Type 0
  pub send : Sender → TailedEvent → Sender
  pub subscribe : Sender → Receiver
  pub received : Receiver → Sender → List TailedEvent

-- The registry with its sender.
pub record Hub (b : Broadcast) : Type 0 where
  pub registry : RealtimeRegistry
  pub sender : b.Sender

-- What an open connection holds.
pub record Connection (b : Broadcast) : Type 0 where
  pub replay : List TailedEvent
  pub live : b.Receiver
  pub allow : Allowlist

pub data PublishStep : Type 0 where
  remember : TailedEvent → PublishStep
  fan_out : TailedEvent → PublishStep

-- the whole of `publish`, in its order
abbrev pub publish_to : TailedEvent → List PublishStep
publish_to event = remember event ∷ fan_out event ∷ []

module _ (b : Broadcast) where
  -- The two steps of `publish`: the ring under its lock, then, the lock released, the send. Other
  -- tasks may run between them.
  unfoldable pub publish_step : Hub b → PublishStep → Hub b
  unfolding publish
  publish_step h (remember event) = record h { registry = publish h.registry event }
  publish_step h (fan_out event) = record h { sender = b.send h.sender event }

  unfoldable pub run_steps : Hub b → List PublishStep → Hub b
  unfolding publish_step
  run_steps h [] = h
  run_steps h (step ∷ steps) = run_steps (publish_step h step) steps

  -- The first steps of `stream`: the slot, then the snapshot; or 429.
  unfoldable pub admitted :
      Hub b
      → Option Uuid
      → RealtimeRegistry × Result ℕ (Unit {0})
      → Hub b × Option (List TailedEvent)
  unfolding replay_after
  admitted h last_id (r, err n) = (record h { registry = r }, none)
  admitted h last_id (r, ok _) = (record h { registry = r }, some (replay_after r last_id))

  unfoldable pub open_stream :
      (Uuid → Text) → Hub b → MessagingIdentity → Option Uuid → Hub b × Option (List TailedEvent)
  unfolding admitted reserve_connection identity_key
  open_stream show h identity last_id =
      admitted h last_id
        (reserve_connection h.registry (identity_key show identity) max_streams_per_identity)

  -- Its next step, on the registry as it is by then.
  unfoldable pub subscribe_stream : Hub b → List TailedEvent → Allowlist → Connection b
  subscribe_stream h replay allow = record {
    replay = replay;
    live = b.subscribe h.sender;
    allow = allow;
  }

  -- The events the forwarder has sent once the hub has come to `h`: the permitted ones of the
  -- snapshot
  -- and then of the subscription.
  unfoldable pub sent :
      {W : Type 0}
      → (Text → Option Uuid)
      → W
      → MessagingIdentity
      → ThreadAclSlot W
      → Connection b
      → Hub b
      → List TailedEvent
  unfolding permits
  sent parse_str pool identity acl c h =
      filterb (permits parse_str c.allow pool identity acl) c.replay
      ++ filterb (permits parse_str c.allow pool identity acl) (b.received c.live h.sender)
