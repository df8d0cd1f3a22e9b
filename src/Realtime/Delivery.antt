-- ===== src/Realtime/Delivery.antt =====
-- What reaches the wire of a stream of src/realtime/sse.rs.
use backbone_mail.Prelude.{◌≡◌, Bool, List, [], ◌∷◌, Option, Result}
use backbone_mail.Prelude.Text.{Text}
use backbone_mail.Store.Channel.{Uuid}
use backbone_mail.Chatter.{MessagingIdentity, ThreadAclSlot}
use backbone_mail.Realtime.Registry.{TailedEvent}
use backbone_mail.Realtime.Stream.{build, permits, Broadcast, PublishStep, remember, fan_out}

-- the events that some steps send
abbrev pub fanned_out : List PublishStep → List TailedEvent
fanned_out [] = []
fanned_out (remember e ∷ steps) = fanned_out steps
fanned_out (fan_out e ∷ steps) = e ∷ fanned_out steps

abbrev pub send_each : (b : Broadcast) → b.Sender → List TailedEvent → b.Sender
send_each b s [] = s
send_each b s (e ∷ es) = send_each b (b.send s e) es

-- A subscription yields every later send in order, as long as its receiver keeps up.
pub record IsBroadcast (b : Broadcast) : Type 0 where
  pub yields :
      (s : b.Sender) (es : List TailedEvent) → b.received (b.subscribe s) (send_each b s es) ≡ es

module _ (b : Broadcast) (law : IsBroadcast b) where
  module _ {W : Type 0} (show : Uuid → Text) (parse_str : Text → Option Uuid) (pool : W)
      (identity : MessagingIdentity) (acl : ThreadAclSlot W)
      (answer : Result Text (List Uuid)) where
    abbrev pub may : TailedEvent → Bool
    unfolding permits build
    may = permits parse_str (build show answer identity) pool identity acl
