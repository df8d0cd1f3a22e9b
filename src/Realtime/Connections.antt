-- ===== src/Realtime/Connections.antt =====
-- Streams over a list of sends, and the theorems at them.
use backbone_mail.Prelude.{
  ℕ, zero, suc, ◌≡◌, refl, sym, ap, ◌∙◌, ◌↔◌, ◌⊎◌, true, List, [], ◌∷◌, ◌++◌, Option, none, some,
  ok, arith, Memb, length, drop,
}
use backbone_mail.Prelude.Text.{Text, codes}
use backbone_mail.Prelude.Json.{Json}
use backbone_mail.Store.Channel.{Uuid, discuss_channel, render}
use backbone_mail.Chatter.{user, channel, default_slot}
use backbone_mail.Chatter.Closed.{OwnWall}
use backbone_mail.Realtime.Registry.{TailedEvent, new_registry}
use backbone_mail.Realtime.Stream.{
  Broadcast, Hub, build, permits, open_stream, publish_to, remember, run_steps,
}
use backbone_mail.Realtime.Allow.{default_permits_iff, Resolves}

abbrev strokes : ℕ → Text
strokes zero = []
strokes (suc n) = b'1' ∷ strokes n

-- Any text without strokes is no identifier; else the number of its characters is.
abbrev parse_str : Text → Option Uuid
parse_str [] = none
parse_str (c ∷ t) = some (length (c ∷ t))

abbrev to_channel : Text → Uuid → TailedEvent
to_channel name n = record {
  id = n;
  channel = name;
  message_type = codes "mail.message/insert";
  payload = Json.null;
  occurred_at = n;
}

length-strokes : (n : ℕ) → length (strokes n) ≡ n
length-strokes zero = refl
length-strokes (suc n) = omega (arith, length-strokes n)

strokes_injective : (m n : ℕ) → strokes m ≡ strokes n → m ≡ n
strokes_injective m n e = sym (length-strokes m) ∙ (ap length e ∙ length-strokes n)

-- A member of channel 3 before any host has installed a resolver.
default_permits_iff_example :
    (permits parse_str
        (build strokes (ok (3 ∷ [])) (user 1))
        tt
        (user 1)
        default_slot
        (to_channel (codes "discuss.channel_111") 1)
      ≡ true)
    ↔ ((codes "discuss.channel_111" ≡ channel strokes (user 1))
        ⊎ ((id : Uuid) × Memb id (3 ∷ [])
            × (render strokes (discuss_channel id) ≡ codes "discuss.channel_111"))
        ⊎ Resolves parse_str (OwnWall (user 1)) (codes "discuss.channel_111"))
default_permits_iff_example =
    default_permits_iff parse_str tt (user 1) strokes strokes_injective (ok (3 ∷ [])) ((λ m. m), tt)
      (to_channel (codes "discuss.channel_111") 1)

-- Every send is kept, and a subscription is the number of those before it.
abbrev kept_sends : Broadcast
kept_sends = record {
  Sender = List TailedEvent;
  Receiver = ℕ;
  send = λ s e. s ++ e ∷ [];
  subscribe = λ s. length s;
  received = λ n s. drop n s;
}

abbrev event : Uuid → TailedEvent
event n = to_channel (codes "res.partner_1") n

-- Event 3 is in the ring, and its send is yet to come.
abbrev hub : Hub kept_sends
unfolding run_steps new_registry
hub =
    run_steps kept_sends (record { registry = new_registry; sender = [] })
      (publish_to (event 1) ++ publish_to (event 2) ++ remember (event 3) ∷ [])

abbrev opened_hub : Hub kept_sends
unfolding open_stream
opened_hub = (open_stream kept_sends strokes hub (user 1) (some 1)).0
