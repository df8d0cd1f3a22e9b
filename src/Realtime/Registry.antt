-- ===== src/Realtime/Registry.antt =====
-- src/realtime/registry.rs. The broadcast channel of tokio is not part of the repository; Stream has
-- it as a parameter.
use backbone_mail.Prelude.{
  ℕ, suc, ◌+◌, ◌-◌, List, [], ◌∷◌, ◌++◌, Option, none, some, Result, ok, err, ◌==◌, leb, length,
  drop, if◌then◌else◌, unwrap_or,
}
use backbone_mail.Prelude.Text.{Text, codes, text_eq}
use backbone_mail.Prelude.Json.{Json}
use backbone_mail.Store.Channel.{Uuid}
use backbone_mail.Chatter.{MessagingIdentity, user, guest}

pub record TailedEvent : Type 0 where
  pub id : Uuid
  pub channel : Text
  pub message_type : Text
  pub payload : Json
  pub occurred_at : ℕ

abbrev pub ring_capacity : ℕ
ring_capacity = 4096

-- `HashMap<String, usize>`: the first entry of a key is the one that counts.
abbrev pub Counts : Type 0
Counts = List (Text × ℕ)

-- The ring from its front, and the live connections.
pub record RealtimeRegistry : Type 0 where
  pub ring : List TailedEvent
  pub connections : Counts

unfoldable pub new_registry : RealtimeRegistry
new_registry = record { ring = []; connections = [] }

-- `while ring.len() > capacity { ring.pop_front(); }`
unfoldable pub pop_excess {ℓ} : {A : Type ℓ} → ℕ → List A → List A
pop_excess capacity [] = []
pop_excess capacity (x ∷ xs) =
    let popped = pop_excess capacity xs in if leb (length (x ∷ xs)) capacity then x ∷ xs else popped

-- what `publish` does to the ring
unfoldable pub publish : RealtimeRegistry → TailedEvent → RealtimeRegistry
unfolding pop_excess
publish r event = record r { ring = pop_excess ring_capacity (r.ring ++ event ∷ []) }

-- `ring.iter().position(|e| e.id == id)`
unfoldable pub position : Uuid → List TailedEvent → Option ℕ
position id [] = none
position id (e ∷ es) = if e.id == id then some 0 else one_more (position id es)
  where
    one_more : Option ℕ → Option ℕ
    one_more none = none
    one_more (some n) = some (suc n)

-- `last_id.and_then(...)` with the two branches of `start`
abbrev pub start_at : Option ℕ → ℕ
start_at (some pos) = pos + 1
start_at none = 0

abbrev pub position_of : Option Uuid → List TailedEvent → Option ℕ
unfolding position
position_of none ring = none
position_of (some id) ring = position id ring

unfoldable pub replay_after : RealtimeRegistry → Option Uuid → List TailedEvent
unfolding position_of
replay_after r last_id = drop (start_at (position_of last_id r.ring)) r.ring

unfoldable pub count_of : Text → Counts → Option ℕ
count_of key [] = none
count_of key ((k, n) ∷ rest) = if text_eq k key then some n else count_of key rest

unfoldable pub forget : Text → Counts → Counts
forget key [] = []
forget key ((k, n) ∷ rest) =
    let kept = forget key rest in if text_eq k key then kept else (k, n) ∷ kept

unfoldable pub set_count : Text → ℕ → Counts → Counts
unfolding forget
set_count key n counts = (key, n) ∷ forget key counts

unfoldable pub reserve_connection :
    RealtimeRegistry → Text → ℕ → RealtimeRegistry × Result ℕ (Unit {0})
unfolding count_of set_count
reserve_connection r identity_key cap =
    let held = unwrap_or (count_of identity_key r.connections) 0 in
    if leb cap held
    then (r, err held)
    else (record r { connections = set_count identity_key (held + 1) r.connections }, ok tt)

-- the entry after `saturating_sub(1)`, removed at 0
unfoldable pub lowered : Text → Counts → Option ℕ → Counts
unfolding set_count forget
lowered key counts none = counts
lowered key counts (some n) = if n - 1 == 0 then forget key counts else set_count key (n - 1) counts

unfoldable pub release_connection : RealtimeRegistry → Text → RealtimeRegistry
unfolding lowered count_of
release_connection r identity_key = record r {
  connections = lowered identity_key r.connections (count_of identity_key r.connections);
}

-- the key of a connection count, over the printer of identifiers
unfoldable pub identity_key : (Uuid → Text) → MessagingIdentity → Text
identity_key show (user p) = codes "p:" ++ show p
identity_key show (guest g) = codes "g:" ++ show g
