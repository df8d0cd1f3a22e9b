-- ===== src/Realtime/Tailer.antt =====
-- src/realtime/tailer.rs. The table `messaging.outbox_events` is a list of rows, an instant is a
-- number,
-- and `Uuid::parse_str` is a parameter. The query reads the database's clock and the pruning the
-- replica's; both are arguments.
use backbone_mail.Prelude.{
  ℕ, ◌+◌, Bool, List, [], ◌∷◌, Option, none, some, ◌&&◌, ◌||◌, not, ◌==◌, ltb, leb, all, any,
  is_empty, filterb, Result, ok, err, if◌then◌else◌,
}
use backbone_mail.Prelude.Text.{Text, codes, byte_len, is_ascii_alphanumeric, rsplit_once}
use backbone_mail.Prelude.Json.{Json, get, as_str}
use backbone_mail.Store.Channel.{Uuid}
use backbone_mail.Realtime.Registry.{TailedEvent, RealtimeRegistry, publish}

-- A byte of the channel alphabet. The bytes of a character beyond ASCII are none of these.
abbrev pub is_key_char : ℕ → Bool
is_key_char c = is_ascii_alphanumeric c || c == b'_' || c == b'.' || c == b'-'

unfoldable pub valid_channel_key : Text → Bool
unfolding byte_len
valid_channel_key channel =
    not (is_empty channel) && leb (byte_len channel) 128 && all is_key_char channel

unfoldable pub parse_record_key : (Text → Option Uuid) → Text → Option (Text × Uuid)
unfolding rsplit_once
parse_record_key parse_str channel = with_id (rsplit_once b'_' channel)
  where
    with_parsed : Text → Option Uuid → Option (Text × Uuid)
    with_parsed model none = none
    with_parsed model (some id) = some (model, id)

    with_id : Option (Text × Text) → Option (Text × Uuid)
    with_id none = none
    with_id (some (model, id)) = with_parsed model (parse_str id)

-- `a?` in a function that returns an option
abbrev pub and_then : {A B : Type 0} → Option A → (A → Option B) → Option B
and_then none f = none
and_then (some a) f = f a

unfoldable pub text_of : Json → Text → Option Text
unfolding get
text_of value key = and_then (get value key) as_str

-- from the valid channel on
unfoldable pub with_message : Uuid → ℕ → Text → Json → Option TailedEvent
unfolding get
with_message id occurred_at channel message =
    and_then (text_of message (codes "type")) (λ message_type.
      and_then (get message (codes "payload")) (λ inner. some (record {
        id = id;
        channel = channel;
        message_type = message_type;
        payload = inner;
        occurred_at = occurred_at;
      })))

unfoldable pub extract_event : Uuid → ℕ → Json → Option TailedEvent
unfolding valid_channel_key with_message text_of get
extract_event id occurred_at payload = and_then (text_of payload (codes "channel")) (λ channel.
    if not (valid_channel_key channel)
    then none
    else and_then (get payload (codes "message")) (with_message id occurred_at channel))

pub record OutboxRow : Type 0 where
  pub id : Uuid
  pub occurred_at : ℕ
  pub payload : Json

-- `occurred_at > now - window`, in microseconds, where the right side may lie before 0
abbrev pub within : ℕ → ℕ → ℕ → Bool
within now window at = ltb now (at + window)

-- `ORDER BY occurred_at, id`
abbrev pub before : OutboxRow → OutboxRow → Bool
before a b = ltb a.occurred_at b.occurred_at || (a.occurred_at == b.occurred_at && leb a.id b.id)

unfoldable pub place : OutboxRow → List OutboxRow → List OutboxRow
place r [] = r ∷ []
place r (x ∷ xs) = let placed = place r xs in if before r x then r ∷ x ∷ xs else x ∷ placed

unfoldable pub in_order : List OutboxRow → List OutboxRow
unfolding place
in_order [] = []
in_order (r ∷ rs) = place r (in_order rs)

-- the query of `poll_once`
unfoldable pub read_window : ℕ → ℕ → List OutboxRow → List OutboxRow
unfolding in_order
read_window now window table = in_order (filterb (λ r. within now window r.occurred_at) table)

-- `HashMap<Uuid, DateTime<Utc>>`
abbrev pub Seen : Type 0
Seen = List (Uuid × ℕ)

abbrev pub is_seen : Uuid → Seen → Bool
is_seen id seen = any (λ s. s.0 == id) seen

-- What the loop of `poll_once` changes.
pub record Tail : Type 0 where
  pub seen : Seen
  pub registry : RealtimeRegistry
  pub published : ℕ

unfoldable pub publish_some : Tail → Option TailedEvent → Tail
unfolding publish
publish_some t none = t
publish_some t (some event) = record t {
  registry = publish t.registry event;
  published = t.published + 1;
}

unfoldable pub tail_row : OutboxRow → Tail → Tail
unfolding publish_some extract_event
tail_row row t =
    if is_seen row.id t.seen
    then t
    else publish_some (record t { seen = (row.id, row.occurred_at) ∷ t.seen })
        (extract_event row.id row.occurred_at row.payload)

unfoldable pub tail_rows : List OutboxRow → Tail → Tail
unfolding tail_row
tail_rows [] t = t
tail_rows (row ∷ rows) t = tail_rows rows (tail_row row t)

-- `seen.retain(...)` at the replica's clock
unfoldable pub prune : ℕ → ℕ → Seen → Seen
prune now window seen = filterb (λ s. within now window s.1) seen

abbrev polled : Tail → Seen × RealtimeRegistry × Result Text ℕ
polled t = (t.seen, t.registry, ok t.published)

-- from the answer of the database on
abbrev pub on_rows :
    ℕ
    → ℕ
    → Seen
    → RealtimeRegistry
    → Result Text (List OutboxRow)
    → Seen × RealtimeRegistry × Result Text ℕ
unfolding tail_rows read_window
on_rows db_now window seen registry (err e) = (seen, registry, err e)
on_rows db_now window seen registry (ok table) = polled (
    tail_rows (read_window db_now window table)
      (record { seen = seen; registry = registry; published = 0 }))

unfoldable pub poll_once :
    ℕ
    → ℕ
    → ℕ
    → Result Text (List OutboxRow)
    → RealtimeRegistry
    → Seen
    → Seen × RealtimeRegistry × Result Text ℕ
unfolding on_rows prune
poll_once now db_now window answer registry seen =
    on_rows db_now window (prune now window seen) registry answer
