-- ===== src/Inbound.antt =====
-- The inbound gateway: src/application/service/mail_inbound_service.rs with the statements of
-- src/infrastructure/persistence/inbound_repository.rs and alias_resolution_repository.rs, and
-- `split_address` of src/application/service/mail_server_query_service.rs.
-- SHA-256 (`sha`) and PostgreSQL's `lower` are parameters. Where a statement says `LIMIT 1` the
-- first row of the table is taken. The bytes of the token's hash are compared as in the code.
pub mod Bytes
pub mod Routing
pub mod Dedup
pub mod Auth
mod Scenarios
use backbone_mail.Prelude.{
  ℕ, ◌+◌, Bool, true, false, ◌&&◌, ◌||◌, not, List, [], ◌∷◌, ◌++◌, Option, none, some, any, find,
  is_empty, is_some, or_else, ◌==◌, if◌then◌else◌, Result, ok, err, ◌>>=◌, ◌>>◌, refuse_if, map_err,
}
use backbone_mail.Prelude.Text.{
  Text, codes, text_eq, trim, is_blank, to_ascii_lowercase, rsplit_once,
}
use backbone_mail.Store.{Db, MessageRow, Event, Value, stage_bus_event}
use backbone_mail.Store.Channel.{Uuid, ChannelKey, record_channel, ops_channel}
use backbone_mail.Queue.{update_rows}
use backbone_mail.Status.{DbError, unique_violation, aborted_transaction}
use Bytes.{const_eq}
use Routing.{
  InboundMessage, InboundServerRow, Gateway, has_id, find_by_message_id, sender_allowed, route,
}

pub data MailInboundError : Type 0 where
  auth : MailInboundError
  invalid : Text → MailInboundError
  db_error : DbError → MailInboundError

pub data InboundOutcome : Type 0 where
  routed : Uuid → Option Text → Option Uuid → InboundOutcome
  duplicate : Uuid → InboundOutcome
  rejected : InboundOutcome
  dropped : InboundOutcome

abbrev gateway_ops_channel : ChannelKey
gateway_ops_channel = ops_channel (codes "mail.gateway_ops")

unfoldable pub rejected_event : Uuid → InboundMessage → Event
rejected_event server msg = record {
  event_type = codes "InboundEmailRejected";
  aggregate_type = codes "FetchmailServer";
  aggregate_id = server;
  channel = gateway_ops_channel;
  message_type = codes "InboundEmailRejected";
  payload =
      (codes "server_id", Value.uuid server)
      ∷ (codes "email_from", Value.text msg.from)
      ∷ (codes "message_id", Value.opt_text msg.message_id)
      ∷ [];
}

unfoldable pub dropped_event : Uuid → InboundMessage → Event
dropped_event server msg = record {
  event_type = codes "InboundEmailDropped";
  aggregate_type = codes "FetchmailServer";
  aggregate_id = server;
  channel = gateway_ops_channel;
  message_type = codes "InboundEmailDropped";
  payload =
      (codes "server_id", Value.uuid server)
      ∷ (codes "email_from", Value.text msg.from)
      ∷ (codes "to", Value.texts msg.to)
      ∷ (codes "reason", Value.text (codes "no_parent_no_alias_no_default_model"))
      ∷ [];
}

abbrev landing_channel : Text → Option Uuid → ChannelKey
landing_channel model none = gateway_ops_channel
landing_channel model (some id) = record_channel model id

unfoldable pub routed_event : Uuid → Uuid → Text → Option Uuid → InboundMessage → Event
routed_event id server model res_id msg = record {
  event_type = codes "InboundEmailRouted";
  aggregate_type = codes "MailMessage";
  aggregate_id = id;
  channel = landing_channel model res_id;
  message_type = codes "InboundEmailRouted";
  payload =
      (codes "message_row", Value.uuid id)
      ∷ (codes "model", Value.text model)
      ∷ (codes "res_id", Value.opt_uuid res_id)
      ∷ (codes "email_from", Value.text msg.from)
      ∷ (codes "server_id", Value.uuid server)
      ∷ [];
}

unfoldable pub message_row : Uuid → Text → Option Uuid → InboundMessage → MessageRow
message_row id model res_id msg = record {
  id = id;
  subject = msg.subject;
  body = msg.body_html;
  message_type = codes "email";
  subtype_id = none;
  is_internal = false;
  author_id = none;
  author_guest_id = none;
  email_from = some msg.from;
  message_id = msg.message_id;
  reply_to = none;
  model = some model;
  res_id = res_id;
  record_name = none;
}

-- the unique partial index on `message_id`
abbrev pub is_taken : Option Text → List MessageRow → Bool
is_taken none messages = false
is_taken (some mid) messages = any (has_id mid) messages

unfoldable pub touch_server_success : Uuid → ℕ → List InboundServerRow → List InboundServerRow
touch_server_success server at =
    update_rows (λ (s : InboundServerRow). s.id == server)
      (λ (s : InboundServerRow). record s {
        last_fetch_at = some at;
        error_at = none;
        error_message = none;
      })

-- Step ②d. `others` are the messages that other transactions commit between the probe and the
-- insert. An insert that the index refuses aborts the transaction, so the probe after it fails.
unfoldable pub store_message :
    Uuid
    → ℕ
    → List MessageRow
    → Uuid
    → Text
    → Option Uuid
    → InboundMessage
    → Gateway
    → Result DbError (Gateway × InboundOutcome)
store_message id at others server model res_id msg g =
    if is_taken msg.message_id (g.db.messages ++ others)
    then err aborted_transaction
    else (let db : Db = record g.db {
      messages = (g.db.messages ++ others) ++ message_row id model res_id msg ∷ [];
    } in
        let staged : Db = stage_bus_event (routed_event id server model res_id msg) db in
        ok (
          record g { db = staged; servers = touch_server_success server at g.servers },
          routed id (some model) res_id,
        ))

abbrev stage_in : Event → Gateway → Gateway
stage_in e g = record g { db = stage_bus_event e g.db }

-- what follows the routing
abbrev pub land :
    Uuid
    → ℕ
    → List MessageRow
    → Uuid
    → InboundMessage
    → Gateway
    → Option Text × Option Uuid
    → Result DbError (Gateway × InboundOutcome)
land id at others server msg g (none, res_id) = ok (stage_in (dropped_event server msg) g, dropped)
land id at others server msg g (some model, res_id) =
    store_message id at others server model res_id msg g

-- the probe of step ②a
abbrev pub probe : Option Text → List MessageRow → Option Uuid
probe none messages = none
probe (some mid) messages = find_by_message_id mid messages

-- what follows the allowlist, and what follows the probe
abbrev pub after_allowlist :
    Bool
    → Uuid
    → ℕ
    → List MessageRow
    → Uuid
    → InboundMessage
    → Gateway
    → Option Text × Option Uuid
    → Result DbError (Gateway × InboundOutcome)
after_allowlist false id at others server msg g thread =
    ok (stage_in (rejected_event server msg) g, rejected)
after_allowlist true id at others server msg g thread = land id at others server msg g thread

abbrev pub after_probe :
    Option Uuid
    → Bool
    → Uuid
    → ℕ
    → List MessageRow
    → Uuid
    → InboundMessage
    → Gateway
    → Option Text × Option Uuid
    → Result DbError (Gateway × InboundOutcome)
after_probe (some existing) allowed id at others server msg g thread = ok (g, duplicate existing)
after_probe none allowed id at others server msg g thread =
    after_allowlist allowed id at others server msg g thread

unfoldable pub process_in_tx :
    (Text → Text)
    → Uuid
    → ℕ
    → List MessageRow
    → Uuid
    → Option Text
    → InboundMessage
    → Gateway
    → Result DbError (Gateway × InboundOutcome)
process_in_tx lower id at others server default msg g =
    after_probe (probe msg.message_id g.db.messages)
      (sender_allowed lower server msg.from g.allowed) id at others server msg g
      (route lower default msg g)

unfoldable pub find_server : Uuid → List InboundServerRow → Option InboundServerRow
find_server server rows = find (λ (s : InboundServerRow). s.id == server && not s.deleted) rows

-- step ①: the server's default model, or the one answer of every refusal
unfoldable pub authenticate :
    (Text → Text) → Text → Option InboundServerRow → Result MailInboundError (Option Text)
authenticate sha token none = err auth
authenticate sha token (some s) = do
  refuse_if (not s.active) auth
  refuse_if (not (const_eq (sha token) (to_ascii_lowercase s.token_hash))) auth
  ok s.default_thread_model

unfoldable pub process_inbound :
    (Text → Text)
    → (Text → Text)
    → Uuid
    → ℕ
    → List MessageRow
    → Uuid
    → Text
    → InboundMessage
    → Gateway
    → Result MailInboundError (Gateway × InboundOutcome)
process_inbound sha lower id at others server token msg g = do
  refuse_if (is_blank msg.from || is_empty msg.to) (invalid (codes "from and to are required"))
  default ← authenticate sha token (find_server server g.servers)
  map_err (process_in_tx lower id at others server default msg g) db_error
