-- ===== src/MailQueue.antt =====
-- The outgoing mail queue: src/application/service/mail_queue_write_service.rs with the statements
-- of src/infrastructure/persistence/mail_queue_repository.rs.
-- A transaction is a function into `Result`: on an error its writes are dropped, so none are
-- returned. Of the database only the refused casts are errors here; a lost connection is not.
pub mod Verdict
pub mod Process
pub mod Vocabulary
pub mod Recipients
pub mod Rows
pub mod Linked
pub mod Drain
pub mod Crash
mod Scenarios
use backbone_mail.Prelude.{
  ℕ, zero, suc, ◌+◌, Bool, true, false, ◌&&◌, ◌||◌, not, List, [], ◌∷◌, ◌++◌, map, Option, none,
  some, any, filterb, find, length, is_empty, unwrap_or, ltb, leb, ◌==◌, if◌then◌else◌, Result, ok,
  err, ◌>>=◌, ◌>>◌, refuse_if, map_err,
}
use backbone_mail.Prelude.Text.{Text, codes, text_eq, trim, is_blank, split_on}
use backbone_mail.Prelude.Json.{Json, Entries}
use backbone_mail.StateMachine.MailHooks.{MailHooksState}
use backbone_mail.StateMachine.MailNotificationHooks
use backbone_mail.StateMachine.MailNotificationHooks.{MailNotificationHooksState}
use backbone_mail.Store.{
  Db, MailRow, MessageRow, NotificationRow, Event, Value, stage_bus_event, insert_by,
}
use backbone_mail.Store.Channel.{
  Uuid, ChannelKey, record_channel, partner_channel, message_channel, mail_channel,
}
use backbone_mail.Queue.{claim, update_rows}
use backbone_mail.Status.{DbError, invalid_enum, is_label, advance_notification_status}
use backbone_mail.MailHeaders.{Headers, MailHeaderError, mail_headers_from_json}

pub data MailQueueError : Type 0 where
  db_error : DbError → MailQueueError
  invalid : Text → MailQueueError
  header : MailHeaderError → MailQueueError

pub record MailDrainOutcome : Type 0 where
  pub claimed : ℕ
  pub sent : ℕ
  pub failed : ℕ

abbrev pub no_outcome : MailDrainOutcome
no_outcome = record { claimed = 0; sent = 0; failed = 0 }

abbrev message_or_record : Option Text → Option Uuid → Uuid → ChannelKey
message_or_record (some m) (some r) message = record_channel m r
message_or_record none _ message = message_channel message
message_or_record (some _) none message = message_channel message

abbrev headers_or_empty : Option Json → Result MailQueueError Json
headers_or_empty none = ok (Json.obj Entries.end)
headers_or_empty (some v) = map_err (mail_headers_from_json v) header >>= λ _. ok v

-- `enqueue`, with the fresh id as its first argument
unfoldable pub enqueue :
    Uuid
    → Uuid
    → Text
    → Option Text
    → Option Text
    → Option Json
    → Option ℕ
    → Option Text
    → Option Uuid
    → Db
    → Result MailQueueError (Db × Uuid)
enqueue id message to cc reply_to headers scheduled model res_id db = do
  refuse_if (is_blank to) (invalid (codes "email_to is required"))
  headers_json ← headers_or_empty headers
  let row : MailRow = record {
    id = id;
    mail_message_id = message;
    state = MailHooksState.outgoing;
    failure_type = none;
    failure_reason = none;
    email_to = some to;
    email_cc = cc;
    reply_to = reply_to;
    headers = headers_json;
    scheduled_date = scheduled;
  }
  let event : Event = record {
    event_type = codes "MailQueued";
    aggregate_type = codes "Mail";
    aggregate_id = id;
    channel = message_or_record model res_id message;
    message_type = codes "MailQueued";
    payload =
        (codes "mail_id", Value.uuid id)
        ∷ (codes "mail_message_id", Value.uuid message)
        ∷ (codes "email_to", Value.text to)
        ∷ [];
  }
  ok (stage_bus_event event (record db { mails = insert_by (λ m. m.id) row db.mails }), id)

abbrev pub is_outgoing : MailHooksState → Bool
is_outgoing MailHooksState.outgoing = true
is_outgoing MailHooksState.sent = false
is_outgoing MailHooksState.received = false
is_outgoing MailHooksState.exception = false
is_outgoing MailHooksState.cancel = false

abbrev pub is_exception : MailHooksState → Bool
is_exception MailHooksState.exception = true
is_exception MailHooksState.outgoing = false
is_exception MailHooksState.sent = false
is_exception MailHooksState.received = false
is_exception MailHooksState.cancel = false

abbrev pub is_due : ℕ → Option ℕ → Bool
is_due now none = true
is_due now (some at) = leb at now

-- the `WHERE` of the claim; `locked` are the rows that another transaction holds
unfoldable pub is_claimable : (Uuid → Bool) → ℕ → MailRow → Bool
is_claimable locked now m = is_outgoing m.state && is_due now m.scheduled_date && not (locked m.id)

-- the pre-write: the row is `exception` before anything is sent
unfoldable pub pre_write : MailRow → MailRow
pre_write m = record m { state = MailHooksState.exception; failure_type = some (codes "unknown") }

unfoldable pub claim_batch_for_drain : (Uuid → Bool) → ℕ → ℕ → Db → Db × List MailRow
claim_batch_for_drain locked batch now db =
    let (mails, rows) = claim (is_claimable locked now) pre_write batch db.mails in
    (record db { mails = mails }, rows)

unfoldable pub dispatch_requested : MailRow → Event
dispatch_requested m = record {
  event_type = codes "MailDispatchRequested";
  aggregate_type = codes "Mail";
  aggregate_id = m.id;
  channel = message_channel m.mail_message_id;
  message_type = codes "MailDispatchRequested";
  payload =
      (codes "mail_id", Value.uuid m.id)
      ∷ (codes "mail_message_id", Value.uuid m.mail_message_id)
      ∷ (codes "email_to", Value.opt_text m.email_to)
      ∷ (codes "email_cc", Value.opt_text m.email_cc)
      ∷ (codes "reply_to", Value.opt_text m.reply_to)
      ∷ [];
}

unfoldable pub stage_all : List Event → Db → Db
stage_all [] db = db
stage_all (e ∷ es) db = stage_all es (stage_bus_event e db)

-- the first transaction of a pass
unfoldable pub claim_pass : (Uuid → Bool) → ℕ → ℕ → Db → Db × List MailRow
unfolding claim_batch_for_drain stage_all
claim_pass locked batch now db =
    let (db', rows) = claim_batch_for_drain locked batch now db in
    (stage_all (map dispatch_requested rows) db', rows)
