-- ===== src/Store.antt =====
-- The tables of the schema `messaging` that the services write, the outbox events, and the bus
-- channel keys of src/domain/event/constants.rs.
-- A table is the list of its rows; those that a statement reads by `ORDER BY id` are kept in the
-- order of their ids. Identifiers and instants are numbers.
pub mod Channel
use backbone_mail.Prelude.{ℕ, Bool, List, [], ◌∷◌, ◌++◌, Option, none, some, ltb, if◌then◌else◌}
use backbone_mail.Prelude.Text.{Text}
use backbone_mail.Prelude.Json.{Json}
use backbone_mail.StateMachine.MailHooks.{MailHooksState}
use backbone_mail.StateMachine.SmsHooks.{SmsHooksState}
use backbone_mail.StateMachine.MailNotificationHooks.{MailNotificationHooksState}
use Channel.{Uuid, ChannelKey}

-- infrastructure/persistence/message_pipeline_repository.rs, `NewMailMessageRow`
pub record MessageRow : Type 0 where
  pub id : Uuid
  pub subject : Option Text
  pub body : Text
  pub message_type : Text
  pub subtype_id : Option Uuid
  pub is_internal : Bool
  pub author_id : Option Uuid
  pub author_guest_id : Option Uuid
  pub email_from : Option Text
  pub message_id : Option Text
  pub reply_to : Option Text
  pub model : Option Text
  pub res_id : Option Uuid
  pub record_name : Option Text

pub data NotificationChannel : Type 0 where
  inbox email sms : NotificationChannel

-- a row of `mail_notifications`
pub record NotificationRow : Type 0 where
  pub id : Uuid
  pub mail_message_id : Uuid
  pub res_partner_id : Option Uuid
  pub notification_type : NotificationChannel
  pub notification_status : MailNotificationHooksState
  pub failure_type : Option Text
  pub failure_reason : Option Text
  pub mail_mail_id_int : Option Uuid

-- a row of `mails`
pub record MailRow : Type 0 where
  pub id : Uuid
  pub mail_message_id : Uuid
  pub state : MailHooksState
  pub failure_type : Option Text
  pub failure_reason : Option Text
  pub email_to : Option Text
  pub email_cc : Option Text
  pub reply_to : Option Text
  pub headers : Json
  pub scheduled_date : Option ℕ

-- a row of `sms`; `swept` is whether `metadata` carries the marker `swept_at`
pub record SmsRow : Type 0 where
  pub id : Uuid
  pub uuid : Text
  pub number : Text
  pub body : Text
  pub state : SmsHooksState
  pub failure_type : Option Text
  pub error_message : Option Text
  pub iap_status_code : Option ℕ
  pub mail_message_id : Option Uuid
  pub swept : Bool

-- a row of `sms_trackers`
pub record TrackerRow : Type 0 where
  pub sms_uuid : Text
  pub message_id : Option Uuid
  pub notification_id : Option Uuid
  pub state : MailNotificationHooksState

-- A field of an event's payload.
pub data Value : Type 0 where
  uuid : Uuid → Value
  opt_uuid : Option Uuid → Value
  text : Text → Value
  opt_text : Option Text → Value
  flag : Bool → Value
  count : ℕ → Value
  uuids : List Uuid → Value
  texts : List Text → Value

-- what `stage_bus_event` writes: the event's type, its aggregate and its envelope
pub record Event : Type 0 where
  pub event_type : Text
  pub aggregate_type : Text
  pub aggregate_id : Uuid
  pub channel : ChannelKey
  pub message_type : Text
  pub payload : List (Text × Value)

pub record Db : Type 0 where
  pub messages : List MessageRow
  pub notifications : List NotificationRow
  pub mails : List MailRow
  pub sms : List SmsRow
  pub trackers : List TrackerRow
  pub outbox : List Event

unfoldable pub stage_bus_event : Event → Db → Db
stage_bus_event e db = record db { outbox = db.outbox ++ e ∷ [] }

-- `INSERT` into a table that is kept in the order of a key
module _ {A : Type 0} (key : A → ℕ) where
  unfoldable pub insert_by : A → List A → List A
  insert_by a [] = a ∷ []
  insert_by a (x ∷ xs) = if ltb (key a) (key x) then a ∷ x ∷ xs else x ∷ insert_by a xs
