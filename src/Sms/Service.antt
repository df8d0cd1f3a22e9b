-- ===== src/Sms/Service.antt =====
-- `SmsWriteService` of src/application/service/sms_write_service.rs: the enqueue, the verdict of a
-- provider, and the seam for late verdicts.
use backbone_mail.Prelude.{
  ℕ, Bool, true, false, List, [], ◌∷◌, ◌++◌, Option, none, some, any, find, unwrap_or, ◌==◌,
  if◌then◌else◌, Result, ok, err, ◌>>=◌, ◌>>◌, refuse_if, map_err,
}
use backbone_mail.Prelude.Text.{Text, codes, text_eq, is_blank}
use backbone_mail.StateMachine.SmsHooks.{SmsHooksState}
use backbone_mail.StateMachine.MailNotificationHooks
use backbone_mail.StateMachine.MailNotificationHooks.{MailNotificationHooksState}
use backbone_mail.Store.{
  Db, SmsRow, TrackerRow, NotificationRow, Event, Value, stage_bus_event, insert_by,
}
use backbone_mail.Store.Channel.{
  Uuid, nil_uuid, ChannelKey, record_channel, partner_channel, message_channel, ops_channel,
}
use backbone_mail.Status.{DbError, advance_notification_status}
use backbone_mail.Sms.{
  sms_state_to_notification_status, apply_outcome, apply_outcome_from, mirror_tracker_state,
  as_notification_status,
}

pub data SmsError : Type 0 where
  db_error : DbError → SmsError
  invalid : Text → SmsError

-- src/application/service/sms_ports.rs
pub record SmsSendRequest : Type 0 where
  pub uuid : Text
  pub number : Text
  pub body : Text

pub data SmsSendOutcome : Type 0 where
  processing accepted delivered : SmsSendOutcome

pub record SmsSendFailure : Type 0 where
  pub failure_type : Text
  pub message : Text
  pub iap_status_code : Option ℕ

pub data OutcomeApplied : Type 0 where
  accepted delivered failed replay : OutcomeApplied

abbrev thread_or_message : Option Text → Option Uuid → Option Uuid → ChannelKey
thread_or_message (some m) (some r) message = record_channel m r
thread_or_message none _ (some message) = message_channel message
thread_or_message (some _) none (some message) = message_channel message
thread_or_message none _ none = ops_channel (codes "mail.message_")
thread_or_message (some _) none none = ops_channel (codes "mail.message_")

-- `INSERT … ON CONFLICT (sms_uuid) DO NOTHING`
abbrev add_tracker : TrackerRow → List TrackerRow → List TrackerRow
add_tracker t trackers =
    if any (λ (u : TrackerRow). text_eq u.sms_uuid t.sms_uuid) trackers
    then trackers
    else trackers ++ t ∷ []

-- `enqueue`, with the two fresh ids as its first arguments
unfoldable pub enqueue :
    Uuid
    → Text
    → Text
    → Text
    → Option Uuid
    → Option Uuid
    → Option Text
    → Option Uuid
    → Db
    → Result SmsError (Db × Uuid × Text)
enqueue id uuid number body message notification model res_id db = do
  refuse_if (is_blank number) (invalid (codes "number is required"))
  refuse_if (is_blank body) (invalid (codes "body is required"))
  let row : SmsRow = record {
    id = id;
    uuid = uuid;
    number = number;
    body = body;
    state = SmsHooksState.outgoing;
    failure_type = none;
    error_message = none;
    iap_status_code = none;
    mail_message_id = message;
    swept = false;
  }
  let tracker : TrackerRow = record {
    sms_uuid = uuid;
    message_id = message;
    notification_id = notification;
    state = MailNotificationHooksState.process;
  }
  let event : Event = record {
    event_type = codes "SmsCreated";
    aggregate_type = codes "Sms";
    aggregate_id = id;
    channel = thread_or_message model res_id message;
    message_type = codes "SmsCreated";
    payload =
        (codes "sms_id", Value.uuid id)
        ∷ (codes "uuid", Value.text uuid)
        ∷ (codes "number", Value.text number)
        ∷ [];
  }
  let written : Db = record db {
    sms = insert_by (λ (r : SmsRow). r.id) row db.sms;
    trackers = add_tracker tracker db.trackers;
  }
  ok (stage_bus_event event written, id, uuid)

-- what a provider's answer comes to: the target, the failure, and how it counts when it is new
pub record Verdict : Type 0 where
  pub state : Text
  pub failure_type : Option Text
  pub error_message : Option Text
  pub iap_code : Option ℕ
  pub applied_when_new : OutcomeApplied

abbrev succeeded : Text → OutcomeApplied → Verdict
succeeded state applied = record {
  state = state;
  failure_type = none;
  error_message = none;
  iap_code = none;
  applied_when_new = applied;
}

abbrev pub verdict_of : Result SmsSendFailure SmsSendOutcome → Verdict
verdict_of (ok SmsSendOutcome.processing) = succeeded (codes "process") OutcomeApplied.replay
verdict_of (ok SmsSendOutcome.accepted) = succeeded (codes "pending") OutcomeApplied.accepted
verdict_of (ok SmsSendOutcome.delivered) = succeeded (codes "sent") OutcomeApplied.delivered
verdict_of (err f) = record {
  state = codes "error";
  failure_type = some f.failure_type;
  error_message = some f.message;
  iap_code = f.iap_status_code;
  applied_when_new = OutcomeApplied.failed;
}

unfoldable pub find_notification_id_by_sms_uuid : Text → Db → Option Uuid
find_notification_id_by_sms_uuid uuid db =
    elim (find (λ (t : TrackerRow). text_eq t.sms_uuid uuid) db.trackers) [
      | none ↦ none
      | some t ↦ t.notification_id
    ]

-- the partner of `notification_status`
abbrev partner_of : Uuid → Db → Option Uuid
partner_of nid db = elim (find (λ (n : NotificationRow). n.id == nid) db.notifications) [
  | none ↦ none
  | some n ↦ n.res_partner_id
]

abbrev recipient_channel : Option Uuid → Option Uuid → ChannelKey
recipient_channel (some p) message = partner_channel p
recipient_channel none message = message_channel (unwrap_or message nil_uuid)

unfoldable pub status_event :
    Text → Text → Option Uuid → Uuid → MailNotificationHooksState → Db → Event
unfolding MailNotificationHooks.state_name
status_event uuid state message nid status db = record {
  event_type = codes "NotificationStatusChanged";
  aggregate_type = codes "MailNotification";
  aggregate_id = nid;
  channel = recipient_channel (partner_of nid db) message;
  message_type = codes "NotificationStatusChanged";
  payload =
      (codes "notification_id", Value.uuid nid)
      ∷ (codes "sms_uuid", Value.text uuid)
      ∷ (codes "notification_status", Value.text (MailNotificationHooks.state_name status))
      ∷ (codes "sms_state", Value.text state)
      ∷ [];
}

-- the pump on the notification that the tracker names: the store, and the new status if it advanced
unfoldable pub advance_found :
    Option Uuid
    → Text
    → Option Text
    → Option Text
    → Db
    → Result DbError (Db × Option (Uuid × MailNotificationHooksState))
advance_found none status failure_type reason db = ok (db, none)
advance_found (some nid) status failure_type reason db = as_notification_status status >>= λ target.
    advance_notification_status nid target failure_type reason db >>= λ done.
    ok (done.0, elim done.1 [ none ↦ none | some s ↦ some (nid, s) ])

unfoldable pub advance_tracked :
    Text
    → Option Text
    → Option Text
    → Option Text
    → Db
    → Result DbError (Db × Option (Uuid × MailNotificationHooksState))
advance_tracked uuid none failure_type reason db = ok (db, none)
advance_tracked uuid (some status) failure_type reason db =
    advance_found (find_notification_id_by_sms_uuid uuid db) status failure_type reason db

abbrev pub stage_tracked :
    Text → Text → Option Uuid → Db × Option (Uuid × MailNotificationHooksState) → Db
stage_tracked uuid state message (db, none) = db
stage_tracked uuid state message (db, some (nid, status)) =
    stage_bus_event (status_event uuid state message nid status db) db

unfoldable pub apply_verdict :
    Uuid → Text → Option Uuid → Verdict → Db → Result DbError (Db × OutcomeApplied)
apply_verdict id uuid message v db = do
  done ← apply_outcome id v.state v.failure_type v.error_message v.iap_code db
  let mapped = sms_state_to_notification_status v.state
  mirrored ← mirror_tracker_state uuid (unwrap_or mapped v.state) done.0
  pumped ← advance_tracked uuid mapped v.failure_type v.error_message mirrored
  ok (
    stage_tracked uuid v.state message pumped,
    (if done.1 then v.applied_when_new else OutcomeApplied.replay),
  )

unfoldable pub apply_outcome_in_tx :
    Uuid
    → Text
    → Option Uuid
    → Result SmsSendFailure SmsSendOutcome
    → Db
    → Result SmsError (Db × OutcomeApplied)
unfolding apply_verdict
apply_outcome_in_tx id uuid message result db =
    map_err (apply_verdict id uuid message (verdict_of result) db) db_error

-- the writes of `advance_state` for the row's id
unfoldable pub advance_row_state :
    Uuid → Text → Text → Option Text → Option Text → Db → Result DbError (Db × Bool)
advance_row_state id uuid target failure_type error_message db =
    apply_outcome_from id target failure_type error_message none db >>= λ done. elim done.1 [
      | false ↦ ok done
      | true ↦
          let mapped = sms_state_to_notification_status target in
          mirror_tracker_state uuid (unwrap_or mapped target) done.0 >>= λ mirrored.
          advance_tracked uuid mapped failure_type error_message mirrored >>= λ pumped.
          ok (pumped.0, true)
    ]

-- `advance_state` after the lookup of the row
abbrev pub advance_found_row :
    Option SmsRow → Text → Text → Option Text → Option Text → Db → Result SmsError (Db × Bool)
advance_found_row none uuid target failure_type error_message db =
    err (invalid (codes "no sms with uuid " ++ uuid))
advance_found_row (some r) uuid target failure_type error_message db =
    map_err (advance_row_state r.id uuid target failure_type error_message db) db_error

unfoldable pub advance_state :
    Text → Text → Option Text → Option Text → Db → Result SmsError (Db × Bool)
advance_state uuid target failure_type error_message db =
    advance_found_row (find (λ (r : SmsRow). text_eq r.uuid uuid) db.sms) uuid target failure_type
      error_message db
