-- ===== src/Status.antt =====
-- The status lattice of migrations/20260815220000_sms_monotonic_guard.up.sql (with the escape of
-- 20260815220007), the declared moves of
-- migrations/20260831220011_state_transition_check_mail_notifications_55eadcdc.up.sql, and
-- `advance_notification_status` of
-- src/infrastructure/persistence/message_pipeline_repository.rs over it.
pub mod Lattice
pub mod Machines
pub mod Refused
mod Scenarios
use backbone_mail.Prelude.{
  ℕ, Bool, true, false, List, [], ◌∷◌, Option, none, some, ltb, ◌==◌, ◌&&◌, not, any, if◌then◌else◌,
  Result, ok, err, or_else, ◌>>=◌,
}
use backbone_mail.Prelude.Text.{Text, codes, text_eq}
use backbone_mail.StateMachine.SmsHooks.{SmsHooksState}
use backbone_mail.StateMachine.MailNotificationHooks.{MailNotificationHooksState}
use backbone_mail.Store.{Db, NotificationRow}
use backbone_mail.Store.Channel.{Uuid}

-- What the database refuses a statement for: a text outside an enum, or a trigger or constraint.
pub data DbError : Type 0 where
  invalid_enum : Text → DbError
  check_violation : DbError
  unique_violation : DbError
  -- a statement after a failed one in the same transaction
  aborted_transaction : DbError

-- `messaging_status_rank` on the two enums
unfoldable pub notification_rank : MailNotificationHooksState → ℕ
notification_rank MailNotificationHooksState.ready = 0
notification_rank MailNotificationHooksState.process = 1
notification_rank MailNotificationHooksState.pending = 2
notification_rank MailNotificationHooksState.sent = 3
notification_rank MailNotificationHooksState.bounce = 100
notification_rank MailNotificationHooksState.exception = 100
notification_rank MailNotificationHooksState.canceled = 100

unfoldable pub sms_rank : SmsHooksState → ℕ
sms_rank SmsHooksState.outgoing = 0
sms_rank SmsHooksState.process = 1
sms_rank SmsHooksState.pending = 2
sms_rank SmsHooksState.sent = 3
sms_rank SmsHooksState.error = 100
sms_rank SmsHooksState.canceled = 100

-- `mail_notification_monotonic_guard`: may the update go through?
unfoldable pub notification_guard : MailNotificationHooksState → MailNotificationHooksState → Bool
unfolding notification_rank
notification_guard old new = not (ltb (notification_rank new) (notification_rank old))

-- `sms_state_monotonic_guard`; `minted` is whether this update sets `swept_at` where it was null
unfoldable pub sms_guard : SmsHooksState → SmsHooksState → Bool → Bool
unfolding sms_rank
sms_guard old new minted = if ltb (sms_rank new) (sms_rank old) then minted else true

-- The enum `notification_failure_type` of the schema.
abbrev pub notification_failure_types : List Text
notification_failure_types =
    codes "mail_smtp"
    ∷ codes "mail_email_invalid"
    ∷ codes "mail_bounce"
    ∷ codes "mail_blacklist"
    ∷ codes "mail_recipient"
    ∷ codes "mail_server"
    ∷ codes "unknown"
    ∷ codes "sms_number_missing"
    ∷ codes "sms_number_format"
    ∷ codes "sms_country_not_supported"
    ∷ codes "sms_registration_needed"
    ∷ codes "sms_credit"
    ∷ codes "sms_server"
    ∷ codes "sms_acc"
    ∷ codes "sms_blacklist"
    ∷ codes "sms_duplicate"
    ∷ codes "sms_optout"
    ∷ codes "sms_expired"
    ∷ codes "sms_invalid_destination"
    ∷ codes "sms_not_allowed"
    ∷ codes "sms_not_delivered"
    ∷ codes "sms_rejected"
    ∷ []

-- A cast of a nullable text to an enum, whose labels are given.
unfoldable pub is_label : List Text → Option Text → Bool
is_label labels none = true
is_label labels (some t) = any (text_eq t) labels

-- `mail_notifications_notification_status_transition_check`: the moves of the status that the
-- trigger declares; it refuses any other change of it.
unfoldable pub is_declared : MailNotificationHooksState → MailNotificationHooksState → Bool
is_declared MailNotificationHooksState.exception MailNotificationHooksState.bounce = true
is_declared MailNotificationHooksState.exception MailNotificationHooksState.pending = true
is_declared MailNotificationHooksState.pending MailNotificationHooksState.bounce = true
is_declared MailNotificationHooksState.pending MailNotificationHooksState.canceled = true
is_declared MailNotificationHooksState.pending MailNotificationHooksState.exception = true
is_declared MailNotificationHooksState.pending MailNotificationHooksState.sent = true
is_declared MailNotificationHooksState.process MailNotificationHooksState.bounce = true
is_declared MailNotificationHooksState.process MailNotificationHooksState.canceled = true
is_declared MailNotificationHooksState.process MailNotificationHooksState.exception = true
is_declared MailNotificationHooksState.process MailNotificationHooksState.pending = true
is_declared MailNotificationHooksState.process MailNotificationHooksState.sent = true
is_declared MailNotificationHooksState.ready MailNotificationHooksState.canceled = true
is_declared MailNotificationHooksState.ready MailNotificationHooksState.exception = true
is_declared MailNotificationHooksState.ready MailNotificationHooksState.pending = true
is_declared MailNotificationHooksState.ready MailNotificationHooksState.process = true
is_declared MailNotificationHooksState.ready MailNotificationHooksState.sent = true
is_declared _ _ = false

-- The row that `advance_notification_status` writes, and the status it returns. The statement
-- selects a row only of a lower rank; its update changes the status, so the trigger looks at it.
unfoldable pub advance_row :
    MailNotificationHooksState
    → Option Text
    → Option Text
    → NotificationRow
    → Result DbError (NotificationRow × Option MailNotificationHooksState)
unfolding notification_rank is_declared
advance_row target failure_type reason n =
    if ltb (notification_rank n.notification_status) (notification_rank target)
    then (if is_declared n.notification_status target
        then ok (
          record n {
            notification_status = target;
            failure_type = or_else failure_type n.failure_type;
            failure_reason = or_else reason n.failure_reason;
          },
          some target,
        )
        else err check_violation)
    else ok (n, none)

-- The row with the id, updated, and what was returned for it; ids are unique.
unfoldable pub advance_in :
    Uuid
    → MailNotificationHooksState
    → Option Text
    → Option Text
    → List NotificationRow
    → Result DbError (List NotificationRow × Option MailNotificationHooksState)
unfolding advance_row
advance_in id target failure_type reason [] = ok ([], none)
advance_in id target failure_type reason (n ∷ rows) =
    let later = advance_in id target failure_type reason rows in
    if n.id == id
    then (advance_row target failure_type reason n >>= λ here. ok (here.0 ∷ rows, here.1))
    else (later >>= λ below. ok (n ∷ below.0, below.1))

unfoldable pub advance_notification_status :
    Uuid
    → MailNotificationHooksState
    → Option Text
    → Option Text
    → Db
    → Result DbError (Db × Option MailNotificationHooksState)
unfolding advance_in is_label
advance_notification_status id target failure_type reason db =
    if is_label notification_failure_types failure_type
    then (advance_in id target failure_type reason db.notifications >>= λ done.
        ok (record db { notifications = done.0 }, done.1))
    else err (invalid_enum (codes "notification_failure_type"))
