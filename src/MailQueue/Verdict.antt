-- ===== src/MailQueue/Verdict.antt =====
-- The verdicts on a queued mail: `mark_sent`, `mark_failed`, `requeue` and the notifications linked
-- to the row, with the failure vocabulary and the split of the recipients.
use backbone_mail.Prelude.{
  Bool, true, false, ◌&&◌, ◌||◌, not, List, [], ◌∷◌, ◌++◌, Option, none, some, any, filterb,
  is_empty, ◌==◌, if◌then◌else◌, Result, ok, err, ◌>>=◌, map_err,
}
use backbone_mail.Prelude.Text.{Text, codes, text_eq, trim, split_on}
use backbone_mail.StateMachine.MailHooks.{MailHooksState}
use backbone_mail.StateMachine.MailNotificationHooks
use backbone_mail.StateMachine.MailNotificationHooks.{MailNotificationHooksState}
use backbone_mail.Store.{Db, MailRow, NotificationRow, Event, Value, stage_bus_event}
use backbone_mail.Store.Channel.{Uuid, ChannelKey, partner_channel, mail_channel}
use backbone_mail.Queue.{update_rows}
use backbone_mail.Status.{DbError, invalid_enum, is_label, advance_notification_status}
use backbone_mail.MailQueue.{MailQueueError, db_error, is_outgoing, is_exception}

abbrev pub mail_failure_types : List Text
mail_failure_types =
    codes "mail_smtp"
    ∷ codes "mail_email_invalid"
    ∷ codes "mail_bounce"
    ∷ codes "mail_blacklist"
    ∷ codes "mail_recipient"
    ∷ codes "mail_server"
    ∷ codes "unknown"
    ∷ []

unfoldable pub normalize_failure_type : Text → Text
normalize_failure_type raw =
    if text_eq raw (codes "mail_smtp")
    then codes "mail_smtp"
    else if text_eq raw (codes "mail_email_invalid")
    then codes "mail_email_invalid"
    else if text_eq raw (codes "mail_bounce")
    then codes "mail_bounce"
    else if text_eq raw (codes "mail_blacklist")
    then codes "mail_blacklist"
    else if text_eq raw (codes "mail_recipient")
    then codes "mail_recipient"
    else if text_eq raw (codes "mail_server")
    then codes "mail_server"
    else if text_eq raw (codes "mail_email_missing")
    then codes "mail_recipient"
    else if text_eq raw (codes "mail_from_invalid") || text_eq raw (codes "mail_from_missing")
    then codes "mail_server"
    else codes "unknown"

-- the inner loop of `split_recipients` over one list of addresses
unfoldable pub keep_trimmed : List Text → List Text
keep_trimmed [] = []
keep_trimmed (p ∷ ps) =
    let rest = keep_trimmed ps in if is_empty (trim p) then rest else trim p ∷ rest

abbrev pub addresses_of : Option Text → List Text
addresses_of none = []
addresses_of (some list) = keep_trimmed (split_on b',' list)

unfoldable pub split_recipients : Option Text → Option Text → List Text
unfolding keep_trimmed
split_recipients to cc = addresses_of to ++ addresses_of cc

-- `state IN ('outgoing', 'exception')`, for one row
unfoldable pub is_open_mail : Uuid → MailRow → Bool
is_open_mail id m = m.id == id && (is_outgoing m.state || is_exception m.state)

unfoldable pub write_sent : MailRow → MailRow
write_sent m = record m { state = MailHooksState.sent; failure_type = none; failure_reason = none }

unfoldable pub write_failed : Text → Option Text → MailRow → MailRow
write_failed failure_type reason m = record m {
  state = MailHooksState.exception;
  failure_type = some failure_type;
  failure_reason = reason;
}

unfoldable pub is_requeueable : Uuid → MailRow → Bool
is_requeueable id m = m.id == id && is_exception m.state

unfoldable pub write_requeued : MailRow → MailRow
write_requeued m = record m {
  state = MailHooksState.outgoing;
  failure_type = none;
  failure_reason = none;
}

abbrev pub links_to : Uuid → NotificationRow → Bool
links_to mail n = elim n.mail_mail_id_int [ none ↦ false | some m ↦ m == mail ]

abbrev partner_or_mail : Option Uuid → Uuid → ChannelKey
partner_or_mail none mail = mail_channel mail
partner_or_mail (some p) mail = partner_channel p

unfoldable pub status_changed : Uuid → NotificationRow → MailNotificationHooksState → Event
unfolding MailNotificationHooks.state_name
status_changed mail n status = record {
  event_type = codes "NotificationStatusChanged";
  aggregate_type = codes "MailNotification";
  aggregate_id = n.id;
  channel = partner_or_mail n.res_partner_id mail;
  message_type = codes "NotificationStatusChanged";
  payload =
      (codes "notification_id", Value.uuid n.id)
      ∷ (codes "mail_id", Value.uuid mail)
      ∷ (codes "notification_status", Value.text (MailNotificationHooks.state_name status))
      ∷ [];
}

-- the event of one linked row, staged if its status advanced
abbrev pub stage_advanced : Uuid → NotificationRow → Db × Option MailNotificationHooksState → Db
stage_advanced mail n (db, none) = db
stage_advanced mail n (db, some status) = stage_bus_event (status_changed mail n status) db

-- the loop of `advance_linked_notifications` over the rows that it read
unfoldable pub advance_each :
    Uuid
    → MailNotificationHooksState
    → Option Text
    → Option Text
    → List NotificationRow
    → Db
    → Result DbError Db
advance_each mail target failure_type reason [] db = ok db
advance_each mail target failure_type reason (n ∷ rows) db =
    advance_notification_status n.id target failure_type reason db >>= λ done.
    advance_each mail target failure_type reason rows (stage_advanced mail n done)

unfoldable pub advance_linked_notifications :
    Uuid → MailNotificationHooksState → Option Text → Option Text → Db → Result DbError Db
unfolding advance_each
advance_linked_notifications mail target failure_type reason db =
    advance_each mail target failure_type reason (filterb (links_to mail) db.notifications) db

unfoldable pub mark_sent : Uuid → Db → Result MailQueueError (Db × Bool)
mark_sent id db =
    let db' = record db { mails = update_rows (is_open_mail id) write_sent db.mails } in
    if any (is_open_mail id) db.mails
    then (map_err (advance_linked_notifications id MailNotificationHooksState.pending none none db')
          db_error
        >>= λ after. ok (after, true))
    else ok (db, false)

unfoldable pub mark_failed : Uuid → Text → Option Text → Db → Result MailQueueError (Db × Bool)
unfolding is_label
mark_failed id failure_type reason db =
    let db' = record db {
      mails = update_rows (is_open_mail id) (write_failed failure_type reason) db.mails;
    } in
    if not (is_label mail_failure_types (some failure_type))
    then err (db_error (invalid_enum (codes "mail_failure_type")))
    else if any (is_open_mail id) db.mails
    then (map_err
          (advance_linked_notifications id MailNotificationHooksState.exception (some failure_type)
            reason db')
          db_error
        >>= λ after. ok (after, true))
    else ok (db, false)

unfoldable pub requeue : Uuid → Db → Db × Bool
requeue id db = (
  record db { mails = update_rows (is_requeueable id) write_requeued db.mails },
  any (is_requeueable id) db.mails,
)
