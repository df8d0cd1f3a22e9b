-- ===== src/Sms.antt =====
-- The sms queue: the statements of src/infrastructure/persistence/sms_queue_repository.rs under the
-- trigger of the table `sms`, and the map from sms states to notification statuses of
-- src/application/service/sms_write_service.rs.
-- A cast of a text to an enum is a lookup of its label; an update that the trigger refuses is an
-- error of the whole transaction.
pub mod Service
pub mod Process
pub mod Seam
pub mod Pump
pub mod Drain
mod Scenarios
use backbone_mail.Prelude.{
  ℕ, zero, suc, ◌+◌, Bool, true, false, ◌&&◌, ◌||◌, not, List, [], ◌∷◌, ◌++◌, map, Option, none,
  some, any, find, unwrap_or, ◌==◌, if◌then◌else◌, Result, ok, err, ◌>>=◌, ◌>>◌, refuse_if, map_err,
  ok_or,
}
use backbone_mail.Prelude.Text.{Text, codes, text_eq, is_blank}
use backbone_mail.StateMachine.SmsHooks
use backbone_mail.StateMachine.SmsHooks.{SmsHooksState}
use backbone_mail.StateMachine.MailNotificationHooks
use backbone_mail.StateMachine.MailNotificationHooks.{MailNotificationHooksState}
use backbone_mail.Store.{Db, SmsRow, TrackerRow, insert_by}
use backbone_mail.Store.Channel.{Uuid}
use backbone_mail.Queue.{claim, update_rows}
use backbone_mail.Status.{DbError, invalid_enum, check_violation, sms_guard, is_label}

-- `sms_state_to_notification_status`
unfoldable pub sms_state_to_notification_status : Text → Option Text
sms_state_to_notification_status s =
    if text_eq s (codes "canceled")
    then some (codes "canceled")
    else if text_eq s (codes "process")
    then some (codes "process")
    else if text_eq s (codes "error")
    then some (codes "exception")
    else if text_eq s (codes "outgoing")
    then some (codes "ready")
    else if text_eq s (codes "sent")
    then some (codes "sent")
    else if text_eq s (codes "pending")
    then some (codes "pending")
    else none

-- `$2::sms_state` and `$2::mail_notification_status`
unfoldable pub as_sms_state : Text → Result DbError SmsHooksState
as_sms_state t =
    ok_or (find (λ s. text_eq t (SmsHooks.state_name s)) SmsHooks.all_states)
      (invalid_enum (codes "sms_state"))

unfoldable pub as_notification_status : Text → Result DbError MailNotificationHooksState
as_notification_status t =
    ok_or
      (find (λ s. text_eq t (MailNotificationHooks.state_name s)) MailNotificationHooks.all_states)
      (invalid_enum (codes "mail_notification_status"))

-- The enum `sms_failure_type` of the schema.
abbrev pub sms_failure_types : List Text
sms_failure_types =
    codes "sms_number_missing"
    ∷ codes "sms_number_format"
    ∷ codes "sms_country_not_supported"
    ∷ codes "sms_registration_needed"
    ∷ codes "sms_credit"
    ∷ codes "sms_server"
    ∷ codes "sms_acc"
    ∷ codes "sms_blacklist"
    ∷ codes "sms_duplicate"
    ∷ codes "sms_optout"
    ∷ codes "unknown"
    ∷ []

-- the columns that an outcome writes
pub record SmsWrite : Type 0 where
  pub state : SmsHooksState
  pub failure_type : Option Text
  pub error_message : Option Text
  pub iap_status_code : Option ℕ

unfoldable pub write_outcome : SmsWrite → SmsRow → SmsRow
write_outcome w r = record r {
  state = w.state;
  failure_type = w.failure_type;
  error_message = w.error_message;
  iap_status_code = w.iap_status_code;
}

-- an outcome's `UPDATE` under the trigger: the rows, and whether one matched
unfoldable pub guarded_update :
    (SmsRow → Bool) → SmsWrite → List SmsRow → Result DbError (List SmsRow × Bool)
guarded_update matches w rows =
    if any (λ r. matches r && not (sms_guard r.state w.state false)) rows
    then err check_violation
    else ok (update_rows matches (write_outcome w) rows, any matches rows)

abbrev pub is_process : SmsHooksState → Bool
is_process SmsHooksState.process = true
is_process SmsHooksState.outgoing = false
is_process SmsHooksState.pending = false
is_process SmsHooksState.sent = false
is_process SmsHooksState.error = false
is_process SmsHooksState.canceled = false

abbrev pub is_pending : SmsHooksState → Bool
is_pending SmsHooksState.pending = true
is_pending SmsHooksState.process = false
is_pending SmsHooksState.outgoing = false
is_pending SmsHooksState.sent = false
is_pending SmsHooksState.error = false
is_pending SmsHooksState.canceled = false

abbrev pub is_outgoing : SmsHooksState → Bool
is_outgoing SmsHooksState.outgoing = true
is_outgoing SmsHooksState.process = false
is_outgoing SmsHooksState.pending = false
is_outgoing SmsHooksState.sent = false
is_outgoing SmsHooksState.error = false
is_outgoing SmsHooksState.canceled = false

-- the drainer's guard, `state = 'process'`
unfoldable pub is_drained : Uuid → SmsRow → Bool
is_drained id r = r.id == id && is_process r.state

-- the seam's guard, `state = ANY('{process,pending}') AND state <> $2`
unfoldable pub is_seam : Uuid → SmsHooksState → SmsRow → Bool
is_seam id target r =
    r.id == id
    && ((is_process r.state || is_pending r.state)
        && not (SmsHooks.ordinal r.state == SmsHooks.ordinal target))

-- the casts of a statement that writes an outcome
unfoldable pub cast_outcome : Text → Option Text → Option Text → Option ℕ → Result DbError SmsWrite
cast_outcome target failure_type error_message iap = do
  state ← as_sms_state target
  refuse_if (not (is_label sms_failure_types failure_type))
      (invalid_enum (codes "sms_failure_type"))
  ok (record {
    state = state;
    failure_type = failure_type;
    error_message = error_message;
    iap_status_code = iap;
  })

unfoldable pub apply_outcome :
    Uuid → Text → Option Text → Option Text → Option ℕ → Db → Result DbError (Db × Bool)
apply_outcome id target failure_type error_message iap db = do
  w ← cast_outcome target failure_type error_message iap
  done ← guarded_update (is_drained id) w db.sms
  ok (record db { sms = done.0 }, done.1)

unfoldable pub apply_outcome_from :
    Uuid → Text → Option Text → Option Text → Option ℕ → Db → Result DbError (Db × Bool)
apply_outcome_from id target failure_type error_message iap db = do
  w ← cast_outcome target failure_type error_message iap
  done ← guarded_update (is_seam id w.state) w db.sms
  ok (record db { sms = done.0 }, done.1)

unfoldable pub mirror_tracker_state : Text → Text → Db → Result DbError Db
mirror_tracker_state uuid state db = do
  s ← as_notification_status state
  ok (record db {
    trackers = update_rows (λ t. text_eq t.sms_uuid uuid) (λ t. record t { state = s }) db.trackers;
  })

-- the claim: `outgoing → process`; `locked` are the rows that another transaction holds
unfoldable pub is_claimable : (Uuid → Bool) → SmsRow → Bool
is_claimable locked r = is_outgoing r.state && not (locked r.id)

unfoldable pub pick_up : SmsRow → SmsRow
pick_up r = record r { state = SmsHooksState.process }

unfoldable pub claim_batch_for_drain : (Uuid → Bool) → ℕ → Db → Db × List SmsRow
claim_batch_for_drain locked batch db =
    let (rows, claimed) = claim (is_claimable locked) pick_up batch db.sms in
    (record db { sms = rows }, claimed)
