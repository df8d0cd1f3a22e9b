-- ===== src/Sms/Scenarios.antt =====
-- A queue of two sms and a provider that accepts, with the theorems at them.
use backbone_mail.Prelude.{
  ℕ, suc, ◌≡◌, ◌⊎◌, refl, Bool, true, false, List, [], ◌∷◌, none, some, arith, any, count_if,
  if◌then◌else◌, Result, ok, err,
}
use backbone_mail.Prelude.Text.{Text, codes, text_eq}
use backbone_mail.StateMachine.SmsHooks
use backbone_mail.StateMachine.SmsHooks.{SmsHooksState, SmsHooksTransition}
use backbone_mail.Store.{Db, SmsRow, NotificationRow, NotificationChannel, TrackerRow}
use backbone_mail.StateMachine.MailNotificationHooks.{MailNotificationHooksState}
use backbone_mail.Store.Channel.{Uuid}
use backbone_mail.Queue.{update_rows}
use backbone_mail.Status.{
  advance_notification_status, advance_in, advance_row, is_declared, notification_rank,
  check_violation, is_label, sms_guard, sms_rank,
}
use backbone_mail.StateMachine.MailNotificationHooks
use backbone_mail.Sms.{
  apply_outcome, cast_outcome, apply_outcome_from, mirror_tracker_state, as_sms_state,
  write_outcome, as_notification_status, sms_state_to_notification_status, guarded_update,
  is_drained, is_seam,
}
use backbone_mail.Sms.Service.{
  SmsSendRequest, SmsSendOutcome, SmsSendFailure, OutcomeApplied, apply_verdict, advance_tracked,
  advance_found, apply_outcome_in_tx, find_notification_id_by_sms_uuid, advance_state, db_error,
  verdict_of,
}
use backbone_mail.Sms.Process.{no_drain, drain}
use backbone_mail.Sms.Pump.{
  write_of, tracker_target, IsKnown, IsWritten, IsRefusedAt, apply_outcome_in_tx_ends,
}
use backbone_mail.Sms.Seam.{sms_writes_legal, advance_state-regression}
use backbone_mail.Sms.Drain.{Ended, sms_drain_ends}

abbrev sms_of : Uuid → SmsHooksState → SmsRow
sms_of id state = record {
  id = id;
  uuid = id ∷ [];
  number = codes "+628123456789";
  body = codes "hi";
  state = state;
  failure_type = none;
  error_message = none;
  iap_status_code = none;
  mail_message_id = none;
  swept = false;
}

abbrev store_of : List SmsRow → Db
store_of rows = record {
  messages = [];
  notifications = [];
  mails = [];
  sms = rows;
  trackers = [];
  outbox = [];
}

abbrev two_sms : Db
two_sms = store_of (sms_of 1 SmsHooksState.outgoing ∷ sms_of 2 SmsHooksState.pending ∷ [])

abbrev refused : Result SmsSendFailure SmsSendOutcome
refused = err (record {
  failure_type = codes "sms_credit";
  message = codes "no credit";
  iap_status_code = none;
})

-- The sms is pending, and no tracker names a notification: the failure is a replay.
apply_outcome_in_tx_ends_example :
    ((db' : Db) × (apply_outcome_in_tx 2 (2 ∷ []) none refused two_sms
        ≡ ok (
          db',
          (if any (is_drained 2) two_sms.sms
              then (verdict_of refused).applied_when_new
              else OutcomeApplied.replay),
        ))
      × IsWritten 2 (2 ∷ []) (write_of refused) (tracker_target refused) two_sms db')
    ⊎ ((apply_outcome_in_tx 2 (2 ∷ []) none refused two_sms ≡ err (db_error check_violation))
        × IsRefusedAt
            (find_notification_id_by_sms_uuid (2 ∷ []) two_sms)
            (tracker_target refused)
            two_sms)
unfolding is_label text_eq
apply_outcome_in_tx_ends_example = apply_outcome_in_tx_ends 2 (2 ∷ []) none refused two_sms refl

advance_state-regression_example :
    advance_state (2 ∷ []) (codes "process") none none two_sms ≡ err (db_error check_violation)
unfolding text_eq
advance_state-regression_example =
    advance_state-regression (2 ∷ []) (sms_of 2 SmsHooksState.pending) two_sms refl refl

sms_writes_legal_example :
    (t : SmsHooksTransition) × (SmsHooks.can_transition SmsHooksState.pending t ≡ true)
    × (SmsHooks.target_state t ≡ SmsHooksState.sent)
unfolding is_seam sms_guard SmsHooks.ordinal sms_rank
sms_writes_legal_example =
    (sms_writes_legal (sms_of 2 SmsHooksState.pending) 2 (λ _. false) SmsHooksState.sent).1 refl
      refl

abbrev remember : SmsSendRequest → List Text → List Text × Result SmsSendFailure SmsSendOutcome
remember req log = (req.uuid ∷ log, ok SmsSendOutcome.accepted)

abbrev is_first : Text → Bool
is_first uuid = text_eq uuid (1 ∷ [])

abbrev asked_first : List Text → ℕ
asked_first log = count_if is_first log

remember_known : (req : SmsSendRequest) (log : List Text) → IsKnown (remember req log).1
unfolding is_label
remember_known req log = refl

remember_counts :
    (req : SmsSendRequest) (log : List Text)
    → asked_first (remember req log).0
      ≡ (if is_first req.uuid then suc (asked_first log) else asked_first log)
unfolding count_if
remember_counts req log = refl

sms_drain_ends_example :
    Ended remember remember_known is_first asked_first remember_counts no_drain [] two_sms
      (drain remember (λ _ _. false) 500 0 2 0 no_drain [] two_sms)
unfolding count_if
sms_drain_ends_example =
    sms_drain_ends remember remember_known is_first asked_first remember_counts (λ _ _. false) 500 0
      2 0 no_drain [] two_sms (omega arith)

abbrev told : NotificationRow
told = record {
  id = 9;
  mail_message_id = 1;
  res_partner_id = none;
  notification_type = NotificationChannel.sms;
  notification_status = MailNotificationHooksState.sent;
  failure_type = none;
  failure_reason = none;
  mail_mail_id_int = none;
}

abbrev tracks_told : TrackerRow
tracks_told = record {
  sms_uuid = 2 ∷ [];
  message_id = none;
  notification_id = some 9;
  state = MailNotificationHooksState.sent;
}

-- A failure for an sms whose notification is sent: the database refuses it.
late_failure_refused :
    apply_outcome_in_tx 2
      (2 ∷ [])
      none
      refused
      (record two_sms { notifications = told ∷ []; trackers = tracks_told ∷ [] })
    ≡ err (db_error check_violation)
unfolding apply_outcome_in_tx apply_verdict apply_outcome cast_outcome apply_outcome_from
    mirror_tracker_state advance_tracked advance_found find_notification_id_by_sms_uuid as_sms_state
    as_notification_status sms_state_to_notification_status guarded_update is_label is_drained
    text_eq SmsHooks.state_name SmsHooks.all_states MailNotificationHooks.state_name
    MailNotificationHooks.all_states advance_notification_status advance_in advance_row is_declared
    notification_rank sms_guard sms_rank update_rows write_outcome
late_failure_refused = refl
