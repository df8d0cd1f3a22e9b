-- ===== src/Sms/Pump.antt =====
-- What a provider's verdict writes, whichever it is.
use backbone_mail.Prelude.{
  ◌≤◌, ◌≡◌, refl, sym, ◌∙◌, ◌⊎◌, inl, inr, Bool-cases, find, ◌==◌, Bool, true, false, not, List, [],
  ◌∷◌, ◌&&◌, Option, none, some, any, arith, if◌then◌else◌, Result, ok, err,
}
use backbone_mail.Prelude.Text.{Text, codes, text_eq}
use backbone_mail.StateMachine.SmsHooks
use backbone_mail.StateMachine.SmsHooks.{SmsHooksState}
use backbone_mail.StateMachine.MailNotificationHooks
use backbone_mail.StateMachine.MailNotificationHooks.{MailNotificationHooksState}
use backbone_mail.Store.{Db, SmsRow, NotificationRow, TrackerRow, stage_bus_event}
use backbone_mail.Store.Channel.{Uuid}
use backbone_mail.Queue.{update_rows}
use backbone_mail.Status.{
  check_violation, notification_rank, is_label, notification_failure_types,
  advance_notification_status, sms_guard, sms_rank,
}
use backbone_mail.Status.Refused.{
  OnlyFromSent, is_sent, advance_in_ends, exception_only, pending_only, process_only, sent_only,
}
use backbone_mail.Sms.{
  SmsWrite, sms_failure_types, as_sms_state, as_notification_status,
  sms_state_to_notification_status, guarded_update, write_outcome, is_drained, apply_outcome,
  cast_outcome, mirror_tracker_state,
}
use backbone_mail.Sms.Service.{
  db_error, SmsSendOutcome, SmsSendFailure, OutcomeApplied, Verdict, verdict_of,
  find_notification_id_by_sms_uuid, advance_tracked, advance_found, stage_tracked, apply_verdict,
  apply_outcome_in_tx,
}

-- Where the trigger lets every row through, the update is the plain one.
pub guarded_update_ok :
    (matches : SmsRow → Bool) (w : SmsWrite) (rows : List SmsRow)
    → ((r : SmsRow) → matches r ≡ true → sms_guard r.state w.state false ≡ true)
    → guarded_update matches w rows
      ≡ ok (update_rows matches (write_outcome w) rows, any matches rows)
unfolding guarded_update
guarded_update_ok matches w rows passes = rw (none_refused rows) refl
  where
    none_refused :
        (rs : List SmsRow)
        → any (λ r. matches r && not (sms_guard r.state w.state false)) rs ≡ false
    none_refused [] = refl
    none_refused (r ∷ rs) = ground (arith, passes r, none_refused rs)

drained_passes :
    (id : Uuid) (s : SmsHooksState) (r : SmsRow)
    → 1 ≤ sms_rank s
    → is_drained id r ≡ true
    → sms_guard r.state s false ≡ true
unfolding sms_guard is_drained sms_rank
drained_passes id s r h m = ground arith

-- A refusal of the database, where a notification to advance is sent and the verdict is terminal.
abbrev pub IsRefusedAt : Option Uuid → MailNotificationHooksState → Db → Type 0
IsRefusedAt found target db =
    (nid : Uuid) × (found ≡ some nid)
    × (any (λ (n : NotificationRow). n.id == nid && is_sent n) db.notifications ≡ true)
    × (notification_rank target ≡ 100)

advance_found_ends :
    (found : Option Uuid) (status : Text) (n : MailNotificationHooksState)
    (failure_type reason : Option Text) (db : Db)
    → as_notification_status status ≡ ok n
    → is_label notification_failure_types failure_type ≡ true
    → OnlyFromSent n
    → ((done : Db × Option (Uuid × MailNotificationHooksState)) × (advance_found found status
            failure_type reason db
          ≡ ok done)
        × (done.0.sms ≡ db.sms)
        × (done.0.trackers ≡ db.trackers))
      ⊎ ((advance_found found status failure_type reason db ≡ err check_violation)
          × IsRefusedAt found n db)
unfolding advance_found advance_notification_status
advance_found_ends none status n f reason db cast known only = inl ((db, none), refl, refl, refl)
advance_found_ends (some nid) status n f reason db cast known only =
    elim (advance_in_ends n f reason only nid db.notifications) [
      | inl (done, e) ↦
          let pumped : Db × Option (Uuid × MailNotificationHooksState) = (
            record db { notifications = done.0 },
            elim done.1 [ none ↦ none | some s ↦ some (nid, s) ],
          ) in
          inl (pumped, rw (cast, known, e) refl, refl, refl)
      | inr (e, found_it, terminal) ↦
          inr (rw (cast, known, e) refl, (nid, refl, found_it, terminal))
    ]

abbrev option_notification : Option TrackerRow → Option Uuid
option_notification none = none
option_notification (some t) = t.notification_id

-- The write of the trackers does not change which notification they name.
tracked_same :
    (uuid : Text) (n : MailNotificationHooksState) (trackers : List TrackerRow)
    → option_notification (
        find
          (λ (t : TrackerRow). text_eq t.sms_uuid uuid)
          (update_rows
            (λ (t : TrackerRow). text_eq t.sms_uuid uuid)
            (λ (t : TrackerRow). record t { state = n })
            trackers))
      ≡ option_notification (find (λ (t : TrackerRow). text_eq t.sms_uuid uuid) trackers)
unfolding update_rows
tracked_same uuid n [] = refl
tracked_same uuid n (t ∷ trackers) = elim (Bool-cases (text_eq t.sms_uuid uuid)) [
  | inl this ↦ rw (this, this) refl
  | inr other ↦ rw (other, other) (tracked_same uuid n trackers)
]

stage_tracked-sms :
    (uuid state : Text) (message : Option Uuid)
    (done : Db × Option (Uuid × MailNotificationHooksState))
    → ((stage_tracked uuid state message done).sms ≡ done.0.sms)
      × ((stage_tracked uuid state message done).trackers ≡ done.0.trackers)
unfolding stage_bus_event
stage_tracked-sms uuid state message (db, none) = (refl, refl)
stage_tracked-sms uuid state message (db, some (nid, status)) = (refl, refl)

-- The writes of a verdict: the sms row with the id only where it is in `process`, and the trackers
-- of the uuid in any case.
abbrev pub IsWritten : Uuid → Text → SmsWrite → MailNotificationHooksState → Db → Db → Type 0
IsWritten id uuid w n db db' =
    (db'.sms ≡ update_rows (is_drained id) (write_outcome w) db.sms)
    × (db'.trackers
        ≡ update_rows (λ (t : TrackerRow). text_eq t.sms_uuid uuid)
            (λ (t : TrackerRow). record t { state = n }) db.trackers)

-- A verdict whose texts the schema knows is written, and counted only where the sms was in
-- `process`; or the database refuses it, where it is terminal and the tracked notification is sent.
pub apply_verdict_ends :
    (id : Uuid) (uuid : Text) (message : Option Uuid) (v : Verdict) (db : Db) (s : SmsHooksState)
    (status : Text) (n : MailNotificationHooksState)
    → as_sms_state v.state ≡ ok s
    → sms_state_to_notification_status v.state ≡ some status
    → as_notification_status status ≡ ok n
    → is_label sms_failure_types v.failure_type ≡ true
    → is_label notification_failure_types v.failure_type ≡ true
    → 1 ≤ sms_rank s
    → OnlyFromSent n
    → ((db' : Db) × (apply_verdict id uuid message v db
          ≡ ok (
            db',
            (if any (is_drained id) db.sms then v.applied_when_new else OutcomeApplied.replay),
          ))
        × IsWritten id uuid
            (record {
              state = s;
              failure_type = v.failure_type;
              error_message = v.error_message;
              iap_status_code = v.iap_code;
            })
            n
            db
            db')
      ⊎ ((apply_verdict id uuid message v db ≡ err check_violation)
          × IsRefusedAt (find_notification_id_by_sms_uuid uuid db) n db)
unfolding apply_verdict apply_outcome cast_outcome mirror_tracker_state advance_tracked
    find_notification_id_by_sms_uuid
apply_verdict_ends id uuid message v db s status n cast mapped cast' known known' rank only =
    let w : SmsWrite = record {
      state = s;
      failure_type = v.failure_type;
      error_message = v.error_message;
      iap_status_code = v.iap_code;
    } in
    let rows = update_rows (is_drained id) (write_outcome w) db.sms in
    let updated = guarded_update_ok (is_drained id) w db.sms (λ r. drained_passes id s r rank) in
    let trackers =
      update_rows (λ (t : TrackerRow). text_eq t.sms_uuid uuid)
        (λ (t : TrackerRow). record t { state = n }) db.trackers in
    let mirrored : Db = record db { sms = rows; trackers = trackers } in
    elim (advance_found_ends (find_notification_id_by_sms_uuid uuid mirrored) status n
      v.failure_type v.error_message mirrored cast' known' only) [
        | inl (done, e, same, same') ↦
            let (staged, staged') = stage_tracked-sms uuid v.state message done in
            inl (
              stage_tracked uuid v.state message done,
              rw (cast, known, updated, mapped, cast', e) refl,
              (staged ∙ same, staged' ∙ same'),
            )
        | inr (e, (nid, named, was_sent, terminal)) ↦ inr (
          rw (cast, known, updated, mapped, cast', e) refl,
          (nid, sym (tracked_same uuid n db.trackers) ∙ named, was_sent, terminal),
        )
      ]

-- the states that an answer puts on the sms row, and on the tracker
abbrev pub sms_target : Result SmsSendFailure SmsSendOutcome → SmsHooksState
sms_target (ok SmsSendOutcome.processing) = SmsHooksState.process
sms_target (ok SmsSendOutcome.accepted) = SmsHooksState.pending
sms_target (ok SmsSendOutcome.delivered) = SmsHooksState.sent
sms_target (err f) = SmsHooksState.error

abbrev pub tracker_target : Result SmsSendFailure SmsSendOutcome → MailNotificationHooksState
tracker_target (ok SmsSendOutcome.processing) = MailNotificationHooksState.process
tracker_target (ok SmsSendOutcome.accepted) = MailNotificationHooksState.pending
tracker_target (ok SmsSendOutcome.delivered) = MailNotificationHooksState.sent
tracker_target (err f) = MailNotificationHooksState.exception

abbrev pub write_of : Result SmsSendFailure SmsSendOutcome → SmsWrite
write_of result = record {
  state = sms_target result;
  failure_type = (verdict_of result).failure_type;
  error_message = (verdict_of result).error_message;
  iap_status_code = (verdict_of result).iap_code;
}

abbrev pub IsKnown : Result SmsSendFailure SmsSendOutcome → Type 0
IsKnown result = is_label sms_failure_types (verdict_of result).failure_type ≡ true

known_of_both :
    (f : Option Text)
    → is_label sms_failure_types f ≡ true
    → is_label notification_failure_types f ≡ true
unfolding is_label
known_of_both none h = refl
known_of_both (some t) h = ground arith

-- The texts of an answer's target are labels of the enums.
target_texts :
    (result : Result SmsSendFailure SmsSendOutcome)
    → (status : Text) × (as_sms_state (verdict_of result).state ≡ ok (sms_target result))
      × (sms_state_to_notification_status (verdict_of result).state ≡ some status)
      × (as_notification_status status ≡ ok (tracker_target result))
      × (1 ≤ sms_rank (sms_target result))
unfolding as_sms_state as_notification_status sms_state_to_notification_status sms_rank text_eq
    SmsHooks.state_name SmsHooks.all_states MailNotificationHooks.state_name
    MailNotificationHooks.all_states
target_texts (ok SmsSendOutcome.processing) = (codes "process", refl, refl, refl, omega arith)
target_texts (ok SmsSendOutcome.accepted) = (codes "pending", refl, refl, refl, omega arith)
target_texts (ok SmsSendOutcome.delivered) = (codes "sent", refl, refl, refl, omega arith)
target_texts (err f) = (codes "exception", refl, refl, refl, omega arith)

target_only : (result : Result SmsSendFailure SmsSendOutcome) → OnlyFromSent (tracker_target result)
target_only (ok SmsSendOutcome.processing) = process_only
target_only (ok SmsSendOutcome.accepted) = pending_only
target_only (ok SmsSendOutcome.delivered) = sent_only
target_only (err f) = exception_only

-- An answer of the provider whose failure type, if it has one, the schema knows: it is written on
-- the sms row exactly where that row is in `process`, and counted only then, and otherwise it is a
-- `Replay` and the sms rows stay as they are; the trackers of the uuid take the mapped state in both
-- cases. Or the database refuses it, with nothing written, which it does only to a failure, and only
-- where the notification that the tracker names is sent.
pub apply_outcome_in_tx_ends :
    (id : Uuid) (uuid : Text) (message : Option Uuid)
    (result : Result SmsSendFailure SmsSendOutcome) (db : Db)
    → IsKnown result
    → ((db' : Db) × (apply_outcome_in_tx id uuid message result db
          ≡ ok (
            db',
            (if any (is_drained id) db.sms
                then (verdict_of result).applied_when_new
                else OutcomeApplied.replay),
          ))
        × IsWritten id uuid (write_of result) (tracker_target result) db db')
      ⊎ ((apply_outcome_in_tx id uuid message result db ≡ err (db_error check_violation))
          × IsRefusedAt (find_notification_id_by_sms_uuid uuid db) (tracker_target result) db)
unfolding apply_outcome_in_tx
apply_outcome_in_tx_ends id uuid message result db known =
    let (status, cast, mapped, cast', rank) = target_texts result in
    elim (apply_verdict_ends id uuid message (verdict_of result) db (sms_target result) status
      (tracker_target result) cast mapped cast' known
      (known_of_both (verdict_of result).failure_type known) rank (target_only result)) [
        | inl (db', e, written) ↦ inl (db', rw e refl, written)
        | inr (e, cause) ↦ inr (rw e refl, cause)
      ]
