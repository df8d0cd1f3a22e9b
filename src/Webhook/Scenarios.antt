-- ===== src/Webhook/Scenarios.antt =====
-- A callback with the digest of its body, with the theorem at it.
use backbone_mail.Prelude.{
  ℕ, ◌≤◌, ◌<◌, ◌≡◌, refl, false, List, [], ◌∷◌, none, some, All, arith, length, Result, ok,
}
use backbone_mail.Prelude.Text.{Text, codes, text_eq}
use backbone_mail.StateMachine.SmsHooks
use backbone_mail.StateMachine.SmsHooks.{SmsHooksState}
use backbone_mail.StateMachine.MailNotificationHooks
use backbone_mail.Store.{Db}
use backbone_mail.Queue.{update_rows}
use backbone_mail.Status.{is_label, sms_guard, sms_rank}
use backbone_mail.Inbound.Bytes.{bytes, gather, or_bits, xor_bits}
use backbone_mail.Sms.{
  apply_outcome_from, cast_outcome, as_sms_state, guarded_update, is_seam, mirror_tracker_state,
  sms_state_to_notification_status, as_notification_status,
}
use backbone_mail.Sms.Service.{
  advance_state, advance_row_state, advance_tracked, advance_found,
  find_notification_id_by_sms_uuid,
}
use backbone_mail.Webhook.{
  WebhookPayload, advanced, is_hex, hex_digit, hex_pairs, parse_hex32, const_eq32, skew,
  max_skew_secs, sms_state, report, verified, handle,
}
use backbone_mail.Webhook.Verify.{handle-authentic}

abbrev zeros : List ℕ
zeros =
    0 ∷ 0 ∷ 0 ∷ 0 ∷ 0 ∷ 0 ∷ 0 ∷ 0 ∷ 0 ∷ 0 ∷ 0 ∷ 0 ∷ 0 ∷ 0 ∷ 0 ∷ 0 ∷ 0 ∷ 0 ∷ 0 ∷ 0 ∷ 0 ∷ 0 ∷ 0 ∷ 0
    ∷ 0 ∷ 0 ∷ 0 ∷ 0 ∷ 0 ∷ 0 ∷ 0 ∷ 0 ∷ []

abbrev zero_mac : List ℕ → List ℕ → List ℕ
zero_mac _ _ = zeros

zero_digest :
    (secret body : List ℕ)
    → (length (zero_mac secret body) ≡ 32) × All (λ x. x < 256) (zero_mac secret body)
zero_digest secret body = (refl, ground arith)

abbrev delivered : WebhookPayload
delivered = record {
  timestamp = 5;
  sms_uuid = codes "u";
  status = codes "sent";
  failure_type = none;
  error_message = none;
}

abbrev always : List ℕ → Result Text WebhookPayload
always _ = ok delivered

abbrev zero_hex : Text
zero_hex = codes "0000000000000000000000000000000000000000000000000000000000000000"

abbrev pending_sms : Db
pending_sms = record {
  messages = [];
  notifications = [];
  mails = [];
  sms =
      record {
        id = 1;
        uuid = codes "u";
        number = codes "+1";
        body = codes "hi";
        state = SmsHooksState.pending;
        failure_type = none;
        error_message = none;
        iap_status_code = none;
        mail_message_id = none;
        swept = false;
      }
      ∷ [];
  trackers = [];
  outbox = [];
}

delivered_run :
    (db' : Db) × (handle zero_mac always [] 5 [] (some zero_hex) pending_sms ≡ ok (db', advanced))
unfolding handle verified parse_hex32 bytes is_hex hex_pairs hex_digit const_eq32 gather or_bits
    xor_bits skew report sms_state text_eq advance_state advance_row_state apply_outcome_from
    cast_outcome as_sms_state guarded_update is_seam mirror_tracker_state
    sms_state_to_notification_status as_notification_status is_label sms_guard sms_rank
    SmsHooks.state_name SmsHooks.all_states SmsHooks.ordinal MailNotificationHooks.state_name
    MailNotificationHooks.all_states advance_tracked advance_found find_notification_id_by_sms_uuid
    update_rows
delivered_run = (_, refl)

handle-authentic_example :
    (given : Text) × (payload : WebhookPayload) × (some zero_hex ≡ some given)
    × (parse_hex32 given ≡ some (zero_mac [] []))
    × (always [] ≡ ok payload)
    × (skew 5 payload.timestamp ≤ max_skew_secs)
    × (report payload pending_sms ≡ ok (delivered_run.0, advanced))
handle-authentic_example =
    handle-authentic zero_mac always zero_digest [] 5 [] (some zero_hex) pending_sms delivered_run.0
      advanced delivered_run.1
