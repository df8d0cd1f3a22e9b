-- ===== src/MailQueue/Process.antt =====
-- `process_queue` of src/application/service/mail_queue_write_service.rs over any transport: `send`
-- answers a request in a world of its own. `now` and `locked` give each pass its instant and the
-- rows that other transactions hold.
use backbone_mail.Prelude.{
  ℕ, zero, suc, ◌+◌, Bool, true, false, ◌&&◌, not, List, [], ◌∷◌, map, Option, none, some, find,
  length, unwrap_or, leb, ◌==◌, Result, ok, err,
}
use backbone_mail.Prelude.Text.{Text, codes}
use backbone_mail.Store.{Db, MailRow, MessageRow}
use backbone_mail.Store.Channel.{Uuid}
use backbone_mail.MailHeaders.{Headers, MailHeaderError, mail_headers_from_json}
use backbone_mail.MailQueue.{MailQueueError, MailDrainOutcome, claim_pass}
use backbone_mail.MailQueue.Verdict.{
  mark_sent, mark_failed, normalize_failure_type, split_recipients,
}

-- src/application/service/mail_ports.rs
pub record MailSendRequest : Type 0 where
  pub mail_id : Uuid
  pub mail_message_id : Uuid
  pub from : Text
  pub to : List Text
  pub subject : Option Text
  pub body_html : Text
  pub in_reply_to : Option Text
  pub reply_to : Option Text
  pub headers : Headers

pub data MailSendOutcome : Type 0 where
  accepted : MailSendOutcome

pub record MailSendFailure : Type 0 where
  pub failure_type : Text
  pub message : Text

-- A claimed row with its message, which the claim's statement joins.
abbrev pub QueueRow : Type 0
QueueRow = MailRow × Option MessageRow

unfoldable pub join_message : Db → MailRow → QueueRow
join_message db m = (m, find (λ msg. msg.id == m.mail_message_id) db.messages)

abbrev subject_of : Option MessageRow → Option Text
subject_of none = none
subject_of (some msg) = msg.subject

abbrev body_of : Option MessageRow → Text
body_of none = []
body_of (some msg) = msg.body

abbrev from_of : Option MessageRow → Text
from_of none = []
from_of (some msg) = unwrap_or msg.email_from []

unfoldable pub send_request : QueueRow → Headers → MailSendRequest
unfolding split_recipients
send_request (m, msg) headers = record {
  mail_id = m.id;
  mail_message_id = m.mail_message_id;
  from = from_of msg;
  to = split_recipients m.email_to m.email_cc;
  subject = subject_of msg;
  body_html = body_of msg;
  in_reply_to = none;
  reply_to = m.reply_to;
  headers = headers;
}

abbrev pub add_sent : MailDrainOutcome → MailDrainOutcome
add_sent t = record t { sent = t.sent + 1 }

abbrev pub add_failed : MailDrainOutcome → MailDrainOutcome
add_failed t = record t { failed = t.failed + 1 }

abbrev pub add_claimed : ℕ → MailDrainOutcome → MailDrainOutcome
add_claimed n t = record t { claimed = t.claimed + n }

-- `?` on the result of a row or a batch
abbrev pub after_row :
    {W E A B : Type 0}
    → (W × Db) × Result E A
    → (W → Db → A → (W × Db) × Result E B)
    → (W × Db) × Result E B
after_row ((w, db), ok a) next = next w db a
after_row ((w, db), err e) next = ((w, db), err e)

module _ {W : Type 0} (send : MailSendRequest → W → W × Result MailSendFailure MailSendOutcome)
    (malformed : MailHeaderError → Text) where
  -- the transaction of one verdict: its writes are kept if it commits
  abbrev pub settle :
      W
      → Db
      → (MailDrainOutcome → MailDrainOutcome)
      → MailDrainOutcome
      → Result MailQueueError (Db × Bool)
      → (W × Db) × Result MailQueueError MailDrainOutcome
  settle w db tally total (ok done) = ((w, done.0), ok (tally total))
  settle w db tally total (err e) = ((w, db), err e)

  abbrev pub apply_verdict :
      Uuid
      → W × Result MailSendFailure MailSendOutcome
      → Db
      → MailDrainOutcome
      → (W × Db) × Result MailQueueError MailDrainOutcome
  apply_verdict id (w, ok _) db total = settle w db add_sent total (mark_sent id db)
  apply_verdict id (w, err f) db total =
      settle w db add_failed total
        (mark_failed id (normalize_failure_type f.failure_type) (some f.message) db)

  abbrev pub process_with :
      QueueRow
      → Result MailHeaderError Headers
      → W
      → Db
      → MailDrainOutcome
      → (W × Db) × Result MailQueueError MailDrainOutcome
  process_with row (err refusal) w db total =
      settle w db add_failed total
        (mark_failed row.0.id (codes "unknown") (some (malformed refusal)) db)
  process_with row (ok headers) w db total =
      apply_verdict row.0.id (send (send_request row headers) w) db total

  unfoldable pub process_row :
      QueueRow → W → Db → MailDrainOutcome → (W × Db) × Result MailQueueError MailDrainOutcome
  process_row row w db total = process_with row (mail_headers_from_json row.0.headers) w db total

  unfoldable pub process_rows :
      List QueueRow → W → Db → MailDrainOutcome → (W × Db) × Result MailQueueError MailDrainOutcome
  process_rows [] w db total = ((w, db), ok total)
  process_rows (row ∷ rows) w db total = after_row (process_row row w db total) (process_rows rows)

  module _ (now : ℕ → ℕ) (locked : ℕ → Uuid → Bool) (batch max_batches : ℕ) where
    -- after a batch: the cap on the passes, or the next pass
    abbrev pub after_batch :
        (MailDrainOutcome → W → Db → (W × Db) × Option (Result MailQueueError MailDrainOutcome))
        → ℕ
        → (W × Db) × Result MailQueueError MailDrainOutcome
        → (W × Db) × Option (Result MailQueueError MailDrainOutcome)
    after_batch next passes ((w, db), err e) = ((w, db), some (err e))
    after_batch next passes ((w, db), ok total) =
        elim (not (max_batches == 0) && leb max_batches (passes + 1)) [
          | true ↦ ((w, db), some (ok total))
          | false ↦ next total w db
        ]

    -- after a claim: an empty batch ends the loop
    abbrev pub after_claim :
        (MailDrainOutcome → W → Db → (W × Db) × Option (Result MailQueueError MailDrainOutcome))
        → ℕ
        → MailDrainOutcome
        → W
        → Db × List MailRow
        → (W × Db) × Option (Result MailQueueError MailDrainOutcome)
    after_claim next passes total w (db, []) = ((w, db), some (ok total))
    after_claim next passes total w (db, m ∷ ms) =
        let joined = map (join_message db) (m ∷ ms) in
        after_batch next passes (process_rows joined w db (add_claimed (length joined) total))

    -- The loop on fuel: `none` is that the fuel ran out. `passes` counts the passes made.
    unfoldable pub drain :
        ℕ
        → ℕ
        → MailDrainOutcome
        → W
        → Db
        → (W × Db) × Option (Result MailQueueError MailDrainOutcome)
    drain zero passes total w db = ((w, db), none)
    drain (suc fuel) passes total w db =
        after_claim (drain fuel (passes + 1)) passes total w
          (claim_pass (locked passes) batch (now passes) db)
