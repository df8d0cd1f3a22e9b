-- ===== src/MailQueue/Scenarios.antt =====
-- A queue of two mails and a transport that remembers whom it was asked for, with the theorems at
-- them.
use backbone_mail.Prelude.{
  ℕ, suc, ◌+◌, ◌≤◌, ◌≡◌, refl, Bool, true, false, List, [], ◌∷◌, none, some, arith, any, count_if,
  take, map, length, ◌==◌, if◌then◌else◌, Result, ok,
}
use backbone_mail.Prelude.Text.{Text, codes, contains_char, trim, join}
use backbone_mail.Prelude.Json.{Json, Entries}
use backbone_mail.StateMachine.MailHooks
use backbone_mail.StateMachine.MailHooks.{MailHooksState, MailHooksTransition}
use backbone_mail.Store.{Db, MailRow}
use backbone_mail.Store.Channel.{Uuid}
use backbone_mail.Queue.{update_rows}
use backbone_mail.MailHeaders.{MailHeaderError}
use backbone_mail.MailQueue.{
  MailQueueError, MailDrainOutcome, no_outcome, claim_pass, is_claimable, pre_write,
}
use backbone_mail.MailQueue.Verdict.{split_recipients, mark_sent, is_open_mail, write_sent}
use backbone_mail.MailQueue.Process.{
  MailSendRequest, MailSendOutcome, MailSendFailure, join_message, process_rows, drain, accepted,
}
use backbone_mail.MailQueue.Rows.{waiting, row_writes_legal}
use backbone_mail.MailQueue.Recipients.{split_recipients-join}
use backbone_mail.MailQueue.Linked.{has_sent, mark_sent_ok}
use backbone_mail.MailQueue.Drain.{Counted}
use backbone_mail.MailQueue.Crash.{Ended, crash_at_most_once, drain_ends}

abbrev mail_of : Uuid → MailRow
mail_of id = record {
  id = id;
  mail_message_id = 9;
  state = MailHooksState.outgoing;
  failure_type = none;
  failure_reason = none;
  email_to = some (codes "a@b");
  email_cc = none;
  reply_to = none;
  headers = Json.obj Entries.end;
  scheduled_date = none;
}

abbrev two_mails : Db
two_mails = record {
  messages = [];
  notifications = [];
  mails = mail_of 1 ∷ mail_of 2 ∷ [];
  sms = [];
  trackers = [];
  outbox = [];
}

abbrev none_locked : Uuid → Bool
none_locked _ = false

abbrev remember : MailSendRequest → List Uuid → List Uuid × Result MailSendFailure MailSendOutcome
remember req log = (req.mail_id ∷ log, ok accepted)

abbrev is_first : Uuid → Bool
is_first id = id == 1

abbrev asked_first : List Uuid → ℕ
asked_first log = count_if is_first log

remember_counts :
    (req : MailSendRequest) (log : List Uuid)
    → asked_first (remember req log).0
      ≡ (if is_first req.mail_id then suc (asked_first log) else asked_first log)
unfolding count_if
remember_counts req log = refl

abbrev no_text : MailHeaderError → Text
no_text _ = []

crash_at_most_once_example :
    (w' : List Uuid) × (db' : Db) × (r : Result MailQueueError MailDrainOutcome) × (process_rows
        remember no_text
        (take 1 (
          map
            (join_message (claim_pass none_locked 1000 0 two_mails).0)
            (claim_pass none_locked 1000 0 two_mails).1))
        []
        (claim_pass none_locked 1000 0 two_mails).0
        no_outcome
      ≡ ((w', db'), r))
    × Counted remember no_text is_first asked_first remember_counts
        (length (
          take 1 (
            map
              (join_message (claim_pass none_locked 1000 0 two_mails).0)
              (claim_pass none_locked 1000 0 two_mails).1)))
        no_outcome
        two_mails
        r
    × (asked_first w' + count_if (waiting is_first) db'.mails
        ≤ asked_first [] + count_if (waiting is_first) two_mails.mails)
crash_at_most_once_example =
    crash_at_most_once remember no_text is_first asked_first remember_counts none_locked 1000 0 1 []
      two_mails no_outcome

drain_ends_example :
    Ended remember no_text is_first asked_first remember_counts no_outcome [] two_mails
      (drain remember no_text (λ _. 0) (λ _. none_locked) 1000 0 3 0 no_outcome [] two_mails)
unfolding count_if
drain_ends_example =
    drain_ends remember no_text is_first asked_first remember_counts (λ _. 0) (λ _. none_locked)
      1000 0 3 0 no_outcome [] two_mails (omega arith)

row_writes_legal_example :
    (MailHooks.can_transition MailHooksState.outgoing MailHooksTransition.smtp_failed ≡ true)
    × ((pre_write (mail_of 1)).state ≡ MailHooks.target_state MailHooksTransition.smtp_failed)
unfolding is_claimable
row_writes_legal_example =
    (row_writes_legal (mail_of 1) none_locked 0 (codes "mail_smtp") none).0 refl

split_recipients-join_example :
    split_recipients (some (join (codes ", ") (codes "a@b" ∷ codes "c@d" ∷ []))) none
    ≡ codes "a@b" ∷ codes "c@d" ∷ []
unfolding contains_char trim
split_recipients-join_example =
    split_recipients-join (codes "a@b" ∷ codes "c@d" ∷ [])
      ((refl, refl, refl), ((refl, refl, refl), tt))

first_sent :
    (db' : Db) × (mark_sent 1 two_mails ≡ ok (db', any (is_open_mail 1) two_mails.mails))
    × (db'.mails ≡ update_rows (is_open_mail 1) write_sent two_mails.mails)
    × (has_sent db' ≡ true → has_sent two_mails ≡ true)
first_sent = mark_sent_ok 1 two_mails
