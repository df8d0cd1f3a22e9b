-- ===== src/MailQueue/Drain.antt =====
-- What one row and one batch of `process_queue` do: the totals, the mails that wait, and how often
-- the
-- transport is asked.
use backbone_mail.Prelude.{
  ℕ, suc, ◌+◌, ◌≤◌, ◌≡◌, refl, ◌∙◌, inl, inr, true, Bool, List, [], ◌∷◌, Option, some, arith,
  count_if, map, length, if◌then◌else◌, Result, ok, err,
}
use backbone_mail.Prelude.Text.{Text, codes, text_eq}
use backbone_mail.Store.{Db, MailRow, Event, stage_bus_event}
use backbone_mail.Store.Channel.{Uuid}
use backbone_mail.Queue.{claim}
use backbone_mail.Status.{check_violation}
use backbone_mail.Queue.Laws.{count_if-update_rows, count_if-claim_split}
use backbone_mail.MailHeaders.{MailHeaderError, Headers, mail_headers_from_json}
use backbone_mail.MailQueue.{
  MailQueueError, db_error, MailDrainOutcome, is_claimable, pre_write, claim_pass, stage_all,
  dispatch_requested,
}
use backbone_mail.MailQueue.Verdict.{
  is_open_mail, write_sent, write_failed, mark_failed, normalize_failure_type,
}
use backbone_mail.MailQueue.Rows.{
  waiting, waiting-sent, waiting-failed, waiting-pre_write, claimable-waiting,
}
use backbone_mail.MailQueue.Vocabulary.{normalize_failure_type_label}
use backbone_mail.MailQueue.Linked.{has_sent, mark_sent_ok, mark_failed_ends}
use backbone_mail.MailQueue.Process.{
  MailSendRequest, MailSendOutcome, MailSendFailure, QueueRow, add_sent, add_failed, after_row,
  settle, send_request, apply_verdict, process_with, process_row, process_rows,
}

abbrev pub finished : MailDrainOutcome → ℕ
finished t = t.sent + t.failed

module _ {W : Type 0} (send : MailSendRequest → W → W × Result MailSendFailure MailSendOutcome)
    (malformed : MailHeaderError → Text) (sel : Uuid → Bool) (sends : W → ℕ)
    (counts : (req : MailSendRequest) (w : W)
      → sends (send req w).0 ≡ (if sel req.mail_id then suc (sends w) else sends w)) where
  -- One verdict counted for each of `rows` rows; or the database refused one, which it does only
  -- where a notification was sent before.
  abbrev pub Counted : ℕ → MailDrainOutcome → Db → Result MailQueueError MailDrainOutcome → Type 0
  Counted rows total db (ok total') =
      (total'.claimed ≡ total.claimed) × (finished total' ≡ finished total + rows)
  Counted rows total db (err e) = (e ≡ db_error check_violation) × (has_sent db ≡ true)

  -- What `rows` rows processed from `(w, db, total)` come to: they are counted or refused, with no
  -- more requests for the selected mails than `asked`, no notification made sent, and no mail made
  -- to wait again.
  abbrev pub Settled :
      ℕ → ℕ → W → Db → MailDrainOutcome → (W × Db) × Result MailQueueError MailDrainOutcome → Type 0
  Settled rows asked w db total end =
      (w' : W) × (db' : Db) × (r : Result MailQueueError MailDrainOutcome) × (end ≡ ((w', db'), r))
      × Counted rows total db r
      × (sends w' ≤ sends w + asked)
      × (has_sent db' ≡ true → has_sent db ≡ true)
      × ((among : Uuid → Bool)
          → count_if (waiting among) db'.mails ≤ count_if (waiting among) db.mails)

  abbrev one_of : Uuid → ℕ
  one_of id = if sel id then 1 else 0

  failed-Settled :
      (id : Uuid) (raw : Text) (reason : Option Text) (w w1 : W) (db : Db)
      (total : MailDrainOutcome)
      → sends w1 ≤ sends w + one_of id
      → Settled 1 (one_of id) w db total (
          settle send malformed w1 db add_failed total
            (mark_failed id (normalize_failure_type raw) reason db))
  failed-Settled id raw reason w w1 db total h =
      let (known, known', _) = normalize_failure_type_label raw in
      let f = normalize_failure_type raw in
      elim (mark_failed_ends id f reason db known known') [
        | inl (db', e, same, before) ↦ (
          w1,
          db',
          ok (add_failed total),
          rw e refl,
          (refl, omega arith),
          h,
          before,
          λ among. rw same (
              count_if-update_rows (is_open_mail id) (write_failed f reason) (waiting among)
                (waiting-failed among f reason) db.mails),
        )
        | inr (e, was_sent) ↦
            (w1, db, err _, rw e refl, (refl, was_sent), h, λ x. x, λ among. omega arith)
      ]

  verdict-Settled :
      (id : Uuid) (w w1 : W) (reply : Result MailSendFailure MailSendOutcome) (db : Db)
      (total : MailDrainOutcome)
      → sends w1 ≤ sends w + one_of id
      → Settled 1 (one_of id) w db total (apply_verdict send malformed id (w1, reply) db total)
  verdict-Settled id w w1 (ok _) db total h =
      let (db', e, same, before) = mark_sent_ok id db in
      (
        w1,
        db',
        ok (add_sent total),
        rw e refl,
        (refl, omega arith),
        h,
        before,
        λ among. rw same (
            count_if-update_rows (is_open_mail id) write_sent (waiting among) (waiting-sent among)
              db.mails),
      )
  verdict-Settled id w w1 (err f) db total h =
      failed-Settled id f.failure_type (some f.message) w w1 db total h

  process_with-Settled :
      (row : QueueRow) (headers : Result MailHeaderError Headers) (w : W) (db : Db)
      (total : MailDrainOutcome)
      → Settled 1 (one_of row.0.id) w db total (process_with send malformed row headers w db total)
  unfolding send_request normalize_failure_type text_eq
  process_with-Settled row (ok headers) w db total =
      let request = send_request row headers in
      verdict-Settled row.0.id w (send request w).0 (send request w).1 db total
        (ground (arith, counts request w))
  process_with-Settled row (err refusal) w db total =
      failed-Settled row.0.id (codes "unknown") (some (malformed refusal)) w w db total
        (omega arith)

  pub process_row-Settled :
      (row : QueueRow) (w : W) (db : Db) (total : MailDrainOutcome)
      → Settled 1 (one_of row.0.id) w db total (process_row send malformed row w db total)
  unfolding process_row
  process_row-Settled row w db total =
      process_with-Settled row (mail_headers_from_json row.0.headers) w db total

  -- The rows after the first: they run if it came through.
  after_row-Settled :
      (id : Uuid) (more asked : ℕ) (w : W) (db : Db) (total : MailDrainOutcome)
      (next : W → Db → MailDrainOutcome → (W × Db) × Result MailQueueError MailDrainOutcome)
      → ((u : W) (d : Db) (t : MailDrainOutcome) → Settled more asked u d t (next u d t))
      → (end : (W × Db) × Result MailQueueError MailDrainOutcome)
      → Settled 1 (one_of id) w db total end
      → Settled (suc more) (one_of id + asked) w db total (after_row end next)
  after_row-Settled id more asked w db total next rest end
        (w1, db1, ok total1, e, (c, f), bound, before, fewer) =
      let (w2, db2, r, e', counted, bound', before', fewer') = rest w1 db1 total1 in
      (
        w2,
        db2,
        r,
        rw e e',
        recount r counted,
        omega (arith, bound, bound'),
        λ h. before (before' h),
        λ among. omega (arith, fewer among, fewer' among),
      )
    where
      recount :
          (r : Result MailQueueError MailDrainOutcome)
          → Counted more total1 db1 r
          → Counted (suc more) total db r
      recount (ok t) (c', f') = (c' ∙ c, omega (arith, f, f'))
      recount (err x) (same, was_sent) = (same, before was_sent)
  after_row-Settled id more asked w db total next rest end
        (w1, db1, err x, e, refused, bound, before, fewer) =
      (w1, db1, err x, rw e refl, refused, omega (arith, bound), before, fewer)

  -- Every prefix of a batch counts one verdict for each row, or stops at one that the database
  -- refuses; it asks the transport at most once for each selected row, and makes no mail wait again.
  pub process_rows-Settled :
      (rows : List QueueRow) (w : W) (db : Db) (total : MailDrainOutcome)
      → Settled
          (length rows)
          (count_if (λ (row : QueueRow). sel row.0.id) rows)
          w
          db
          total
          (process_rows send malformed rows w db total)
  unfolding process_rows count_if
  process_rows-Settled [] w db total =
      (w, db, ok total, refl, (refl, omega arith), omega arith, λ h. h, λ among. omega arith)
  process_rows-Settled (row ∷ rows) w db total =
      let one =
        after_row-Settled row.0.id (length rows) (count_if (λ (row : QueueRow). sel row.0.id) rows)
          w db total (process_rows send malformed rows) (process_rows-Settled rows)
          (process_row send malformed row w db total) (process_row-Settled row w db total) in
      let (w', db', r, e, counted, bound, before, fewer) = one in
      (w', db', r, e, counted, ground (arith, bound), before, fewer)

stage_all-notifications :
    (es : List Event) (db : Db) → (stage_all es db).notifications ≡ db.notifications
unfolding stage_all stage_bus_event
stage_all-notifications [] db = refl
stage_all-notifications (e ∷ es) db = stage_all-notifications es (stage_bus_event e db)

-- A claim leaves the notifications alone.
pub claim_pass-notifications :
    (locked : Uuid → Bool) (batch now : ℕ) (db : Db)
    → (claim_pass locked batch now db).0.notifications ≡ db.notifications
unfolding claim_pass
claim_pass-notifications locked batch now db =
    let taken = claim (is_claimable locked now) pre_write batch db.mails in
    stage_all-notifications (map dispatch_requested taken.1) (record db { mails = taken.0 })

stage_all-mails : (es : List Event) (db : Db) → (stage_all es db).mails ≡ db.mails
unfolding stage_all stage_bus_event
stage_all-mails [] db = refl
stage_all-mails (e ∷ es) db = stage_all-mails es (stage_bus_event e db)

-- The mails that waited before a claim either wait still or are the rows claimed, in the store as
-- it stands when the claim is committed and before anything is sent.
pub claim_pass-waiting :
    (sel locked : Uuid → Bool) (batch now : ℕ) (db : Db)
    → count_if (waiting sel) (claim_pass locked batch now db).0.mails
        + count_if (λ (m : MailRow). sel m.id) (claim_pass locked batch now db).1
      ≡ count_if (waiting sel) db.mails
unfolding claim_pass
claim_pass-waiting sel locked batch now db =
    let taken = claim (is_claimable locked now) pre_write batch db.mails in
    rw (stage_all-mails (map dispatch_requested taken.1) (record db { mails = taken.0 })) (
      count_if-claim_split (is_claimable locked now) pre_write (waiting sel) (λ m. sel m.id)
        (claimable-waiting sel locked now) (waiting-pre_write sel) batch db.mails)
