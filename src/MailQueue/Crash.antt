-- ===== src/MailQueue/Crash.antt =====
-- The mail drain as a whole, and a pass of it that is cut off: its end, its totals, and its requests
-- to the transport.
use backbone_mail.Prelude.{
  ℕ, zero, suc, ◌+◌, ◌≤◌, ◌<◌, ◌≡◌, refl, Bool, true, false, not, List, [], ◌∷◌, ◌&&◌, Option, some,
  arith, count_if, take, map, length, leb, ◌==◌, if◌then◌else◌, Result, ok, err, sym, ap, ◌∙◌, any,
}
use backbone_mail.Prelude.Text.{Text}
use backbone_mail.Store.{Db, MailRow}
use backbone_mail.Store.Channel.{Uuid}
use backbone_mail.MailHeaders.{MailHeaderError}
use backbone_mail.MailQueue.{MailQueueError, db_error, MailDrainOutcome, claim_pass}
use backbone_mail.Queue.Laws.{count_if-all}
use backbone_mail.MailQueue.Rows.{waiting}
use backbone_mail.MailQueue.Process.{
  MailSendRequest, MailSendOutcome, MailSendFailure, QueueRow, join_message, add_claimed,
  after_claim, after_batch, process_rows, drain,
}
use backbone_mail.MailQueue.Drain.{
  Counted, Settled, process_rows-Settled, claim_pass-waiting, claim_pass-notifications, finished,
}
use backbone_mail.MailQueue.Linked.{has_sent}
use backbone_mail.Status.{check_violation}
use backbone_mail.Status.Refused.{is_sent}

count_if-joined :
    (sel : Uuid → Bool) (db : Db) (ms : List MailRow)
    → count_if (λ (row : QueueRow). sel row.0.id) (map (join_message db) ms)
      ≡ count_if (λ (m : MailRow). sel m.id) ms
unfolding count_if join_message
count_if-joined sel db [] = refl
count_if-joined sel db (m ∷ ms) = ground (arith, count_if-joined sel db ms)

count_if-take :
    {A : Type 0} (p : A → Bool) (n : ℕ) (xs : List A) → count_if p (take n xs) ≤ count_if p xs
unfolding count_if
count_if-take p zero xs = omega arith
count_if-take p (suc n) [] = omega arith
count_if-take p (suc n) (x ∷ xs) = ground (arith, count_if-take p n xs)

module _ {W : Type 0} (send : MailSendRequest → W → W × Result MailSendFailure MailSendOutcome)
    (malformed : MailHeaderError → Text) (sel : Uuid → Bool) (sends : W → ℕ)
    (counts : (req : MailSendRequest) (w : W)
      → sends (send req w).0 ≡ (if sel req.mail_id then suc (sends w) else sends w)) where
  Counted-same :
      (rows : ℕ) (total : MailDrainOutcome) (db' db : Db)
      → db'.notifications ≡ db.notifications
      → (r : Result MailQueueError MailDrainOutcome)
      → Counted send malformed sel sends counts rows total db' r
      → Counted send malformed sel sends counts rows total db r
  Counted-same rows total db' db same (ok t) c = c
  Counted-same rows total db' db same (err e) (refused, was_sent) =
      (refused, ap (any is_sent) (sym same) ∙ was_sent)

  -- Over a transport whose world counts the requests made for the mails that `sel` selects: a pass
  -- that stops after any number `done` of its rows, as a crash may make it stop, has counted one
  -- verdict for each of those rows or met a verdict that the database refuses, which it does only
  -- where a notification was sent already; and in both cases those requests together with the
  -- selected mails that still wait are no more than before.
  pub crash_at_most_once :
      (locked : Uuid → Bool) (batch now done : ℕ) (w : W) (db : Db) (total : MailDrainOutcome)
      → (w' : W) × (db' : Db) × (r : Result MailQueueError MailDrainOutcome) × (process_rows send
            malformed
            (take done (
              map
                (join_message (claim_pass locked batch now db).0)
                (claim_pass locked batch now db).1))
            w
            (claim_pass locked batch now db).0
            total
          ≡ ((w', db'), r))
        × Counted send malformed sel sends counts
            (length (
              take done (
                map
                  (join_message (claim_pass locked batch now db).0)
                  (claim_pass locked batch now db).1)))
            total
            db
            r
        × (sends w' + count_if (waiting sel) db'.mails ≤ sends w + count_if (waiting sel) db.mails)
  crash_at_most_once locked batch now done w db total =
      let claimed = claim_pass locked batch now db in
      let joined = map (join_message claimed.0) claimed.1 in
      let (w', db', r, e, counted, asked, _, fewer) =
        process_rows-Settled send malformed sel sends counts (take done joined) w claimed.0 total in
      (
        w',
        db',
        r,
        e,
        Counted-same (length (take done joined)) total claimed.0 db
            (claim_pass-notifications locked batch now db) r counted,
        omega (
          arith,
          asked,
          fewer sel,
          claim_pass-waiting sel locked batch now db,
          count_if-joined sel claimed.0 claimed.1,
          count_if-take (λ (row : QueueRow). sel row.0.id) done joined,
        ),
      )

  -- Totals that account for every row claimed; or the database refused a verdict, which it does only
  -- where a notification was sent before the drain.
  abbrev pub Accounted : MailDrainOutcome → Db → Result MailQueueError MailDrainOutcome → Type 0
  Accounted total db (ok total') = finished total' + total.claimed ≡ finished total + total'.claimed
  Accounted total db (err e) = (e ≡ db_error check_violation) × (has_sent db ≡ true)

  -- An end of the drain, with its totals or its refusal, and its requests.
  abbrev pub Ended :
      MailDrainOutcome
      → W
      → Db
      → (W × Db) × Option (Result MailQueueError MailDrainOutcome)
      → Type 0
  Ended total w db end =
      (w' : W) × (db' : Db) × (r : Result MailQueueError MailDrainOutcome) × (end
        ≡ ((w', db'), some r))
      × Accounted total db r
      × (sends w' + count_if (waiting sel) db'.mails ≤ sends w + count_if (waiting sel) db.mails)

  Accounted-same :
      (total : MailDrainOutcome) (db' db : Db)
      → db'.notifications ≡ db.notifications
      → (r : Result MailQueueError MailDrainOutcome) → Accounted total db' r
      → Accounted total db r
  Accounted-same total db' db same (ok t) c = c
  Accounted-same total db' db same (err e) (refused, was_sent) =
      (refused, ap (any is_sent) (sym same) ∙ was_sent)

  abbrev pub everyone : Uuid → Bool
  everyone _ = true

  module _ (now : ℕ → ℕ) (locked : ℕ → Uuid → Bool) (batch max_batches : ℕ) where
    after_batch-Ended :
        (next : MailDrainOutcome
          → W
          → Db
          → (W × Db) × Option (Result MailQueueError MailDrainOutcome))
        (passes : ℕ) (w : W) (db : Db) (total : MailDrainOutcome)
        → Ended total w db (next total w db)
        → Ended total w db (
            after_batch send malformed now locked batch max_batches next passes ((w, db), ok total))
    after_batch-Ended next passes w db total h =
        elim (not (max_batches == 0) && leb max_batches (passes + 1))
          as (λ b.
            Ended total w db
              (elim b [ true ↦ ((w, db), some (ok total)) | false ↦ next total w db ])) [
                | true ↦ (w, db, ok total, refl, refl, omega arith)
                | false ↦ h
              ]

    -- A batch that came through goes on; one that was refused ends the drain.
    batch_ends :
        (next : MailDrainOutcome
          → W
          → Db
          → (W × Db) × Option (Result MailQueueError MailDrainOutcome))
        (passes n asked : ℕ) (w : W) (db' : Db) (total : MailDrainOutcome)
        (end : (W × Db) × Result MailQueueError MailDrainOutcome)
        → ((t : MailDrainOutcome) (u : W) (d : Db)
            → count_if (waiting everyone) d.mails ≤ count_if (waiting everyone) db'.mails
            → Ended t u d (next t u d))
        → Settled send malformed sel sends counts n asked w db' (add_claimed n total) end
        → (w2 : W) × (db2 : Db) × (r : Result MailQueueError MailDrainOutcome) × (after_batch send
              malformed now locked batch max_batches next passes end
            ≡ ((w2, db2), some r))
          × Accounted total db' r
          × (sends w2 + count_if (waiting sel) db2.mails
              ≤ sends w + (asked + count_if (waiting sel) db'.mails))
    batch_ends next passes n asked w db' total end ends
          (w1, db1, ok total1, e, (c, f), bound, before, fewer) =
        let (w2, db2, r, e2, accounted, s2) =
          after_batch-Ended next passes w1 db1 total1 (ends total1 w1 db1 (fewer everyone)) in
        (w2, db2, r, rw e e2, account r accounted, omega (arith, bound, s2, fewer sel))
      where
        account :
            (r : Result MailQueueError MailDrainOutcome)
            → Accounted total1 db1 r
            → Accounted total db' r
        account (ok t) f2 = omega (arith, c, f, f2)
        account (err x) (refused, was_sent) = (refused, before was_sent)
    batch_ends next passes n asked w db' total end ends
          (w1, db1, err x, e, refused, bound, before, fewer) =
        (w1, db1, err x, rw e refl, refused, omega (arith, bound, fewer sel))

    after_claim-Ended :
        (next : MailDrainOutcome
          → W
          → Db
          → (W × Db) × Option (Result MailQueueError MailDrainOutcome))
        (fuel passes : ℕ) (total : MailDrainOutcome) (w : W) (db db' : Db) (rows : List MailRow)
        → ((t : MailDrainOutcome) (u : W) (d : Db)
            → count_if (waiting everyone) d.mails < fuel
            → Ended t u d (next t u d))
        → ((among : Uuid → Bool)
            → count_if (waiting among) db'.mails + count_if (λ (m : MailRow). among m.id) rows
              ≡ count_if (waiting among) db.mails)
        → db'.notifications ≡ db.notifications
        → count_if (waiting everyone) db.mails < suc fuel
        → Ended total w db (
            after_claim send malformed now locked batch max_batches next passes total w (db', rows))
    after_claim-Ended next fuel passes total w db db' [] ends split same enough =
        (w, db', ok total, refl, refl, omega (arith, split sel))
    after_claim-Ended next fuel passes total w db db' (m ∷ ms) ends split same enough =
        let joined = map (join_message db') (m ∷ ms) in
        let everyone_before = count_if-all (m ∷ ms) in
        let (w2, db2, r, e, accounted, bound) =
          batch_ends next passes (length joined)
            (count_if (λ (row : QueueRow). sel row.0.id) joined) w db' total
            (process_rows send malformed joined w db' (add_claimed (length joined) total))
            (λ t u d fewer.
              ends t u d (omega (arith, fewer, split everyone, everyone_before, enough)))
            (process_rows-Settled send malformed sel sends counts joined w db'
              (add_claimed (length joined) total)) in
        (
          w2,
          db2,
          r,
          e,
          Accounted-same total db' db same r accounted,
          omega (arith, bound, split sel, count_if-joined sel db' (m ∷ ms)),
        )

    -- Over a transport whose world counts the requests made for the mails that `sel` selects: the
    -- drain ends when its fuel is more than the number of mails that wait. Its totals count one
    -- verdict for each row it claimed, or else the database refused a verdict, which it does only
    -- where a notification was sent before the drain; and in both cases those requests together with
    -- the selected mails that still wait are no more than before.
    pub drain_ends :
        (fuel passes : ℕ) (total : MailDrainOutcome) (w : W) (db : Db)
        → count_if (waiting everyone) db.mails < fuel
        → Ended total w db
            (drain send malformed now locked batch max_batches fuel passes total w db)
    unfolding drain
    drain_ends zero passes total w db enough = absurd (omega (arith, enough))
    drain_ends (suc fuel) passes total w db enough =
        let claimed = claim_pass (locked passes) batch (now passes) db in
        after_claim-Ended (drain send malformed now locked batch max_batches fuel (passes + 1)) fuel
          passes total w db claimed.0 claimed.1 (λ t u d. drain_ends fuel (passes + 1) t u d)
          (λ among. claim_pass-waiting among (locked passes) batch (now passes) db)
          (claim_pass-notifications (locked passes) batch (now passes) db) enough
