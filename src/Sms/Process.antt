-- ===== src/Sms/Process.antt =====
-- `process_queue` of src/application/service/sms_write_service.rs over any provider: `send` answers a
-- request in a world of its own. `locked` gives each pass the rows that other transactions hold.
use backbone_mail.Prelude.{
  ℕ, zero, suc, ◌+◌, Bool, true, false, not, List, [], ◌∷◌, ◌&&◌, Option, none, some, length, leb,
  ◌==◌, Result, ok, err,
}
use backbone_mail.Store.{Db, SmsRow}
use backbone_mail.Store.Channel.{Uuid}
use backbone_mail.Sms.{claim_batch_for_drain}
use backbone_mail.Sms.Service.{
  SmsError, SmsSendRequest, SmsSendOutcome, SmsSendFailure, OutcomeApplied, apply_outcome_in_tx,
}

pub record DrainOutcome : Type 0 where
  pub claimed : ℕ
  pub accepted : ℕ
  pub delivered : ℕ
  pub failed : ℕ
  pub replayed : ℕ

abbrev pub no_drain : DrainOutcome
no_drain = record { claimed = 0; accepted = 0; delivered = 0; failed = 0; replayed = 0 }

abbrev pub count_applied : OutcomeApplied → DrainOutcome → DrainOutcome
count_applied OutcomeApplied.accepted t = record t { accepted = t.accepted + 1 }
count_applied OutcomeApplied.delivered t = record t { delivered = t.delivered + 1 }
count_applied OutcomeApplied.failed t = record t { failed = t.failed + 1 }
count_applied OutcomeApplied.replay t = record t { replayed = t.replayed + 1 }

abbrev pub add_claimed : ℕ → DrainOutcome → DrainOutcome
add_claimed n t = record t { claimed = t.claimed + n }

abbrev pub send_request : SmsRow → SmsSendRequest
send_request r = record { uuid = r.uuid; number = r.number; body = r.body }

module _ {W : Type 0} (send : SmsSendRequest → W → W × Result SmsSendFailure SmsSendOutcome) where
  -- the transaction of one row: its writes are kept if it commits
  abbrev pub commit :
      W
      → Db
      → DrainOutcome
      → Result SmsError (Db × OutcomeApplied)
      → (W × Db) × Result SmsError DrainOutcome
  commit w db total (ok (db', applied)) = ((w, db'), ok (count_applied applied total))
  commit w db total (err e) = ((w, db), err e)

  unfoldable pub process_row :
      SmsRow → W → Db → DrainOutcome → (W × Db) × Result SmsError DrainOutcome
  process_row r w db total =
      let (w', reply) = send (send_request r) w in
      commit w' db total (apply_outcome_in_tx r.id r.uuid r.mail_message_id reply db)

  -- `?` on the result of a row
  abbrev pub after_row :
      (W × Db) × Result SmsError DrainOutcome
      → (W → Db → DrainOutcome → (W × Db) × Result SmsError DrainOutcome)
      → (W × Db) × Result SmsError DrainOutcome
  after_row ((w, db), ok total) next = next w db total
  after_row ((w, db), err e) next = ((w, db), err e)

  unfoldable pub process_rows :
      List SmsRow → W → Db → DrainOutcome → (W × Db) × Result SmsError DrainOutcome
  process_rows [] w db total = ((w, db), ok total)
  process_rows (r ∷ rows) w db total = after_row (process_row r w db total) (process_rows rows)

  module _ (locked : ℕ → Uuid → Bool) (batch max_batches : ℕ) where
    -- after a batch: the cap on the passes, or the next pass
    abbrev pub after_batch :
        (DrainOutcome → W → Db → (W × Db) × Option (Result SmsError DrainOutcome))
        → ℕ
        → (W × Db) × Result SmsError DrainOutcome
        → (W × Db) × Option (Result SmsError DrainOutcome)
    after_batch next passes ((w, db), err e) = ((w, db), some (err e))
    after_batch next passes ((w, db), ok total) =
        elim (not (max_batches == 0) && leb max_batches (passes + 1)) [
          | true ↦ ((w, db), some (ok total))
          | false ↦ next total w db
        ]

    -- after a claim: an empty batch ends the loop
    abbrev pub after_claim :
        (DrainOutcome → W → Db → (W × Db) × Option (Result SmsError DrainOutcome))
        → ℕ
        → DrainOutcome
        → W
        → Db × List SmsRow
        → (W × Db) × Option (Result SmsError DrainOutcome)
    after_claim next passes total w (db, []) = ((w, db), some (ok total))
    after_claim next passes total w (db, r ∷ rows) =
        after_batch next passes
          (process_rows (r ∷ rows) w db (add_claimed (length (r ∷ rows)) total))

    -- The loop on fuel: `none` is that the fuel ran out. `passes` counts the passes made.
    unfoldable pub drain :
        ℕ → ℕ → DrainOutcome → W → Db → (W × Db) × Option (Result SmsError DrainOutcome)
    drain zero passes total w db = ((w, db), none)
    drain (suc fuel) passes total w db =
        after_claim (drain fuel (passes + 1)) passes total w
          (claim_batch_for_drain (locked passes) batch db)
