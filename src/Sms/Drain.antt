-- ===== src/Sms/Drain.antt =====
-- The sms drain as a whole: its end, its totals, and its requests to the provider.
use backbone_mail.Prelude.{
  ℕ, zero, suc, ◌+◌, ◌≤◌, ◌<◌, ◌≡◌, refl, ◌∙◌, inl, inr, Bool, true, false, not, List, [], ◌∷◌,
  ◌&&◌, Option, some, any, arith, count_if, length, leb, ◌==◌, if◌then◌else◌, Result, ok, err,
}
use backbone_mail.Prelude.Text.{Text}
use backbone_mail.Store.{Db, SmsRow}
use backbone_mail.Store.Channel.{Uuid}
use backbone_mail.Queue.Laws.{count_if-update_rows, count_if-claim_split, count_if-all}
use backbone_mail.Status.{check_violation}
use backbone_mail.Sms.{
  is_outgoing, is_drained, is_claimable, pick_up, write_outcome, claim_batch_for_drain,
}
use backbone_mail.Sms.Service.{
  SmsError, db_error, SmsSendRequest, SmsSendOutcome, SmsSendFailure, OutcomeApplied, verdict_of,
}
use backbone_mail.Sms.Pump.{IsKnown, write_of, apply_outcome_in_tx_ends}
use backbone_mail.Sms.Process.{
  DrainOutcome, count_applied, add_claimed, send_request, after_row, process_row, process_rows,
  after_batch, after_claim, drain,
}

-- An sms that a pass may still take, among those that `sel` selects.
abbrev pub waiting : (Text → Bool) → SmsRow → Bool
waiting sel r = sel r.uuid && is_outgoing r.state

abbrev pub everyone : Text → Bool
everyone _ = true

waiting-written :
    (sel : Text → Bool) (result : Result SmsSendFailure SmsSendOutcome) (r : SmsRow)
    → waiting sel (write_outcome (write_of result) r) ≡ false
unfolding write_outcome
waiting-written sel (ok SmsSendOutcome.processing) r = ground arith
waiting-written sel (ok SmsSendOutcome.accepted) r = ground arith
waiting-written sel (ok SmsSendOutcome.delivered) r = ground arith
waiting-written sel (err f) r = ground arith

waiting-pick_up : (sel : Text → Bool) (r : SmsRow) → waiting sel (pick_up r) ≡ false
unfolding pick_up
waiting-pick_up sel r = ground arith

claimable-waiting :
    (sel : Text → Bool) (locked : Uuid → Bool) (r : SmsRow)
    → is_claimable locked r ≡ true
    → waiting sel r ≡ sel (pick_up r).uuid
unfolding is_claimable pick_up
claimable-waiting sel locked r h = ground arith

claim-waiting :
    (sel : Text → Bool) (locked : Uuid → Bool) (batch : ℕ) (db : Db)
    → count_if (waiting sel) (claim_batch_for_drain locked batch db).0.sms
        + count_if (λ (r : SmsRow). sel r.uuid) (claim_batch_for_drain locked batch db).1
      ≡ count_if (waiting sel) db.sms
unfolding claim_batch_for_drain
claim-waiting sel locked batch db =
    count_if-claim_split (is_claimable locked) pick_up (waiting sel) (λ r. sel r.uuid)
      (claimable-waiting sel locked) (waiting-pick_up sel) batch db.sms

abbrev pub finished : DrainOutcome → ℕ
finished t = t.accepted + (t.delivered + (t.failed + t.replayed))

counted :
    (a : OutcomeApplied) (t : DrainOutcome)
    → (finished (count_applied a t) ≡ finished t + 1) × ((count_applied a t).claimed ≡ t.claimed)
counted OutcomeApplied.accepted t = (omega arith, refl)
counted OutcomeApplied.delivered t = (omega arith, refl)
counted OutcomeApplied.failed t = (omega arith, refl)
counted OutcomeApplied.replay t = (omega arith, refl)

module _ {W : Type 0} (send : SmsSendRequest → W → W × Result SmsSendFailure SmsSendOutcome)
    (mapped : (req : SmsSendRequest) (w : W) → IsKnown (send req w).1) (sel : Text → Bool)
    (sends : W → ℕ)
    (counts : (req : SmsSendRequest) (w : W)
      → sends (send req w).0 ≡ (if sel req.uuid then suc (sends w) else sends w)) where
  -- One verdict counted for each of `rows` rows, or a refusal of the database.
  abbrev pub Counted : ℕ → DrainOutcome → Result SmsError DrainOutcome → Type 0
  Counted rows total (ok total') =
      (total'.claimed ≡ total.claimed) × (finished total' ≡ finished total + rows)
  Counted rows total (err e) = e ≡ db_error check_violation

  abbrev Settled : ℕ → ℕ → W → Db → DrainOutcome → (W × Db) × Result SmsError DrainOutcome → Type 0
  Settled rows asked w db total end =
      (w' : W) × (db' : Db) × (o : Result SmsError DrainOutcome) × (end ≡ ((w', db'), o))
      × Counted rows total o
      × (sends w' ≤ sends w + asked)
      × ((among : Text → Bool) → count_if (waiting among) db'.sms ≤ count_if (waiting among) db.sms)

  abbrev one_of : Text → ℕ
  one_of uuid = if sel uuid then 1 else 0

  process_row-Settled :
      (r : SmsRow) (w : W) (db : Db) (total : DrainOutcome)
      → Settled 1 (one_of r.uuid) w db total (process_row send r w db total)
  unfolding process_row
  process_row-Settled r w db total =
      let request = send_request r in
      let reply = (send request w).1 in
      let asked : sends (send request w).0 ≤ sends w + one_of r.uuid =
        ground (arith, counts request w) in
      let applied =
        if any (is_drained r.id) db.sms
        then (verdict_of reply).applied_when_new
        else OutcomeApplied.replay in
      elim (apply_outcome_in_tx_ends r.id r.uuid r.mail_message_id reply db (mapped request w)) [
        | inl (db', e, (same, _)) ↦ (
          (send request w).0,
          db',
          ok (count_applied applied total),
          rw e refl,
          ((counted applied total).1, (counted applied total).0),
          asked,
          λ among. rw same (
              count_if-update_rows (is_drained r.id) (write_outcome (write_of reply))
                (waiting among) (waiting-written among reply) db.sms),
        )
        | inr (e, _) ↦ (
          (send request w).0,
          db,
          err (db_error check_violation),
          rw e refl,
          refl,
          asked,
          λ among. omega arith,
        )
      ]

  -- The rows after the first: they run if it came through.
  after_row-Settled :
      (uuid : Text) (more asked : ℕ) (w : W) (db : Db) (total : DrainOutcome)
      (next : W → Db → DrainOutcome → (W × Db) × Result SmsError DrainOutcome)
      → ((u : W) (d : Db) (t : DrainOutcome) → Settled more asked u d t (next u d t))
      → (end : (W × Db) × Result SmsError DrainOutcome) → Settled 1 (one_of uuid) w db total end
      → Settled (suc more) (one_of uuid + asked) w db total (after_row send end next)
  after_row-Settled uuid more asked w db total next rest end
        (w1, db1, ok total1, e, (c, f), bound, fewer) =
      let (w2, db2, o, e', later, bound', fewer') = rest w1 db1 total1 in
      (
        w2,
        db2,
        o,
        rw e e',
        recount o later,
        omega (arith, bound, bound'),
        λ among. omega (arith, fewer among, fewer' among),
      )
    where
      recount :
          (o : Result SmsError DrainOutcome) → Counted more total1 o → Counted (suc more) total o
      recount (ok t) (c', f') = (c' ∙ c, omega (arith, f, f'))
      recount (err x) refused = refused
  after_row-Settled uuid more asked w db total next rest end
        (w1, db1, err x, e, refused, bound, fewer) =
      (w1, db1, err x, rw e refl, refused, omega (arith, bound), fewer)

  process_rows-Settled :
      (rows : List SmsRow) (w : W) (db : Db) (total : DrainOutcome)
      → Settled
          (length rows)
          (count_if (λ (r : SmsRow). sel r.uuid) rows)
          w
          db
          total
          (process_rows send rows w db total)
  unfolding process_rows count_if
  process_rows-Settled [] w db total =
      (w, db, ok total, refl, (refl, omega arith), omega arith, λ among. omega arith)
  process_rows-Settled (r ∷ rows) w db total =
      let (w', db', o, e, later, bound, fewer) =
        after_row-Settled r.uuid (length rows) (count_if (λ (r : SmsRow). sel r.uuid) rows) w db
          total (process_rows send rows) (process_rows-Settled rows) (process_row send r w db total)
          (process_row-Settled r w db total) in
      (w', db', o, e, later, ground (arith, bound), fewer)

  -- Totals that account for every row claimed, or a refusal of the database.
  abbrev pub Accounted : DrainOutcome → Result SmsError DrainOutcome → Type 0
  Accounted total (ok total') = finished total' + total.claimed ≡ finished total + total'.claimed
  Accounted total (err e) = e ≡ db_error check_violation

  -- An end of the drain, with its totals or its refusal, and its requests.
  abbrev pub Ended :
      DrainOutcome → W → Db → (W × Db) × Option (Result SmsError DrainOutcome) → Type 0
  Ended total w db end =
      (w' : W) × (db' : Db) × (o : Result SmsError DrainOutcome) × (end ≡ ((w', db'), some o))
      × Accounted total o
      × (sends w' + count_if (waiting sel) db'.sms ≤ sends w + count_if (waiting sel) db.sms)

  module _ (locked : ℕ → Uuid → Bool) (batch max_batches : ℕ) where
    after_batch-Ended :
        (next : DrainOutcome → W → Db → (W × Db) × Option (Result SmsError DrainOutcome))
        (passes : ℕ) (w : W) (db : Db) (total : DrainOutcome)
        → Ended total w db (next total w db)
        → Ended total w db
            (after_batch send locked batch max_batches next passes ((w, db), ok total))
    after_batch-Ended next passes w db total h =
        elim (not (max_batches == 0) && leb max_batches (passes + 1))
          as (λ b.
            Ended total w db
              (elim b [ true ↦ ((w, db), some (ok total)) | false ↦ next total w db ])) [
                | true ↦ (w, db, ok total, refl, refl, omega arith)
                | false ↦ h
              ]

    -- A batch that came through goes on; one that was refused ends the drain.
    batch_ends :
        (next : DrainOutcome → W → Db → (W × Db) × Option (Result SmsError DrainOutcome))
        (passes n asked : ℕ) (w : W) (db' : Db) (total : DrainOutcome)
        (end : (W × Db) × Result SmsError DrainOutcome)
        → ((t : DrainOutcome) (u : W) (d : Db)
            → count_if (waiting everyone) d.sms ≤ count_if (waiting everyone) db'.sms
            → Ended t u d (next t u d))
        → Settled n asked w db' (add_claimed n total) end
        → (w2 : W) × (db2 : Db) × (o : Result SmsError DrainOutcome) × (after_batch send locked
              batch max_batches next passes end
            ≡ ((w2, db2), some o))
          × Accounted total o
          × (sends w2 + count_if (waiting sel) db2.sms
              ≤ sends w + (asked + count_if (waiting sel) db'.sms))
    batch_ends next passes n asked w db' total end ends
          (w1, db1, ok total1, e, (c, f), bound, fewer) =
        let (w2, db2, o, e2, accounted, s2) =
          after_batch-Ended next passes w1 db1 total1 (ends total1 w1 db1 (fewer everyone)) in
        (w2, db2, o, rw e e2, account o accounted, omega (arith, bound, s2, fewer sel))
      where
        account : (o : Result SmsError DrainOutcome) → Accounted total1 o → Accounted total o
        account (ok t) f2 = omega (arith, c, f, f2)
        account (err x) refused = refused
    batch_ends next passes n asked w db' total end ends (w1, db1, err x, e, refused, bound, fewer) =
        (w1, db1, err x, rw e refl, refused, omega (arith, bound, fewer sel))

    after_claim-Ended :
        (next : DrainOutcome → W → Db → (W × Db) × Option (Result SmsError DrainOutcome))
        (fuel passes : ℕ) (total : DrainOutcome) (w : W) (db db' : Db) (rows : List SmsRow)
        → ((t : DrainOutcome) (u : W) (d : Db)
            → count_if (waiting everyone) d.sms < fuel
            → Ended t u d (next t u d))
        → ((among : Text → Bool)
            → count_if (waiting among) db'.sms + count_if (λ (r : SmsRow). among r.uuid) rows
              ≡ count_if (waiting among) db.sms)
        → count_if (waiting everyone) db.sms < suc fuel
        → Ended total w db
            (after_claim send locked batch max_batches next passes total w (db', rows))
    after_claim-Ended next fuel passes total w db db' [] ends split enough =
        (w, db', ok total, refl, refl, omega (arith, split sel))
    after_claim-Ended next fuel passes total w db db' (r ∷ rows) ends split enough =
        let everyone_before = count_if-all (r ∷ rows) in
        let (w2, db2, o, e, accounted, bound) =
          batch_ends next passes (length (r ∷ rows))
            (count_if (λ (r : SmsRow). sel r.uuid) (r ∷ rows)) w db' total
            (process_rows send (r ∷ rows) w db' (add_claimed (length (r ∷ rows)) total))
            (λ t u d fewer.
              ends t u d (omega (arith, fewer, split everyone, everyone_before, enough)))
            (process_rows-Settled (r ∷ rows) w db' (add_claimed (length (r ∷ rows)) total)) in
        (w2, db2, o, e, accounted, omega (arith, bound, split sel))

    -- Over a provider that reports failures in the schema's vocabulary and whose world counts the
    -- requests made for the sms that `sel` selects: the drain ends when its fuel is more than the
    -- number of sms that wait. Its totals count each row it claimed once, or else the database
    -- refused
    -- a verdict; and in both cases those requests together with the selected sms that still wait are
    -- no more than before.
    pub sms_drain_ends :
        (fuel passes : ℕ) (total : DrainOutcome) (w : W) (db : Db)
        → count_if (waiting everyone) db.sms < fuel
        → Ended total w db (drain send locked batch max_batches fuel passes total w db)
    unfolding drain
    sms_drain_ends zero passes total w db enough = absurd (omega (arith, enough))
    sms_drain_ends (suc fuel) passes total w db enough =
        let claimed = claim_batch_for_drain (locked passes) batch db in
        after_claim-Ended (drain send locked batch max_batches fuel (passes + 1)) fuel passes total
          w db claimed.0 claimed.1 (λ t u d. sms_drain_ends fuel (passes + 1) t u d)
          (λ among. claim-waiting among (locked passes) batch db) enough
