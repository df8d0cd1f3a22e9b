-- ===== src/MailQueue/Linked.antt =====
-- What `mark_sent` and `mark_failed` of src/application/service/mail_queue_write_service.rs do to the
-- mails when the linked notifications follow.
use backbone_mail.Prelude.{
  ◌≡◌, refl, sym, ap, ◌∙◌, ◌⊎◌, inl, inr, ◌==◌, ◌&&◌, Result, err, Bool, true, false, List, [], ◌∷◌,
  Option, none, some, any, arith, filterb, Bool-cases, ok,
}
use backbone_mail.Prelude.Text.{Text}
use backbone_mail.StateMachine.MailNotificationHooks.{MailNotificationHooksState}
use backbone_mail.Store.{Db, MailRow, NotificationRow, stage_bus_event}
use backbone_mail.Store.Channel.{Uuid}
use backbone_mail.Queue.{update_rows}
use backbone_mail.Status.{
  DbError, check_violation, notification_rank, is_label, notification_failure_types,
  advance_notification_status,
}
use backbone_mail.Status.Refused.{
  OnlyFromSent, is_sent, advance_in_ends, in_unsent, exception_only, pending_only,
}
use backbone_mail.MailQueue.{MailQueueError, db_error}
use backbone_mail.MailQueue.Rows.{any_open-sent}
use backbone_mail.MailQueue.Verdict.{
  mail_failure_types, is_open_mail, write_sent, write_failed, advance_each,
  advance_linked_notifications, stage_advanced, mark_sent, mark_failed, links_to,
}

module _ {Row : Type 0} (matches : Row → Bool) (write : Row → Row) where
  pub update_rows-none :
      (rows : List Row) → any matches rows ≡ false → update_rows matches write rows ≡ rows
  unfolding update_rows
  update_rows-none [] h = refl
  update_rows-none (r ∷ rows) h = ground (arith, update_rows-none rows)

stage_advanced-mails :
    (mail : Uuid) (n : NotificationRow) (done : Db × Option MailNotificationHooksState)
    → (stage_advanced mail n done).mails ≡ done.0.mails
unfolding stage_bus_event
stage_advanced-mails mail n (db, none) = refl
stage_advanced-mails mail n (db, some status) = refl

-- A notification of the store is sent.
abbrev pub has_sent : Db → Bool
has_sent db = any is_sent db.notifications

stage_advanced-notifications :
    (mail : Uuid) (n : NotificationRow) (done : Db × Option MailNotificationHooksState)
    → (stage_advanced mail n done).notifications ≡ done.0.notifications
unfolding stage_bus_event
stage_advanced-notifications mail n (db, none) = refl
stage_advanced-notifications mail n (db, some status) = refl

-- What the loop over the linked rows comes to: it leaves the mails alone and makes no notification
-- sent, or the database refuses a terminal verdict on one that is sent.
abbrev Advanced : MailNotificationHooksState → Db → Result DbError Db → Type 0
Advanced target db end =
    ((db' : Db) × (end ≡ ok db')
      × (db'.mails ≡ db.mails)
      × (has_sent db' ≡ true → has_sent db ≡ true))
    ⊎ ((end ≡ err check_violation) × (has_sent db ≡ true) × (notification_rank target ≡ 100))

found_sent :
    (id : Uuid) (rows : List NotificationRow)
    → any (λ (n : NotificationRow). n.id == id && is_sent n) rows ≡ true
    → any is_sent rows ≡ true
found_sent id [] h = h
found_sent id (n ∷ rows) h = ground (arith, found_sent id rows)

module _ (target : MailNotificationHooksState) (failure_type reason : Option Text)
    (only : OnlyFromSent target) (other : ¬ (notification_rank target ≡ 3))
    (known : is_label notification_failure_types failure_type ≡ true) where
  advance_each_ends :
      (mail : Uuid) (rows : List NotificationRow) (db : Db)
      → Advanced target db (advance_each mail target failure_type reason rows db)
  unfolding advance_each advance_notification_status
  advance_each_ends mail [] db = inl (db, refl, refl, λ h. h)
  advance_each_ends mail (n ∷ rows) db =
      elim (advance_in_ends target failure_type reason only n.id db.notifications) [
        | inl (done, e) ↦
            let after : Db × Option MailNotificationHooksState =
              (record db { notifications = done.0 }, done.1) in
            let mails = stage_advanced-mails mail n after in
            let notes = stage_advanced-notifications mail n after in
            let earlier : has_sent (stage_advanced mail n after) ≡ true → has_sent db ≡ true = λ h.
              in_unsent target failure_type reason only n.id db.notifications done other e
                (rw (← notes) h) in
            elim (advance_each_ends mail rows (stage_advanced mail n after)) [
              | inl (db', e2, same, before) ↦
                  inl (db', rw (known, e) e2, same ∙ mails, λ h. earlier (before h))
              | inr (e2, was_sent, terminal) ↦ inr (rw (known, e) e2, earlier was_sent, terminal)
            ]
        | inr (e, found, terminal) ↦
            inr (rw (known, e) refl, found_sent n.id db.notifications found, terminal)
      ]

  linked_ends :
      (mail : Uuid) (db : Db)
      → Advanced target db (advance_linked_notifications mail target failure_type reason db)
  unfolding advance_linked_notifications
  linked_ends mail db = advance_each_ends mail (filterb (links_to mail) db.notifications) db

-- What a verdict on a mail comes to: it writes the open row with the id, answers whether there was
-- one, and makes no notification sent; or the database refuses it, where one is sent.
abbrev pub Marked : (MailRow → MailRow) → Uuid → Db → Result MailQueueError (Db × Bool) → Type 0
Marked write id db end =
    ((db' : Db) × (end ≡ ok (db', any (is_open_mail id) db.mails))
      × (db'.mails ≡ update_rows (is_open_mail id) write db.mails)
      × (has_sent db' ≡ true → has_sent db ≡ true))
    ⊎ ((end ≡ err (db_error check_violation)) × (has_sent db ≡ true))

-- A success marks exactly the open row with the id, answers whether there was one, and makes no
-- notification sent.
pub mark_sent_ok :
    (id : Uuid) (db : Db)
    → (db' : Db) × (mark_sent id db ≡ ok (db', any (is_open_mail id) db.mails))
      × (db'.mails ≡ update_rows (is_open_mail id) write_sent db.mails)
      × (has_sent db' ≡ true → has_sent db ≡ true)
unfolding mark_sent is_label notification_rank
mark_sent_ok id db = elim (Bool-cases (any (is_open_mail id) db.mails)) [
  | inl found ↦
      let marked = record db { mails = update_rows (is_open_mail id) write_sent db.mails } in
      elim (linked_ends MailNotificationHooksState.pending none none pending_only
        (λ e. absurd (omega (arith, e))) refl id marked) [
          | inl (db', e, same, before) ↦ (db', rw (found, e) refl, same, before)
          | inr (e, was_sent, terminal) ↦ absurd (omega (arith, terminal))
        ]
  | inr missing ↦ (
    db,
    rw missing refl,
    sym (update_rows-none (is_open_mail id) write_sent db.mails missing),
    λ h. h,
  )
]

-- A failure with a known type marks the open row with the id, and answers whether there was one; the
-- database refuses it only where a notification is sent.
pub mark_failed_ends :
    (id : Uuid) (failure_type : Text) (reason : Option Text) (db : Db)
    → is_label mail_failure_types (some failure_type) ≡ true
    → is_label notification_failure_types (some failure_type) ≡ true
    → Marked (write_failed failure_type reason) id db (mark_failed id failure_type reason db)
unfolding mark_failed notification_rank
mark_failed_ends id f r db known known' = elim (Bool-cases (any (is_open_mail id) db.mails)) [
  | inl found ↦
      let marked = record db {
        mails = update_rows (is_open_mail id) (write_failed f r) db.mails;
      } in
      elim (linked_ends MailNotificationHooksState.exception (some f) r exception_only
        (λ e. absurd (omega (arith, e))) known' id marked) [
          | inl (db', e, same, before) ↦ inl (db', rw (known, found, e) refl, same, before)
          | inr (e, was_sent, terminal) ↦ inr (rw (known, found, e) refl, was_sent)
        ]
  | inr missing ↦ inl (
    db,
    rw (known, missing) refl,
    sym (update_rows-none (is_open_mail id) (write_failed f r) db.mails missing),
    λ h. h,
  )
]

-- A verdict that was applied cannot be applied again: the second call finds no open row, and writes
-- nothing.
pub mark_sent-replay :
    (id : Uuid) (db db' : Db) (done : Bool)
    → mark_sent id db ≡ ok (db', done)
    → mark_sent id db' ≡ ok (db', false)
unfolding mark_sent
mark_sent-replay id db db' done h =
    let (x, e, same, _) = mark_sent_ok id db in
    let reached : db' ≡ x = cc (h, e) in
    let closed : any (is_open_mail id) db'.mails ≡ false =
      ap (λ (t : Db). any (is_open_mail id) t.mails) reached
      ∙ (ap (any (is_open_mail id)) same ∙ any_open-sent id db.mails) in
    rw closed refl
