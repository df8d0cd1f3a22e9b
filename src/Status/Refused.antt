-- ===== src/Status/Refused.antt =====
-- When `advance_notification_status` of
-- src/infrastructure/persistence/message_pipeline_repository.rs meets the trigger that refuses a
-- move.
use backbone_mail.Prelude.{
  ◌≡◌, ◌<◌, none, ◌>>=◌, ◌⊎◌, ap, or_else, ok_parts, ◌∙◌, inl, inr, refl, Bool, true, false, List,
  [], ◌∷◌, Option, some, any, arith, ltb, ◌==◌, ◌&&◌, Bool-cases, Result, ok, err,
}
use backbone_mail.Prelude.Text.{Text}
use backbone_mail.StateMachine.MailNotificationHooks.{MailNotificationHooksState}
use backbone_mail.Store.{NotificationRow}
use backbone_mail.Store.Channel.{Uuid}
use backbone_mail.Status.{
  DbError, check_violation, notification_rank, is_declared, advance_row, advance_in,
}

abbrev pub is_sent : NotificationRow → Bool
is_sent n = notification_rank n.notification_status == 3

-- A status that is refused from `sent` only, and only if it is terminal.
abbrev pub OnlyFromSent : MailNotificationHooksState → Type 0
OnlyFromSent target =
    (s : MailNotificationHooksState)
    → notification_rank s < notification_rank target
    → is_declared s target ≡ false
    → (notification_rank s ≡ 3) × (notification_rank target ≡ 100)

module _ (target : MailNotificationHooksState) (f reason : Option Text)
    (only : OnlyFromSent target) where
  abbrev moved_row : NotificationRow → NotificationRow × Option MailNotificationHooksState
  moved_row n = (
    record n {
      notification_status = target;
      failure_type = or_else f n.failure_type;
      failure_reason = or_else reason n.failure_reason;
    },
    some target,
  )

  row_ends :
      (n : NotificationRow)
      → ((after : NotificationRow × Option MailNotificationHooksState) × (advance_row target f
              reason n
            ≡ ok after))
        ⊎ ((advance_row target f reason n ≡ err check_violation)
            × (is_sent n ≡ true)
            × (notification_rank target ≡ 100))
  unfolding advance_row
  row_ends n =
      elim (Bool-cases (ltb (notification_rank n.notification_status) (notification_rank target))) [
        | inr stays ↦ inl ((n, none), rw stays refl)
        | inl higher ↦ elim (Bool-cases (is_declared n.notification_status target)) [
          | inl moved ↦ inl (moved_row n, rw (higher, moved) refl)
          | inr refused ↦
              let (three, terminal) = only n.notification_status (ground (arith, higher)) refused in
              inr (rw (higher, refused) refl, ground (arith, three), terminal)
        ]
      ]

  -- A verdict on the row with an id is taken or skipped, or else the database refuses it, and then a
  -- row with that id is sent.
  pub advance_in_ends :
      (id : Uuid) (rows : List NotificationRow)
      → ((after : List NotificationRow × Option MailNotificationHooksState) × (advance_in id target
              f reason rows
            ≡ ok after))
        ⊎ ((advance_in id target f reason rows ≡ err check_violation)
            × (any (λ (n : NotificationRow). n.id == id && is_sent n) rows ≡ true)
            × (notification_rank target ≡ 100))
  unfolding advance_in
  advance_in_ends id [] = inl (_, refl)
  advance_in_ends id (n ∷ rows) = elim (Bool-cases (n.id == id)) [
    | inl this ↦ elim (row_ends n) [
      | inl (after, e) ↦ inl ((after.0 ∷ rows, after.1), rw (this, e) refl)
      | inr (e, was_sent, terminal) ↦ inr (rw (this, e) refl, rw (this, was_sent) refl, terminal)
    ]
    | inr other ↦ elim (advance_in_ends id rows) [
      | inl (after, e) ↦ inl ((n ∷ after.0, after.1), rw (other, e) refl)
      | inr (e, found, terminal) ↦ inr (rw (other, e) refl, rw other found, terminal)
    ]
  ]

  row_unsent :
      (n : NotificationRow) (after : NotificationRow × Option MailNotificationHooksState)
      → ¬ (notification_rank target ≡ 3)
      → advance_row target f reason n ≡ ok after
      → is_sent after.0 ≡ true
      → is_sent n ≡ true
  unfolding advance_row
  row_unsent n after other e h = ground arith

  head_unsent :
      (n : NotificationRow) (rows : List NotificationRow)
      (after : List NotificationRow × Option MailNotificationHooksState)
      (r : Result DbError (NotificationRow × Option MailNotificationHooksState))
      → ¬ (notification_rank target ≡ 3)
      → advance_row target f reason n ≡ r
      → (r >>= λ here. ok (here.0 ∷ rows, here.1)) ≡ ok after
      → any is_sent after.0 ≡ true
      → any is_sent (n ∷ rows) ≡ true
  head_unsent n rows after (err x) other done e h = absurd (cc e)
  head_unsent n rows after (ok here) other done e h =
      let found : any is_sent (here.0 ∷ rows) ≡ true = ap (any is_sent) ((ok_parts e).0) ∙ h in
      ground (arith, found, row_unsent n here other done)

  tail_unsent :
      (n : NotificationRow) (rows : List NotificationRow)
      (after : List NotificationRow × Option MailNotificationHooksState)
      (r : Result DbError (List NotificationRow × Option MailNotificationHooksState))
      → ((below : List NotificationRow × Option MailNotificationHooksState)
          → r ≡ ok below
          → any is_sent below.0 ≡ true
          → any is_sent rows ≡ true)
      → (r >>= λ below. ok (n ∷ below.0, below.1)) ≡ ok after
      → any is_sent after.0 ≡ true
      → any is_sent (n ∷ rows) ≡ true
  tail_unsent n rows after (err x) ind e h = absurd (cc e)
  tail_unsent n rows after (ok below) ind e h =
      let found : any is_sent (n ∷ below.0) ≡ true = ap (any is_sent) ((ok_parts e).0) ∙ h in
      ground (arith, found, ind below refl)

  pub in_unsent :
      (id : Uuid) (rows : List NotificationRow)
      (after : List NotificationRow × Option MailNotificationHooksState)
      → ¬ (notification_rank target ≡ 3)
      → advance_in id target f reason rows ≡ ok after
      → any is_sent after.0 ≡ true
      → any is_sent rows ≡ true
  unfolding advance_in
  in_unsent id [] after other e h = ground arith
  in_unsent id (n ∷ rows) after other e h = elim (Bool-cases (n.id == id)) [
    | inl this ↦
        head_unsent n rows after (advance_row target f reason n) other refl (rw this at e) h
    | inr differs ↦
        tail_unsent n rows after (advance_in id target f reason rows)
          (λ below done. in_unsent id rows below other done) (rw differs at e) h
  ]

pub exception_only : OnlyFromSent MailNotificationHooksState.exception
unfolding notification_rank is_declared
exception_only s h e = ground arith

pub pending_only : OnlyFromSent MailNotificationHooksState.pending
unfolding notification_rank is_declared
pending_only s h e = ground arith

pub process_only : OnlyFromSent MailNotificationHooksState.process
unfolding notification_rank is_declared
process_only s h e = ground arith

pub sent_only : OnlyFromSent MailNotificationHooksState.sent
unfolding notification_rank is_declared
sent_only s h e = ground arith

-- No verdict but a terminal one is refused.
pub lower_declared :
    (s target : MailNotificationHooksState)
    → notification_rank s < notification_rank target
    → notification_rank target < 100
    → is_declared s target ≡ true
unfolding notification_rank is_declared
lower_declared s target h k = ground arith
