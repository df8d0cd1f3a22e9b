-- ===== src/Status/Lattice.antt =====
-- Sequences of verdicts on one notification: `advance_notification_status` of
-- src/infrastructure/persistence/message_pipeline_repository.rs, call after call.
use backbone_mail.Prelude.{
  ℕ, ◌≤◌, ◌<◌, max, ◌≡◌, refl, sym, ◌∙◌, ◌↔◌, ◌⊎◌, inl, inr, ◌==◌, ==_iff, Bool-cases, All, Result,
  ok, err, or_else, List, [], ◌∷◌, Option, none, some, arith,
}
use backbone_mail.Prelude.Text.{Text}
use backbone_mail.StateMachine.MailNotificationHooks.{MailNotificationHooksState}
use backbone_mail.Store.{NotificationRow}
use mathlib.Core.List.{Perm, Permᴰ}
use mathlib.Core.Logic.{∥∥₁_elim}
use native.Mathlib.Nat.{ℕ_set}
use backbone_mail.Status.{DbError, check_violation, notification_rank, is_declared, advance_row}
use backbone_mail.Status.Refused.{lower_declared}

-- the row after a statement, which leaves it as it was when the database refuses
abbrev kept :
    NotificationRow
    → Result DbError (NotificationRow × Option MailNotificationHooksState)
    → NotificationRow
kept n (ok done) = done.0
kept n (err e) = n

-- The status after a sequence of verdicts, each with what it says of the failure, each in a
-- transaction of its own.
unfoldable pub advance_all :
    List (MailNotificationHooksState × Option Text × Option Text)
    → NotificationRow
    → NotificationRow
unfolding advance_row
advance_all [] n = n
advance_all ((target, failure_type, reason) ∷ rest) n =
    advance_all rest (kept n (advance_row target failure_type reason n))

abbrev pub best : List (MailNotificationHooksState × Option Text × Option Text) → ℕ → ℕ
best [] r = r
best ((target, _, _) ∷ rest) r = max (notification_rank target) (best rest r)

rank_bound : (s : MailNotificationHooksState) → notification_rank s ≤ 100
unfolding notification_rank
rank_bound s = ground arith

advance_row_rank :
    (target : MailNotificationHooksState) (f reason : Option Text) (n : NotificationRow)
    → notification_rank target < 100
    → notification_rank (kept n (advance_row target f reason n)).notification_status
      ≡ max (notification_rank target) (notification_rank n.notification_status)
unfolding advance_row
advance_row_rank target f reason n low = ground (arith, lower_declared n.notification_status target)

best_step :
    (vs : List (MailNotificationHooksState × Option Text × Option Text)) (r k : ℕ)
    → best vs (max k r) ≡ max k (best vs r)
best_step [] r k = refl
best_step ((t, f, e) ∷ vs) r k = omega (arith, best_step vs r k)

abbrev Low : MailNotificationHooksState × Option Text × Option Text → Type 0
Low v = notification_rank v.0 < 100

advance_all_rank :
    (vs : List (MailNotificationHooksState × Option Text × Option Text)) (n : NotificationRow)
    → All Low vs
    → notification_rank (advance_all vs n).notification_status
      ≡ best vs (notification_rank n.notification_status)
unfolding advance_all
advance_all_rank [] n low = refl
advance_all_rank ((t, f, e) ∷ vs) n (first, low) =
    advance_all_rank vs (kept n (advance_row t f e n)) low
    ∙ rw (advance_row_rank t f e n first)
        (best_step vs (notification_rank n.notification_status) (notification_rank t))

best-Low :
    (vs : List (MailNotificationHooksState × Option Text × Option Text)) (r : ℕ)
    → r < 100
    → All Low vs
    → best vs r < 100
best-Low [] r h low = h
best-Low ((t, f, e) ∷ vs) r h (first, low) = omega (arith, first, best-Low vs r h low)

Low-best :
    (vs : List (MailNotificationHooksState × Option Text × Option Text)) (r : ℕ)
    → best vs r < 100
    → All Low vs
Low-best [] r h = tt
Low-best ((t, f, e) ∷ vs) r h = (omega (arith, h), Low-best vs r (omega (arith, h)))

best_perm :
    (vs us : List (MailNotificationHooksState × Option Text × Option Text)) (r : ℕ)
    → Permᴰ vs us
    → best vs r ≡ best us r
best_perm vs us r Permᴰ.nil = refl
best_perm vs us r (Permᴰ.cons {l₁ = l₁} {l₂ = l₂} e p) = rw (e, best_perm l₁ l₂ r p)
best_perm vs us r (Permᴰ.swap {a = a} {b = b} {l = l} e f) = rw (e, f) (omega arith)
best_perm vs us r (Permᴰ.trans {l₂ = l} p q) = best_perm vs l r p ∙ best_perm l us r q

rank_injective :
    (a b : MailNotificationHooksState)
    → notification_rank a ≡ notification_rank b
    → notification_rank a < 100
    → a ≡ b
unfolding notification_rank
rank_injective a b e h = ground arith

unchanged :
    (t : MailNotificationHooksState) (f e : Option Text) (n : NotificationRow)
    → notification_rank n.notification_status ≡ 100
    → advance_row t f e n ≡ ok (n, none)
unfolding advance_row
unchanged t f e n h = ground (arith, rank_bound t)

-- Once a notification is bounced, failed or canceled, no later verdict changes its row.
pub terminal_absorbs :
    (vs : List (MailNotificationHooksState × Option Text × Option Text)) (n : NotificationRow)
    → notification_rank n.notification_status ≡ 100
    → advance_all vs n ≡ n
unfolding advance_all
terminal_absorbs [] n h = refl
terminal_absorbs ((t, f, e) ∷ vs) n h = rw (unchanged t f e n h) (terminal_absorbs vs n h)

-- Verdicts that are not terminal may arrive in any order: the status in the end is the same.
pub advance_all-perm :
    (vs us : List (MailNotificationHooksState × Option Text × Option Text)) (n : NotificationRow)
    → Perm vs us
    → All (λ v. notification_rank v.0 < 100) vs
    → (advance_all vs n).notification_status ≡ (advance_all us n).notification_status
advance_all-perm vs us n p low =
    let same : (r : ℕ) → best vs r ≡ best us r = λ r. ∥∥₁_elim p (ℕ_set _ _) (best_perm vs us r) in
    let low_us = Low-best us 0 (omega (arith, same 0, best-Low vs 0 (omega arith) low)) in
    let rank = notification_rank n.notification_status in
    elim (Bool-cases (rank == 100)) [
      | inl final ↦
          let at : rank ≡ 100 = (==_iff rank 100).0 final in
          rw (terminal_absorbs vs n at, terminal_absorbs us n at) refl
      | inr open_row ↦
          let small : rank < 100 = ground (arith, open_row, rank_bound n.notification_status) in
          let vs_rank = advance_all_rank vs n low in
          rank_injective (advance_all vs n).notification_status
            (advance_all us n).notification_status
            (vs_rank ∙ same rank ∙ sym (advance_all_rank us n low_us))
            (rw vs_rank (best-Low vs rank small low))
    ]

-- Where the trigger stands in the way of a verdict: a terminal one after `sent`, and a bounce of
-- what was never picked up.
abbrev pub IsRefused : MailNotificationHooksState → MailNotificationHooksState → Type 0
IsRefused old new =
    ((old ≡ MailNotificationHooksState.sent) × (notification_rank new ≡ 100))
    ⊎ ((old ≡ MailNotificationHooksState.ready) × (new ≡ MailNotificationHooksState.bounce))

-- A verdict is skipped exactly when it does not rank above the row's status. The database refuses it
-- exactly when it is terminal and the row is sent already, or a bounce and the row is still ready.
-- In every other case it is taken, with the earlier failure kept where the verdict names none.
pub advance_row_exact :
    (t : MailNotificationHooksState) (f e : Option Text) (n : NotificationRow)
    → ((advance_row t f e n ≡ ok (n, none))
        ↔ (notification_rank t ≤ notification_rank n.notification_status))
      × ((advance_row t f e n ≡ err check_violation) ↔ IsRefused n.notification_status t)
      × ((advance_row t f e n
            ≡ ok (
              record n {
                notification_status = t;
                failure_type = or_else f n.failure_type;
                failure_reason = or_else e n.failure_reason;
              },
              some t,
            ))
          ↔ ((notification_rank n.notification_status < notification_rank t)
              × ¬ (IsRefused n.notification_status t)))
unfolding advance_row notification_rank is_declared
advance_row_exact t f e n = ground arith
