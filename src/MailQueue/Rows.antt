-- ===== src/MailQueue/Rows.antt =====
-- What the statements of the queue do to one row, and to the table.
use backbone_mail.Prelude.{
  ℕ, ◌≡◌, refl, ◌⊎◌, Bool, true, false, ◌&&◌, List, [], ◌∷◌, Option, any, arith,
}
use backbone_mail.Prelude.Text.{Text}
use backbone_mail.StateMachine.MailHooks
use backbone_mail.StateMachine.MailHooks.{MailHooksState, MailHooksTransition}
use backbone_mail.Store.{MailRow}
use backbone_mail.Store.Channel.{Uuid}
use backbone_mail.Queue.{update_rows}
use backbone_mail.MailQueue.{is_outgoing, is_claimable, pre_write}
use backbone_mail.MailQueue.Verdict.{
  is_open_mail, write_sent, write_failed, is_requeueable, write_requeued,
}

-- Each statement that finds its row makes a transition of the generated machine: the pre-write is
-- `smtp_failed`, a success is `smtp_accepted`, a requeue is `requeued`; and a failure is
-- `smtp_failed` from `outgoing` and keeps `exception` as it is.
pub row_writes_legal :
    (m : MailRow) (locked : Uuid → Bool) (now : ℕ) (failure_type : Text) (reason : Option Text)
    → (is_claimable locked now m ≡ true
        → (MailHooks.can_transition m.state MailHooksTransition.smtp_failed ≡ true)
          × ((pre_write m).state ≡ MailHooks.target_state MailHooksTransition.smtp_failed))
      × (is_open_mail m.id m ≡ true
          → (MailHooks.can_transition m.state MailHooksTransition.smtp_accepted ≡ true)
            × ((write_sent m).state ≡ MailHooks.target_state MailHooksTransition.smtp_accepted))
      × (is_open_mail m.id m ≡ true
          → ((MailHooks.can_transition m.state MailHooksTransition.smtp_failed ≡ true)
              ⊎ (m.state ≡ (write_failed failure_type reason m).state))
            × ((write_failed failure_type reason m).state
                ≡ MailHooks.target_state MailHooksTransition.smtp_failed))
      × (is_requeueable m.id m ≡ true
          → (MailHooks.can_transition m.state MailHooksTransition.requeued ≡ true)
            × ((write_requeued m).state ≡ MailHooks.target_state MailHooksTransition.requeued))
unfolding is_claimable pre_write is_open_mail write_sent write_failed is_requeueable write_requeued
    MailHooks.can_transition MailHooks.target_state
row_writes_legal m locked now failure_type reason =
    (λ h. ground arith, λ h. ground arith, λ h. ground arith, λ h. ground arith)

-- A row that a pass may still take, among the mails that `sel` selects.
abbrev pub waiting : (Uuid → Bool) → MailRow → Bool
waiting sel m = sel m.id && is_outgoing m.state

pub waiting-sent : (sel : Uuid → Bool) (m : MailRow) → waiting sel (write_sent m) ≡ false
unfolding write_sent
waiting-sent sel m = ground arith

pub waiting-failed :
    (sel : Uuid → Bool) (failure_type : Text) (reason : Option Text) (m : MailRow)
    → waiting sel (write_failed failure_type reason m) ≡ false
unfolding write_failed
waiting-failed sel f r m = ground arith

pub waiting-pre_write : (sel : Uuid → Bool) (m : MailRow) → waiting sel (pre_write m) ≡ false
unfolding pre_write
waiting-pre_write sel m = ground arith

pub claimable-waiting :
    (sel locked : Uuid → Bool) (now : ℕ) (m : MailRow)
    → is_claimable locked now m ≡ true
    → waiting sel m ≡ sel (pre_write m).id
unfolding is_claimable pre_write
claimable-waiting sel locked now m h = ground arith

-- After a success no row with the id is open.
pub any_open-sent :
    (id : Uuid) (rows : List MailRow)
    → any (is_open_mail id) (update_rows (is_open_mail id) write_sent rows) ≡ false
unfolding update_rows write_sent is_open_mail
any_open-sent id [] = refl
any_open-sent id (m ∷ rows) = ground (arith, any_open-sent id rows)
