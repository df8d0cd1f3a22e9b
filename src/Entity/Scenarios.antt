-- ===== src/Entity/Scenarios.antt =====
-- The theorems on the enums and on `transition_to` at an ASCII-only Unicode table.
use backbone_mail.Prelude.{ℕ, ◌≡◌, refl, ◌↔◌, [], ◌∷◌, ok, err}
use backbone_mail.Prelude.Text.{Text, codes, text_eq, to_lowercase}
use backbone_mail.StateMachine.Machine.{
  StateMachineError, transition_not_allowed, transition_to_state,
}
use backbone_mail.StateMachine.MailHooks
use backbone_mail.Entity.TransitionTo
use backbone_mail.Entity.MailState
use backbone_mail.Entity.Exact.{enums-IsExact}
use backbone_mail.Entity.TransitionTo.{mail_transition_to}
use backbone_mail.Entity.TransitionTo.Follows.{Follows}
use backbone_mail.Entity.TransitionTo.Mirror.{columns_follow}

abbrev unfolded : ℕ → Text
unfolded c = c ∷ []

enums-IsExact_example :
    (MailState.from_str unfolded (codes "Cancel") ≡ ok MailState.MailState.cancel)
    ↔ (to_lowercase unfolded (codes "Cancel") ≡ MailState.display MailState.MailState.cancel)
enums-IsExact_example = (enums-IsExact unfolded).14 (codes "Cancel") MailState.MailState.cancel

reads_cancel : MailState.from_str unfolded (codes "CANCEL") ≡ ok MailState.MailState.cancel
unfolding MailState.from_str to_lowercase text_eq
reads_cancel = refl

-- A sent mail is not put back into the queue, a failed one is.
sent_stays :
    (e : StateMachineError) × (mail_transition_to unfolded MailState.MailState.sent
        MailHooks.MailHooksState.outgoing
      ≡ (MailState.MailState.sent, err e))
unfolding mail_transition_to TransitionTo.transition_to transition_to_state MailHooks.workflow
    MailHooks.parse_state MailState.display to_lowercase text_eq
sent_stays = (transition_not_allowed (codes "outgoing") (codes "sent"), refl)

columns_follow_example :
    Follows MailHooks.workflow
      (MailHooks.parse_state unfolded)
      MailState.display
      (MailState.from_str unfolded)
      (mail_transition_to unfolded)
      MailState.MailState.exception
      MailHooks.MailHooksState.outgoing
columns_follow_example =
    (columns_follow unfolded).0 MailState.MailState.exception MailHooks.MailHooksState.outgoing
