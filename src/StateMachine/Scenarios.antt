-- ===== src/StateMachine/Scenarios.antt =====
-- Runs of the state machines, with the theorems at them.
use backbone_mail.Prelude.{ℕ, ◌≡◌, ◌↔◌, true, refl, [], ◌∷◌}
use backbone_mail.Prelude.Text.{Text}
use backbone_mail.StateMachine.Finals.{mail_final_exit}
use backbone_mail.StateMachine.MailHooks
use backbone_mail.StateMachine.MailHooks.{MailHooksState, MailHooksTransition}

abbrev no_table : ℕ → Text
no_table c = c ∷ []

mail_final_exit_example :
    (MailHooks.can_transition MailHooksState.sent MailHooksTransition.inbound_acknowledged ≡ true)
    ↔ ((MailHooksState.sent ≡ MailHooksState.sent)
        × (MailHooksTransition.inbound_acknowledged ≡ MailHooksTransition.inbound_acknowledged))
unfolding MailHooks.is_final
mail_final_exit_example =
    mail_final_exit MailHooksState.sent MailHooksTransition.inbound_acknowledged refl
