-- ===== src/StateMachine/MailNotificationHooks/Laws.antt =====
-- The tables, the names and the roles of MailNotificationHooks.
use backbone_mail.Prelude.{ℕ, ◌≡◌, ◌↔◌, Memb, arith, ok}
use backbone_mail.Prelude.Text.{Text, codes, text_eq_iff, to_lowercase}
use backbone_mail.StateMachine.Machine.Laws.{IsComplete}
use backbone_mail.StateMachine.MailNotificationHooks.{
  MailNotificationHooksState, MailNotificationHooksTransition, state_name, parse_state,
  transition_name, parse_transition, workflow, transition, transition_with_role, all_transitions,
  ordinal,
}

lists_all : (t : MailNotificationHooksTransition) → Memb t all_transitions
unfolding all_transitions
lists_all t = ground arith

ordinal_injective : (a b : MailNotificationHooksState) → ordinal a ≡ ordinal b → a ≡ b
unfolding ordinal
ordinal_injective a b h = ground arith

pub workflow-IsComplete : IsComplete workflow
unfolding workflow
workflow-IsComplete = record {
  lists_all = lists_all;
  same_iff = λ a b. ground (arith, ordinal_injective a b);
}

pub parse_state_iff :
    (unicode : ℕ → Text) (t : Text) (s : MailNotificationHooksState)
    → (parse_state unicode t ≡ ok s) ↔ (to_lowercase unicode t ≡ state_name s)
unfolding parse_state state_name
parse_state_iff unicode t s = ground (
  arith,
  text_eq_iff (to_lowercase unicode t) (codes "ready"),
  text_eq_iff (to_lowercase unicode t) (codes "process"),
  text_eq_iff (to_lowercase unicode t) (codes "pending"),
  text_eq_iff (to_lowercase unicode t) (codes "sent"),
  text_eq_iff (to_lowercase unicode t) (codes "bounce"),
  text_eq_iff (to_lowercase unicode t) (codes "exception"),
  text_eq_iff (to_lowercase unicode t) (codes "canceled"),
)

pub parse_transition_iff :
    (unicode : ℕ → Text) (t : Text) (s : MailNotificationHooksTransition)
    → (parse_transition unicode t ≡ ok s) ↔ (to_lowercase unicode t ≡ transition_name s)
unfolding parse_transition transition_name
parse_transition_iff unicode t s = ground (
  arith,
  text_eq_iff (to_lowercase unicode t) (codes "dispatch_started"),
  text_eq_iff (to_lowercase unicode t) (codes "smtp_accepted"),
  text_eq_iff (to_lowercase unicode t) (codes "delivery_confirmed"),
  text_eq_iff (to_lowercase unicode t) (codes "instant_delivered"),
  text_eq_iff (to_lowercase unicode t) (codes "bounced"),
  text_eq_iff (to_lowercase unicode t) (codes "send_failed"),
  text_eq_iff (to_lowercase unicode t) (codes "accepted_unpicked"),
  text_eq_iff (to_lowercase unicode t) (codes "delivered_unpicked"),
  text_eq_iff (to_lowercase unicode t) (codes "failed_unpicked"),
  text_eq_iff (to_lowercase unicode t) (codes "canceled"),
)

pub transition_with_role_lem :
    (s : MailNotificationHooksState) (t : MailNotificationHooksTransition) (role : Text)
    → transition_with_role s t role ≡ transition s t
unfolding transition_with_role transition
transition_with_role_lem s t role = ground arith
