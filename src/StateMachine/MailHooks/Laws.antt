-- ===== src/StateMachine/MailHooks/Laws.antt =====
-- The tables, the names and the roles of MailHooks.
use backbone_mail.Prelude.{ℕ, ◌≡◌, ◌↔◌, Memb, arith, ok}
use backbone_mail.Prelude.Text.{Text, codes, text_eq_iff, to_lowercase}
use backbone_mail.StateMachine.Machine.Laws.{IsComplete}
use backbone_mail.StateMachine.MailHooks.{
  MailHooksState, MailHooksTransition, state_name, parse_state, transition_name, parse_transition,
  workflow, transition, transition_with_role, all_transitions, ordinal,
}

lists_all : (t : MailHooksTransition) → Memb t all_transitions
unfolding all_transitions
lists_all t = ground arith

ordinal_injective : (a b : MailHooksState) → ordinal a ≡ ordinal b → a ≡ b
unfolding ordinal
ordinal_injective a b h = ground arith

pub workflow-IsComplete : IsComplete workflow
unfolding workflow
workflow-IsComplete = record {
  lists_all = lists_all;
  same_iff = λ a b. ground (arith, ordinal_injective a b);
}

pub parse_state_iff :
    (unicode : ℕ → Text) (t : Text) (s : MailHooksState)
    → (parse_state unicode t ≡ ok s) ↔ (to_lowercase unicode t ≡ state_name s)
unfolding parse_state state_name
parse_state_iff unicode t s = ground (
  arith,
  text_eq_iff (to_lowercase unicode t) (codes "outgoing"),
  text_eq_iff (to_lowercase unicode t) (codes "sent"),
  text_eq_iff (to_lowercase unicode t) (codes "received"),
  text_eq_iff (to_lowercase unicode t) (codes "exception"),
  text_eq_iff (to_lowercase unicode t) (codes "cancel"),
)

pub parse_transition_iff :
    (unicode : ℕ → Text) (t : Text) (s : MailHooksTransition)
    → (parse_transition unicode t ≡ ok s) ↔ (to_lowercase unicode t ≡ transition_name s)
unfolding parse_transition transition_name
parse_transition_iff unicode t s = ground (
  arith,
  text_eq_iff (to_lowercase unicode t) (codes "smtp_accepted"),
  text_eq_iff (to_lowercase unicode t) (codes "smtp_failed"),
  text_eq_iff (to_lowercase unicode t) (codes "inbound_acknowledged"),
  text_eq_iff (to_lowercase unicode t) (codes "requeued"),
  text_eq_iff (to_lowercase unicode t) (codes "cancelled"),
)

pub transition_with_role_lem :
    (s : MailHooksState) (t : MailHooksTransition) (role : Text)
    → transition_with_role s t role ≡ transition s t
unfolding transition_with_role transition
transition_with_role_lem s t role = ground arith
