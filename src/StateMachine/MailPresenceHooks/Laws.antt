-- ===== src/StateMachine/MailPresenceHooks/Laws.antt =====
-- The tables, the names and the roles of MailPresenceHooks.
use backbone_mail.Prelude.{ℕ, ◌≡◌, ◌↔◌, Memb, arith, ok}
use backbone_mail.Prelude.Text.{Text, codes, text_eq_iff, to_lowercase}
use backbone_mail.StateMachine.Machine.Laws.{IsComplete}
use backbone_mail.StateMachine.MailPresenceHooks.{
  MailPresenceHooksState, MailPresenceHooksTransition, state_name, parse_state, transition_name,
  parse_transition, workflow, transition, transition_with_role, all_transitions, ordinal,
}

lists_all : (t : MailPresenceHooksTransition) → Memb t all_transitions
unfolding all_transitions
lists_all t = ground arith

ordinal_injective : (a b : MailPresenceHooksState) → ordinal a ≡ ordinal b → a ≡ b
unfolding ordinal
ordinal_injective a b h = ground arith

pub workflow-IsComplete : IsComplete workflow
unfolding workflow
workflow-IsComplete = record {
  lists_all = lists_all;
  same_iff = λ a b. ground (arith, ordinal_injective a b);
}

pub parse_state_iff :
    (unicode : ℕ → Text) (t : Text) (s : MailPresenceHooksState)
    → (parse_state unicode t ≡ ok s) ↔ (to_lowercase unicode t ≡ state_name s)
unfolding parse_state state_name
parse_state_iff unicode t s = ground (
  arith,
  text_eq_iff (to_lowercase unicode t) (codes "online"),
  text_eq_iff (to_lowercase unicode t) (codes "away"),
  text_eq_iff (to_lowercase unicode t) (codes "offline"),
)

pub parse_transition_iff :
    (unicode : ℕ → Text) (t : Text) (s : MailPresenceHooksTransition)
    → (parse_transition unicode t ≡ ok s) ↔ (to_lowercase unicode t ≡ transition_name s)
unfolding parse_transition transition_name
parse_transition_iff unicode t s = ground (
  arith,
  text_eq_iff (to_lowercase unicode t) (codes "go_online"),
  text_eq_iff (to_lowercase unicode t) (codes "go_away"),
  text_eq_iff (to_lowercase unicode t) (codes "go_offline"),
)

pub transition_with_role_lem :
    (s : MailPresenceHooksState) (t : MailPresenceHooksTransition) (role : Text)
    → transition_with_role s t role ≡ transition s t
unfolding transition_with_role transition
transition_with_role_lem s t role = ground arith
