-- ===== src/Transition/MailPresence.antt =====
-- The transition handlers of src/presentation/http/mail_presence_handler.rs.
use backbone_mail.Prelude.{ℕ, List, [], ◌∷◌, Option, Result}
use backbone_mail.Prelude.Text.{Text, codes}
use backbone_mail.StateMachine.MailPresenceHooks
use backbone_mail.StateMachine.MailPresenceHooks.{MailPresenceHooksTransition}
use backbone_mail.Entity.MailPresenceStatus
use backbone_mail.Transition.{Route, Reply, transition_handler}

unfoldable pub go_online_route : Route MailPresenceHooksTransition
go_online_route = record {
  permission = codes "mail_presence:transition:go_online";
  forbidden = codes "go_online needs mail_presence:transition:go_online";
  transition = MailPresenceHooksTransition.go_online;
  field = codes "status";
  value = codes "online";
  name = codes "go_online";
}

unfoldable pub go_away_route : Route MailPresenceHooksTransition
go_away_route = record {
  permission = codes "mail_presence:transition:go_away";
  forbidden = codes "go_away needs mail_presence:transition:go_away";
  transition = MailPresenceHooksTransition.go_away;
  field = codes "status";
  value = codes "away";
  name = codes "go_away";
}

unfoldable pub go_offline_route : Route MailPresenceHooksTransition
go_offline_route = record {
  permission = codes "mail_presence:transition:go_offline";
  forbidden = codes "go_offline needs mail_presence:transition:go_offline";
  transition = MailPresenceHooksTransition.go_offline;
  field = codes "status";
  value = codes "offline";
  name = codes "go_offline";
}

abbrev pub routes : List (Route MailPresenceHooksTransition)
routes = go_online_route ∷ go_away_route ∷ go_offline_route ∷ []

module _ {E W : Type 0} (unicode : ℕ → Text) (status : E → MailPresenceStatus.MailPresenceStatus)
    (get_by_id : Text → W → Result Text (Option E))
    (partial_update : Text → Text → Text → Text → W → W × Result Text (Option E)) where
  abbrev handler : Route MailPresenceHooksTransition → Text → Option (List Text) → W → W × Reply E
  handler =
      transition_handler MailPresenceHooks.workflow (MailPresenceHooks.parse_state unicode)
        (codes "MailPresence") (λ (e : E). MailPresenceStatus.display (status e)) get_by_id
        partial_update

  unfoldable pub go_online_transition : Text → Option (List Text) → W → W × Reply E
  go_online_transition = handler go_online_route

  unfoldable pub go_away_transition : Text → Option (List Text) → W → W × Reply E
  go_away_transition = handler go_away_route

  unfoldable pub go_offline_transition : Text → Option (List Text) → W → W × Reply E
  go_offline_transition = handler go_offline_route
