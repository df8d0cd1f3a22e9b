-- ===== src/Transition/MailActivityType.antt =====
-- The transition handlers of src/presentation/http/mail_activity_type_handler.rs.
use backbone_mail.Prelude.{ℕ, List, [], ◌∷◌, Option, Result}
use backbone_mail.Prelude.Text.{Text, codes}
use backbone_mail.StateMachine.MailActivityTypeHooks
use backbone_mail.StateMachine.MailActivityTypeHooks.{MailActivityTypeHooksTransition}
use backbone_mail.Entity.MailActivityChainingType
use backbone_mail.Transition.{Route, Reply, transition_handler}

unfoldable pub enable_trigger_route : Route MailActivityTypeHooksTransition
enable_trigger_route = record {
  permission = codes "mail_activity_type:transition:enable_trigger";
  forbidden = codes "enable_trigger needs mail_activity_type:transition:enable_trigger";
  transition = MailActivityTypeHooksTransition.enable_trigger;
  field = codes "chaining_type";
  value = codes "trigger";
  name = codes "enable_trigger";
}

abbrev pub routes : List (Route MailActivityTypeHooksTransition)
routes = enable_trigger_route ∷ []

module _ {E W : Type 0} (unicode : ℕ → Text)
    (chaining_type : E → MailActivityChainingType.MailActivityChainingType)
    (get_by_id : Text → W → Result Text (Option E))
    (partial_update : Text → Text → Text → Text → W → W × Result Text (Option E)) where
  abbrev handler :
      Route MailActivityTypeHooksTransition → Text → Option (List Text) → W → W × Reply E
  handler =
      transition_handler MailActivityTypeHooks.workflow (MailActivityTypeHooks.parse_state unicode)
        (codes "MailActivityType") (λ (e : E). MailActivityChainingType.display (chaining_type e))
        get_by_id partial_update

  unfoldable pub enable_trigger_transition : Text → Option (List Text) → W → W × Reply E
  enable_trigger_transition = handler enable_trigger_route
