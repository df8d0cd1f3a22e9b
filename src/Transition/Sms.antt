-- ===== src/Transition/Sms.antt =====
-- The transition handlers of src/presentation/http/sms_handler.rs.
use backbone_mail.Prelude.{ℕ, List, [], ◌∷◌, Option, Result}
use backbone_mail.Prelude.Text.{Text, codes}
use backbone_mail.StateMachine.SmsHooks
use backbone_mail.StateMachine.SmsHooks.{SmsHooksTransition}
use backbone_mail.Entity.SmsState
use backbone_mail.Transition.{Route, Reply, transition_handler}

unfoldable pub pickup_route : Route SmsHooksTransition
pickup_route = record {
  permission = codes "sms:transition:pickup";
  forbidden = codes "pickup needs sms:transition:pickup";
  transition = SmsHooksTransition.pickup;
  field = codes "state";
  value = codes "process";
  name = codes "pickup";
}

unfoldable pub iap_accepted_route : Route SmsHooksTransition
iap_accepted_route = record {
  permission = codes "sms:transition:iap_accepted";
  forbidden = codes "iap_accepted needs sms:transition:iap_accepted";
  transition = SmsHooksTransition.iap_accepted;
  field = codes "state";
  value = codes "pending";
  name = codes "iap_accepted";
}

unfoldable pub delivery_confirmed_route : Route SmsHooksTransition
delivery_confirmed_route = record {
  permission = codes "sms:transition:delivery_confirmed";
  forbidden = codes "delivery_confirmed needs sms:transition:delivery_confirmed";
  transition = SmsHooksTransition.delivery_confirmed;
  field = codes "state";
  value = codes "sent";
  name = codes "delivery_confirmed";
}

unfoldable pub send_failed_route : Route SmsHooksTransition
send_failed_route = record {
  permission = codes "sms:transition:send_failed";
  forbidden = codes "send_failed needs sms:transition:send_failed";
  transition = SmsHooksTransition.send_failed;
  field = codes "state";
  value = codes "error";
  name = codes "send_failed";
}

unfoldable pub stuck_requeued_route : Route SmsHooksTransition
stuck_requeued_route = record {
  permission = codes "sms:transition:stuck_requeued";
  forbidden = codes "stuck_requeued needs sms:transition:stuck_requeued";
  transition = SmsHooksTransition.stuck_requeued;
  field = codes "state";
  value = codes "outgoing";
  name = codes "stuck_requeued";
}

unfoldable pub canceled_route : Route SmsHooksTransition
canceled_route = record {
  permission = codes "sms:transition:canceled";
  forbidden = codes "canceled needs sms:transition:canceled";
  transition = SmsHooksTransition.canceled;
  field = codes "state";
  value = codes "canceled";
  name = codes "canceled";
}

abbrev pub routes : List (Route SmsHooksTransition)
routes =
    pickup_route ∷ iap_accepted_route ∷ delivery_confirmed_route ∷ send_failed_route
    ∷ stuck_requeued_route ∷ canceled_route ∷ []

module _ {E W : Type 0} (unicode : ℕ → Text) (state : E → SmsState.SmsState)
    (get_by_id : Text → W → Result Text (Option E))
    (partial_update : Text → Text → Text → Text → W → W × Result Text (Option E)) where
  abbrev handler : Route SmsHooksTransition → Text → Option (List Text) → W → W × Reply E
  handler =
      transition_handler SmsHooks.workflow (SmsHooks.parse_state unicode) (codes "Sms")
        (λ (e : E). SmsState.display (state e)) get_by_id partial_update

  unfoldable pub pickup_transition : Text → Option (List Text) → W → W × Reply E
  pickup_transition = handler pickup_route

  unfoldable pub iap_accepted_transition : Text → Option (List Text) → W → W × Reply E
  iap_accepted_transition = handler iap_accepted_route

  unfoldable pub delivery_confirmed_transition : Text → Option (List Text) → W → W × Reply E
  delivery_confirmed_transition = handler delivery_confirmed_route

  unfoldable pub send_failed_transition : Text → Option (List Text) → W → W × Reply E
  send_failed_transition = handler send_failed_route

  unfoldable pub stuck_requeued_transition : Text → Option (List Text) → W → W × Reply E
  stuck_requeued_transition = handler stuck_requeued_route

  unfoldable pub canceled_transition : Text → Option (List Text) → W → W × Reply E
  canceled_transition = handler canceled_route
