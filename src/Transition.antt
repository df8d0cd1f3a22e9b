-- ===== src/Transition.antt =====
-- The state transition handlers of src/presentation/http (`*_transition` of the five `*_handler.rs`
-- files of the governed entities). They are one text with the names filled in: `transition_handler`
-- is that text, a `Route` holds the names of one handler, and a child module has the handlers of one
-- entity. The store behind the service is a type `W`; the service's `get_by_id` and `partial_update`
-- are those of backbone_core, which is not part of the repository.
pub mod Mail
pub mod Sms
pub mod MailNotification
pub mod MailPresence
pub mod MailActivityType
pub mod Grants
pub mod Guard
pub mod Routes
mod Scenarios
use backbone_mail.Prelude.{
  ℕ, Bool, true, false, List, [], ◌∷◌, Option, none, some, Result, ok, err, ◌&&◌, ◌||◌, not, ◌==◌,
  ltb, length, any, if◌then◌else◌,
}
use backbone_mail.Prelude.Text.{Text, codes, text_eq, split_on}
use backbone_mail.StateMachine.Machine.{StateMachineError, Workflow}

-- What one handler is called by: the permission it asks for, the refusal of a caller without it, the
-- transition, the column and the value it writes, and the name it gives `as_transition`.
pub record Route (T : Type 0) : Type 0 where
  pub permission : Text
  pub forbidden : Text
  pub transition : T
  pub field : Text
  pub value : Text
  pub name : Text

-- The status code with its body.
pub data Reply (E : Type 0) : Type 0 where
  success : E → Reply E
  not_found : Text → Text → Reply E
  error : ℕ → Text → Reply E

-- `have.iter().enumerate().all(|(i, h)| *h == "*" || want.get(i) == Some(h))`
unfoldable pub segments_match : List Text → List Text → Bool
segments_match [] want = true
segments_match (h ∷ have) [] = text_eq h (codes "*") && segments_match have []
segments_match (h ∷ have) (x ∷ want) =
    (text_eq h (codes "*") || text_eq x h) && segments_match have want

-- `have.last() == Some(&"*")`
unfoldable pub ends_in_star : List Text → Bool
ends_in_star [] = false
ends_in_star (h ∷ []) = text_eq h (codes "*")
ends_in_star (h ∷ g ∷ have) = ends_in_star (g ∷ have)

unfoldable pub grants : List Text → List Text → Bool
unfolding segments_match ends_in_star
grants want have =
    segments_match have want
    && (length have == length want || (ltb (length have) (length want) && ends_in_star have))

unfoldable pub granted : List Text → Text → Bool
unfolding grants
granted permissions required =
    any (λ p. grants (split_on b':' required) (split_on b':' p)) permissions

module _ {S T E W : Type 0} (machine : Workflow S T) (parse : Text → Result StateMachineError S)
    (entity_name : Text) (shown : E → Text) (get_by_id : Text → W → Result Text (Option E))
    (partial_update : Text → Text → Text → Text → W → W × Result Text (Option E))
    (route : Route T) where
  abbrev pub update_reply : Text → Result Text (Option E) → Reply E
  update_reply id (ok (some updated)) = Reply.success updated
  update_reply id (ok none) = Reply.not_found entity_name id
  update_reply id (err e) = Reply.error 500 e

  abbrev pub apply_transition : Text → W → W × Reply E
  apply_transition id db =
      let written = partial_update route.name id route.field route.value db in
      (written.0, update_reply id written.1)

  -- from the parsed state on
  abbrev pub validate : Text → W → Result StateMachineError S → W × Reply E
  validate id db (err _) =
      (db, Reply.error 409 (codes "The stored state is not a state of this machine"))
  validate id db (ok s) =
      if not (machine.can s route.transition)
      then (db, Reply.error 400 (codes "Transition not allowed from current state"))
      else apply_transition id db

  -- from the entity on
  abbrev pub authorize : Text → W → E → Option (List Text) → W × Reply E
  authorize id db e none =
      (db, Reply.error 401 (codes "A transition needs an authenticated caller"))
  authorize id db e (some permissions) =
      if not (granted permissions route.permission)
      then (db, Reply.error 403 route.forbidden)
      else validate id db (parse (shown e))

  abbrev pub on_loaded : Text → Option (List Text) → W → Result Text (Option E) → W × Reply E
  on_loaded id auth db (err e) = (db, Reply.error 500 e)
  on_loaded id auth db (ok none) = (db, Reply.not_found entity_name id)
  on_loaded id auth db (ok (some e)) = authorize id db e auth

  unfoldable pub transition_handler : Text → Option (List Text) → W → W × Reply E
  unfolding granted
  transition_handler id auth db = on_loaded id auth db (get_by_id id db)
