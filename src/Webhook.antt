-- ===== src/Webhook.antt =====
-- The delivery reports of the sms provider: src/application/service/sms_status_webhook_service.rs.
-- HMAC-SHA256 (`mac`) and the JSON decoder (`decode`) are parameters. Instants are in nanoseconds.
pub mod Verify
mod Scenarios
use backbone_mail.Prelude.{
  ℕ, ◌+◌, ◌-◌, ◌*◌, ◌/◌, Bool, true, false, ◌&&◌, ◌||◌, not, List, [], ◌∷◌, ◌++◌, Option, none,
  some, all, length, ltb, leb, ◌==◌, if◌then◌else◌, Result, ok, err, ◌>>=◌, ◌>>◌, refuse_if, ok_or,
  map_err,
}
use backbone_mail.Prelude.Text.{Text, codes, text_eq, is_ascii_digit}
use backbone_mail.Store.{Db}
use backbone_mail.Sms.Service.{SmsError, advance_state}
use backbone_mail.Inbound.Bytes.{bytes, gather}

pub data WebhookError : Type 0 where
  verify : Text → WebhookError
  invalid : Text → WebhookError
  sms : SmsError → WebhookError

pub data WebhookOutcome : Type 0 where
  advanced replay : WebhookOutcome

pub record WebhookPayload : Type 0 where
  pub timestamp : ℕ
  pub sms_uuid : Text
  pub status : Text
  pub failure_type : Option Text
  pub error_message : Option Text

abbrev pub max_skew_secs : ℕ
max_skew_secs = 300

-- `u8::is_ascii_hexdigit` and `char::to_digit(16)`
unfoldable pub is_hex : ℕ → Bool
is_hex b = is_ascii_digit b || (leb b'a' b && leb b b'f') || (leb b'A' b && leb b b'F')

unfoldable pub hex_digit : ℕ → ℕ
hex_digit b = if is_ascii_digit b then b - 48 else if leb b'a' b then b - 87 else b - 55

-- the loop over `chunks(2)`
unfoldable pub hex_pairs : List ℕ → List ℕ
hex_pairs [] = []
hex_pairs (_ ∷ []) = []
hex_pairs (hi ∷ lo ∷ rest) = (16 * hex_digit hi + hex_digit lo) ∷ hex_pairs rest

unfoldable pub parse_hex32 : Text → Option (List ℕ)
parse_hex32 s =
    if not (length (bytes s) == 64) || not (all is_hex (bytes s))
    then none
    else some (hex_pairs (bytes s))

-- `const_eq` on two arrays of 32 bytes
unfoldable pub const_eq32 : List ℕ → List ℕ → Bool
const_eq32 a b = gather 0 a b == 0

-- the status that may be reported; the message of a refusal leaves out the refused text
unfoldable pub sms_state : WebhookPayload → Result WebhookError Text
sms_state p =
    if text_eq p.status (codes "process")
      || text_eq p.status (codes "pending")
      || text_eq p.status (codes "sent")
      || text_eq p.status (codes "error")
    then ok p.status
    else err (invalid (codes "status must be process|pending|sent|error"))

-- whole seconds between two instants
unfoldable pub skew : ℕ → ℕ → ℕ
skew now at = ((now - at) + (at - now)) / 1000000000

abbrev outcome : Db × Bool → Db × WebhookOutcome
outcome (db, true) = (db, advanced)
outcome (db, false) = (db, replay)

-- what a verified payload does
unfoldable pub report : WebhookPayload → Db → Result WebhookError (Db × WebhookOutcome)
report p db = do
  state ← sms_state p
  done ← map_err (advance_state p.sms_uuid state p.failure_type p.error_message db) sms
  ok (outcome done)

module _ (mac : List ℕ → List ℕ → List ℕ) (decode : List ℕ → Result Text WebhookPayload) where
  -- the checks on the raw body and its header
  unfoldable pub verified : List ℕ → ℕ → List ℕ → Option Text → Result WebhookError WebhookPayload
  verified secret now raw_body header = do
    given_hex ← ok_or header (verify (codes "missing X-Signature"))
    given ← ok_or (parse_hex32 given_hex) (verify (codes "X-Signature is not 64 hex chars"))
    refuse_if (not (const_eq32 (mac secret raw_body) given)) (verify (codes "signature mismatch"))
    payload ← map_err (decode raw_body) (λ e. invalid (codes "body: " ++ e))
    refuse_if (ltb max_skew_secs (skew now payload.timestamp))
        (verify (codes "timestamp outside ±5min window"))
    ok payload

  unfoldable pub handle :
      List ℕ → ℕ → List ℕ → Option Text → Db → Result WebhookError (Db × WebhookOutcome)
  unfolding verified
  handle secret now raw_body header db =
      verified secret now raw_body header >>= λ payload. report payload db
