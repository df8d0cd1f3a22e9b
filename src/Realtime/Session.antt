-- ===== src/Realtime/Session.antt =====
-- src/realtime/session.rs. HMAC-SHA256, the base64 engine, the UTF-8 reader and the printer and
-- parser of
-- 64-bit numbers are parameters, and so is the clock. A time is an integer, as `i64` is; the sum of
-- `mint_session_token` is taken without the overflow that only a clock near 2^63 seconds would bring.
use backbone_mail.Prelude.{
  ℕ, ◌+◌, ◌-◌, Bool, true, false, List, [], ◌∷◌, ◌++◌, Option, none, some, not, ltb, if◌then◌else◌,
}
use backbone_mail.Prelude.Text.{Text, codes, text_eq, split_on}
use backbone_mail.Store.Channel.{Uuid}
use backbone_mail.Chatter.{MessagingIdentity}
use backbone_mail.Realtime.Registry.{identity_key}
use backbone_mail.Inbound.Bytes.{bytes, const_eq_bytes}

pub data ℤ : Type 0 where
  pos : ℕ → ℤ
  negsuc : ℕ → ℤ

-- `n - m`
abbrev pub minus : ℕ → ℕ → ℤ
minus n m = if ltb n m then negsuc (m - n - 1) else pos (n - m)

infixl 20 ◌+ℤ◌
unfoldable pub ◌+ℤ◌ : ℤ → ℤ → ℤ
pos a +ℤ pos b = pos (a + b)
pos a +ℤ negsuc b = minus a (b + 1)
negsuc a +ℤ pos b = minus b (a + 1)
negsuc a +ℤ negsuc b = negsuc (a + b + 1)

-- `a > b`
unfoldable pub gtb : ℤ → ℤ → Bool
gtb (pos a) (pos b) = ltb b a
gtb (pos a) (negsuc b) = true
gtb (negsuc a) (pos b) = false
gtb (negsuc a) (negsuc b) = ltb a b

abbrev pub session_ttl_secs : ℤ
session_ttl_secs = pos 3600

-- What the standard library and the crates bring.
pub record Codec : Type 0 where
  pub show_uuid : Uuid → Text
  pub show_i64 : ℤ → Text
  pub parse_i64 : Text → Option ℤ
  pub from_utf8 : List ℕ → Option Text
  pub encode : List ℕ → Text
  pub decode : Text → Option (List ℕ)
  pub hmac : List ℕ → List ℕ → List ℕ

module _ (k : Codec) where
  -- `format!("{id}|{exp}")`
  abbrev pub payload : Text → ℤ → Text
  payload id exp = id ++ (codes "|" ++ k.show_i64 exp)

  unfoldable pub mint_session_token : List ℕ → MessagingIdentity → ℤ → ℤ → Text
  unfolding identity_key bytes
  mint_session_token secret identity ttl_secs now =
      let id = identity_key k.show_uuid identity in
      let exp = now +ℤ ttl_secs in
      let sig = k.hmac secret (bytes (payload id exp)) in
      k.encode (bytes id)
      ++ (codes "." ++ (k.encode (bytes (k.show_i64 exp)) ++ (codes "." ++ k.encode sig)))

  -- `token.split('.')`, when it has three parts
  abbrev pub three : List Text → Option (Text × Text × Text)
  three (a ∷ b ∷ c ∷ []) = some (a, b, c)
  three _ = none

  module _ (secret : List ℕ) (identity : MessagingIdentity) (now : ℤ) where
    -- from the expiry on
    unfoldable pub on_expiry : Text → List ℕ → Option ℤ → Bool
    unfolding const_eq_bytes bytes
    on_expiry id sig none = false
    on_expiry id sig (some exp) =
        if gtb now exp then false else const_eq_bytes (k.hmac secret (bytes (payload id exp))) sig

    -- from the two texts on
    unfoldable pub on_texts : List ℕ → Option Text → Option Text → Bool
    unfolding on_expiry identity_key
    on_texts sig none exp = false
    on_texts sig (some id) none = false
    on_texts sig (some id) (some exp) =
        if not (text_eq id (identity_key k.show_uuid identity))
        then false
        else on_expiry id sig (k.parse_i64 exp)

    -- from the decoded parts on
    unfoldable pub on_decoded : Option (List ℕ) → Option (List ℕ) → Option (List ℕ) → Bool
    unfolding on_texts
    on_decoded none exp sig = false
    on_decoded (some id) none sig = false
    on_decoded (some id) (some exp) none = false
    on_decoded (some id) (some exp) (some sig) = on_texts sig (k.from_utf8 id) (k.from_utf8 exp)

    unfoldable pub on_parts : Option (Text × Text × Text) → Bool
    unfolding on_decoded
    on_parts none = false
    on_parts (some (id, exp, sig)) = on_decoded (k.decode id) (k.decode exp) (k.decode sig)

  unfoldable pub verify_session_token : List ℕ → Text → MessagingIdentity → ℤ → Bool
  unfolding on_parts
  verify_session_token secret token identity now =
      on_parts secret identity now (three (split_on b'.' token))
