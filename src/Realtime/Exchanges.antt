-- ===== src/Realtime/Exchanges.antt =====
-- Session proofs and streams with concrete parameters, and the theorems at them.
use backbone_mail.Prelude.{
  ℕ, zero, suc, ◌+◌, ◌-◌, ◌%◌, ◌≡◌, refl, ap, ◌∙◌, inl, inr, Bool, true, false, List, [], ◌∷◌,
  Option, none, some, arith, length, map, all, ltb, leb, ◌&&◌, ◌==◌, if◌then◌else◌, Bool-cases, not,
}
use backbone_mail.Prelude.Text.{Text, text_eq, contains_char, split_on}
use backbone_mail.Chatter.{user}
use backbone_mail.Inbound.Bytes.{bytes}
use backbone_mail.Realtime.Registry.{identity_key}
use backbone_mail.Realtime.Session.{
  ℤ, pos, negsuc, ◌+ℤ◌, gtb, Codec, payload, three, mint_session_token, verify_session_token,
}
use backbone_mail.Realtime.Proofs.{
  IsAscii, AreBytes, IsCodec, bytes_ascii, verify-mint, verify_sound,
}

-- Numbers in strokes, bytes as characters from `d` on, and the message as its own signature.
abbrev strokes : ℕ → Text
strokes zero = []
strokes (suc n) = b'1' ∷ strokes n

strokes-IsAscii : (n : ℕ) → IsAscii (strokes n)
strokes-IsAscii zero = refl
strokes-IsAscii (suc n) = strokes-IsAscii n

length-strokes : (n : ℕ) → length (strokes n) ≡ n
length-strokes zero = refl
length-strokes (suc n) = ap suc (length-strokes n)

abbrev show_i64 : ℤ → Text
show_i64 (pos n) = b'+' ∷ strokes n
show_i64 (negsuc n) = b'-' ∷ strokes n

abbrev parse_i64 : Text → Option ℤ
parse_i64 [] = none
parse_i64 (c ∷ t) = some (if c == b'-' then negsuc (length t) else pos (length t))

abbrev low : List ℕ → List ℕ
low bs = map (λ b. b % 256) bs

abbrev encode : List ℕ → Text
encode bs = map (λ b. b + 100) bs

abbrev is_code : ℕ → Bool
is_code c = leb 100 c && ltb c 356

abbrev decode : Text → Option (List ℕ)
decode t = if all is_code t then some (map (λ c. c - 100) t) else none

abbrev codec : Codec
codec = record {
  show_uuid = strokes;
  show_i64 = show_i64;
  parse_i64 = parse_i64;
  from_utf8 = λ bs. some bs;
  encode = encode;
  decode = decode;
  hmac = λ secret bs. low bs;
}

i64-IsAscii : (n : ℤ) → IsAscii (show_i64 n)
i64-IsAscii (pos n) = strokes-IsAscii n
i64-IsAscii (negsuc n) = strokes-IsAscii n

parse_show : (n : ℤ) → parse_i64 (show_i64 n) ≡ some n
parse_show (pos n) = ap (λ k. some (pos k)) (length-strokes n)
parse_show (negsuc n) = ap (λ k. some (negsuc k)) (length-strokes n)

all_codes : (bs : List ℕ) → AreBytes bs → all is_code (encode bs) ≡ true
all_codes [] h = refl
all_codes (x ∷ bs) (small, h) = ground (arith, small, all_codes bs h)

shifted_back : (bs : List ℕ) → map (λ c. c - 100) (encode bs) ≡ bs
shifted_back [] = refl
shifted_back (x ∷ bs) =
    let e : x + 100 - 100 ≡ x = omega arith in rw (shifted_back bs) (ap (λ y. y ∷ bs) e)

decode_encode : (bs : List ℕ) → AreBytes bs → decode (encode bs) ≡ some bs
decode_encode bs h = rw (all_codes bs h) (ap some (shifted_back bs))

no_dot : (bs : List ℕ) → contains_char b'.' (encode bs) ≡ false
unfolding contains_char
no_dot [] = refl
no_dot (x ∷ bs) = ground (arith, no_dot bs)

low_bytes : (bs : List ℕ) → AreBytes (low bs)
low_bytes [] = tt
low_bytes (x ∷ bs) = (omega arith, low_bytes bs)

shifted_bytes : (t : Text) → all is_code t ≡ true → AreBytes (map (λ c. c - 100) t)
shifted_bytes [] h = tt
shifted_bytes (c ∷ t) h = (ground (arith, h), shifted_bytes t (ground (arith, h)))

decode_bytes : (t : Text) (bs : List ℕ) → decode t ≡ some bs → AreBytes bs
decode_bytes t bs h = elim (Bool-cases (all is_code t)) [
  | inl codes_all ↦
      let e : map (λ c. c - 100) t ≡ bs = cc (rw codes_all at h) in
      rw (← e) (shifted_bytes t codes_all)
  | inr bad ↦ absurd (cc (rw bad at h))
]

codec-IsCodec : IsCodec codec
codec-IsCodec = record {
  uuid_ascii = strokes-IsAscii;
  i64_ascii = i64-IsAscii;
  parse_show = parse_show;
  reads_ascii = λ t h. ap some (bytes_ascii t h);
  decode_encode = decode_encode;
  encode_alphabet = no_dot;
  hmac_bytes = λ secret bs. low_bytes bs;
  decode_bytes = decode_bytes;
}

verify-mint_example :
    verify_session_token codec []
      (mint_session_token codec [] (user 1) (pos 5) (pos 2))
      (user 1)
      (pos 3)
    ≡ (text_eq (identity_key strokes (user 1)) (identity_key strokes (user 1))
        && not (gtb (pos 3) (pos 2 +ℤ pos 5)))
verify-mint_example = verify-mint codec codec-IsCodec [] (user 1) (user 1) (pos 5) (pos 2) (pos 3)

abbrev token : Text
unfolding mint_session_token
token = mint_session_token codec [] (user 1) (pos 5) (pos 2)

token_accepted : verify_session_token codec [] token (user 1) (pos 3) ≡ true
unfolding token identity_key gtb ◌+ℤ◌ text_eq
token_accepted = verify-mint codec codec-IsCodec [] (user 1) (user 1) (pos 5) (pos 2) (pos 3) ∙ refl

token_expires : verify_session_token codec [] token (user 1) (pos 8) ≡ false
unfolding token identity_key gtb ◌+ℤ◌ text_eq
token_expires = verify-mint codec codec-IsCodec [] (user 1) (user 1) (pos 5) (pos 2) (pos 8) ∙ refl

verify_sound_example :
    (parts : Text × Text × Text) × (id : List ℕ) × (at : List ℕ) × (shown : Text) × (exp : ℤ)
    × (three codec (split_on b'.' token) ≡ some parts)
    × (decode parts.0 ≡ some id)
    × (codec.from_utf8 id ≡ some (identity_key strokes (user 1)))
    × (decode parts.1 ≡ some at)
    × (codec.from_utf8 at ≡ some shown)
    × (parse_i64 shown ≡ some exp)
    × (gtb (pos 3) exp ≡ false)
    × (decode parts.2
        ≡ some (codec.hmac [] (bytes (payload codec (identity_key strokes (user 1)) exp))))
verify_sound_example = verify_sound codec codec-IsCodec [] token (user 1) (pos 3) token_accepted
