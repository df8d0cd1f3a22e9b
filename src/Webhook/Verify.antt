-- ===== src/Webhook/Verify.antt =====
-- What a callback has shown when src/application/service/sms_status_webhook_service.rs acts on it.
use backbone_mail.Prelude.{
  ℕ, ◌-◌, ◌*◌, ◌≤◌, ◌<◌, ◌≡◌, refl, sym, ap, ◌∙◌, inl, inr, true, not, List, [], ◌∷◌, ◌++◌, ◌||◌,
  Option, none, some, all, All, length, arith, ltb, Bool-cases, Option-cases, ◌==◌, Result, ok, err,
  ◌>>=◌, ◌>>◌, refuse_if, map_err, step-came_through,
}
use backbone_mail.Prelude.Text.{Text, codes}
use backbone_mail.Store.{Db}
use backbone_mail.Inbound.Bytes.{bytes, gather_zero, byte-Fits}
use backbone_mail.Webhook.{
  verify, invalid, WebhookOutcome, WebhookPayload, is_hex, hex_digit, hex_pairs, parse_hex32,
  const_eq32, skew, max_skew_secs, report, verified, handle,
}

hex_digit_bound : (b : ℕ) → is_hex b ≡ true → hex_digit b < 16
unfolding is_hex hex_digit
hex_digit_bound b h = ground arith

hex_pairs-bytes : (bs : List ℕ) → all is_hex bs ≡ true → All (λ x. x < 256) (hex_pairs bs)
unfolding hex_pairs
hex_pairs-bytes [] h = tt
hex_pairs-bytes (b ∷ []) h = tt
hex_pairs-bytes (hi ∷ lo ∷ rest) h =
    let first : is_hex hi ≡ true = ground arith in
    let second : is_hex lo ≡ true = ground arith in
    (
      omega (arith, hex_digit_bound hi first, hex_digit_bound lo second),
      hex_pairs-bytes rest (ground arith),
    )

length-hex_pairs : (n : ℕ) (bs : List ℕ) → length bs ≡ 2 * n → length (hex_pairs bs) ≡ n
unfolding hex_pairs
length-hex_pairs n [] h = omega (arith, h)
length-hex_pairs n (b ∷ []) h = absurd (omega (arith, h))
length-hex_pairs n (hi ∷ lo ∷ rest) h =
    omega (arith, h, length-hex_pairs (n - 1) rest (omega (arith, h)))

-- A digest that is read is 32 bytes.
parse_hex32_lem :
    (s : Text) (given : List ℕ)
    → parse_hex32 s ≡ some given
    → (length given ≡ 32) × All (λ x. x < 256) given
unfolding parse_hex32
parse_hex32_lem s given h =
    elim (Bool-cases (not (length (bytes s) == 64) || not (all is_hex (bytes s)))) [
      | inl bad ↦ absurd (cc (rw bad at h))
      | inr good ↦
          let e : hex_pairs (bytes s) ≡ given = cc (rw good at h) in
          let full : length (bytes s) ≡ 2 * 32 = ground arith in
          let digits : all is_hex (bytes s) ≡ true = ground arith in
          rw (← e) (length-hex_pairs 32 (bytes s) full, hex_pairs-bytes (bytes s) digits)
    ]

same_bytes :
    (a b : List ℕ)
    → All (λ x. x < 256) a
    → All (λ x. x < 256) b
    → length a ≡ length b
    → const_eq32 a b ≡ true
    → a ≡ b
unfolding const_eq32
same_bytes a b fa fb e h = (gather_zero 0 a b (byte-Fits 0 (omega arith)) fa fb e (ground arith)).1

in_window :
    (now : ℕ) (decoded : Result Text WebhookPayload) (payload : WebhookPayload)
    → (map_err decoded (λ e. invalid (codes "body: " ++ e)) >>= λ (p : WebhookPayload).
        refuse_if
          (ltb max_skew_secs (skew now p.timestamp))
          (verify (codes "timestamp outside ±5min window"))
        >> ok p)
      ≡ ok payload
    → (decoded ≡ ok payload) × (skew now payload.timestamp ≤ max_skew_secs)
in_window now (err e) payload h = absurd (cc)
in_window now (ok p) payload h = ground arith

module _ (mac : List ℕ → List ℕ → List ℕ) (decode : List ℕ → Result Text WebhookPayload)
    (digest : (secret body : List ℕ)
      → (length (mac secret body) ≡ 32) × All (λ x. x < 256) (mac secret body)) where
  verified_sound :
      (secret : List ℕ) (now : ℕ) (raw_body : List ℕ) (header : Option Text)
      (payload : WebhookPayload)
      → verified mac decode secret now raw_body header ≡ ok payload
      → (x : Text) × (given : List ℕ) × (header ≡ some x)
        × (parse_hex32 x ≡ some given)
        × (const_eq32 (mac secret raw_body) given ≡ true)
        × (decode raw_body ≡ ok payload)
        × (skew now payload.timestamp ≤ max_skew_secs)
  unfolding verified
  verified_sound secret now raw_body none payload h = absurd (cc)
  verified_sound secret now raw_body (some x) payload h = elim (Option-cases (parse_hex32 x)) [
    | inl e ↦ absurd (cc (rw e at h))
    | inr (given, e) ↦ elim (Bool-cases (const_eq32 (mac secret raw_body) given)) [
      | inr bad ↦ absurd (cc (rw (e, bad) at h))
      | inl good ↦
          let (decoded, near) = in_window now (decode raw_body) payload (rw (e, good) at h) in
          (x, given, refl, e, good, decoded, near)
    ]
  ]

  -- A callback that gets any answer but an error carried a signature that reads as the digest of its
  -- raw body under the secret, and a payload whose timestamp is at most 300 seconds away; and its
  -- answer is what that payload reports. `mac` answers 32 bytes.
  pub handle-authentic :
      (secret : List ℕ) (now : ℕ) (raw_body : List ℕ) (header : Option Text) (db db' : Db)
      (outcome : WebhookOutcome)
      → handle mac decode secret now raw_body header db ≡ ok (db', outcome)
      → (given : Text) × (payload : WebhookPayload) × (header ≡ some given)
        × (parse_hex32 given ≡ some (mac secret raw_body))
        × (decode raw_body ≡ ok payload)
        × (skew now payload.timestamp ≤ max_skew_secs)
        × (report payload db ≡ ok (db', outcome))
  unfolding handle
  handle-authentic secret now raw_body header db db' outcome h =
      let (payload, reported, passed) =
        step-came_through (λ (p : WebhookPayload). report p db)
          (verified mac decode secret now raw_body header) h in
      let (x, given, present, read, equal, decoded, near) =
        verified_sound secret now raw_body header payload passed in
      let (full, small) = parse_hex32_lem x given read in
      let (full', small') = digest secret raw_body in
      let same = same_bytes (mac secret raw_body) given small' small (full' ∙ sym full) equal in
      (x, payload, present, read ∙ ap some (sym same), decoded, near, reported)
