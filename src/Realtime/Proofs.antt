-- ===== src/Realtime/Proofs.antt =====
-- The session proofs of src/realtime/session.rs: what is minted verifies, and what verifies was
-- signed.
use mathlib.Core.Bool.{false≢true}
use backbone_mail.Prelude.{
  inl, inr, ℕ, ◌<◌, ◌≡◌, refl, sym, ap, ◌∙◌, true, false, List, [], ◌∷◌, ◌++◌, Option, none, some,
  arith, All, all, ◌&&◌, not, Bool-cases,
}
use backbone_mail.Prelude.Text.{
  Text, codes, text_eq, text_eq_iff, split_on, contains_char, is_ascii,
}
use backbone_mail.Prelude.Text.Split.{split_on_none, split_on-append}
use backbone_mail.Store.Channel.{Uuid}
use backbone_mail.Chatter.{MessagingIdentity, user, guest}
use backbone_mail.Realtime.Registry.{identity_key}
use backbone_mail.Inbound.Bytes.{bytes, const_eq_bytes, const_eq_bytes_iff}
use backbone_mail.Realtime.Session.{
  ℤ, ◌+ℤ◌, gtb, Codec, payload, three, mint_session_token, verify_session_token, on_parts,
  on_decoded, on_texts, on_expiry,
}

abbrev pub IsAscii : Text → Type 0
IsAscii t = all is_ascii t ≡ true

abbrev pub AreBytes : List ℕ → Type 0
AreBytes bs = All (λ b. b < 256) bs

-- What the crates and the standard library promise.
pub record IsCodec (k : Codec) : Type 0 where
  pub uuid_ascii : (id : Uuid) → IsAscii (k.show_uuid id)
  pub i64_ascii : (n : ℤ) → IsAscii (k.show_i64 n)
  pub parse_show : (n : ℤ) → k.parse_i64 (k.show_i64 n) ≡ some n
  pub reads_ascii : (t : Text) → IsAscii t → k.from_utf8 (bytes t) ≡ some t
  pub decode_encode : (bs : List ℕ) → AreBytes bs → k.decode (k.encode bs) ≡ some bs
  pub encode_alphabet : (bs : List ℕ) → contains_char b'.' (k.encode bs) ≡ false
  pub hmac_bytes : (secret bs : List ℕ) → AreBytes (k.hmac secret bs)
  pub decode_bytes : (t : Text) (bs : List ℕ) → k.decode t ≡ some bs → AreBytes bs

pub bytes_ascii : (t : Text) → IsAscii t → bytes t ≡ t
unfolding bytes
bytes_ascii [] h = refl
bytes_ascii (x ∷ t) h = elim (Bool-cases (is_ascii x)) [
  | inl small ↦ rw small (ap (λ bs. x ∷ bs) (bytes_ascii t (rw small at h)))
  | inr large ↦ absurd (false≢true (rw large at h))
]

below_256 : (t : Text) → IsAscii t → AreBytes t
below_256 [] h = tt
below_256 (x ∷ t) h = elim (Bool-cases (is_ascii x)) [
  | inl small ↦ (ground (arith, small), below_256 t (rw small at h))
  | inr large ↦ absurd (false≢true (rw large at h))
]

ascii_bytes : (t : Text) → IsAscii t → AreBytes (bytes t)
ascii_bytes t h = rw (bytes_ascii t h) (below_256 t h)

module _ (k : Codec) (c : IsCodec k) where
  key-IsAscii : (identity : MessagingIdentity) → IsAscii (identity_key k.show_uuid identity)
  unfolding identity_key
  key-IsAscii (user p) = c.uuid_ascii p
  key-IsAscii (guest g) = c.uuid_ascii g

  three_parts :
      (a b s : List ℕ)
      → three k
          (split_on b'.' (k.encode a ++ (codes "." ++ (k.encode b ++ (codes "." ++ k.encode s)))))
        ≡ some (k.encode a, k.encode b, k.encode s)
  three_parts a b s = ap (three k) (
      split_on-append b'.' (k.encode a) (k.encode b ++ (codes "." ++ k.encode s))
        (c.encode_alphabet a)
      ∙ ap (λ ps. k.encode a ∷ ps)
          (split_on-append b'.' (k.encode b) (k.encode s) (c.encode_alphabet b)
            ∙ ap (λ ps. k.encode b ∷ ps) (split_on_none b'.' (k.encode s) (c.encode_alphabet s))))

  module _ (secret : List ℕ) where
    signed : (bs : List ℕ) → const_eq_bytes (k.hmac secret bs) (k.hmac secret bs) ≡ true
    signed bs =
        let sig = k.hmac secret bs in
        (const_eq_bytes_iff sig sig (c.hmac_bytes secret bs) (c.hmac_bytes secret bs)).1 refl

    read_parts :
        (claimant : MessagingIdentity) (now : ℤ) (id : Text) (exp : ℤ) (sig : List ℕ)
        → IsAscii id
        → AreBytes sig
        → on_parts k secret claimant now
            (some (k.encode (bytes id), k.encode (bytes (k.show_i64 exp)), k.encode sig))
          ≡ on_texts k secret claimant now sig (some id) (some (k.show_i64 exp))
    unfolding on_parts on_decoded
    read_parts claimant now id exp sig ascii are_bytes =
        rw (c.decode_encode (bytes id) (ascii_bytes id ascii)) (
          rw
            (c.decode_encode (bytes (k.show_i64 exp))
              (ascii_bytes (k.show_i64 exp) (c.i64_ascii exp)))
            (rw (c.decode_encode sig are_bytes) (
              rw (c.reads_ascii id ascii)
                (rw (c.reads_ascii (k.show_i64 exp) (c.i64_ascii exp)) refl))))

    judged :
        (claimant : MessagingIdentity) (now : ℤ) (id : Text) (exp : ℤ)
        → on_texts k secret claimant now
            (k.hmac secret (bytes (payload k id exp)))
            (some id)
            (some (k.show_i64 exp))
          ≡ (text_eq id (identity_key k.show_uuid claimant) && not (gtb now exp))
    unfolding on_texts on_expiry
    judged claimant now id exp =
        rw (c.parse_show exp) (rw (signed (bytes (payload k id exp))) (ground arith))

    -- A proof that was minted for an identity verifies, whoever claims it and whenever, exactly if
    -- the claimant has the same identity key and the clock is not past the minting time and the
    -- lifetime.
    pub verify-mint :
        (identity claimant : MessagingIdentity) (ttl_secs minted now : ℤ)
        → verify_session_token k secret
            (mint_session_token k secret identity ttl_secs minted)
            claimant
            now
          ≡ (text_eq (identity_key k.show_uuid identity) (identity_key k.show_uuid claimant)
              && not (gtb now (minted +ℤ ttl_secs)))
    unfolding verify_session_token mint_session_token on_parts on_decoded on_texts on_expiry
    verify-mint identity claimant ttl_secs minted now =
        let id : Text = identity_key k.show_uuid identity in
        let exp : ℤ = minted +ℤ ttl_secs in
        let sig : List ℕ = k.hmac secret (bytes (payload k id exp)) in
        ap (on_parts k secret claimant now) (three_parts (bytes id) (bytes (k.show_i64 exp)) sig)
        ∙ (read_parts claimant now id exp sig (key-IsAscii identity) (c.hmac_bytes secret _)
            ∙ judged claimant now id exp)

    module _ (claimant : MessagingIdentity) (now : ℤ) where
      abbrev key : Text
      key = identity_key k.show_uuid claimant

      parts_sound :
          (o : Option (Text × Text × Text))
          → on_parts k secret claimant now o ≡ true
          → (parts : Text × Text × Text) × (o ≡ some parts)
            × (on_decoded k secret claimant now
                  (k.decode parts.0)
                  (k.decode parts.1)
                  (k.decode parts.2)
                ≡ true)
      unfolding on_parts
      parts_sound none h = absurd (false≢true h)
      parts_sound (some parts) h = (parts, refl, h)

      decoded_sound :
          (i e s : Option (List ℕ))
          → on_decoded k secret claimant now i e s ≡ true
          → (id : List ℕ) × (at : List ℕ) × (sig : List ℕ) × (i ≡ some id)
            × (e ≡ some at)
            × (s ≡ some sig)
            × (on_texts k secret claimant now sig (k.from_utf8 id) (k.from_utf8 at) ≡ true)
      unfolding on_decoded
      decoded_sound none e s h = absurd (false≢true h)
      decoded_sound (some i) none s h = absurd (false≢true h)
      decoded_sound (some i) (some e) none h = absurd (false≢true h)
      decoded_sound (some i) (some e) (some s) h = (i, e, s, refl, refl, refl, h)

      texts_sound :
          (sig : List ℕ) (i e : Option Text)
          → on_texts k secret claimant now sig i e ≡ true
          → (i ≡ some key)
            × ((shown : Text) × (e ≡ some shown)
                × (on_expiry k secret claimant now key sig (k.parse_i64 shown) ≡ true))
      unfolding on_texts
      texts_sound sig none e h = absurd (false≢true h)
      texts_sound sig (some i) none h = absurd (false≢true h)
      texts_sound sig (some i) (some e) h = elim (Bool-cases (text_eq i key)) [
        | inl same ↦
            let is_key : i ≡ key = (text_eq_iff i key).0 same in
            (ap some is_key, (e, refl, rw (← is_key) (rw same at h)))
        | inr other ↦ absurd (false≢true (rw other at h))
      ]

      expiry_sound :
          (sig : List ℕ) (o : Option ℤ)
          → AreBytes sig
          → on_expiry k secret claimant now key sig o ≡ true
          → (exp : ℤ) × (o ≡ some exp)
            × (gtb now exp ≡ false)
            × (sig ≡ k.hmac secret (bytes (payload k key exp)))
      unfolding on_expiry
      expiry_sound sig none b h = absurd (false≢true h)
      expiry_sound sig (some exp) b h =
          let mac = k.hmac secret (bytes (payload k key exp)) in
          elim (Bool-cases (gtb now exp)) [
            | inl past ↦ absurd (false≢true (rw past at h))
            | inr live ↦ (
              exp,
              refl,
              live,
              sym ((const_eq_bytes_iff mac sig (c.hmac_bytes secret _) b).0 (rw live at h)),
            )
          ]

    -- What verifies splits into three parts that decode to the claimant's key, to a time that is
    -- not past, and to the signature of both under the secret.
    pub verify_sound :
        (token : Text) (claimant : MessagingIdentity) (now : ℤ)
        → verify_session_token k secret token claimant now ≡ true
        → (parts : Text × Text × Text) × (id : List ℕ) × (at : List ℕ) × (shown : Text) × (exp : ℤ)
          × (three k (split_on b'.' token) ≡ some parts)
          × (k.decode parts.0 ≡ some id)
          × (k.from_utf8 id ≡ some (identity_key k.show_uuid claimant))
          × (k.decode parts.1 ≡ some at)
          × (k.from_utf8 at ≡ some shown)
          × (k.parse_i64 shown ≡ some exp)
          × (gtb now exp ≡ false)
          × (k.decode parts.2
              ≡ some (k.hmac secret (bytes (payload k (identity_key k.show_uuid claimant) exp))))
    unfolding verify_session_token
    verify_sound token claimant now h =
        let (parts, split, decoded) = parts_sound claimant now (three k (split_on b'.' token)) h in
        let (id, at, sig, i, e, s, texts) = decoded_sound claimant now _ _ _ decoded in
        let (named, (shown, timed, judged)) = texts_sound claimant now sig _ _ texts in
        let (exp, parsed, live, mac) =
          expiry_sound claimant now sig (k.parse_i64 shown) (c.decode_bytes parts.2 sig s) judged in
        (parts, id, at, shown, exp, split, i, named, e, timed, parsed, live, s ∙ ap some mac)
