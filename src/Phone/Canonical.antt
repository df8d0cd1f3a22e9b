-- ===== src/Phone/Canonical.antt =====
-- The shape of every number that `phone_format` makes.
use mathlib.Core.Bool.{false≢true}
use backbone_mail.Prelude.{
  ℕ, ◌+◌, ◌≤◌, ◌≡◌, refl, ap, inl, inr, Bool, true, false, [], ◌∷◌, Option, arith, not, ◌==◌, ltb,
  all, length, Bool-cases, ok, ◌>>=◌, ◌>>◌, refuse_if, is_empty, step-came_through,
  check-came_through,
}
use backbone_mail.Prelude.Text.{Text, byte_len, is_ascii_digit, trim}
use backbone_mail.Phone.{
  E164Number, PhoneFormatError, PhoneCrate, is_canonical_e164, accept, country_for, country_name,
  parse_in, format_in, format_trimmed, phone_format,
}

-- A plus, a country digit that is no zero, and 6 to 14 digits.
abbrev pub IsE164 : Text → Type 0
IsE164 t =
    (c : ℕ) × (rest : Text) × (t ≡ b'+' ∷ c ∷ rest)
    × (b'1' ≤ c)
    × (c ≤ b'9')
    × (6 ≤ length rest)
    × (length rest ≤ 14)
    × (all is_ascii_digit rest ≡ true)

canonical-IsE164 : (t : Text) → is_canonical_e164 t ≡ true → IsE164 t
unfolding is_canonical_e164
canonical-IsE164 [] h = absurd (false≢true h)
canonical-IsE164 (p ∷ []) h = elim (Bool-cases (p == b'+')) [
  | inl plus ↦ absurd (false≢true (rw plus at h))
  | inr other ↦ absurd (false≢true (rw other at h))
]
canonical-IsE164 (p ∷ c ∷ rest) h =
    let is_plus : p ≡ b'+' = ground (arith, h) in
    (
      c,
      rest,
      ap (λ x. x ∷ c ∷ rest) is_plus,
      ground (arith, h),
      ground (arith, h),
      ground (arith, h),
      ground (arith, h),
      ground (arith, h),
    )

-- Four checks in a row that came through.
checks_passed :
    {E A : Type 0} (a b c d : Bool) (e1 e2 e3 e4 : E) (m n : A)
    → (refuse_if a e1 >> (refuse_if b e2 >> (refuse_if c e3 >> (refuse_if (not d) e4 >> ok m))))
      ≡ ok n
    → (m ≡ n) × (d ≡ true)
checks_passed true b c d e1 e2 e3 e4 m n h = absurd (cc h)
checks_passed false true c d e1 e2 e3 e4 m n h = absurd (cc h)
checks_passed false false true d e1 e2 e3 e4 m n h = absurd (cc h)
checks_passed false false false false e1 e2 e3 e4 m n h = absurd (cc h)
checks_passed false false false true e1 e2 e3 e4 m n h = (cc h, refl)

module _ (crate : PhoneCrate) where
  accept-canonical :
      (raw : Text) (country : Option Text) (parsed : crate.Number) (n : E164Number)
      → accept crate raw country parsed ≡ ok n
      → is_canonical_e164 n.text ≡ true
  unfolding accept
  accept-canonical raw country parsed n h =
      let total = byte_len (crate.code_text parsed) + byte_len (crate.national_text parsed) in
      let (made, canonical) =
        checks_passed (ltb 15 total) (ltb total 7) (not (crate.is_valid parsed))
          (is_canonical_e164 (crate.format parsed)) _ _ _ _ (record { text = crate.format parsed })
          n h in
      rw (← made) canonical

  -- Whatever the crate parses and prints, a number that the sanitizer returns is a plus, a digit
  -- from 1 to 9, and 6 to 14 more digits.
  pub phone_format-IsE164 :
      (raw : Text) (hint : Option Text) (n : E164Number)
      → phone_format crate raw hint ≡ ok n
      → IsE164 n.text
  unfolding phone_format format_trimmed format_in
  phone_format-IsE164 raw hint n h =
      let (formatted, nonempty) =
        check-came_through (country_for crate (trim raw) hint >>= format_in crate (trim raw))
          (refuse_if (is_empty (trim raw)) (PhoneFormatError.empty (trim raw))) h in
      let (country, accepted, chosen) =
        step-came_through (format_in crate (trim raw)) (country_for crate (trim raw) hint)
          formatted in
      let (parsed, made, read) =
        step-came_through (accept crate (trim raw) (country_name crate country))
          (parse_in crate (trim raw) country) accepted in
      canonical-IsE164 n.text
        (accept-canonical (trim raw) (country_name crate country) parsed n made)
