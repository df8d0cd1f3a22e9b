-- ===== src/Inbound/Bytes.antt =====
-- `const_eq` of src/application/service/mail_inbound_service.rs: an exclusive-or of bytes, gathered
-- by or, over the UTF-8 bytes of two texts.
use backbone_mail.Prelude.{
  ℕ, zero, suc, ◌+◌, ◌*◌, ◌/◌, ◌%◌, ◌<◌, max, ◌≡◌, refl, ◌↔◌, Bool, true, false, List, [], ◌∷◌,
  ◌++◌, All, arith, length, ltb, ◌==◌, not, if◌then◌else◌,
}
use backbone_mail.Prelude.Text.{Text, to_ascii_lowercase}

-- the low `w` bits of `x ^ y` and of `x | y`
unfoldable pub xor_bits : ℕ → ℕ → ℕ → ℕ
xor_bits zero x y = 0
xor_bits (suc w) x y = 2 * xor_bits w (x / 2) (y / 2) + (x % 2 + y % 2) % 2

unfoldable pub or_bits : ℕ → ℕ → ℕ → ℕ
or_bits zero x y = 0
or_bits (suc w) x y = 2 * or_bits w (x / 2) (y / 2) + max (x % 2) (y % 2)

-- the bytes of a character in UTF-8, and of a text
abbrev utf8_char : ℕ → List ℕ
utf8_char c =
    if ltb c 0x80
    then c ∷ []
    else if ltb c 0x800
    then (0xc0 + c / 64) ∷ (0x80 + c % 64) ∷ []
    else if ltb c 0x10000
    then (0xe0 + c / 4096) ∷ (0x80 + c / 64 % 64) ∷ (0x80 + c % 64) ∷ []
    else (0xf0 + c / 262144) ∷ (0x80 + c / 4096 % 64) ∷ (0x80 + c / 64 % 64) ∷ (0x80 + c % 64) ∷ []

unfoldable pub bytes : Text → List ℕ
bytes [] = []
bytes (c ∷ s) = utf8_char c ++ bytes s

-- the fold over the zipped bytes
unfoldable pub gather : ℕ → List ℕ → List ℕ → ℕ
gather acc [] ys = acc
gather acc (x ∷ xs) [] = acc
gather acc (x ∷ xs) (y ∷ ys) = gather (or_bits 8 acc (xor_bits 8 x y)) xs ys

unfoldable pub const_eq_bytes : List ℕ → List ℕ → Bool
const_eq_bytes a b = if not (length a == length b) then false else gather 0 a b == 0

unfoldable pub const_eq : Text → Text → Bool
const_eq a b = const_eq_bytes (bytes a) (bytes b)

-- A number that fits in `w` bits.
abbrev Fits : ℕ → ℕ → Type 0
Fits zero x = x ≡ 0
Fits (suc w) x = Fits w (x / 2)

pub byte-Fits : (x : ℕ) → x < 256 → Fits 8 x
byte-Fits x h = omega (arith, h)

xor_zero : (w x y : ℕ) → Fits w x → Fits w y → xor_bits w x y ≡ 0 → x ≡ y
unfolding xor_bits
xor_zero zero x y f g h = omega (arith, f, g)
xor_zero (suc w) x y f g h =
    let e = xor_zero w (x / 2) (y / 2) f g (omega (arith, h)) in omega (arith, e, h)

xor_same : (w x : ℕ) → xor_bits w x x ≡ 0
unfolding xor_bits
xor_same zero x = refl
xor_same (suc w) x = omega (arith, xor_same w (x / 2))

or_zero : (w x y : ℕ) → Fits w x → Fits w y → or_bits w x y ≡ 0 → (x ≡ 0) × (y ≡ 0)
unfolding or_bits
or_zero zero x y f g h = (f, g)
or_zero (suc w) x y f g h =
    let (a, b) = or_zero w (x / 2) (y / 2) f g (omega (arith, h)) in
    (omega (arith, a, h), omega (arith, b, h))

xor-Fits : (w x y : ℕ) → Fits w (xor_bits w x y)
unfolding xor_bits
xor-Fits zero x y = refl
xor-Fits (suc w) x y =
    let half : (2 * xor_bits w (x / 2) (y / 2) + (x % 2 + y % 2) % 2) / 2
        ≡ xor_bits w (x / 2) (y / 2) =
      omega arith in
    rw half (xor-Fits w (x / 2) (y / 2))

or-Fits : (w x y : ℕ) → Fits w (or_bits w x y)
unfolding or_bits
or-Fits zero x y = refl
or-Fits (suc w) x y =
    let half : (2 * or_bits w (x / 2) (y / 2) + max (x % 2) (y % 2)) / 2
        ≡ or_bits w (x / 2) (y / 2) =
      omega arith in
    rw half (or-Fits w (x / 2) (y / 2))

pub gather_zero :
    (acc : ℕ) (xs ys : List ℕ)
    → Fits 8 acc
    → All (λ x. x < 256) xs
    → All (λ y. y < 256) ys
    → length xs ≡ length ys
    → gather acc xs ys ≡ 0
    → (acc ≡ 0) × (xs ≡ ys)
unfolding gather
gather_zero acc [] [] f a b e h = (h, refl)
gather_zero acc [] (y ∷ ys) f a b e h = absurd (omega (arith, e))
gather_zero acc (x ∷ xs) [] f a b e h = absurd (omega (arith, e))
gather_zero acc (x ∷ xs) (y ∷ ys) f a b e h =
    let d = xor_bits 8 x y in
    let (z, same) =
      gather_zero (or_bits 8 acc d) xs ys (or-Fits 8 acc d) a.1 b.1 (omega (arith, e)) h in
    let (none, no_diff) = or_zero 8 acc d f (xor-Fits 8 x y) z in
    (none, cc (xor_zero 8 x y (byte-Fits x a.0) (byte-Fits y b.0) no_diff, same))

gather_same : (xs : List ℕ) → gather 0 xs xs ≡ 0
unfolding gather or_bits
gather_same [] = refl
gather_same (x ∷ xs) = rw (xor_same 8 x) (gather_same xs)

-- The comparison of two sequences of bytes that does not stop at the first difference answers
-- whether they are equal.
pub const_eq_bytes_iff :
    (a b : List ℕ)
    → All (λ x. x < 256) a
    → All (λ y. y < 256) b
    → (const_eq_bytes a b ≡ true) ↔ (a ≡ b)
unfolding const_eq_bytes
const_eq_bytes_iff a b fa fb = (sound, λ e. rw (← e, gather_same a) (ground arith))
  where
    sound : const_eq_bytes a b ≡ true → a ≡ b
    sound h = (gather_zero 0 a b (omega arith) fa fb (ground arith) (ground arith)).1

-- the scalar values of Unicode, and the characters of ASCII
abbrev pub IsUnicode : Text → Type 0
IsUnicode = All (λ c. c < 0x110000)

abbrev pub IsAscii : Text → Type 0
IsAscii = All (λ c. c < 0x80)

bytes_fit : (s : Text) → IsUnicode s → All (λ x. x < 256) (bytes s)
unfolding bytes
bytes_fit [] h = tt
bytes_fit (c ∷ s) (small, rest) = ground (arith, bytes_fit s rest)

ascii-IsUnicode : (s : Text) → IsAscii s → IsUnicode s
ascii-IsUnicode [] h = tt
ascii-IsUnicode (c ∷ s) (small, rest) = (omega (arith, small), ascii-IsUnicode s rest)

-- No other text has the bytes of an ASCII text.
ascii_bytes : (s t : Text) → IsAscii s → bytes s ≡ bytes t → s ≡ t
unfolding bytes
ascii_bytes [] [] a e = refl
ascii_bytes [] (d ∷ t) a e = ground arith
ascii_bytes (c ∷ s) [] a e = ground arith
ascii_bytes (c ∷ s) (d ∷ t) (small, rest) e = ground (arith, ascii_bytes s t rest)

-- The comparison answers yes only to equal texts, when the first is ASCII.
pub const_eq-same : (s t : Text) → IsAscii s → IsUnicode t → const_eq s t ≡ true → s ≡ t
unfolding const_eq
const_eq-same s t a u h = ascii_bytes s t a (
    (const_eq_bytes_iff (bytes s) (bytes t) (bytes_fit s (ascii-IsUnicode s a)) (bytes_fit t u)).0
      h)

pub to_ascii_lowercase-IsUnicode : (t : Text) → IsUnicode t → IsUnicode (to_ascii_lowercase t)
unfolding to_ascii_lowercase
to_ascii_lowercase-IsUnicode [] u = tt
to_ascii_lowercase-IsUnicode (c ∷ t) (small, rest) =
    (ground arith, to_ascii_lowercase-IsUnicode t rest)
