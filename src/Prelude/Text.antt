-- ===== src/Prelude/Text.antt =====
-- Text as the list of its Unicode scalar values (Rust's `chars()`), with the parts of `str` that
-- the program uses.
pub mod Split
use Prim.Native.Char.{code}
use Prim.Native.String.{String}
use Prim.Native.Nat.{ℕ, zero, suc, ◌+◌, ◌-◌, ◌≤◌, ◌<◌}
use mathlib.Core.Path.{◌≡◌, refl, ap}
use mathlib.Core.Logic.{◌↔◌, ◌⊎◌}
use mathlib.Core.Bool.{Bool, true, false, ◌&&◌, ◌||◌}
use mathlib.Core.Option.{Option, none, some}
use mathlib.Core.List.{List, [], ◌∷◌, ◌++◌, map, reverse}
use native.Mathlib.Omega.{arith}
use backbone_mail.Prelude.Tests.{leb, ltb, ◌==◌, if◌then◌else◌}
use backbone_mail.Prelude.Lists.{any, is_empty}

abbrev pub Text : Type 0
Text = List ℕ

-- A literal of the source.
abbrev pub codes : String → Text
codes String.[] = []
codes (String.◌∷◌ c s) = code c ∷ codes s

-- `a == b` on texts
unfoldable pub text_eq : Text → Text → Bool
text_eq [] [] = true
text_eq [] (_ ∷ _) = false
text_eq (_ ∷ _) [] = false
text_eq (a ∷ s) (b ∷ t) = a == b && text_eq s t

pub text_eq_refl : (s : Text) → text_eq s s ≡ true
unfolding text_eq
text_eq_refl [] = refl
text_eq_refl (a ∷ s) = ground (arith, text_eq_refl s)

text_eq_sound : (s t : Text) → text_eq s t ≡ true → s ≡ t
unfolding text_eq
text_eq_sound [] [] h = refl
text_eq_sound [] (b ∷ t) h = cc
text_eq_sound (a ∷ s) [] h = cc
text_eq_sound (a ∷ s) (b ∷ t) h = ground (arith, text_eq_sound s t)

pub text_eq_iff : (s t : Text) → (text_eq s t ≡ true) ↔ (s ≡ t)
text_eq_iff s t = (text_eq_sound s t, λ e. rw (← e) (text_eq_refl s))

pub text_eq_comm : (s t : Text) → text_eq s t ≡ text_eq t s
unfolding text_eq
text_eq_comm [] [] = refl
text_eq_comm [] (b ∷ t) = refl
text_eq_comm (a ∷ s) [] = refl
text_eq_comm (a ∷ s) (b ∷ t) = ground (arith, text_eq_comm s t)

-- The bytes that one scalar value takes in UTF-8, and `str::len`.
abbrev pub utf8_width : ℕ → ℕ
utf8_width c = if ltb c 0x80 then 1 else if ltb c 0x800 then 2 else if ltb c 0x10000 then 3 else 4

unfoldable pub byte_len : Text → ℕ
byte_len [] = 0
byte_len (c ∷ s) = utf8_width c + byte_len s

abbrev pub is_ascii : ℕ → Bool
is_ascii c = ltb c 0x80

abbrev pub is_ascii_digit : ℕ → Bool
is_ascii_digit c = leb b'0' c && leb c b'9'

abbrev pub is_ascii_upper : ℕ → Bool
is_ascii_upper c = leb b'A' c && leb c b'Z'

abbrev pub is_ascii_lower : ℕ → Bool
is_ascii_lower c = leb b'a' c && leb c b'z'

abbrev pub is_ascii_alphabetic : ℕ → Bool
is_ascii_alphabetic c = is_ascii_upper c || is_ascii_lower c

abbrev pub is_ascii_alphanumeric : ℕ → Bool
is_ascii_alphanumeric c = is_ascii_alphabetic c || is_ascii_digit c

-- `to_ascii_lowercase` and `to_ascii_uppercase`, for one character and for a text
abbrev pub ascii_lower : ℕ → ℕ
ascii_lower c = if is_ascii_upper c then c + 32 else c

abbrev pub ascii_upper : ℕ → ℕ
ascii_upper c = if is_ascii_lower c then c - 32 else c

unfoldable pub to_ascii_lowercase : Text → Text
to_ascii_lowercase [] = []
to_ascii_lowercase (c ∷ s) = ascii_lower c ∷ to_ascii_lowercase s

unfoldable pub to_ascii_uppercase : Text → Text
to_ascii_uppercase [] = []
to_ascii_uppercase (c ∷ s) = ascii_upper c ∷ to_ascii_uppercase s

pub to_ascii_lowercase_idem :
    (s : Text) → to_ascii_lowercase (to_ascii_lowercase s) ≡ to_ascii_lowercase s
unfolding to_ascii_lowercase
to_ascii_lowercase_idem [] = refl
to_ascii_lowercase_idem (c ∷ s) = ground (arith, to_ascii_lowercase_idem s)

-- `char::is_whitespace`, the property White_Space of Unicode
unfoldable pub is_whitespace : ℕ → Bool
is_whitespace c =
    (leb 9 c && leb c 13)
    || c == 0x20
    || c == 0x85
    || c == 0xa0
    || c == 0x1680
    || (leb 0x2000 c && leb c 0x200a)
    || c == 0x2028
    || c == 0x2029
    || c == 0x202f
    || c == 0x205f
    || c == 0x3000

unfoldable pub trim_start : Text → Text
trim_start [] = []
trim_start (c ∷ s) = if is_whitespace c then trim_start s else c ∷ s

-- One character in front of a text that is trimmed at its end.
abbrev pub push_trimmed : ℕ → Text → Text
push_trimmed c [] = if is_whitespace c then [] else c ∷ []
push_trimmed c (d ∷ s) = c ∷ d ∷ s

unfoldable pub trim_end : Text → Text
trim_end [] = []
trim_end (c ∷ s) = push_trimmed c (trim_end s)

unfoldable pub trim : Text → Text
unfolding trim_start trim_end is_whitespace
trim s = trim_end (trim_start s)

-- `s.trim().is_empty()`
unfoldable pub is_blank : Text → Bool
unfolding trim
is_blank s = is_empty (trim s)

-- `s.contains(c)` for a character
unfoldable pub contains_char : ℕ → Text → Bool
contains_char k [] = false
contains_char k (c ∷ s) = c == k || contains_char k s

-- `s.split(c)`: there is always at least one piece.
abbrev pub push_piece : ℕ → List Text → List Text
push_piece c [] = (c ∷ []) ∷ []
push_piece c (p ∷ ps) = (c ∷ p) ∷ ps

unfoldable pub split_on : ℕ → Text → List Text
split_on k [] = [] ∷ []
split_on k (c ∷ s) = let rest = split_on k s in if c == k then [] ∷ rest else push_piece c rest

-- `s.rsplit_once(c)`: the parts before and after the last `c`.
unfoldable pub rsplit_once : ℕ → Text → Option (Text × Text)
rsplit_once k [] = none
rsplit_once k (c ∷ s) = elim (rsplit_once k s) [
  | some (a, b) ↦ some (c ∷ a, b)
  | none ↦ if c == k then some ([], s) else none
]

unfoldable pub join : Text → List Text → Text
join sep [] = []
join sep (p ∷ []) = p
join sep (p ∷ q ∷ ps) = p ++ (sep ++ join sep (q ∷ ps))

-- `str::to_lowercase`: ASCII letters fold as below, and every other character by the Unicode table,
-- which is no part of the program.
unfoldable pub to_lowercase : (ℕ → Text) → Text → Text
to_lowercase unicode [] = []
to_lowercase unicode (c ∷ s) =
    let rest = to_lowercase unicode s in
    if is_ascii c then ascii_lower c ∷ rest else unicode c ++ rest
