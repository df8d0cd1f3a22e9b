-- ===== src/Prelude/Text/Split.antt =====
-- Splitting a text at a character that stands between its pieces.
use mathlib.Core.Path.{◌≡◌, refl}
use mathlib.Core.Bool.{false}
use mathlib.Core.List.{[], ◌∷◌, ◌++◌}
use Prim.Native.Nat.{ℕ}
use native.Mathlib.Omega.{arith}
use backbone_mail.Prelude.Text.{Text, contains_char, split_on, trim}

pub split_on_none : (k : ℕ) (a : Text) → contains_char k a ≡ false → split_on k a ≡ a ∷ []
unfolding split_on contains_char
split_on_none k [] h = refl
split_on_none k (c ∷ a) h = ground (arith, split_on_none k a)

pub split_on-append :
    (k : ℕ) (a s : Text) → contains_char k a ≡ false → split_on k (a ++ k ∷ s) ≡ a ∷ split_on k s
unfolding split_on contains_char
split_on-append k [] s h = ground arith
split_on-append k (c ∷ a) s h = ground (arith, split_on-append k a s)

-- A blank in front is trimmed away.
pub trim_blank : (a : Text) → trim (0x20 ∷ a) ≡ trim a
unfolding trim
trim_blank a = refl
