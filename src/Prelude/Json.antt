-- ===== src/Prelude/Json.antt =====
-- `serde_json::Value`. A number is opaque to the program, which only tells it from the
-- other shapes. An object's entries have distinct names.
use backbone_mail.Prelude.Tests.{if◌then◌else◌}
use backbone_mail.Prelude.Text.{Text, text_eq}
use Prim.Native.Nat.{ℕ}
use mathlib.Core.Bool.{Bool}
use mathlib.Core.Option.{Option, none, some}

mutual
  pub data Json : Type 0 where
    null : Json
    boolean : Bool → Json
    number : ℕ → Json
    str : Text → Json
    arr : Items → Json
    obj : Entries → Json

  pub data Items : Type 0 where
    nil : Items
    item : Json → Items → Items

  pub data Entries : Type 0 where
    end : Entries
    entry : Text → Json → Entries → Entries

unfoldable pub get_entry : Text → Entries → Option Json
get_entry k end = none
get_entry k (entry name v rest) = if text_eq name k then some v else get_entry k rest

-- `value.get(key)`: an entry of an object, and nothing of any other shape
unfoldable pub get : Json → Text → Option Json
unfolding get_entry
get (obj es) k = get_entry k es
get null k = none
get (boolean b) k = none
get (number n) k = none
get (str s) k = none
get (arr xs) k = none

-- `value.as_str()`
abbrev pub as_str : Json → Option Text
as_str (str s) = some s
as_str null = none
as_str (boolean b) = none
as_str (number n) = none
as_str (arr xs) = none
as_str (obj es) = none
