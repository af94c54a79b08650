-- ===== src/Prelude/Text.antt =====
-- Texts: `+` on strings, and `strings.Replace(s, "/", "-", -1)`.
use Prim.Native.Char.{Char, code}
use Prim.Native.String
use Prim.Native.String.{String}
use mathlib.Core.Bool.{Bool}
use text.Mathlib.Text.{◌==◌}
use caffe2_operator.Prelude.Tests.{if◌then◌else◌, ◌==◌ as nat_eq}

infixr 65 ◌<>◌
abbrev pub ◌<>◌ : String → String → String
s <> t = String.◌++◌ s t

-- `len(s) == 0`
abbrev pub is_empty : String → Bool
is_empty s = s == ""

slash_to_dash : Char → Char
slash_to_dash c = if nat_eq (code c) b'/' then "-" else c

unfoldable pub replace_slashes : String → String
unfolding slash_to_dash
replace_slashes String.[] = ""
replace_slashes (String.◌∷◌ c s) = String.◌∷◌ (slash_to_dash c) (replace_slashes s)
