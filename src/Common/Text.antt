-- ===== src/Common/Text.antt =====
-- What the services use of JavaScript strings.
use Prim.Native.Nat.{ℕ}
use Prim.Native.Char.{Char, code}
use Prim.Native.String.{String}
use mathlib.Core.Bool.{Bool, true, false, ◌&&◌, ◌||◌}
use mathlib.Core.Option.{Option, none, some}
use text.Mathlib.Text.{◌==◌ as str_eq}
use notaryday_backend.Common.Tests.{◌==◌, leb, if◌then◌else◌}

-- The empty string is the one that is falsy.
abbrev pub is_empty : String → Bool
is_empty String.[] = true
is_empty (String.◌∷◌ _ _) = false

-- `a || b` on strings.
abbrev pub or_text : String → String → String
or_text a b = if is_empty a then b else a

-- The white space of `trim`: the ASCII ones and the no-break space.
is_space : Char → Bool
is_space c =
    let n = code c in leb 9 n && leb n 13 || (n == 32 || (n == 160 || (n == 0x2028 || n == 0x2029)))

trim_start : String → String
trim_start String.[] = String.[]
trim_start (String.◌∷◌ c s) = if is_space c then trim_start s else String.◌∷◌ c s

trim_end : String → String
trim_end String.[] = String.[]
trim_end (String.◌∷◌ c s) =
    let rest = trim_end s in if is_space c && is_empty rest then String.[] else String.◌∷◌ c rest

-- `s.trim()`.
unfoldable pub trim : String → String
unfolding is_space trim_start trim_end
trim s = trim_end (trim_start s)

-- `s.includes(c)` for a text of one character.
unfoldable pub has_char : ℕ → String → Bool
has_char n String.[] = false
has_char n (String.◌∷◌ c s) = code c == n || has_char n s

-- `===` on two texts that may be missing.
abbrev pub eq_text : Option String → Option String → Bool
eq_text none none = true
eq_text (some a) (some b) = str_eq a b
eq_text _ _ = false
