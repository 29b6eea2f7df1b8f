-- ===== src/Base/Text.antt =====
-- Texts: concatenation as Go's `+` writes it, and the parts of package strings that are used.
use Prim.Native.Nat.{ℕ}
use Prim.Native.Char.{code}
use Prim.Native.String.{String, ◌++◌}
use mathlib.Core.Bool.{Bool, false, ◌||◌}
use mathlib.Core.List.{List, [], ◌∷◌}
use pulseha.Base.Tests.{◌==◌, if◌then◌else◌}

-- a + b + ...
abbrev pub concat : List String → String
concat [] = ""
concat (s ∷ ss) = s ++ concat ss

-- strings.Contains(s, c), for one character
abbrev pub has_char : ℕ → String → Bool
has_char c String.[] = false
has_char c (String.◌∷◌ d s) = (code d == c) || has_char c s

-- strings.Replace(s, c, "", -1), for one character
abbrev pub remove_char : ℕ → String → String
remove_char c String.[] = ""
remove_char c (String.◌∷◌ d s) =
    let rest = remove_char c s in if code d == c then rest else String.◌∷◌ d rest
