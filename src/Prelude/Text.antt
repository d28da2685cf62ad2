-- ===== src/Prelude/Text.antt =====
-- Python's `str` as far as the program walks texts.
use Prim.Native.Nat.{ℕ, zero, suc, ◌+◌, ◌≤◌}
use Prim.Native.Char.{code}
use Prim.Native.String.{String, ◌++◌}
use mathlib.Core.Bool.{Bool, true, false, ◌&&◌, ◌||◌}
use mathlib.Core.List.{List, [], ◌∷◌}
use native.Mathlib.Omega.{arith}
use incident_intelligence_pl.Prelude.Tests.{◌==◌, leb, if◌then◌else◌}
use incident_intelligence_pl.Prelude.Lists.{length}

-- The code points of a text; Python's `len` counts them.
abbrev pub codes : String → List ℕ
codes String.[] = []
codes (String.◌∷◌ c s) = code c ∷ codes s

-- `s[:n]`
unfoldable pub first_chars : ℕ → String → String
first_chars zero s = ""
first_chars (suc n) String.[] = String.[]
first_chars (suc n) (String.◌∷◌ c s) = String.◌∷◌ c (first_chars n s)

pub length-first_chars-le : (n : ℕ) (s : String) → length (codes (first_chars n s)) ≤ n
unfolding first_chars
length-first_chars-le zero s = omega arith
length-first_chars-le (suc n) String.[] = omega arith
length-first_chars-le (suc n) (String.◌∷◌ c s) = omega (arith, length-first_chars-le n s)

-- `str.lower`, exact where the result is ASCII: besides A to Z only the Kelvin sign (U+212A) and
-- the dotted capital I (U+0130) have an ASCII letter in their lower case. Any other code point is
-- left alone; its lower case has no ASCII letter, so no test for an ASCII token sees a difference.
unfoldable pub lower : List ℕ → List ℕ
lower [] = []
lower (c ∷ s) =
    let rest = lower s in
    if leb 65 c && leb c 90
    then (c + 32) ∷ rest
    else if c == 8490
    then 107 ∷ rest
    else if c == 304
    then 105 ∷ 775 ∷ rest
    else c ∷ rest

unfoldable pub starts_with : List ℕ → List ℕ → Bool
starts_with [] s = true
starts_with (p ∷ ps) [] = false
starts_with (p ∷ ps) (c ∷ s) = p == c && starts_with ps s

-- `token in text`
unfoldable pub contains : List ℕ → List ℕ → Bool
unfolding starts_with
contains token [] = starts_with token []
contains token (c ∷ s) = starts_with token (c ∷ s) || contains token s

-- The text of an f-string, from its parts.
unfoldable pub concat : List String → String
concat [] = ""
concat (s ∷ ss) = s ++ concat ss

-- `separator.join(ss)`
unfoldable pub join : String → List String → String
join separator [] = ""
join separator (s ∷ []) = s
join separator (s ∷ t ∷ ss) = s ++ (separator ++ join separator (t ∷ ss))
