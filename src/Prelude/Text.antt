-- ===== src/Prelude/Text.antt =====
-- Texts as code points: the order of Python's `str`, and the closed patterns of the source.
use Prim.Native.Nat.{ℕ}
use Prim.Native.Char.{Char, code}
use Prim.Native.String.{String}
use mathlib.Core.Path.{◌≡◌, refl}
use mathlib.Core.Bool.{Bool, true, false, ◌&&◌, ◌||◌}
use mathlib.Core.List.{List, [], ◌∷◌}
use native.Mathlib.Omega.{arith}
use text.Mathlib.Text.{◌==◌}
use subllm.Prelude.Tests.{ltb, leb, eqb, if◌then◌else◌}
use subllm.Prelude.Lists.{length, all}

abbrev pub codes : String → List ℕ
codes String.[] = []
codes (String.◌∷◌ c s) = code c ∷ codes s

codes_leb : List ℕ → List ℕ → Bool
codes_leb [] ys = true
codes_leb (x ∷ xs) [] = false
codes_leb (x ∷ xs) (y ∷ ys) = ltb x y || (eqb x y && codes_leb xs ys)

-- `s <= t`
unfoldable pub text_leb : String → String → Bool
unfolding codes_leb
text_leb s t = codes_leb (codes s) (codes t)

codes_leb_refl : (xs : List ℕ) → codes_leb xs xs ≡ true
unfolding codes_leb
codes_leb_refl [] = refl
codes_leb_refl (x ∷ xs) = ground (arith, codes_leb_refl xs)

pub text_leb_refl : (s : String) → text_leb s s ≡ true
unfolding text_leb
text_leb_refl s = codes_leb_refl (codes s)

abbrev pub is_lower : ℕ → Bool
is_lower c = leb b'a' c && leb c b'z'

abbrev pub is_digit : ℕ → Bool
is_digit c = leb b'0' c && leb c b'9'

-- `^[first][rest]{0,most}$`
abbrev pub bounded_name : (ℕ → Bool) → (ℕ → Bool) → ℕ → List ℕ → Bool
bounded_name first rest most [] = false
bounded_name first rest most (c ∷ cs) = first c && all rest cs && leb (length cs) most

-- `s + t`
infixr 65 ◌⧺◌
abbrev pub ◌⧺◌ : String → String → String
String.[] ⧺ t = t
String.◌∷◌ c s ⧺ t = String.◌∷◌ c (s ⧺ t)

-- `s[:n]`
abbrev pub prefix : ℕ → String → String
prefix ℕ.zero s = String.[]
prefix (ℕ.suc n) String.[] = String.[]
prefix (ℕ.suc n) (String.◌∷◌ c s) = String.◌∷◌ c (prefix n s)

-- Python's white space
abbrev pub is_space : ℕ → Bool
is_space c =
    (leb 9 c && leb c 13)
    || (leb 28 c && leb c 32)
    || eqb c 133
    || eqb c 160
    || eqb c 5760
    || (leb 8192 c && leb c 8202)
    || eqb c 8232
    || eqb c 8233
    || eqb c 8239
    || eqb c 8287
    || eqb c 12288

-- `s.strip()`
abbrev pub lstrip : String → String
lstrip String.[] = String.[]
lstrip (String.◌∷◌ c s) = let rest = lstrip s in if is_space (code c) then rest else String.◌∷◌ c s

abbrev pub rstrip : String → String
rstrip String.[] = String.[]
rstrip (String.◌∷◌ c s) =
    let rest = rstrip s in if is_space (code c) && rest == "" then String.[] else String.◌∷◌ c rest

unfoldable pub strip : String → String
strip s = rstrip (lstrip s)

-- The first part of a split, with one more character in front.
abbrev pub push_char : Char → List String → List String
push_char c [] = String.◌∷◌ c String.[] ∷ []
push_char c (w ∷ ws) = String.◌∷◌ c w ∷ ws

-- `s.split(sep)`, for a separator of one character
unfoldable pub split : ℕ → String → List String
split sep String.[] = "" ∷ []
split sep (String.◌∷◌ c s) =
    let rest = split sep s in if eqb (code c) sep then "" ∷ rest else push_char c rest

-- `s.startswith(part)`
abbrev pub starts : String → String → Bool
starts String.[] s = true
starts (String.◌∷◌ c part) String.[] = false
starts (String.◌∷◌ c part) (String.◌∷◌ d s) = eqb (code c) (code d) && starts part s

-- `part in s`
unfoldable pub is_within : String → String → Bool
is_within part String.[] = part == ""
is_within part (String.◌∷◌ c s) = starts part (String.◌∷◌ c s) || is_within part s
