-- ===== src/Regex.antt =====
-- The regular expressions that src/subllm/poa/refs.py compiles, and `Pattern.fullmatch` of Python's
-- `re`, by derivatives: a text matches if the rest after its first character matches what is left
-- of the pattern.
use subllm.Prelude.{
  ℕ, String, Bool, true, false, List, [], ◌∷◌, ◌&&◌, ◌||◌, eqb, codes, if◌then◌else◌,
}

pub data Regex : Type 0 where
  never : Regex
  nothing : Regex
  one : (ℕ → Bool) → Regex
  chain : Regex → Regex → Regex
  either : Regex → Regex → Regex
  many : Regex → Regex

-- A literal text.
abbrev pub lits : List ℕ → Regex
lits [] = nothing
lits (c ∷ cs) = chain (one (λ x. eqb c x)) (lits cs)

abbrev pub lit : String → Regex
lit s = lits (codes s)

-- `r+`
abbrev pub some_of : Regex → Regex
some_of r = chain r (many r)

abbrev pub repeat : ℕ → Regex → Regex
repeat ℕ.zero r = nothing
repeat (ℕ.suc n) r = chain r (repeat n r)

-- `r{0,n}`
abbrev pub up_to : ℕ → Regex → Regex
up_to ℕ.zero r = nothing
up_to (ℕ.suc n) r = either nothing (chain r (up_to n r))

nullable : Regex → Bool
nullable never = false
nullable nothing = true
nullable (one p) = false
nullable (chain r s) = nullable r && nullable s
nullable (either r s) = nullable r || nullable s
nullable (many r) = true

-- `chain` and `either` that drop `never`, so that patterns stay small.
seq : Regex → Regex → Regex
seq never s = never
seq nothing s = s
seq r s = chain r s

alt : Regex → Regex → Regex
alt never s = s
alt r never = r
alt r s = either r s

deriv : ℕ → Regex → Regex
unfolding nullable seq alt
deriv c never = never
deriv c nothing = never
deriv c (one p) = if p c then nothing else never
deriv c (chain r s) =
    let left = seq (deriv c r) s in
    let right = deriv c s in if nullable r then alt left right else left
deriv c (either r s) = alt (deriv c r) (deriv c s)
deriv c (many r) = seq (deriv c r) (many r)

matches : Regex → List ℕ → Bool
unfolding deriv
matches r [] = nullable r
matches r (c ∷ cs) = matches (deriv c r) cs

unfoldable pub fullmatch : Regex → String → Bool
unfolding matches
fullmatch r s = matches r (codes s)
