-- ===== src/Poa/Inputs.antt =====
-- src/subllm/poa/bus.py: the checks of `_command_gateway_exchange` and `_command_record_usage` on
-- what they are given, with `checked_day` and `IDENT` of src/subllm/interaction_store.py, and
-- `identifier` and `archive_reference` of src/subllm/usage.py.
use subllm.Prelude.{
  ℕ, ◌+◌, ◌-◌, ◌*◌, ◌%◌, ◌^◌, String, Bool, true, false, Option, none, some, List, [], ◌∷◌, ◌&&◌,
  ◌||◌, not, leb, eqb, Result, ok, err, require, if◌then◌else◌, contains, pos, all, Char, code,
  codes, is_lower, is_digit, ◌>>=◌, ◌>>◌,
}
use subllm.Dict.{Dict, lookup}
use subllm.Json.{Json, null, int, text, object, members, has_keys}
use subllm.Regex.{Regex, one, chain, lit, repeat, up_to, fullmatch}
use subllm.Poa.Refs.{PoaError, contract, exact}

abbrev digit : Regex
digit = one is_digit

abbrev day_pattern : Regex
day_pattern =
    chain (repeat 4 digit)
      (chain (lit "-") (chain (repeat 2 digit) (chain (lit "-") (repeat 2 digit))))

abbrev hex32 : Regex
hex32 = repeat 32 (one (λ c. is_digit c || (leb b'a' c && leb c b'f')))

abbrev is_word : ℕ → Bool
is_word c = is_lower c || (leb b'A' c && leb c b'Z') || is_digit c

abbrev identifier_pattern : Regex
identifier_pattern = chain (one is_word) (
    up_to 127
      (one (λ c. is_word c || eqb c b'_' || eqb c b'.' || eqb c b':' || eqb c b'/' || eqb c b'-')))

abbrev number : List ℕ → ℕ → ℕ
number [] n = n
number (c ∷ cs) n = number cs (n * 10 + (c - 48))

abbrev is_leap : ℕ → Bool
is_leap y = (eqb (y % 4) 0 && not (eqb (y % 100) 0)) || eqb (y % 400) 0

abbrev days_in : ℕ → ℕ → ℕ
days_in y m =
    if eqb m 2
    then (if is_leap y then 29 else 28)
    else if eqb m 4 || eqb m 6 || eqb m 9 || eqb m 11
    then 30
    else 31

-- `datetime.strptime(day, "%Y-%m-%d")` on a text of the right shape: a day of the calendar.
abbrev is_date : List ℕ → Bool
is_date (a ∷ b ∷ c ∷ d ∷ _ ∷ m ∷ n ∷ _ ∷ p ∷ q ∷ []) =
    let year = number (a ∷ b ∷ c ∷ d ∷ []) 0 in
    let month = number (m ∷ n ∷ []) 0 in
    let day = number (p ∷ q ∷ []) 0 in
    leb 1 year && leb 1 month && leb month 12 && leb 1 day && leb day (days_in year month)
is_date _ = false

unfoldable pub is_day : String → Bool
is_day s = fullmatch day_pattern s && is_date (codes s)

abbrev has_slash : String → Bool
has_slash s = not (all (λ c. not (eqb c b'/')) (codes s))

abbrev prepend : Char → Option (String × String) → Option (String × String)
prepend c none = none
prepend c (some (day, id)) = some (String.◌∷◌ c day, id)

-- `day, record_id = ref.split("/")`: `none` unless there are exactly two parts
split_ref : String → Option (String × String)
split_ref String.[] = none
split_ref (String.◌∷◌ c s) =
    let rest = split_ref s in
    if eqb (code c) b'/' then (if has_slash s then none else some ("", s)) else prepend c rest

-- The checks on an interaction reference.
unfoldable pub interaction_ref : Json → Result PoaError String
unfolding split_ref is_day
interaction_ref (text s) = elim (split_ref s) [
  | none ↦ err (contract "GATEWAY-REF-001" "Invalid private interaction reference")
  | some (day, id) ↦ do
    require (is_day day) (contract "GATEWAY-REF-001" "Invalid archive day")
    require (fullmatch hex32 id) (contract "GATEWAY-REF-001" "Invalid interaction id")
    ok s
]
interaction_ref _ = err (contract "GATEWAY-REF-001" "Invalid private interaction reference")

abbrev pub at : Dict Json → String → Json
at d k = elim (lookup k d) [ none ↦ null | some v ↦ v ]

abbrev is_text : (String → Bool) → Json → Bool
is_text p (text s) = p s
is_text p _ = false

-- `archive_reference` returns; `null` stands for an absent key too, as `event.get` does.
abbrev archive_ok : Json → Bool
archive_ok null = true
archive_ok (object fs) =
    let d = members fs in
    has_keys d ("id" ∷ "day" ∷ [])
    && is_text (fullmatch hex32) (at d "id")
    && is_text is_day (at d "day")
archive_ok _ = false

abbrev int_up_to : ℕ → Json → Bool
int_up_to most (int (pos n)) = leb n most
int_up_to most _ = false

abbrev values_ok : (Json → Bool) → Dict Json → Bool
values_ok p [] = true
values_ok p ((k, v) ∷ d) = p v && values_ok p d

abbrev invalid : String → PoaError
invalid = contract "USAGE-EVENT-001"

abbrev pub is_identifier : Json → Bool
is_identifier = is_text (fullmatch identifier_pattern)

abbrev code_ok : Json → Bool
code_ok null = true
code_ok j = is_identifier j

-- The checks of `_command_record_usage`, in the order of the source; the attempt comes back.
unfoldable pub usage_attempt : Json → Result PoaError (Dict Json)
unfolding is_day
usage_attempt attempt = do
  event ←
      exact attempt
        ("request_id" ∷ "application" ∷ "function" ∷ "provider" ∷ "model" ∷ "status" ∷ "duration_ms"
          ∷ "usage" ∷ [])
        ("diagnostic_code" ∷ "archive_ref" ∷ [])
  require (archive_ok (at event "archive_ref")) (invalid "Invalid archive reference")
  require
      (all (λ k. is_identifier (at event k))
        ("request_id" ∷ "application" ∷ "function" ∷ "provider" ∷ "model" ∷ []))
      (invalid "Invalid attempt identifier")
  require (is_text (contains ("success" ∷ "error" ∷ [])) (at event "status"))
      (invalid "Invalid attempt status")
  require (int_up_to 86_400_000 (at event "duration_ms")) (invalid "Invalid duration")
  usage ← exact (at event "usage") [] ("input_tokens" ∷ "output_tokens" ∷ [])
  require (values_ok (int_up_to (10 ^ 12)) usage) (invalid "Invalid token count")
  require (code_ok (at event "diagnostic_code")) (invalid "Invalid diagnostic code")
  ok event
