-- ===== src/Poa/Refs.antt =====
-- src/subllm/poa/refs.py and errors.py: closed references, and the tests on documents.
use subllm.Prelude.{
  ℕ, String, Bool, List, [], ◌∷◌, ◌++◌, ◌&&◌, ◌||◌, leb, eqb, any, all, codes, contains, is_lower,
  is_digit, Result, ok, err, if◌then◌else◌, ◌⧺◌,
}
use subllm.Dict.{Dict}
use subllm.Json.{Json, object, text, members, keys}
use subllm.Regex.{Regex, one, chain, either, many, lit, some_of, repeat, up_to, fullmatch}

-- An exception of a command or query: `PoaContractError(code, message)`, or any other by its class.
pub data PoaError : Type 0 where
  contract : String → String → PoaError
  raised : String → PoaError

abbrev is_upper : ℕ → Bool
is_upper c = leb b'A' c && leb c b'Z'

abbrev is_among : String → ℕ → Bool
is_among s c = any (λ x. eqb x c) (codes s)

abbrev letter : Regex
letter = one is_lower

abbrev is_lower_word : String → ℕ → Bool
is_lower_word s c = is_lower c || is_digit c || is_among s c

abbrev is_word : String → ℕ → Bool
is_word s c = is_lower c || is_upper c || is_digit c || is_among s c

-- `[1-9][0-9]*`
abbrev version : Regex
version = chain (one (λ c. leb b'1' c && leb c b'9')) (many (one is_digit))

abbrev host : Regex
host = some_of (one (is_lower_word ".-"))

abbrev chains : List Regex → Regex
chains [] = Regex.nothing
chains (r ∷ rs) = chain r (chains rs)

abbrev pub process_ref_pattern : Regex
process_ref_pattern = chains (
    lit "poa://"
    ∷ host
    ∷ lit "/process/"
    ∷ letter
    ∷ many (one (is_lower_word "._:-"))
    ∷ lit "/v"
    ∷ version
    ∷ [])

abbrev pub process_uri_pattern : Regex
process_uri_pattern = chains (
    letter
    ∷ many (one (is_lower_word "+.-"))
    ∷ lit "://"
    ∷ some_of (one (is_word "._:-"))
    ∷ many (chain (lit "/") (some_of (one (is_word "._:-"))))
    ∷ lit "/"
    ∷ either (lit "query") (lit "command")
    ∷ lit "/"
    ∷ some_of (one (is_word "._:-"))
    ∷ [])

abbrev pub artifact_ref_pattern : Regex
artifact_ref_pattern =
    chains (
      lit "artifact://"
      ∷ host
      ∷ lit "/"
      ∷ some_of (one (is_word "._:/-"))
      ∷ lit "/r"
      ∷ version
      ∷ [])

abbrev pub subject_pattern : Regex
subject_pattern = chains (
    either (lit "human") (either (lit "agent") (either (lit "service") (lit "mcp")))
    ∷ lit ":"
    ∷ some_of (one (is_word "._:-"))
    ∷ [])

abbrev pub idempotency_pattern : Regex
idempotency_pattern = chain (repeat 8 (one (is_word "._:-"))) (up_to 152 (one (is_word "._:-")))

abbrev pub sha256_pattern : Regex
sha256_pattern = repeat 64 (one (λ c. is_digit c || (leb b'a' c && leb c b'f')))

abbrev pub target : String
target = "target://subactor.subllm/workspace-policy"

abbrev pub adapter : String
adapter = "adapter://subactor.subllm/policy-resolver/v1"

abbrev pub policy : String
policy = "policy://subactor.subllm/llm-route/v1"

abbrev pub verify_capability : String
verify_capability = "capability://subactor.subllm/policy/read-back/v1"

abbrev pub verify_schema : String
verify_schema = "schema://subactor.subllm/public-view/v1"

abbrev pub input_schema : String
input_schema = "schema://subactor.subllm/closed-request/v1"

abbrev pub output_schema : String
output_schema = "schema://subactor.subllm/public-view/v1"

abbrev pub observation_facts : String
observation_facts = "artifact://subactor.subllm/observations/policy-facts/r1"

abbrev pub route_input : String
route_input = "artifact://subactor.subllm/inputs/route-request/r1"

abbrev pub process_dsl_input : String
process_dsl_input = "artifact://subactor.subllm/inputs/process-dsl/r1"

abbrev pub grammar : String
grammar = "grammar://subactor.subllm/poa-request/v1"

-- `exact(value, required, optional)`
unfoldable pub exact : Json → List String → List String → Result PoaError (Dict Json)
exact (object fs) required optional =
    let d = members fs in
    if all (contains (required ++ optional)) (keys d) && all (contains (keys d)) required
    then ok d
    else err (contract "POA-DOC-001" "document fields are not closed")
exact _ required optional = err (contract "POA-DOC-001" "document must be an object")

-- `require_pattern(value, label, pattern)`
unfoldable pub require_pattern : Json → String → Regex → Result PoaError String
require_pattern (text s) label pattern =
    if fullmatch pattern s
    then ok s
    else err (contract "POA-REF-001" (label ⧺ " is not a closed reference"))
require_pattern _ label pattern =
    err (contract "POA-REF-001" (label ⧺ " is not a closed reference"))
