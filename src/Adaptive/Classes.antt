-- ===== src/Adaptive/Classes.antt =====
-- src/subllm/adaptive.py: `requested_class`, `failure_kind`, `_compatible` and `_check_response`.
-- `loads` is `json.loads`, none where it raises.
use subllm.Prelude.{
  ℕ, String, ◌==◌, Bool, true, false, ◌&&◌, ◌||◌, Option, none, some, or_else, List, [], ◌∷◌,
  contains, if◌then◌else◌, strip, Result, ok, err, ◌>>=◌,
}
use subllm.Dict.{Dict, lookup, insert}
use subllm.Json.{Json, text, array, object, Items, nil, cons, members}
use subllm.Adaptive.Config.{Config, Tier, level}
use subllm.Client.Outcome.{
  AttemptError, retryable, fatal, ClientError, completion, raised, CompletionResponse, Outcome,
  answered, failed, RetryableAttemptError,
}
use subllm.Client.Vision.{Message}
use subllm.Policy.Overlay.{Catalog, find}
use subllm.Types.{ModelSpec, ResolvedRoute}

abbrev pub class_with : String → List (Tier × List String) → Option Tier
class_with model [] = none
class_with model ((tier, models) ∷ rest) =
    if contains models model then some tier else class_with model rest

unfoldable pub requested_class : Config → String → Option Tier
requested_class config model = elim (lookup model config.aliases) [
  | some tier ↦ some tier
  | none ↦ class_with model config.classes
]

abbrev put_models : Tier → List String → Dict ℕ → Dict ℕ
put_models tier [] d = d
put_models tier (m ∷ ms) d = put_models tier ms (insert m (level tier) d)

abbrev put_classes : List (Tier × List String) → Dict ℕ → Dict ℕ
put_classes [] d = d
put_classes ((tier, models) ∷ rest) d = put_classes rest (put_models tier models d)

-- `catalog` of `execute`
unfoldable pub model_levels : Config → Dict ℕ
model_levels config = put_classes config.classes []

-- `s.endswith(part)`
abbrev ends_with : String → String → Bool
ends_with part String.[] = part == ""
ends_with part (String.◌∷◌ c s) = part == String.◌∷◌ c s || ends_with part s

abbrev code_kind : String → Option String
code_kind code =
    if ends_with "HTTP-402" code
    then some "http_402"
    else if ends_with "HTTP-429" code || ends_with "QUOTA" code
    then some "http_429"
    else if ends_with "TIMEOUT" code || ends_with "FAILED" code || ends_with "UNAVAILABLE" code
    then some "provider_unavailable"
    else none

-- `failure_kind`; what is no `CompletionError` is not caught.
unfoldable pub failure_kind : AttemptError → Option String
failure_kind (retryable e) = some e.outcome
failure_kind (fatal (completion message code)) = code_kind (or_else code "")
failure_kind (fatal (raised name)) = none

abbrev is_text_part : Dict Json → Bool
is_text_part part = elim (lookup "type" part) [ some (text t) ↦ t == "text" | _ ↦ false ]

-- `any(p.get("type") != "text" for p in parts)`
abbrev other_parts : Items → Result ClientError Bool
other_parts nil = ok false
other_parts (cons (object fs) rest) =
    if is_text_part (members fs) then other_parts rest else ok true
other_parts (cons other rest) = err (raised "AttributeError")

abbrev other_content : Option Json → Result ClientError Bool
other_content (some (array parts)) = other_parts parts
other_content other = ok false

-- `nontext`
abbrev nontext : List Message → Result ClientError Bool
nontext [] = ok false
nontext (m ∷ ms) = other_content (lookup "content" m) >>= λ b. if b then ok true else nontext ms

abbrev sees : Option ModelSpec → ResolvedRoute → Bool
sees none route = false
sees (some spec) route = spec.vision && route.transport == "openai-compatible"

unfoldable pub compatible :
    Catalog ModelSpec → ResolvedRoute → List Message → String → Result ClientError Bool
compatible models route messages fmt =
    if fmt == "json_schema" && route.transport == "cursor-cli"
    then ok false
    else nontext messages >>= λ b. ok (if b then sees (find route.model models) route else true)

abbrev pub invalid_response : String → RetryableAttemptError
invalid_response message = record {
  message = message;
  outcome = "invalid_response";
  provider_level = false;
  diagnostic_code = none;
}

abbrev check_object : CompletionResponse → Option Json → Outcome
check_object r (some (object fs)) = answered r
check_object r other =
    failed (some r) (retryable (invalid_response "provider returned a non-object JSON response"))

abbrev check_json : CompletionResponse → String → Option Json → Outcome
check_json r fmt none =
    failed (some r) (retryable (invalid_response "provider returned invalid JSON"))
check_json r fmt (some value) =
    if fmt == "json_object" then check_object r (some value) else answered r

-- `_check_response` of what `invoke` gave
unfoldable pub check_response : (String → Option Json) → String → Outcome → Outcome
check_response loads fmt (answered r) =
    if strip r.content == ""
    then failed (some r) (retryable (invalid_response "empty provider response"))
    else if fmt == "json_object" || fmt == "json_schema"
    then check_json r fmt (loads r.content)
    else answered r
check_response loads fmt other = other
