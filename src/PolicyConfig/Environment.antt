-- ===== src/PolicyConfig/Environment.antt =====
-- src/subllm/policy_config.py: the settings that the environment replaces. `environment` is the merged
-- environment, a time is in microseconds; `to_float`, `to_int` and `upper` are Python's `float`, `int`
-- and `str.upper` on texts.
use subllm.Prelude.{
  ℕ, min, ℤ, pos, negsuc, String, ◌⧺◌, ◌==◌, Bool, true, false, not, ◌&&◌, ◌||◌, Option, none, some,
  is_some, List, [], ◌∷◌, ◌++◌, leb, eqb, is_digit, is_lower, strip, code, Result, ok, err, require,
  ◌>>=◌, ◌>>◌, if◌then◌else◌,
}
use subllm.Dict.{Dict, lookup}
use subllm.PolicyConfig.{ExecutionPolicyConfig}
use subllm.Routing.Errors.{RouteError, invalid_policy}

-- What `float` makes of a text: a finite number, or NaN or an infinity.
pub data Number : Type 0 where
  finite : ℤ → Number
  not_finite : Number

pub record Readers : Type 0 where
  pub to_float : String → Option Number
  pub to_int : String → Option ℤ
  pub upper : String → String

-- `low <= value <= high`
abbrev pub is_between : ℕ → ℕ → ℕ → Bool
is_between low high n = leb low n && leb n high

unfoldable pub in_range : ℕ → ℕ → Number → RouteError → Result RouteError ℕ
in_range low high (finite (pos n)) e = require (is_between low high n) e >> ok n
in_range low high (finite (negsuc n)) e = err e
in_range low high not_finite e = err e

abbrev least_time : ℕ
least_time = 100_000

abbrev longest_time : ℕ
longest_time = 3_600_000_000

abbrev out_of_range : String → RouteError
out_of_range name = invalid_policy ("runtime " ⧺ name ⧺ " must be from 0.1 to 3600")

abbrev pub parsed : String → Option Number → Result RouteError ℕ
parsed name none = err (invalid_policy ("runtime " ⧺ name ⧺ " must be a number"))
parsed name (some v) = in_range least_time longest_time v (out_of_range name)

abbrev pub number_or : Readers → String → ℕ → Option String → Result RouteError ℕ
number_or r name default none = ok default
number_or r name default (some raw) = parsed name (r.to_float raw)

-- `_environment_number`
unfoldable pub environment_number : Readers → Dict String → String → ℕ → Result RouteError ℕ
environment_number r environment name default = number_or r name default (lookup name environment)

abbrev pub is_upper : ℕ → Bool
is_upper c = leb b'A' c && leb c b'Z'

abbrev is_alnum : ℕ → Bool
is_alnum c = is_lower c || is_upper c || is_digit c

-- `re.sub(r"[^A-Za-z0-9]+", "_", s)`; the flag says that a run is being read.
unfoldable pub sub_runs : Bool → String → String
sub_runs running String.[] = String.[]
sub_runs running (String.◌∷◌ c s) = elim (is_alnum (code c)) [
  | true ↦ String.◌∷◌ c (sub_runs false s)
  | false ↦ if running then sub_runs true s else "_" ⧺ sub_runs true s
]

-- `s.strip("_")`
abbrev lstrip_line : String → String
lstrip_line String.[] = String.[]
lstrip_line (String.◌∷◌ c s) =
    let rest = lstrip_line s in if eqb (code c) b'_' then rest else String.◌∷◌ c s

abbrev rstrip_line : String → String
rstrip_line String.[] = String.[]
rstrip_line (String.◌∷◌ c s) =
    let rest = rstrip_line s in
    if eqb (code c) b'_' && rest == "" then String.[] else String.◌∷◌ c rest

unfoldable pub normalize_timeout_key_part : Readers → String → String
normalize_timeout_key_part r value =
    r.upper (rstrip_line (lstrip_line (sub_runs false (strip value))))

abbrev pub general_keys : List String
general_keys =
    "SUBLLM_ATTEMPT_TIMEOUT_SECONDS" ∷ "SUBLLM_TIMEOUT_SECONDS" ∷ "SUBLLM_TIMEOUT_DEFAULT" ∷ []

abbrev pub keys_if : Bool → List String → List String
keys_if b names = if b then names else []

-- `candidates` of `resolve_attempt_timeout`, by precedence
unfoldable pub timeout_keys : Readers → String → String → List String
timeout_keys r provider model =
    let p = normalize_timeout_key_part r provider in
    let m = normalize_timeout_key_part r model in
    keys_if (not (p == "") && not (m == "")) (("SUBLLM_TIMEOUT_" ⧺ p ⧺ "_" ⧺ m) ∷ [])
    ++ (keys_if (not (m == "")) (("SUBLLM_TIMEOUT_MODEL_" ⧺ m) ∷ ("SUBLLM_TIMEOUT_" ⧺ m) ∷ [])
        ++ (keys_if (not (p == ""))
              (("SUBLLM_TIMEOUT_PROVIDER_" ⧺ p) ∷ ("SUBLLM_TIMEOUT_" ⧺ p) ∷ [])
            ++ general_keys))

-- The first name that the environment has
unfoldable pub first_set : Dict String → List String → Option String
first_set environment [] = none
first_set environment (k ∷ ks) =
    let rest = first_set environment ks in if is_some (lookup k environment) then some k else rest

-- The `return`s; a float is read back from its `str`.
abbrev pub timeout_from : Readers → Dict String → ℕ → Option String → Result RouteError ℕ
timeout_from r environment default (some key) = environment_number r environment key default
timeout_from r environment default none =
    in_range least_time longest_time (finite (pos default)) (out_of_range "policy_timeout")

unfoldable pub resolve_attempt_timeout :
    Readers → Dict String → String → String → ℕ → Result RouteError ℕ
resolve_attempt_timeout r environment provider model default =
    timeout_from r environment default (first_set environment (timeout_keys r provider model))

-- `attempt_timeout` of `_execution_with_environment`
abbrev pub general_timeout : Readers → Dict String → ℕ → Option String → Result RouteError ℕ
general_timeout r environment default none = ok default
general_timeout r environment default (some key) = environment_number r environment key default

abbrev pub slow_name : String
slow_name = "SUBLLM_SLOW_RESPONSE_SECONDS"

abbrev pub slow_or : Readers → Dict String → ℕ → ℕ → Option String → Result RouteError ℕ
slow_or r environment timeout default none = ok (min default timeout)
slow_or r environment timeout default (some raw) =
    environment_number r environment slow_name default >>= λ slow.
    require (leb slow timeout)
      (invalid_policy ("runtime " ⧺ slow_name ⧺ " must not exceed SUBLLM_ATTEMPT_TIMEOUT_SECONDS"))
    >> ok slow

unfoldable pub slow_response : Readers → Dict String → ℕ → ℕ → Result RouteError ℕ
slow_response r environment timeout default =
    slow_or r environment timeout default (lookup slow_name environment)

abbrev pub threshold_of : Option ℤ → Result RouteError ℕ
threshold_of none = err (invalid_policy "runtime SUBLLM_FAILURE_THRESHOLD must be an integer")
threshold_of (some (pos n)) =
    require (is_between 1 100 n)
      (invalid_policy "runtime SUBLLM_FAILURE_THRESHOLD must be from 1 to 100")
    >> ok n
threshold_of (some (negsuc n)) =
    err (invalid_policy "runtime SUBLLM_FAILURE_THRESHOLD must be from 1 to 100")

unfoldable pub failure_threshold : Readers → ℕ → Option String → Result RouteError ℕ
failure_threshold r default none = ok default
failure_threshold r default (some raw) = threshold_of (r.to_int raw)

abbrev pub cooldown_name : String
cooldown_name = "SUBLLM_UNCREDITED_COOLDOWN_SECONDS"

abbrev pub cooldown_of : Option Number → Result RouteError ℕ
cooldown_of none = err (invalid_policy ("runtime " ⧺ cooldown_name ⧺ " must be a number"))
cooldown_of (some v) =
    in_range 0 604_800_000_000 v
      (invalid_policy ("runtime " ⧺ cooldown_name ⧺ " must be from 0 to 604800"))

unfoldable pub uncredited_cooldown : Readers → ℕ → Option String → Result RouteError ℕ
uncredited_cooldown r default none = ok default
uncredited_cooldown r default (some raw) = cooldown_of (r.to_float raw)

unfoldable pub execution_with_environment :
    Readers → Dict String → ExecutionPolicyConfig → Result RouteError ExecutionPolicyConfig
execution_with_environment r environment e = do
  timeout ← general_timeout r environment e.attempt_timeout (first_set environment general_keys)
  slow ← slow_response r environment timeout e.slow_response
  threshold ←
      failure_threshold r e.failure_threshold (lookup "SUBLLM_FAILURE_THRESHOLD" environment)
  uncredited ← uncredited_cooldown r e.uncredited_cooldown (lookup cooldown_name environment)
  ok (record e {
    attempt_timeout = timeout;
    slow_response = slow;
    failure_threshold = threshold;
    uncredited_cooldown = uncredited;
  })
