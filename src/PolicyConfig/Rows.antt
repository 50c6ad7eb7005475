-- ===== src/PolicyConfig/Rows.antt =====
-- src/subllm/policy_config.py: the validation of the rows of a policy file, whose values are as
-- `tomllib` gives them; a date is like any other value that no test accepts, `null`. `source` is the path
-- of the file.
use subllm.Prelude.{
  ℕ, ◌+◌, ◌*◌, pos, negsuc, String, ◌⧺◌, Bool, not, ◌&&◌, Option, none, some, is_some, List, [],
  ◌∷◌, leb, Result, ok, err, require, or_raise, ◌>>=◌, ◌>>◌, if◌then◌else◌, all, contains,
}
use subllm.Dict.{Dict, lookup}
use subllm.Health.File.{float_limit}
use subllm.Json.{Json, boolean, int, float, nonfinite, text, object, members, keys, has_keys}
use subllm.Policy.Overlay.{Catalog, find}
use subllm.PolicyConfig.{ProviderPolicyConfig, ExecutionPolicyConfig}
use subllm.PolicyConfig.Environment.{Number, finite, not_finite, in_range, is_between}
use subllm.Routing.Errors.{RouteError, invalid_policy, raised}
use subllm.Types.{ModelSpec}

-- `isinstance(raw, dict)`
abbrev pub table : Json → RouteError → Result RouteError (Dict Json)
table (object fs) e = ok (members fs)
table other e = err e

-- `raw[name]`
abbrev pub item : Dict Json → String → Result RouteError Json
item row name = or_raise (lookup name row) (raised "KeyError")

abbrev pub flag : Json → RouteError → Result RouteError Bool
flag (boolean b) e = ok b
flag other e = err e

-- An `int` from `low` to `high`
unfoldable pub integer : ℕ → ℕ → Json → RouteError → Result RouteError ℕ
integer low high (int (pos n)) e = require (is_between low high n) e >> ok n
integer low high other e = err e

abbrev pub name_of : Json → RouteError → Result RouteError String
name_of (text s) e = ok s
name_of other e = err e

-- `float(raw)`: an integer that is too large raises.
abbrev pub number : Json → RouteError → Result RouteError Number
number (int (pos n)) e =
    if leb float_limit n then err (raised "OverflowError") else ok (finite (pos (n * 1_000_000)))
number (int (negsuc n)) e =
    if leb float_limit (n + 1)
    then err (raised "OverflowError")
    else ok (finite (negsuc (n * 1_000_000 + 999_999)))
number (float z) e = ok (finite z)
number nonfinite e = ok not_finite
number other e = err e

module _ (models : Catalog ModelSpec) (source : String) where
  -- `_validate_provider`
  unfoldable pub validate_provider : String → Json → Result RouteError ProviderPolicyConfig
  validate_provider name raw = do
    row ← table raw (invalid_policy ("invalid provider settings for " ⧺ name ⧺ " in " ⧺ source))
    require (has_keys row ("enabled" ∷ "priority" ∷ "default_model" ∷ []))
        (invalid_policy ("invalid provider settings for " ⧺ name ⧺ " in " ⧺ source))
    enabled_row ← item row "enabled"
    enabled ←
        flag enabled_row
          (invalid_policy ("provider " ⧺ name ⧺ " enabled must be boolean in " ⧺ source))
    priority_row ← item row "priority"
    priority ← integer 0 10_000 priority_row (
        invalid_policy
          ("provider " ⧺ name ⧺ " priority must be an integer from 0 to 10000 in " ⧺ source))
    model_row ← item row "default_model"
    default_model ←
        name_of model_row
          (invalid_policy ("unknown default model for provider " ⧺ name ⧺ " in " ⧺ source))
    model ←
        or_raise (find default_model models)
          (invalid_policy ("unknown default model for provider " ⧺ name ⧺ " in " ⧺ source))
    require (not model.forbidden)
        (invalid_policy ("forbidden default model for provider " ⧺ name ⧺ ": " ⧺ default_model))
    require (is_some (lookup name model.providers))
        (invalid_policy ("model " ⧺ default_model ⧺ " is unavailable through provider " ⧺ name))
    ok (record { enabled = enabled; priority = priority; default_model = default_model })

module _ (source : String) where
  -- `_bounded_number`; `range` is what the message says of the bounds.
  unfoldable pub bounded_number : Json → String → ℕ → ℕ → String → Result RouteError ℕ
  bounded_number raw name low high range = do
    value ← number raw (invalid_policy ("execution " ⧺ name ⧺ " must be a number in " ⧺ source))
    in_range low high value
        (invalid_policy ("execution " ⧺ name ⧺ " must be from " ⧺ range ⧺ " in " ⧺ source))

  abbrev pub required_keys : List String
  required_keys =
      "failover_enabled" ∷ "attempt_timeout_seconds" ∷ "slow_response_seconds" ∷ "cooldown_seconds"
      ∷ "failure_threshold" ∷ "max_attempts" ∷ []

  -- `required <= set(raw) <= allowed`
  abbrev pub has_execution_keys : Dict Json → Bool
  has_execution_keys row =
      all (contains (keys row)) required_keys
      && all (contains ("uncredited_cooldown_seconds" ∷ required_keys)) (keys row)

  abbrev pub uncredited : Option Json → Result RouteError ℕ
  uncredited none = ok 3_600_000_000
  uncredited (some raw) =
      bounded_number raw "uncredited_cooldown_seconds" 0 604_800_000_000 "0 to 604800"

  -- `raw[name]`, an integer from 1 to 10
  unfoldable pub count : Dict Json → String → Result RouteError ℕ
  count row name = item row name >>= λ raw.
      integer 1 10 raw
        (invalid_policy ("execution " ⧺ name ⧺ " must be an integer from 1 to 10 in " ⧺ source))

  -- `raw[name]`, a number in the bounds
  unfoldable pub time : Dict Json → String → ℕ → ℕ → String → Result RouteError ℕ
  time row name low high range = item row name >>= λ raw. bounded_number raw name low high range

  -- The limit of an attempt and what counts as slow
  unfoldable pub limits : Dict Json → Result RouteError (ℕ × ℕ)
  limits row = do
    timeout ← time row "attempt_timeout_seconds" 100_000 3_600_000_000 "0.1 to 3600"
    slow ← time row "slow_response_seconds" 100_000 3_600_000_000 "0.1 to 3600"
    require (leb slow timeout) (
        invalid_policy
          ("execution slow_response_seconds must not exceed attempt_timeout_seconds in " ⧺ source))
    ok (timeout, slow)

  -- What follows the test of the keys; they are there, so it is all one in which order they are read.
  unfoldable pub read_execution : Dict Json → Result RouteError ExecutionPolicyConfig
  read_execution row = do
    enabled_row ← item row "failover_enabled"
    enabled ←
        flag enabled_row
          (invalid_policy ("execution failover_enabled must be boolean in " ⧺ source))
    threshold ← count row "failure_threshold"
    attempts ← count row "max_attempts"
    times ← limits row
    refused ← uncredited (lookup "uncredited_cooldown_seconds" row)
    cooldown ← time row "cooldown_seconds" 0 86_400_000_000 "0 to 86400"
    ok (record {
      failover_enabled = enabled;
      attempt_timeout = times.0;
      slow_response = times.1;
      cooldown = cooldown;
      failure_threshold = threshold;
      max_attempts = attempts;
      uncredited_cooldown = refused;
    })

  -- `_validate_execution`
  unfoldable pub validate_execution : Json → Result RouteError ExecutionPolicyConfig
  validate_execution raw = do
    row ← table raw (invalid_policy ("invalid execution settings in " ⧺ source))
    require (has_execution_keys row) (invalid_policy ("invalid execution settings in " ⧺ source))
    read_execution row
