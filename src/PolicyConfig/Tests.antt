-- ===== src/PolicyConfig/Tests.antt =====
-- Settings of an execution from a file and an environment, and the theorems about them.
use subllm.Prelude.{
  ℕ, pos, String, ◌≡◌, refl, true, false, none, some, [], ◌∷◌, Result, ok, strip, split, is_some,
  if◌then◌else◌, ◌==◌,
}
use subllm.Dict.{Dict, lookup}
use subllm.Json.{Json, boolean, int, float, text, array, object, fields, field, end, cons, nil}
use subllm.Policy.Defaults.{provider_defaults, application_defaults}
use subllm.Policy.Overlay.{find, register_custom_provider}
use subllm.Policy.Registered.{IsServed}
use subllm.PolicyConfig.Custom.{
  Url, validate_custom_provider, is_custom_id, read_custom, api_base_of, is_localhost, key_env_of,
  models_of, parameters_or, spec_of,
}
use subllm.PolicyConfig.Usable.{validate_custom_provider-IsServed}
use subllm.Routing.Errors.{RouteError}
use subllm.Routing.Shipped.{shipped_catalogs}
use subllm.PolicyConfig.{ExecutionPolicyConfig, CustomProviderConfig, RuntimePolicyConfig}
use subllm.PolicyConfig.Environment.{
  Readers, finite, first_set, timeout_keys, normalize_timeout_key_part, sub_runs,
  environment_number, in_range, resolve_attempt_timeout, execution_with_environment, slow_response,
  failure_threshold, uncredited_cooldown,
}
use subllm.PolicyConfig.Precedence.{resolve_attempt_timeout-IsDecided, IsDecided, precedence}
use subllm.PolicyConfig.Rows.{
  validate_provider, validate_execution, read_execution, count, time, limits, bounded_number,
  integer,
}
use subllm.PolicyConfig.Application.{Loader, validate_application}
use subllm.PolicyConfig.Load.{
  provider_row, application_row, load_policy, read_policy, read_providers, read_applications,
  add_rows, validate_rows,
}
use subllm.PolicyConfig.Safe.{load_policy-IsSafe, IsSafe}
use subllm.Policy.Applications.{applications}
use subllm.Policy.Models.Base.{base_models}

-- Two numbers that the tests write; `upper` leaves the names, which are in capitals.
abbrev readers : Readers
readers = record {
  to_float = λ s. if s == "20" then some (finite (pos 20_000_000)) else none;
  to_int = λ s. none;
  upper = λ s. s;
}

abbrev environment : Dict String
environment = ("SUBLLM_TIMEOUT_SECONDS", "20") ∷ []

abbrev raw : Json
raw = object (
    field "failover_enabled" (boolean true) (
      field "attempt_timeout_seconds" (int (pos 12)) (
        field "slow_response_seconds" (float (pos 2_500_000)) (
          field "cooldown_seconds" (int (pos 60))
            (field "failure_threshold" (int (pos 2)) (field "max_attempts" (int (pos 3)) end))))))

abbrev settings : ℕ → ExecutionPolicyConfig
settings timeout = record {
  failover_enabled = true;
  attempt_timeout = timeout;
  slow_response = 2_500_000;
  cooldown = 60_000_000;
  failure_threshold = 2;
  max_attempts = 3;
  uncredited_cooldown = 3_600_000_000;
}

reads : validate_execution "f" raw ≡ ok (settings 12_000_000)
unfolding validate_execution read_execution count time limits bounded_number integer in_range lookup
reads = refl

replaces :
    execution_with_environment readers environment (settings 12_000_000) ≡ ok (settings 20_000_000)
unfolding execution_with_environment first_set environment_number in_range slow_response
    failure_threshold uncredited_cooldown lookup
replaces = refl

-- A provider's own name comes before the general ones.
abbrev of_provider : Dict String
of_provider = ("SUBLLM_TIMEOUT_SECONDS", "9") ∷ ("SUBLLM_TIMEOUT_AGY", "20") ∷ []

names :
    timeout_keys readers " AGY" "A-1"
    ≡ "SUBLLM_TIMEOUT_AGY_A_1" ∷ "SUBLLM_TIMEOUT_MODEL_A_1" ∷ "SUBLLM_TIMEOUT_A_1"
      ∷ "SUBLLM_TIMEOUT_PROVIDER_AGY" ∷ "SUBLLM_TIMEOUT_AGY" ∷ "SUBLLM_ATTEMPT_TIMEOUT_SECONDS"
      ∷ "SUBLLM_TIMEOUT_SECONDS" ∷ "SUBLLM_TIMEOUT_DEFAULT" ∷ []
unfolding timeout_keys normalize_timeout_key_part sub_runs strip
names = refl

resolve_attempt_timeout-IsDecided_example :
    IsDecided readers of_provider
      (normalize_timeout_key_part readers " AGY")
      (normalize_timeout_key_part readers "A-1")
      5
      precedence
      (resolve_attempt_timeout readers of_provider " AGY" "A-1" 5)
resolve_attempt_timeout-IsDecided_example =
    resolve_attempt_timeout-IsDecided readers of_provider " AGY" "A-1" 5

abbrev split_url : String → Result RouteError Url
split_url s = ok (record {
  scheme = "https";
  netloc = "example.org";
  hostname = some "example.org";
  username = none;
  password = none;
  query = "";
  fragment = "";
})

abbrev custom_row : Json
custom_row = object (
    field "api_base" (text " https://example.org/ ")
      (field "models" (array (cons (text "big ") nil)) (field "default_model" (text "small") end)))

abbrev custom : CustomProviderConfig
custom = record {
  id = "mine";
  api_base = "https://example.org";
  api_key_env = "";
  default_model = "small";
  models = "small" ∷ "big" ∷ [];
  priority = 50;
  enabled = true;
  routes = "all" ∷ [];
  model_parameters = [];
}

abbrev text_of : Json → String
text_of (text s) = s
text_of other = ""

validates : validate_custom_provider split_url text_of "f" "mine" custom_row ≡ ok custom
unfolding validate_custom_provider is_custom_id provider_defaults read_custom api_base_of
    is_localhost key_env_of models_of parameters_or strip split lookup
validates = refl

validate_custom_provider-IsServed_example :
    (is_some (lookup "mine" provider_defaults) ≡ false)
    × (find "mine"
          (register_custom_provider (spec_of custom) custom.models shipped_catalogs).providers
        ≡ some (spec_of custom))
    × IsServed "mine"
        (register_custom_provider (spec_of custom) custom.models shipped_catalogs).models
        "small"
validate_custom_provider-IsServed_example =
    validate_custom_provider-IsServed split_url text_of "f" "mine" custom_row custom
      shipped_catalogs validates

-- A file that says what the defaults say.
abbrev rows_of : {V : Type 0} → (V → Json) → Dict V → Dict Json
rows_of row [] = []
rows_of row ((k, v) ∷ d) = (k, row v) ∷ rows_of row d

abbrev document : Dict Json
document =
    ("schema_version", int (pos 3))
    ∷ ("providers", object (fields (rows_of (provider_row true) provider_defaults)))
    ∷ (
      "applications",
      object (fields (rows_of application_row (application_defaults applications))),
    )
    ∷ ("execution", raw)
    ∷ ("custom_providers", object (field "mine" custom_row end))
    ∷ []

abbrev loader : Loader
loader = record {
  readers = readers;
  environment = environment;
  urlsplit = split_url;
  str = text_of;
  source = "f";
}

loaded : (p : RuntimePolicyConfig) × ((load_policy loader document shipped_catalogs).0 ≡ ok p)
unfolding load_policy read_policy read_providers read_applications add_rows validate_rows
    validate_provider validate_application validate_custom_provider is_custom_id provider_defaults
    application_defaults applications read_custom api_base_of is_localhost key_env_of models_of
    parameters_or strip split lookup find base_models validate_execution read_execution count time
    limits bounded_number integer in_range execution_with_environment first_set environment_number
    slow_response failure_threshold uncredited_cooldown
loaded = (_, refl)

load_policy-IsSafe_example : IsSafe loaded.0
load_policy-IsSafe_example = load_policy-IsSafe loader document shipped_catalogs loaded.0 loaded.1
