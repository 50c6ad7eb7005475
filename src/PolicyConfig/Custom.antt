-- ===== src/PolicyConfig/Custom.antt =====
-- src/subllm/policy_config.py: `_validate_custom_provider`, and the registering of what it returns.
-- `urlsplit` is that of urllib.parse, and `str` is Python's.
use subllm.Prelude.{
  ℕ, String, ◌⧺◌, ◌==◌, Bool, true, false, not, ◌&&◌, ◌||◌, Option, none, some, is_some, List, [],
  ◌∷◌, is_empty, all, contains, is_lower, is_digit, eqb, codes, bounded_name, strip, split, code,
  Result, ok, err, require, or_raise, ◌>>=◌, ◌>>◌, if◌then◌else◌,
}
use subllm.Dict.{Dict, lookup}
use subllm.Json.{Json, text, array, Items, nil, cons, keys}
use subllm.Policy.Defaults.{provider_defaults}
use subllm.Policy.Overlay.{Catalogs, register_custom_provider}
use subllm.PolicyConfig.{CustomProviderConfig}
use subllm.PolicyConfig.Environment.{is_upper}
use subllm.PolicyConfig.Rows.{table, flag, integer, name_of}
use subllm.Routing.Errors.{RouteError, invalid_policy}
use subllm.Types.{ProviderSpec}

-- What `urlsplit` returns; a missing part that is read by its name is none.
pub record Url : Type 0 where
  pub scheme : String
  pub netloc : String
  pub hostname : Option String
  pub username : Option String
  pub password : Option String
  pub query : String
  pub fragment : String

-- `$` stands before a newline at the end, too.
abbrev pub without_newline : List ℕ → List ℕ
without_newline [] = []
without_newline (c ∷ []) = if eqb c 10 then [] else c ∷ []
without_newline (c ∷ d ∷ cs) = c ∷ without_newline (d ∷ cs)

-- `_CUSTOM_ID_RE`
unfoldable pub is_custom_id : String → Bool
is_custom_id name =
    bounded_name (λ c. is_lower c || is_digit c)
      (λ c. is_lower c || is_digit c || eqb c b'_' || eqb c b'.' || eqb c b'-') 63
      (without_newline (codes name))

abbrev is_word_start : ℕ → Bool
is_word_start c = is_lower c || is_upper c || eqb c b'_'

-- `_ENV_NAME_RE` on a text without white space at its end
unfoldable pub is_env_name : String → Bool
is_env_name name = elim (codes name) [
  | [] ↦ false
  | c ∷ cs ↦ is_word_start c && all (λ d. is_word_start d || is_digit d) cs
]

abbrev pub is_given : Option String → Bool
is_given none = false
is_given (some s) = not (s == "")

abbrev local_hosts : List String
local_hosts = "localhost" ∷ "127.0.0.1" ∷ "::1" ∷ []

abbrev first_part : List String → String
first_part [] = ""
first_part (x ∷ xs) = x

unfoldable pub is_localhost : Url → Bool
is_localhost u =
    elim u.hostname [ none ↦ false | some h ↦ contains local_hosts h ]
    || (not (u.netloc == "") && contains local_hosts (first_part (split b':' u.netloc)))

-- `text.rstrip("/")`
abbrev rstrip_slash : String → String
rstrip_slash String.[] = String.[]
rstrip_slash (String.◌∷◌ c s) =
    let rest = rstrip_slash s in
    if eqb (code c) b'/' && rest == "" then String.[] else String.◌∷◌ c rest

module _ (urlsplit : String → Result RouteError Url) (str : Json → String)
    (source name : String) where
  abbrev wrong : String → RouteError
  wrong what = invalid_policy ("custom provider '" ⧺ name ⧺ "' " ⧺ what ⧺ " in " ⧺ source)

  abbrev check_scheme : Url → Result RouteError (Unit {0})
  check_scheme u =
      if is_localhost u
      then require (u.scheme == "http" || u.scheme == "https")
          (wrong "localhost api_base must use http or https")
      else require (u.scheme == "https") (wrong "remote api_base must use https")

  -- The tests on `api_base`, and its stripped text.
  unfoldable pub api_base_of : Dict Json → Result RouteError String
  api_base_of row = do
    raw ← or_raise (lookup "api_base" row) (wrong "missing required field 'api_base'")
    given ← name_of raw (wrong "api_base must be a non-empty string")
    require (not (strip given == "")) (wrong "api_base must be a non-empty string")
    u ← urlsplit (strip given)
    check_scheme u
    require
        (not (
          is_given u.username
          || is_given u.password
          || not (u.query == "")
          || not (u.fragment == "")
          || u.netloc == ""))
        (wrong "api_base must not contain credentials, query or fragment")
    ok (strip given)

  -- `raw.get(key, "")`, a text, stripped
  abbrev pub text_or_empty : Dict Json → String → Result RouteError String
  text_or_empty row key = elim (lookup key row) [
    | none ↦ ok ""
    | some raw ↦ name_of raw (wrong (key ⧺ " must be string")) >>= λ s. ok (strip s)
  ]

  unfoldable pub key_env_of : Dict Json → Result RouteError String
  key_env_of row = do
    key ← text_or_empty row "api_key_env"
    require (key == "" || is_env_name key)
        (wrong ("api_key_env '" ⧺ key ⧺ "' is not a valid environment variable name"))
    ok key

  -- `str(m).strip() for m in raw`
  abbrev pub texts_of : Items → List String
  texts_of nil = []
  texts_of (cons j rest) = strip (str j) ∷ texts_of rest

  abbrev pub list_or : List String → Option Json → RouteError → Result RouteError (List String)
  list_or default none e = ok default
  list_or default (some (array items)) e = ok (texts_of items)
  list_or default (some other) e = err e

  -- An empty list is refused.
  unfoldable pub models_of : Dict Json → Result RouteError (List String)
  models_of row = do
    models ← list_or [] (lookup "models" row) (wrong "models must be a non-empty list")
    require (not (is_some (lookup "models" row) && is_empty models))
        (wrong "models must be a non-empty list")
    require (all (λ m. not (m == "")) models) (wrong "model names cannot be empty")
    ok models

  -- `default_model`, where it is empty
  abbrev pub default_of : String → List String → String
  default_of given models = if given == "" then elim models [ [] ↦ name | m ∷ ms ↦ m ] else given

  -- `(default_model, *models)`, if it is not in `models`
  abbrev pub with_default : String → List String → List String
  with_default default models = if contains models default then models else default ∷ models

  abbrev pub priority_or : Option Json → Result RouteError ℕ
  priority_or none = ok 50
  priority_or (some raw) =
      integer 0 10_000 raw (wrong "priority must be an integer from 0 to 10000")

  abbrev pub enabled_or : Option Json → Result RouteError Bool
  enabled_or none = ok true
  enabled_or (some raw) = flag raw (wrong "enabled must be boolean")

  abbrev efforts : List String
  efforts = "low" ∷ "medium" ∷ "high" ∷ "none" ∷ []

  abbrev effort_of : Option Json → Result RouteError (Dict String)
  effort_of none = ok []
  effort_of (some (text effort)) =
      require (contains efforts effort) (wrong "reasoning_effort must be low, medium, high or none")
      >> ok (("reasoning_effort", effort) ∷ [])
  effort_of (some other) = err (wrong "reasoning_effort must be low, medium, high or none")

  unfoldable pub parameters_or : Option Json → Result RouteError (Dict String)
  parameters_or none = ok []
  parameters_or (some raw) = do
    row ← table raw (wrong "model_parameters must contain only reasoning_effort")
    require (all (λ k. k == "reasoning_effort") (keys row))
        (wrong "model_parameters must contain only reasoning_effort")
    effort_of (lookup "reasoning_effort" row)

  abbrev pub allowed_fields : List String
  allowed_fields =
      "api_base" ∷ "api_key_env" ∷ "default_model" ∷ "models" ∷ "priority" ∷ "enabled" ∷ "routes"
      ∷ "model_parameters" ∷ []

  -- From the test of the fields on
  unfoldable pub read_custom : Dict Json → Result RouteError CustomProviderConfig
  read_custom row = do
    api_base ← api_base_of row
    api_key_env ← key_env_of row
    listed ← models_of row
    given ← text_or_empty row "default_model"
    priority ← priority_or (lookup "priority" row)
    enabled ← enabled_or (lookup "enabled" row)
    routes ← list_or ("all" ∷ []) (lookup "routes" row) (wrong "routes must be a list")
    parameters ← parameters_or (lookup "model_parameters" row)
    ok (record {
      id = name;
      api_base = rstrip_slash api_base;
      api_key_env = api_key_env;
      default_model = default_of given listed;
      models = with_default (default_of given listed) listed;
      priority = priority;
      enabled = enabled;
      routes = routes;
      model_parameters = parameters;
    })

  -- `_validate_custom_provider`; the message on unknown fields leaves out their names.
  unfoldable pub validate_custom_provider : Json → Result RouteError CustomProviderConfig
  validate_custom_provider raw = do
    require (is_custom_id name)
        (invalid_policy ("invalid custom provider name '" ⧺ name ⧺ "' in " ⧺ source))
    require (not (is_some (lookup name provider_defaults)))
        (wrong "conflicts with built-in provider")
    row ← table raw (wrong "must be a table")
    require (all (contains allowed_fields) (keys row))
        (invalid_policy ("unknown fields for custom provider '" ⧺ name ⧺ "' in " ⧺ source))
    read_custom row

-- The `ProviderSpec` that `load_policy_config` registers.
unfoldable pub spec_of : CustomProviderConfig → ProviderSpec
spec_of custom = record {
  id = custom.id;
  api_base = custom.api_base;
  api_key_env = custom.api_key_env;
  transport = "openai-compatible";
  attribution_headers = false;
}

-- The loop over `custom_providers.values()`
unfoldable pub register_all : List CustomProviderConfig → Catalogs → Catalogs
register_all [] c = c
register_all (custom ∷ rest) c =
    register_all rest (register_custom_provider (spec_of custom) custom.models c)
