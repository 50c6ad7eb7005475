-- ===== src/PolicyConfig/Load.antt =====
-- src/subllm/policy_config.py: `load_policy_config` of a file that was found, from its
-- parsed text on, without an exported catalog (`CATALOG_PROVIDER_DEFAULTS` is None). It reads and
-- changes the catalogs.
use subllm.Prelude.{
  ℕ, pos, String, ◌⧺◌, Bool, true, false, not, ◌&&◌, ◌||◌, Option, none, some, is_some, List, [],
  ◌∷◌, ◌++◌, all, any, contains, eqb, Result, ok, err, require, or_raise, ◌>>=◌, ◌>>◌,
  if◌then◌else◌,
}
use subllm.Dict.{Dict, lookup}
use subllm.Json.{Json, boolean, int, float, text, array, object, end, field, keys, has_keys}
use subllm.Policy.Applications.{applications}
use subllm.Policy.Defaults.{provider_defaults, application_defaults, execution_defaults}
use subllm.Policy.Overlay.{Catalogs, clear_custom_providers}
use subllm.PolicyConfig.{
  ProviderPolicyConfig, ApplicationPolicyConfig, CustomProviderConfig, ExecutionPolicyConfig,
  RuntimePolicyConfig,
}
use subllm.PolicyConfig.Application.{Loader, validate_application}
use subllm.PolicyConfig.Custom.{validate_custom_provider, register_all}
use subllm.PolicyConfig.Environment.{execution_with_environment}
use subllm.PolicyConfig.Rows.{table, item, validate_provider, validate_execution}
use subllm.Routing.Errors.{RouteError, invalid_policy, raised}

-- `schema_version`, if it equals 2 or 3
abbrev pub version_of : Option Json → Option ℕ
version_of (some (int (pos n))) = if eqb n 2 || eqb n 3 then some n else none
version_of (some (float (pos n))) =
    if eqb n 2_000_000 then some 2 else if eqb n 3_000_000 then some 3 else none
version_of other = none

-- `asdict(...)` of a default, with its flag
abbrev pub provider_row : Bool → ProviderPolicyConfig → Json
provider_row enabled p = object (
    field "enabled" (boolean enabled)
      (field "priority" (int (pos p.priority)) (field "default_model" (text p.default_model) end)))

abbrev pub application_row : ApplicationPolicyConfig → Json
application_row a = object (field "name" (text a.name) (field "url" (text a.url) end))

-- Rows that are not there are added from the defaults.
unfoldable pub add_rows {ℓ} :
    {V : Type ℓ} → (V → Json) → Dict V → List String → Dict Json → Dict Json
add_rows row defaults [] rows = rows
add_rows row defaults (name ∷ names) rows =
    add_rows row defaults names (elim (is_some (lookup name rows)) [
      | true ↦ rows
      | false ↦ elim (lookup name defaults) [ none ↦ rows | some v ↦ rows ++ ((name, row v) ∷ []) ]
    ])

abbrev executors : List String
executors = "codex-cli" ∷ "claude-cli" ∷ "agy-cli" ∷ "cursor-cli" ∷ []

abbrev newer_applications : List String
newer_applications =
    "organism-guard" ∷ "subactor-proxy" ∷ "premesh" ∷ "autogrammar-gillm" ∷ "wellman" ∷ "heyasa"
    ∷ []

-- `{name: validate(name, rows[name]) for name in names}`
unfoldable pub validate_rows {ℓ} :
    {V : Type ℓ}
    → (String → Json → Result RouteError V)
    → Dict Json
    → List String
    → Result RouteError (Dict V)
validate_rows validate rows [] = ok []
validate_rows validate rows (name ∷ names) = do
  raw ← item rows name
  value ← validate name raw
  rest ← validate_rows validate rows names
  ok ((name, value) ∷ rest)

abbrev pub table_at : Dict Json → String → RouteError → Result RouteError (Dict Json)
table_at doc name e = or_raise (lookup name doc) e >>= λ raw. table raw e

abbrev pub custom_rows : Dict Json → RouteError → Result RouteError (Dict Json)
custom_rows doc e = elim (lookup "custom_providers" doc) [ none ↦ ok [] | some raw ↦ table raw e ]

abbrev enabled_priorities : Dict ProviderPolicyConfig → List ℕ
enabled_priorities [] = []
enabled_priorities ((k, p) ∷ d) =
    if p.enabled then p.priority ∷ enabled_priorities d else enabled_priorities d

abbrev custom_priorities : Dict CustomProviderConfig → List ℕ
custom_priorities [] = []
custom_priorities ((k, p) ∷ d) =
    if p.enabled then p.priority ∷ custom_priorities d else custom_priorities d

abbrev pub are_unique : List ℕ → Bool
are_unique [] = true
are_unique (n ∷ ns) = not (any (eqb n) ns) && are_unique ns

abbrev pub values {ℓ} : {V : Type ℓ} → Dict V → List V
values [] = []
values ((k, v) ∷ d) = v ∷ values d

-- The priorities of all that is enabled
abbrev pub priorities : Dict ProviderPolicyConfig → Dict CustomProviderConfig → List ℕ
priorities providers custom = enabled_priorities providers ++ custom_priorities custom

module _ (l : Loader) where
  abbrev pub is_third : Option ℕ → Bool
  is_third none = false
  is_third (some version) = eqb version 3

  abbrev pub has_schema_keys : Dict Json → Option ℕ → Bool
  has_schema_keys doc version =
      let expected =
        if is_third version
        then "schema_version" ∷ "providers" ∷ "applications" ∷ "execution" ∷ []
        else "schema_version" ∷ "providers" ∷ "applications" ∷ [] in
      all (contains (keys doc)) expected
      && all (contains ("custom_providers" ∷ expected)) (keys doc)

  -- A list or a table is no element of a set: `in` raises.
  abbrev pub is_hashable : Option Json → Bool
  is_hashable (some (array xs)) = false
  is_hashable (some (object fs)) = false
  is_hashable other = true

  unfoldable pub read_providers :
      Catalogs → Dict Json → Result RouteError (Dict ProviderPolicyConfig)
  read_providers c doc = do
    given ←
        table_at doc "providers"
          (invalid_policy "SubLLM policy must configure exactly the built-in providers")
    require
        (has_keys (add_rows (provider_row false) provider_defaults executors given)
          (keys provider_defaults))
        (invalid_policy "SubLLM policy must configure exactly the built-in providers")
    validate_rows (validate_provider c.models l.source)
        (add_rows (provider_row false) provider_defaults executors given) (keys provider_defaults)

  unfoldable pub read_applications : Dict Json → Result RouteError (Dict ApplicationPolicyConfig)
  read_applications doc = do
    given ←
        table_at doc "applications"
          (invalid_policy "SubLLM policy must configure exactly the applications")
    require
        (has_keys
          (add_rows application_row (application_defaults applications) newer_applications given)
          (keys applications))
        (invalid_policy "SubLLM policy must configure exactly the applications")
    validate_rows (validate_application l)
        (add_rows application_row (application_defaults applications) newer_applications given)
        (keys applications)

  abbrev pub execution_if : Dict Json → Bool → Result RouteError ExecutionPolicyConfig
  execution_if doc true = item doc "execution" >>= validate_execution l.source
  execution_if doc false = ok execution_defaults

  -- All that is read before the catalogs are changed. The messages on the sets of providers and of
  -- applications leave out their names.
  unfoldable pub read_policy : Catalogs → Dict Json → Result RouteError RuntimePolicyConfig
  read_policy c doc = do
    require (has_schema_keys doc (version_of (lookup "schema_version" doc)))
        (invalid_policy ("invalid SubLLM policy schema in " ⧺ l.source))
    require (is_hashable (lookup "schema_version" doc)) (raised "TypeError")
    require (is_some (version_of (lookup "schema_version" doc)))
        (invalid_policy ("invalid SubLLM policy schema in " ⧺ l.source))
    providers ← read_providers c doc
    apps ← read_applications doc
    rows ← custom_rows doc (invalid_policy ("custom_providers must be a table in " ⧺ l.source))
    custom ← validate_rows (validate_custom_provider l.urlsplit l.str l.source) rows (keys rows)
    require (are_unique (priorities providers custom))
        (invalid_policy ("enabled providers must have unique priorities in " ⧺ l.source))
    execution ← execution_if doc (is_third (version_of (lookup "schema_version" doc)))
    ok (record {
      providers = providers;
      applications = apps;
      execution = execution;
      custom_providers = custom;
    })

  abbrev pub with_execution :
      RuntimePolicyConfig
      → Result RouteError ExecutionPolicyConfig
      → Result RouteError RuntimePolicyConfig
  with_execution p e = e >>= λ x. ok (record p { execution = x })

  -- From the parsed file on: the catalogs are changed once the file is valid, also where the environment
  -- is refused after it.
  abbrev pub install :
      Result RouteError RuntimePolicyConfig
      → Catalogs
      → Result RouteError RuntimePolicyConfig × Catalogs
  install (err e) c = (err e, c)
  install (ok p) c = (
    with_execution p (execution_with_environment l.readers l.environment p.execution),
    register_all (values p.custom_providers) (clear_custom_providers c),
  )

  unfoldable pub load_policy :
      Dict Json → Catalogs → Result RouteError RuntimePolicyConfig × Catalogs
  load_policy doc c = install (read_policy c doc) c
