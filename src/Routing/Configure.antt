-- ===== src/Routing/Configure.antt =====
-- src/subllm/resolver.py: `route_policy`, `_candidate_fits_modality` and `_configured`.
use subllm.Prelude.{
  ℕ, suc, ◌+◌, ◌*◌, String, ◌⧺◌, Bool, true, false, not, ◌&&◌, ◌||◌, Option, none, some, List, [],
  ◌∷◌, ◌==◌, Result, ok, err, require, or_raise, ◌>>=◌, ◌>>◌, if◌then◌else◌,
}
use subllm.Dict.{Dict, lookup}
use subllm.Json.{Json, text}
use subllm.Policy.Overlay.{find}
use subllm.Policy.Routes.{find_route}
use subllm.PolicyConfig.{RuntimePolicyConfig, ApplicationPolicyConfig}
use subllm.Routing.Errors.{RouteError, invalid_policy, unknown_route, raised}
use subllm.Routing.Setup.{Setup}
use subllm.Types.{
  ConfiguredRoute, RouteCandidate, RoutePolicy, ProviderSpec, ModelSpec, ProviderModelSpec,
}

-- `route_policy`
unfoldable pub route_policy : Setup → String → String → Result RouteError RoutePolicy
route_policy s application function =
    or_raise (find_route s.routes application function)
      (unknown_route ("unknown SubLLM route: " ⧺ application ⧺ "/" ⧺ function))

-- `candidate.model or default_model`
abbrev pub model_or : Option String → String → String
model_or none default = default
model_or (some model) default = if model == "" then default else model

-- What the loaded policy says of a provider: the custom one comes first.
pub record Terms : Type 0 where
  pub default_model : String
  pub priority : ℕ
  pub is_custom : Bool

unfoldable pub terms : RuntimePolicyConfig → String → Option Terms
terms runtime provider = elim (lookup provider runtime.custom_providers) [
  | some c ↦
      some (record { default_model = c.default_model; priority = c.priority; is_custom = true })
  | none ↦ elim (lookup provider runtime.providers) [
    | some p ↦
        some (record { default_model = p.default_model; priority = p.priority; is_custom = false })
    | none ↦ none
  ]
]

abbrev pub is_vision_ready : String → ProviderSpec → ModelSpec → Bool
is_vision_ready modality provider model =
    not (modality == "vision") || (provider.transport == "openai-compatible" && model.vision)

abbrev pub model_fits : String → ProviderSpec → Option ModelSpec → Bool
model_fits modality provider none = false
model_fits modality provider (some model) =
    not model.forbidden && is_vision_ready modality provider model

abbrev pub terms_fit : Setup → RouteCandidate → String → ProviderSpec → Option Terms → Bool
terms_fit s candidate modality provider none = false
terms_fit s candidate modality provider (some t) =
    model_fits modality provider (find (model_or candidate.model t.default_model) s.catalogs.models)

abbrev pub provider_fits : Setup → RouteCandidate → String → Option ProviderSpec → Bool
provider_fits s candidate modality none = false
provider_fits s candidate modality (some provider) =
    terms_fit s candidate modality provider (terms s.runtime candidate.provider)

-- `_candidate_fits_modality`
unfoldable pub fits_modality : Setup → RouteCandidate → String → Bool
fits_modality s candidate modality =
    provider_fits s candidate modality (find candidate.provider s.catalogs.providers)

-- `order.index(provider)`
unfoldable pub position : List String → String → Option ℕ
position [] k = none
position (x ∷ xs) k =
    if x == k then some 0 else elim (position xs k) [ none ↦ none | some n ↦ some (suc n) ]

abbrev pub rank_at : Option ℕ → ℕ → ℕ → Result RouteError ℕ
rank_at none stride offset = err (raised "ValueError")
rank_at (some n) stride offset = ok (n * stride + offset)

unfoldable pub priority_of : Option (List String) → ℕ → String → ℕ → ℕ → Result RouteError ℕ
priority_of none stride provider priority offset = ok (priority + offset)
priority_of (some order) stride provider priority offset =
    rank_at (position order provider) stride offset

abbrev pub texts : Dict String → Dict Json
texts [] = []
texts ((k, v) ∷ d) = (k, text v) ∷ texts d

abbrev pub headers : Bool → ProviderSpec → ApplicationPolicyConfig → Dict String
headers is_custom provider app =
    if not is_custom && provider.attribution_headers
    then ("HTTP-Referer", app.url) ∷ ("X-OpenRouter-Title", app.name) ∷ []
    else []

-- What `_configured` looks up for a candidate.
pub record Choice : Type 0 where
  pub provider : ProviderSpec
  pub limits : Terms
  pub model : ModelSpec
  pub served : ProviderModelSpec

unfoldable pub choose : Setup → RouteCandidate → Result RouteError Choice
choose s candidate = do
  provider ← or_raise (find candidate.provider s.catalogs.providers) (raised "KeyError")
  t ← or_raise (terms s.runtime candidate.provider) (raised "KeyError")
  model ←
      or_raise (find (model_or candidate.model t.default_model) s.catalogs.models)
        (raised "KeyError")
  require (not model.forbidden) (invalid_policy ("forbidden model in route: " ⧺ model.id))
  served ←
      or_raise (lookup provider.id model.providers)
        (invalid_policy ("model " ⧺ model.id ⧺ " is unavailable through provider " ⧺ provider.id))
  ok (record { provider = provider; limits = t; model = model; served = served })

-- `ConfiguredRoute(...)`
unfoldable pub build :
    String
    → String
    → RouteCandidate
    → ApplicationPolicyConfig
    → Choice
    → ℕ
    → RoutePolicy
    → ConfiguredRoute
build application function candidate app c priority policy = record {
  application = application;
  application_name = app.name;
  application_url = app.url;
  function = function;
  provider = c.provider.id;
  model = c.model.id;
  priority = priority;
  api_base = c.provider.api_base;
  api_key_env = c.provider.api_key_env;
  litellm_model = c.served.litellm_model;
  wire_model = c.served.wire_model;
  extra_headers = headers c.limits.is_custom c.provider app;
  transport = c.provider.transport;
  model_parameters = texts candidate.model_parameters;
  modality = policy.modality;
  policy_sha256 = "";
}

-- `_configured`; its two branches differ in the priority and in the headers.
unfoldable pub configured :
    Setup
    → String
    → String
    → RouteCandidate
    → Option (List String)
    → ℕ
    → Result RouteError ConfiguredRoute
configured s application function candidate order stride = do
  app ← or_raise (lookup application s.runtime.applications) (raised "KeyError")
  c ← choose s candidate
  priority ← priority_of order stride c.provider.id c.limits.priority candidate.priority_offset
  policy ← route_policy s application function
  ok (build application function candidate app c priority policy)
