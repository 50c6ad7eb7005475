-- ===== src/Routing/Configured.antt =====
-- src/subllm/resolver.py: `_configured_routes`, `configured_routes` and `configured_route`.
use subllm.Prelude.{
  ℕ, ◌+◌, ◌-◌, max, min, String, ◌⧺◌, Bool, true, false, not, ◌&&◌, ◌||◌, Option, none, some, List,
  [], ◌∷◌, ◌++◌, ◌==◌, eqb, leb, map, contains, is_empty, Result, ok, err, require, ◌>>=◌, ◌>>◌,
  if◌then◌else◌,
}
use subllm.Dict.{Dict, lookup}
use subllm.PolicyConfig.{RuntimePolicyConfig, CustomProviderConfig}
use subllm.Routing.Configure.{configured, fits_modality, route_policy}
use subllm.Routing.Errors.{RouteError, invalid_policy, unknown_route}
use subllm.Routing.Order.{explicit_provider_order}
use subllm.Routing.Setup.{Setup}
use subllm.Types.{ConfiguredRoute, RouteCandidate, RoutePolicy}

-- `custom.routes` names the route.
unfoldable pub covers : List String → String → String → Bool
covers routes application function =
    contains routes "all"
    || contains routes "*"
    || contains routes application
    || contains routes (application ⧺ "/" ⧺ function)

abbrev custom_candidate : CustomProviderConfig → RouteCandidate
custom_candidate custom = record {
  provider = custom.id;
  model = some custom.default_model;
  priority_offset = 0;
  model_parameters = custom.model_parameters;
}

-- What the loop over `custom_providers` appends.
unfoldable pub custom_candidates : Dict CustomProviderConfig → String → String → List RouteCandidate
custom_candidates [] application function = []
custom_candidates ((k, custom) ∷ rest) application function =
    let more = custom_candidates rest application function in
    if custom.enabled && covers custom.routes application function
    then custom_candidate custom ∷ more
    else more

abbrev pub largest : ℕ → List RouteCandidate → ℕ
largest n [] = n
largest n (c ∷ cs) = largest (max n c.priority_offset) cs

abbrev pub smallest : ℕ → List RouteCandidate → ℕ
smallest n [] = n
smallest n (c ∷ cs) = smallest (min n c.priority_offset) cs

-- `max(10, max(offsets, default=0) - min(offsets, default=0) + 1)`
unfoldable pub priority_stride : List RouteCandidate → ℕ
priority_stride [] = 10
priority_stride (c ∷ cs) = max 10 (largest c.priority_offset cs - smallest c.priority_offset cs + 1)

abbrev pub is_enabled : RuntimePolicyConfig → String → Bool
is_enabled runtime provider =
    elim (lookup provider runtime.providers) [ none ↦ false | some p ↦ p.enabled ]
    || elim (lookup provider runtime.custom_providers) [ none ↦ false | some c ↦ c.enabled ]

abbrev pub is_ordered : Option (List String) → String → Bool
is_ordered none provider = true
is_ordered (some order) provider = contains order provider

-- The `if` of the generator.
unfoldable pub is_candidate : Setup → Option (List String) → String → RouteCandidate → Bool
is_candidate s order modality c =
    is_enabled s.runtime c.provider && is_ordered order c.provider && fits_modality s c modality

-- One candidate of the generator: whether it passes the `if`, its route, and the others.
abbrev pub configure_next :
    Bool
    → Result RouteError ConfiguredRoute
    → Result RouteError (List ConfiguredRoute)
    → Result RouteError (List ConfiguredRoute)
configure_next false one rest = rest
configure_next true one rest = one >>= λ route. rest >>= λ routes. ok (route ∷ routes)

-- The generator.
unfoldable pub configure_all :
    Setup
    → RoutePolicy
    → Option (List String)
    → ℕ
    → List RouteCandidate
    → Result RouteError (List ConfiguredRoute)
configure_all s policy order stride [] = ok []
configure_all s policy order stride (c ∷ cs) =
    configure_next (is_candidate s order policy.modality c)
      (configured s policy.application policy.function c order stride)
      (configure_all s policy order stride cs)

-- `sorted(routes, key=lambda item: item.priority)`: routes of equal priority keep their order.
unfoldable pub place : ConfiguredRoute → List ConfiguredRoute → List ConfiguredRoute
place r [] = r ∷ []
place r (x ∷ xs) = if leb r.priority x.priority then r ∷ x ∷ xs else x ∷ place r xs

unfoldable pub by_priority : List ConfiguredRoute → List ConfiguredRoute
by_priority [] = []
by_priority (r ∷ rs) = place r (by_priority rs)

unfoldable pub with_parameters :
    Setup → List ConfiguredRoute → Result RouteError (List ConfiguredRoute)
with_parameters s [] = ok []
with_parameters s (r ∷ rs) = do
  parameters ← s.apply_parameters r.provider r.wire_model r.model_parameters
  rest ← with_parameters s rs
  ok (record r { model_parameters = parameters } ∷ rest)

abbrev pub has_priority : List ConfiguredRoute → ℕ → Bool
has_priority [] n = false
has_priority (r ∷ rs) n = eqb r.priority n || has_priority rs n

-- `len(priorities) == len(set(priorities))`
unfoldable pub all_distinct : List ConfiguredRoute → Bool
all_distinct [] = true
all_distinct (r ∷ rs) = not (has_priority rs r.priority) && all_distinct rs

abbrev pub same_model : ConfiguredRoute → ConfiguredRoute → Bool
same_model r x = x.provider == r.provider && x.model == r.model

abbrev pub has_seen : List ConfiguredRoute → ConfiguredRoute → Bool
has_seen [] r = false
has_seen (x ∷ xs) r = same_model r x || has_seen xs r

-- The last loop: the first route for each provider and model. `seen` holds the routes of the keys.
unfoldable pub unique : List ConfiguredRoute → List ConfiguredRoute → List ConfiguredRoute
unique seen [] = []
unique seen (r ∷ rs) = elim (has_seen seen r) [
  | true ↦ unique seen rs
  | false ↦ r ∷ unique (r ∷ seen) rs
]

unfoldable pub candidates_of : Setup → RoutePolicy → List RouteCandidate
candidates_of s policy =
    policy.candidates
    ++ custom_candidates s.runtime.custom_providers policy.application policy.function

-- `_configured_routes`
unfoldable pub select_routes : Setup → RoutePolicy → Result RouteError (List ConfiguredRoute)
select_routes s policy = do
  order ← explicit_provider_order s.catalogs s.environment
  routes ←
      configure_all s policy order (priority_stride (candidates_of s policy))
        (candidates_of s policy)
  ordered ← with_parameters s (by_priority routes)
  require (not (is_empty ordered)) (
      invalid_policy
        ("no enabled candidate for route: " ⧺ policy.application ⧺ "/" ⧺ policy.function))
  require (all_distinct ordered) (
      invalid_policy
        ("duplicate effective priority in route: " ⧺ policy.application ⧺ "/" ⧺ policy.function))
  ok (unique [] ordered)

abbrev pub sealed : Setup → ConfiguredRoute → ConfiguredRoute
sealed s route = record route { policy_sha256 = s.digest route }

unfoldable pub configured_routes :
    Setup → String → String → Result RouteError (List ConfiguredRoute)
configured_routes s application function = do
  policy ← route_policy s application function
  routes ← select_routes s policy
  ok (map (sealed s) routes)

abbrev pub is_wanted : Option String → String → Bool
is_wanted none provider = true
is_wanted (some wanted) provider = provider == wanted

abbrev pub first_wanted : Option String → List ConfiguredRoute → Option ConfiguredRoute
first_wanted provider [] = none
first_wanted provider (r ∷ rs) =
    if is_wanted provider r.provider then some r else first_wanted provider rs

unfoldable pub configured_route :
    Setup → String → String → Option String → Result RouteError ConfiguredRoute
configured_route s application function provider = do
  routes ← configured_routes s application function
  elim (first_wanted provider routes) [
    | some route ↦ ok route
    | none ↦ err (
        unknown_route (
          "route "
          ⧺ application
          ⧺ "/"
          ⧺ function
          ⧺ " does not allow provider "
          ⧺ elim provider [ none ↦ "None" | some name ↦ name ]))
  ]
