-- ===== src/Routing/Validate.antt =====
-- src/subllm/resolver.py: `validate_policy`. The table has each route under its own application and
-- function, and no offset of a priority is negative.
use subllm.Prelude.{
  String, ◌⧺◌, true, false, not, none, some, is_some, List, [], ◌∷◌, ◌==◌, Result, ok, err, require,
  or_raise, ◌>>=◌, ◌>>◌, if◌then◌else◌,
}
use subllm.Dict.{Dict, lookup}
use subllm.Policy.Overlay.{find}
use subllm.Routing.Configure.{model_or}
use subllm.Routing.Configured.{select_routes}
use subllm.Routing.Errors.{RouteError, invalid_policy, raised}
use subllm.Routing.Setup.{Setup}
use subllm.Types.{RouteCandidate, RoutePolicy, ProviderSpec, ModelSpec, ApplicationSpec}

-- `candidate.model or runtime_policy.providers[candidate.provider].default_model`
unfoldable pub candidate_model : Setup → RouteCandidate → Result RouteError String
candidate_model s c =
    let given = model_or c.model "" in
    if given == ""
    then elim (lookup c.provider s.runtime.providers) [
      | none ↦ err (raised "KeyError")
      | some p ↦ ok p.default_model
    ]
    else ok given

abbrev pub check_vision :
    String → ProviderSpec → ModelSpec → String → String → Result RouteError (Unit {0})
check_vision modality provider model id name = elim (modality == "vision") [
  | false ↦ ok tt
  | true ↦
      require (provider.transport == "openai-compatible")
        (invalid_policy ("vision route cannot use " ⧺ provider.transport ⧺ ": " ⧺ name))
      >> require model.vision (invalid_policy ("vision route uses non-vision model: " ⧺ id))
]

unfoldable pub validate_candidate :
    Setup → RoutePolicy → RouteCandidate → Result RouteError (Unit {0})
validate_candidate s route c = do
  provider ←
      or_raise (find c.provider s.catalogs.providers)
        (invalid_policy ("unknown provider in route: " ⧺ c.provider))
  id ← candidate_model s c
  model ← or_raise (find id s.catalogs.models) (
      invalid_policy
        ("unknown model in route: " ⧺ elim c.model [ none ↦ "None" | some name ↦ name ]))
  require (not model.forbidden) (invalid_policy ("forbidden model in route: " ⧺ id))
  require (is_some (lookup c.provider model.providers))
      (invalid_policy ("model " ⧺ id ⧺ " is unavailable through provider " ⧺ c.provider))
  check_vision route.modality provider model id (route.application ⧺ "/" ⧺ route.function)

unfoldable pub validate_candidates :
    Setup → RoutePolicy → List RouteCandidate → Result RouteError (Unit {0})
validate_candidates s route [] = ok tt
validate_candidates s route (c ∷ cs) =
    validate_candidate s route c >> validate_candidates s route cs

unfoldable pub validate_routes :
    Setup → Dict ApplicationSpec → List RoutePolicy → Result RouteError (Unit {0})
validate_routes s known [] = ok tt
validate_routes s known (route ∷ routes) = do
  require (is_some (lookup route.application known))
      (invalid_policy ("unknown application in route: " ⧺ route.application))
  validate_candidates s route route.candidates
  selected ← select_routes s route
  validate_routes s known routes

unfoldable pub validate_policy : Setup → Dict ApplicationSpec → Result RouteError (Unit {0})
validate_policy s known = validate_routes s known s.routes
