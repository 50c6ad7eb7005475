-- ===== src/Routing/Tests.antt =====
-- Runs of the choice of routes on the shipped tables, and the theorems about it at them.
use subllm.Prelude.{
  String, ◌≡◌, refl, true, false, Option, some, List, [], ◌∷◌, is_empty, map, Result, ok, err, All,
  Pairwise, strip, split, all, not, eqb, codes, ◌==◌,
}
use subllm.Dict.{lookup}
use subllm.Policy.Applications.{applications}
use subllm.Policy.Defaults.{
  default_policy, provider_defaults, application_defaults, execution_defaults,
}
use subllm.Policy.Models.Base.{base_models}
use subllm.Policy.Overlay.{find, is_orderable}
use subllm.Policy.Providers.{base_providers}
use subllm.Policy.Routes.{routes, find_route}
use subllm.Routing.Allowed.{configured_routes-HasCandidate}
use subllm.Routing.Configure.{
  route_policy, fits_modality, terms, choose, build, configured, priority_of, position,
}
use subllm.Routing.Configured.{
  configured_routes, select_routes, priority_stride, candidates_of, custom_candidates,
  configure_all, is_candidate, place, by_priority, with_parameters, all_distinct, unique,
}
use subllm.Routing.Errors.{RouteError}
use subllm.Routing.Follows.{configured_routes-FollowsOrder, FollowsOrder}
use subllm.Routing.Order.{explicit_provider_order, parse_provider_order, check_parts, parse_parts}
use subllm.Routing.Parse.{
  parse_provider_order-join, parse_provider_order-AreNew, IsPlainName, AreNew,
}
use subllm.Routing.Pick.{resolve-IsResolved, IsResolved}
use subllm.Routing.Ranked.{configured_routes-IsRanked, IsBefore, IsOther}
use subllm.Routing.Resolve.{resolve}
use subllm.Routing.Sanctioned.{HasCandidate}
use subllm.Routing.Setup.{Setup}
use subllm.Routing.Shipped.{shipped, shipped_catalogs, shipped-Configures}
use subllm.Routing.Validate.{validate_policy}
use subllm.Types.{ConfiguredRoute, RoutePolicy}

-- No executable is installed, and OpenRouter has a key.
abbrev tested : Setup
tested = record (shipped (λ name. false) (λ text. text) (λ route. "digest")) {
  environment = ("SUBLLM_PROVIDER_ORDER", " openrouter, zai ") ∷ ("OPENROUTER_API_KEY", "key") ∷ [];
}

abbrev or_nothing : Result RouteError (List ConfiguredRoute) → List ConfiguredRoute
or_nothing (ok rs) = rs
or_nothing (err e) = []

found : List ConfiguredRoute
found = or_nothing (configured_routes tested "validator-agent" "patch-review")

-- One run of all that `configured_routes` calls.
runs : configured_routes tested "validator-agent" "patch-review" ≡ ok found
unfolding found configured_routes route_policy find_route routes select_routes
    explicit_provider_order parse_provider_order check_parts parse_parts is_orderable split strip
    priority_stride candidates_of custom_candidates configure_all is_candidate fits_modality find
    lookup terms choose build configured priority_of position place by_priority with_parameters
    all_distinct unique base_providers base_models provider_defaults application_defaults
    applications default_policy execution_defaults
runs = refl

in_order : map (λ r. r.provider) found ≡ "openrouter" ∷ "openrouter" ∷ "zai" ∷ "zai" ∷ []
unfolding found configured_routes route_policy find_route routes select_routes
    explicit_provider_order parse_provider_order check_parts parse_parts is_orderable split strip
    priority_stride candidates_of custom_candidates configure_all is_candidate fits_modality find
    lookup terms choose build configured priority_of position place by_priority with_parameters
    all_distinct unique base_providers base_models provider_defaults application_defaults
    applications default_policy execution_defaults
in_order = refl

given :
    explicit_provider_order shipped_catalogs tested.environment
    ≡ ok (some ("openrouter" ∷ "zai" ∷ []))
unfolding explicit_provider_order parse_provider_order check_parts parse_parts is_orderable split
    strip lookup
given = refl

configured_routes-HasCandidate_example :
    (policy : RoutePolicy) × (order : Option (List String)) × (route_policy tested "validator-agent"
        "patch-review"
      ≡ ok policy)
    × (explicit_provider_order shipped_catalogs tested.environment ≡ ok order)
    × All (HasCandidate tested policy order (candidates_of tested policy)) found
configured_routes-HasCandidate_example =
    configured_routes-HasCandidate tested "validator-agent" "patch-review" found runs

configured_routes-IsRanked_example :
    (is_empty found ≡ false) × Pairwise IsBefore found × Pairwise IsOther found
configured_routes-IsRanked_example =
    configured_routes-IsRanked tested "validator-agent" "patch-review" found runs

configured_routes-FollowsOrder_example : Pairwise (FollowsOrder ("openrouter" ∷ "zai" ∷ [])) found
configured_routes-FollowsOrder_example =
    configured_routes-FollowsOrder tested "validator-agent" "patch-review"
      ("openrouter" ∷ "zai" ∷ []) found given runs

resolve-IsResolved_example :
    IsResolved tested []
      (some "openrouter")
      "validator-agent"
      "patch-review"
      found
      (resolve tested "validator-agent" "patch-review" (some "openrouter") [])
resolve-IsResolved_example =
    resolve-IsResolved tested [] (some "openrouter") "validator-agent" "patch-review" found runs

plain :
    (name : String)
    → strip name ≡ name
    → (name == "") ≡ false
    → all (λ c. not (eqb c b',')) (codes name) ≡ true
    → is_orderable shipped_catalogs name ≡ true
    → IsPlainName shipped_catalogs name
plain name bare filled unbroken known = record {
  bare = bare;
  filled = filled;
  unbroken = unbroken;
  known = known;
}

zai_and_agy : All (IsPlainName shipped_catalogs) ("zai" ∷ "agy" ∷ [])
unfolding strip is_orderable lookup
zai_and_agy = (plain "zai" refl refl refl refl, (plain "agy" refl refl refl refl, tt))

parse_provider_order-join_example :
    parse_provider_order shipped_catalogs "zai,agy" ≡ ok ("zai" ∷ "agy" ∷ [])
parse_provider_order-join_example =
    parse_provider_order-join shipped_catalogs "zai" ("agy" ∷ []) zai_and_agy (refl, (refl, tt))

reads : parse_provider_order shipped_catalogs " agy ,zai" ≡ ok ("agy" ∷ "zai" ∷ [])
unfolding parse_provider_order check_parts parse_parts is_orderable split strip lookup
reads = refl

parse_provider_order-AreNew_example :
    All (λ x. is_orderable shipped_catalogs x ≡ true) ("agy" ∷ "zai" ∷ [])
    × AreNew [] ("agy" ∷ "zai" ∷ [])
parse_provider_order-AreNew_example =
    parse_provider_order-AreNew shipped_catalogs " agy ,zai" ("agy" ∷ "zai" ∷ []) reads

abbrev plain_setup : Setup
plain_setup = shipped (λ name. false) (λ text. text) (λ route. "digest")

listed : (p : RoutePolicy) × (find_route routes "validator-agent" "patch-review" ≡ some p)
unfolding find_route routes
listed = (_, refl)

shipped-Configures_example :
    (validate_policy plain_setup applications ≡ ok tt)
    × (rs : List ConfiguredRoute) × (configured_routes plain_setup "validator-agent" "patch-review"
        ≡ ok rs)
shipped-Configures_example =
    shipped-Configures (λ name. false) (λ text. text) (λ route. "digest") "validator-agent"
      "patch-review" listed.0 listed.1
