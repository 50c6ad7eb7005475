-- ===== src/Routing/Allowed.antt =====
-- src/subllm/resolver.py: the routes of `configured_routes` and what the policy allows.
use subllm.Prelude.{
  String, ◌≡◌, Option, List, map, ok, >>=-eq-ok, ok-injective, All, All-map, All-mapped, Any-map,
  subst,
}
use subllm.Routing.Configure.{route_policy}
use subllm.Routing.Configured.{select_routes, configured_routes, candidates_of, sealed}
use subllm.Routing.Order.{explicit_provider_order}
use subllm.Routing.Sanctioned.{HasCandidate, parameters-IsSanctioned, select_routes-HasCandidate}
use subllm.Routing.Setup.{Setup}
use subllm.Types.{ConfiguredRoute, RoutePolicy}

-- What `configured_routes` ran, if it returned.
pub configured_routes-parts :
    (s : Setup) (application function : String) (rs : List ConfiguredRoute)
    → configured_routes s application function ≡ ok rs
    → (policy : RoutePolicy) × (routes : List ConfiguredRoute) × (route_policy s application
          function
        ≡ ok policy)
      × (select_routes s policy ≡ ok routes)
      × (map (sealed s) routes ≡ rs)
unfolding configured_routes
configured_routes-parts s application function rs h =
    let (policy, e0, h0) = >>=-eq-ok (route_policy s application function) _ h in
    let (routes, e1, h1) = >>=-eq-ok (select_routes s policy) _ h0 in
    (policy, routes, e0, e1, ok-injective h1)

-- If `configured_routes` returns, the function has a policy, the explicit order of providers, if there
-- is one, is well formed, and each route comes from a candidate of that policy or of a custom provider
-- whose provider is enabled, known and in the order, whose model is known, not forbidden, served by
-- the provider and fit for the modality, and whose priority the route has.
pub configured_routes-HasCandidate :
    (s : Setup) (application function : String) (rs : List ConfiguredRoute)
    → configured_routes s application function ≡ ok rs
    → (policy : RoutePolicy) × (order : Option (List String)) × (route_policy s application function
        ≡ ok policy)
      × (explicit_provider_order s.catalogs s.environment ≡ ok order)
      × All (HasCandidate s policy order (candidates_of s policy)) rs
configured_routes-HasCandidate s application function rs h =
    let (policy, routes, e0, e1, same) = configured_routes-parts s application function rs h in
    let (order, e2, good) = select_routes-HasCandidate s policy routes e1 in
    let P = HasCandidate s policy order (candidates_of s policy) in
    (
      policy,
      order,
      e0,
      e2,
      subst (All P) same (
          All-mapped P (sealed s) routes (
            All-map routes
              (λ r x.
                Any-map (candidates_of s policy)
                  (λ c y.
                    parameters-IsSanctioned s policy order c r r.model_parameters (s.digest r) y)
                  x)
              good)),
    )
