-- ===== src/Routing/Shipped.antt =====
-- src/subllm/resolver.py on the tables that the program is shipped with: no policy file, no custom
-- provider, an environment without an order of providers and without a policy for OpenRouter, in which
-- `apply_parameters` copies the parameters.
use subllm.Prelude.{
  strip, subst, sym, ◌∙◌, and_parts, Bool-cases, inl, inr, some-injective, if-true, if-false,
  eq_iff, ◌==◌, ◌&&◌, String, ◌≡◌, refl, Bool, true, false, some, List, [], ◌∷◌, all, Result, ok,
  err,
}
use subllm.Policy.Applications.{applications}
use subllm.Dict.{lookup}
use subllm.Policy.Defaults.{
  default_policy, provider_defaults, application_defaults, execution_defaults,
}
use subllm.Policy.Models.Base.{base_models}
use subllm.Policy.Overlay.{Catalogs, find}
use subllm.Policy.Providers.{base_providers, base_orderable_provider_ids}
use subllm.Policy.Routes.{routes, find_route}
use subllm.Routing.Configured.{
  configured_routes, select_routes, priority_stride, candidates_of, custom_candidates,
  configure_all, is_candidate, place, by_priority, with_parameters, all_distinct, unique,
}
use subllm.Routing.Configure.{
  route_policy, fits_modality, terms, choose, build, configured, priority_of,
}
use subllm.Routing.Order.{explicit_provider_order}
use subllm.Routing.Setup.{Setup}
use subllm.Routing.Validate.{
  validate_policy, validate_routes, validate_candidates, validate_candidate, candidate_model,
}
use subllm.Types.{ConfiguredRoute, RoutePolicy}

abbrev pub shipped_catalogs : Catalogs
shipped_catalogs = record {
  providers = record { base = base_providers; custom = [] };
  models = record { base = base_models; custom = [] };
  orderable = base_orderable_provider_ids;
}

abbrev pub shipped : (String → Bool) → (String → String) → (ConfiguredRoute → String) → Setup
shipped which upper digest = record {
  catalogs = shipped_catalogs;
  routes = routes;
  runtime = default_policy;
  environment = [];
  which = which;
  upper = upper;
  apply_parameters = λ provider model parameters. ok parameters;
  digest = digest;
}

abbrev is_ok {ℓ} : {E : Type 0} {A : Type ℓ} → Result E A → Bool
is_ok (ok a) = true
is_ok (err e) = false

is_ok-parts {ℓ} : {E : Type 0} {A : Type ℓ} (r : Result E A) → is_ok r ≡ true → (a : A) × (r ≡ ok a)
is_ok-parts (ok a) h = (a, refl)
is_ok-parts (err e) h = cc

-- A lookup finds a policy under its own names, and one that passes a test that all policies pass.
find_route-parts :
    (test : RoutePolicy → Bool) (rs : List RoutePolicy) (application function : String)
    {p : RoutePolicy}
    → find_route rs application function ≡ some p
    → all test rs ≡ true
    → (p.application ≡ application) × (p.function ≡ function) × (test p ≡ true)
unfolding find_route
find_route-parts test [] application function h passed = cc
find_route-parts test (r ∷ rs) application function {p} h passed =
    let parts = and_parts (test r) (all test rs) passed in
    elim (Bool-cases (r.application == application && r.function == function)) [
      | inl e ↦
          let names = and_parts (r.application == application) (r.function == function) e in
          subst (λ q. (q.application ≡ application) × (q.function ≡ function) × (test q ≡ true))
            (some-injective (sym (if-true _ _ _ e) ∙ h))
            (
              (eq_iff r.application application).0 names.0,
              (eq_iff r.function function).0 names.1,
              parts.0,
            )
      | inr e ↦ find_route-parts test rs application function (sym (if-false _ _ _ e) ∙ h) parts.1
    ]

module _ (which : String → Bool) (upper : String → String) (digest : ConfiguredRoute → String) where
  configures : RoutePolicy → Bool
  configures p = is_ok (configured_routes (shipped which upper digest) p.application p.function)

  every_configures : all configures routes ≡ true
  unfolding configures configured_routes route_policy find_route routes select_routes
      explicit_provider_order strip priority_stride candidates_of custom_candidates configure_all
      is_candidate fits_modality find lookup terms choose build configured priority_of place
      by_priority with_parameters all_distinct unique base_providers base_models provider_defaults
      application_defaults applications default_policy execution_defaults
  every_configures = refl

  is_valid : validate_policy (shipped which upper digest) applications ≡ ok tt
  unfolding validate_policy validate_routes validate_candidates validate_candidate candidate_model
      select_routes explicit_provider_order strip priority_stride candidates_of custom_candidates
      configure_all is_candidate fits_modality find lookup terms choose build configured priority_of
      place by_priority with_parameters all_distinct unique base_providers base_models
      provider_defaults application_defaults applications default_policy execution_defaults
      route_policy find_route routes
  is_valid = refl

  configures-Found :
      (p : RoutePolicy)
      → configures p ≡ true
      → (rs : List ConfiguredRoute) × (configured_routes
            (shipped which upper digest)
            p.application
            p.function
          ≡ ok rs)
  unfolding configures
  configures-Found p h =
      is_ok-parts (configured_routes (shipped which upper digest) p.application p.function) h

  -- With the shipped tables and defaults, `validate_policy` passes, and every function that has a policy
  -- has configured routes, whatever executables there are, and whatever the digest is.
  pub shipped-Configures :
      (application function : String) (p : RoutePolicy)
      → find_route routes application function ≡ some p
      → (validate_policy (shipped which upper digest) applications ≡ ok tt)
        × (rs : List ConfiguredRoute) × (configured_routes
              (shipped which upper digest)
              application
              function
            ≡ ok rs)
  shipped-Configures application function p h =
      let found = find_route-parts configures routes application function h every_configures in
      let (rs, e) = configures-Found p found.2 in
      (
        is_valid,
        rs,
        subst (λ a. configured_routes (shipped which upper digest) a function ≡ ok rs) found.0
            (subst (λ f. configured_routes (shipped which upper digest) p.application f ≡ ok rs)
              found.1 e),
      )
