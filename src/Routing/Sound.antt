-- ===== src/Routing/Sound.antt =====
-- src/subllm/resolver.py: which models and providers the configured routes use.
use subllm.Prelude.{
  ℕ, String, ◌≡◌, true, not, Option, some, List, ok, >>=-eq-ok, require-eq-ok, or_raise-eq-ok,
  ok-injective, subst,
}
use subllm.Dict.{lookup}
use subllm.Policy.Overlay.{find}
use subllm.Routing.Configure.{
  configured, choose, build, Choice, route_policy, terms, model_or, priority_of,
}
use subllm.Routing.Errors.{raised}
use subllm.PolicyConfig.{ApplicationPolicyConfig}
use subllm.Routing.Setup.{Setup}
use subllm.Types.{ConfiguredRoute, RouteCandidate, RoutePolicy}

-- What is known of the choice for a candidate.
pub record IsChoice (s : Setup) (c : RouteCandidate) (x : Choice) : Type 0 where
  pub known : find c.provider s.catalogs.providers ≡ some x.provider
  pub limited : terms s.runtime c.provider ≡ some x.limits
  pub found : find (model_or c.model x.limits.default_model) s.catalogs.models ≡ some x.model
  pub allowed : not x.model.forbidden ≡ true
  pub serves : lookup x.provider.id x.model.providers ≡ some x.served

pub choose-IsChoice :
    (s : Setup) (c : RouteCandidate) (x : Choice) → choose s c ≡ ok x → IsChoice s c x
unfolding choose
choose-IsChoice s c x h =
    let (provider, e1, h1) =
      or_raise-eq-ok (find c.provider s.catalogs.providers) (raised "KeyError") _ h in
    let (t, e2, h2) = or_raise-eq-ok (terms s.runtime c.provider) (raised "KeyError") _ h1 in
    let (model, e3, h3) =
      or_raise-eq-ok (find (model_or c.model t.default_model) s.catalogs.models) (raised "KeyError")
        _ h2 in
    let (e4, h4) = require-eq-ok (not model.forbidden) _ _ h3 in
    let (served, e5, h5) = or_raise-eq-ok (lookup provider.id model.providers) _ _ h4 in
    subst (IsChoice s c) (ok-injective h5)
      (record { known = e1; limited = e2; found = e3; allowed = e4; serves = e5 })

-- A route that `_configured` built from a candidate.
pub record IsBuilt (s : Setup) (application function : String) (c : RouteCandidate)
    (order : Option (List String)) (stride : ℕ) (r : ConfiguredRoute) : Type 0 where
  pub choice : Choice
  pub chosen : IsChoice s c choice
  pub priority : ℕ
  pub ranked :
      priority_of order stride choice.provider.id choice.limits.priority c.priority_offset
      ≡ ok priority
  pub app : ApplicationPolicyConfig
  pub policy : RoutePolicy
  pub found_policy : route_policy s application function ≡ ok policy
  pub built : build application function c app choice priority policy ≡ r

pub configured-IsBuilt :
    (s : Setup) (application function : String) (c : RouteCandidate) (order : Option (List String))
    (stride : ℕ) (r : ConfiguredRoute)
    → configured s application function c order stride ≡ ok r
    → IsBuilt s application function c order stride r
unfolding configured
configured-IsBuilt s application function c order stride r h =
    let (app, e0, h0) =
      or_raise-eq-ok (lookup application s.runtime.applications) (raised "KeyError") _ h in
    let (x, e1, h1) = >>=-eq-ok (choose s c) _ h0 in
    let (priority, e2, h2) =
      >>=-eq-ok (priority_of order stride x.provider.id x.limits.priority c.priority_offset) _ h1 in
    let (policy, e3, h3) = >>=-eq-ok (route_policy s application function) _ h2 in
    record {
      choice = x;
      chosen = choose-IsChoice s c x e1;
      priority = priority;
      ranked = e2;
      app = app;
      policy = policy;
      found_policy = e3;
      built = ok-injective h3;
    }
