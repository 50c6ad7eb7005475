-- ===== src/Routing/Sanctioned.antt =====
-- src/subllm/resolver.py: every configured route comes from a candidate that the policy allows.
use subllm.Prelude.{
  String, ◌≡◌, refl, Bool, true, false, not, ◌&&◌, and_parts, Bool-cases, Option, List, [], ◌∷◌,
  inl, inr, arith, leb, is_empty, Result, ok, >>=-eq-ok, require-eq-ok, ok-injective, All, All-map,
  Any, Any-map, Sub, done, skip, take, All-Sub, ap, ◌∙◌, subst,
}
use subllm.Json.{Json}
use subllm.Dict.{Dict}
use subllm.Routing.Configure.{
  configured, build, Choice, fits_modality, is_vision_ready, provider_fits, terms_fit, model_fits,
  priority_of,
}
use subllm.Routing.Configured.{
  select_routes, configure_all, configure_next, is_candidate, is_enabled, is_ordered, place,
  by_priority, with_parameters, unique, has_seen, candidates_of, priority_stride, all_distinct,
}
use subllm.Routing.Errors.{RouteError}
use subllm.Routing.Order.{explicit_provider_order}
use subllm.Routing.Setup.{Setup}
use subllm.Routing.Sound.{IsChoice, IsBuilt, configured-IsBuilt}
use subllm.Types.{ConfiguredRoute, RouteCandidate, RoutePolicy}

-- The provider of the candidate is enabled, and in the explicit order if there is one; its model is
-- not forbidden, the provider serves it, and it is fit for the modality of the policy; and the route
-- carries that provider and model, with the priority that the candidate has.
pub record IsSanctioned (s : Setup) (policy : RoutePolicy) (order : Option (List String))
    (c : RouteCandidate) (r : ConfiguredRoute) : Type 0 where
  pub choice : Choice
  pub chosen : IsChoice s c choice
  pub enabled : is_enabled s.runtime c.provider ≡ true
  pub ordered : is_ordered order c.provider ≡ true
  pub fitting : is_vision_ready policy.modality choice.provider choice.model ≡ true
  pub ranked :
      priority_of order
        (priority_stride (candidates_of s policy))
        choice.provider.id
        choice.limits.priority
        c.priority_offset
      ≡ ok r.priority
  pub same_provider : choice.provider.id ≡ r.provider
  pub same_model : choice.model.id ≡ r.model
  pub same_wire_model : choice.served.wire_model ≡ r.wire_model
  pub same_transport : choice.provider.transport ≡ r.transport

abbrev pub HasCandidate :
    Setup → RoutePolicy → Option (List String) → List RouteCandidate → ConfiguredRoute → Type 0
HasCandidate s policy order cs r = Any (λ c. IsSanctioned s policy order c r) cs

fits-is_vision_ready :
    (s : Setup) (c : RouteCandidate) (x : Choice) (modality : String)
    → IsChoice s c x
    → fits_modality s c modality ≡ true
    → is_vision_ready modality x.provider x.model ≡ true
unfolding fits_modality
fits-is_vision_ready s c x modality h fits =
    let known = subst (λ o. provider_fits s c modality o ≡ true) h.known fits in
    let limited = subst (λ o. terms_fit s c modality x.provider o ≡ true) h.limited known in
    let found = subst (λ o. model_fits modality x.provider o ≡ true) h.found limited in
    ground (arith, found)

built-IsSanctioned :
    (s : Setup) (policy : RoutePolicy) (order : Option (List String)) (c : RouteCandidate)
    (r : ConfiguredRoute)
    → is_candidate s order policy.modality c ≡ true
    → IsBuilt s policy.application policy.function c order
        (priority_stride (candidates_of s policy))
        r
    → IsSanctioned s policy order c r
unfolding is_candidate build
built-IsSanctioned s policy order c r wanted h =
    let split =
      and_parts (is_enabled s.runtime c.provider && is_ordered order c.provider)
        (fits_modality s c policy.modality) wanted in
    let rest = and_parts (is_enabled s.runtime c.provider) (is_ordered order c.provider) split.0 in
    record {
      choice = h.choice;
      chosen = h.chosen;
      enabled = rest.0;
      ordered = rest.1;
      fitting = fits-is_vision_ready s c h.choice policy.modality h.chosen split.1;
      ranked = h.ranked ∙ ap (λ x. ok x.priority) h.built;
      same_provider = ap (λ x. x.provider) h.built;
      same_model = ap (λ x. x.model) h.built;
      same_wire_model = ap (λ x. x.wire_model) h.built;
      same_transport = ap (λ x. x.transport) h.built;
    }

more_candidates :
    (s : Setup) (policy : RoutePolicy) (order : Option (List String)) (c : RouteCandidate)
    (cs : List RouteCandidate) (rs : List ConfiguredRoute)
    → All (HasCandidate s policy order cs) rs
    → All (HasCandidate s policy order (c ∷ cs)) rs
more_candidates s policy order c cs rs h = All-map rs (λ r x. inr x) h

configure_next-HasCandidate :
    (s : Setup) (policy : RoutePolicy) (order : Option (List String)) (c : RouteCandidate)
    (cs : List RouteCandidate) (rs : List ConfiguredRoute) (b : Bool)
    (rest : Result RouteError (List ConfiguredRoute))
    → is_candidate s order policy.modality c ≡ b
    → ((more : List ConfiguredRoute) → rest ≡ ok more → All (HasCandidate s policy order cs) more)
    → configure_next b
        (configured s policy.application policy.function c order
          (priority_stride (candidates_of s policy)))
        rest
      ≡ ok rs
    → All (HasCandidate s policy order (c ∷ cs)) rs
configure_next-HasCandidate s policy order c cs rs false rest e others h =
    more_candidates s policy order c cs rs (others rs h)
configure_next-HasCandidate s policy order c cs rs true rest e others h =
    let stride = priority_stride (candidates_of s policy) in
    let (r, e1, h1) =
      >>=-eq-ok (configured s policy.application policy.function c order stride) _ h in
    let (more, e2, h2) = >>=-eq-ok rest _ h1 in
    let built = configured-IsBuilt s policy.application policy.function c order stride r e1 in
    subst (All (HasCandidate s policy order (c ∷ cs))) (ok-injective h2) (
      inl (built-IsSanctioned s policy order c r e built),
      more_candidates s policy order c cs more (others more e2),
    )

configure_all-HasCandidate :
    (s : Setup) (policy : RoutePolicy) (order : Option (List String)) (cs : List RouteCandidate)
    (rs : List ConfiguredRoute)
    → configure_all s policy order (priority_stride (candidates_of s policy)) cs ≡ ok rs
    → All (HasCandidate s policy order cs) rs
unfolding configure_all
configure_all-HasCandidate s policy order [] rs h =
    subst (All (HasCandidate s policy order [])) (ok-injective h) tt
configure_all-HasCandidate s policy order (c ∷ cs) rs h =
    configure_next-HasCandidate s policy order c cs rs (is_candidate s order policy.modality c)
      (configure_all s policy order (priority_stride (candidates_of s policy)) cs) refl
      (configure_all-HasCandidate s policy order cs) h

-- The steps after the generator keep what holds of each route.
pub All-place :
    (P : ConfiguredRoute → Type 0) (r : ConfiguredRoute) (rs : List ConfiguredRoute)
    → P r
    → All P rs
    → All P (place r rs)
unfolding place
All-place P r [] p h = (p, tt)
All-place P r (x ∷ xs) p h = elim (Bool-cases (leb r.priority x.priority)) [
  | inl e ↦ rw e (p, h)
  | inr e ↦ rw e (h.0, All-place P r xs p h.1)
]

pub All-by_priority :
    (P : ConfiguredRoute → Type 0) (rs : List ConfiguredRoute) → All P rs → All P (by_priority rs)
unfolding by_priority
All-by_priority P [] h = tt
All-by_priority P (r ∷ rs) h = All-place P r (by_priority rs) h.0 (All-by_priority P rs h.1)

pub unique-Sub : (seen rs : List ConfiguredRoute) → Sub (unique seen rs) rs
unfolding unique
unique-Sub seen [] = done
unique-Sub seen (r ∷ rs) =
    elim (has_seen seen r)
      as (λ b. Sub (elim b [ true ↦ unique seen rs | false ↦ r ∷ unique (r ∷ seen) rs ]) (r ∷ rs)) [
        | true ↦ skip (unique-Sub seen rs)
        | false ↦ take (unique-Sub (r ∷ seen) rs)
      ]

with_parameters-All :
    (P : ConfiguredRoute → Type 0) (s : Setup) (rs more : List ConfiguredRoute)
    → ((r : ConfiguredRoute) (d : Dict Json) → P r → P (record r { model_parameters = d }))
    → All P rs
    → with_parameters s rs ≡ ok more
    → All P more
unfolding with_parameters
with_parameters-All P s [] more keeps g h = subst (All P) (ok-injective h) tt
with_parameters-All P s (r ∷ rs) more keeps g h =
    let (d, e1, h1) =
      >>=-eq-ok (s.apply_parameters r.provider r.wire_model r.model_parameters) _ h in
    let (rest, e2, h2) = >>=-eq-ok (with_parameters s rs) _ h1 in
    subst (All P) (ok-injective h2) (keeps r d g.0, with_parameters-All P s rs rest keeps g.1 e2)

pub parameters-IsSanctioned :
    (s : Setup) (policy : RoutePolicy) (order : Option (List String)) (c : RouteCandidate)
    (r : ConfiguredRoute) (d : Dict Json) (t : String)
    → IsSanctioned s policy order c r
    → IsSanctioned s policy order c (record r { model_parameters = d; policy_sha256 = t })
parameters-IsSanctioned s policy order c r d t h = record {
  choice = h.choice;
  chosen = h.chosen;
  enabled = h.enabled;
  ordered = h.ordered;
  fitting = h.fitting;
  ranked = h.ranked;
  same_provider = h.same_provider;
  same_model = h.same_model;
  same_wire_model = h.same_wire_model;
  same_transport = h.same_transport;
}

pub select_routes-HasCandidate :
    (s : Setup) (policy : RoutePolicy) (rs : List ConfiguredRoute)
    → select_routes s policy ≡ ok rs
    → (order : Option (List String)) × (explicit_provider_order s.catalogs s.environment ≡ ok order)
      × All (HasCandidate s policy order (candidates_of s policy)) rs
unfolding select_routes
select_routes-HasCandidate s policy rs h =
    let cs = candidates_of s policy in
    let (order, e0, h0) = >>=-eq-ok (explicit_provider_order s.catalogs s.environment) _ h in
    let (routes, e1, h1) = >>=-eq-ok (configure_all s policy order (priority_stride cs) cs) _ h0 in
    let (ordered, e2, h2) = >>=-eq-ok (with_parameters s (by_priority routes)) _ h1 in
    let (e3, h3) = require-eq-ok (not (is_empty ordered)) _ _ h2 in
    let (e4, h4) = require-eq-ok (all_distinct ordered) _ _ h3 in
    let given : All (HasCandidate s policy order cs) ordered =
      with_parameters-All (HasCandidate s policy order cs) s (by_priority routes) ordered
        (λ r d x.
          Any-map cs (λ c y. parameters-IsSanctioned s policy order c r d r.policy_sha256 y) x)
        (All-by_priority (HasCandidate s policy order cs) routes
          (configure_all-HasCandidate s policy order cs routes e1))
        e2 in
    (
      order,
      e0,
      subst (All (HasCandidate s policy order cs)) (ok-injective h4)
          (All-Sub (HasCandidate s policy order cs) (unique-Sub [] ordered) given),
    )
