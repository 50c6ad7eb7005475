-- ===== src/Routing/Ranked.antt =====
-- src/subllm/resolver.py: the order of the configured routes.
use subllm.Prelude.{
  ℕ, ◌≤◌, ◌<◌, ◌≡◌, refl, true, false, not, and_parts, or_parts, not-true, Bool-cases, List, [],
  ◌∷◌, inl, inr, arith, eqb, leb, map, is_empty, ok, >>=-eq-ok, require-eq-ok, ok-injective, All,
  All-map, Any, Pairwise, Pairwise-Sub, Pairwise-mapped, subst, String,
}
use subllm.Routing.Allowed.{configured_routes-parts}
use subllm.Routing.Configured.{
  select_routes, configured_routes, configure_all, place, by_priority, with_parameters, unique,
  has_seen, same_model, candidates_of, priority_stride, sealed, all_distinct, has_priority,
}
use subllm.Routing.Order.{explicit_provider_order}
use subllm.Routing.Sanctioned.{unique-Sub, All-place}
use subllm.Routing.Setup.{Setup}
use subllm.Types.{ConfiguredRoute, RoutePolicy}

-- The second route is tried after the first.
abbrev pub IsBefore : ConfiguredRoute → ConfiguredRoute → Type 0
IsBefore r x = r.priority < x.priority

abbrev IsNotAfter : ConfiguredRoute → ConfiguredRoute → Type 0
IsNotAfter r x = r.priority ≤ x.priority

abbrev pub IsOther : ConfiguredRoute → ConfiguredRoute → Type 0
IsOther r x = same_model x r ≡ false

place-Pairwise :
    (r : ConfiguredRoute) (rs : List ConfiguredRoute)
    → Pairwise IsNotAfter rs
    → Pairwise IsNotAfter (place r rs)
unfolding place
place-Pairwise r [] h = (tt, tt)
place-Pairwise r (x ∷ xs) h = elim (Bool-cases (leb r.priority x.priority)) [
  | inl e ↦ rw e ((ground (arith, e), All-map xs (λ y q. ground (arith, e, q)) h.0), h)
  | inr e ↦ rw e (All-place (IsNotAfter x) r xs (ground (arith, e)) h.0, place-Pairwise r xs h.1)
]

by_priority-Pairwise : (rs : List ConfiguredRoute) → Pairwise IsNotAfter (by_priority rs)
unfolding by_priority
by_priority-Pairwise [] = tt
by_priority-Pairwise (r ∷ rs) = place-Pairwise r (by_priority rs) (by_priority-Pairwise rs)

-- New parameters leave each route's provider, model and priority.
same_ranks :
    (s : Setup) (rs more : List ConfiguredRoute)
    → with_parameters s rs ≡ ok more
    → map (λ r. r.priority) rs ≡ map (λ r. r.priority) more
unfolding with_parameters
same_ranks s [] more h = subst (λ o. [] ≡ map (λ r. r.priority) o) (ok-injective h) refl
same_ranks s (r ∷ rs) more h =
    let (d, e1, h1) =
      >>=-eq-ok (s.apply_parameters r.provider r.wire_model r.model_parameters) _ h in
    let (rest, e2, h2) = >>=-eq-ok (with_parameters s rs) _ h1 in
    subst (λ o. map (λ x. x.priority) (r ∷ rs) ≡ map (λ x. x.priority) o) (ok-injective h2)
      (rw (same_ranks s rs rest e2) refl)

-- Being sorted is a matter of the priorities alone.
All-ranks :
    (n : ℕ) (rs : List ConfiguredRoute)
    → All (λ r. n ≤ r.priority) rs
    → All (λ m. n ≤ m) (map (λ r. r.priority) rs)
All-ranks n [] h = tt
All-ranks n (r ∷ rs) h = (h.0, All-ranks n rs h.1)

ranks-All :
    (n : ℕ) (rs : List ConfiguredRoute)
    → All (λ m. n ≤ m) (map (λ r. r.priority) rs)
    → All (λ r. n ≤ r.priority) rs
ranks-All n [] h = tt
ranks-All n (r ∷ rs) h = (h.0, ranks-All n rs h.1)

Pairwise-ranks :
    (rs : List ConfiguredRoute)
    → Pairwise IsNotAfter rs
    → Pairwise (λ n m. n ≤ m) (map (λ r. r.priority) rs)
Pairwise-ranks [] h = tt
Pairwise-ranks (r ∷ rs) h = (All-ranks r.priority rs h.0, Pairwise-ranks rs h.1)

ranks-Pairwise :
    (rs : List ConfiguredRoute)
    → Pairwise (λ n m. n ≤ m) (map (λ r. r.priority) rs)
    → Pairwise IsNotAfter rs
ranks-Pairwise [] h = tt
ranks-Pairwise (r ∷ rs) h = (ranks-All r.priority rs h.0, ranks-Pairwise rs h.1)

still-Pairwise :
    (s : Setup) (rs more : List ConfiguredRoute)
    → Pairwise IsNotAfter rs
    → with_parameters s rs ≡ ok more
    → Pairwise IsNotAfter more
still-Pairwise s rs more h e =
    ranks-Pairwise more
      (subst (Pairwise (λ n m. n ≤ m)) (same_ranks s rs more e) (Pairwise-ranks rs h))

-- Sorted routes of distinct priorities are strictly sorted.
strict_after :
    (r : ConfiguredRoute) (rs : List ConfiguredRoute)
    → All (IsNotAfter r) rs
    → has_priority rs r.priority ≡ false
    → All (IsBefore r) rs
strict_after r [] h new = tt
strict_after r (x ∷ xs) h new =
    let apart = or_parts (eqb x.priority r.priority) (has_priority xs r.priority) new in
    (ground (arith, h.0, apart.0), strict_after r xs h.1 apart.1)

distinct-Pairwise :
    (rs : List ConfiguredRoute)
    → Pairwise IsNotAfter rs
    → all_distinct rs ≡ true
    → Pairwise IsBefore rs
unfolding all_distinct
distinct-Pairwise [] h e = tt
distinct-Pairwise (r ∷ rs) h e =
    let apart = and_parts (not (has_priority rs r.priority)) (all_distinct rs) e in
    (
      strict_after r rs h.0 (not-true (has_priority rs r.priority) apart.0),
      distinct-Pairwise rs h.1 apart.1,
    )

not_seen :
    (x r : ConfiguredRoute) (seen : List ConfiguredRoute)
    → Any (λ y. y ≡ x) seen
    → has_seen seen r ≡ false
    → IsOther x r
not_seen x r (y ∷ ys) (inl same) e =
    subst (λ q. IsOther q r) same (or_parts (same_model r y) (has_seen ys r) e).0
not_seen x r (y ∷ ys) (inr h) e = not_seen x r ys h (or_parts (same_model r y) (has_seen ys r) e).1
not_seen x r [] h e = elim h [ ]

-- No route of `unique seen rs` has the provider and model of one of `seen`.
unseen :
    (x : ConfiguredRoute) (seen rs : List ConfiguredRoute)
    → Any (λ y. y ≡ x) seen
    → All (IsOther x) (unique seen rs)
unfolding unique
unseen x seen [] h = tt
unseen x seen (r ∷ rs) h =
    elim (has_seen seen r)
        as (λ b.
          has_seen seen r ≡ b
          → All (IsOther x) (elim b [ true ↦ unique seen rs | false ↦ r ∷ unique (r ∷ seen) rs ])) [
            | true ↦ λ e. unseen x seen rs h
            | false ↦ λ e. (not_seen x r seen h e, unseen x (r ∷ seen) rs (inr h))
          ]
      refl

unique-Pairwise : (seen rs : List ConfiguredRoute) → Pairwise IsOther (unique seen rs)
unfolding unique
unique-Pairwise seen [] = tt
unique-Pairwise seen (r ∷ rs) =
    elim (has_seen seen r)
      as (λ b.
        Pairwise IsOther (elim b [ true ↦ unique seen rs | false ↦ r ∷ unique (r ∷ seen) rs ])) [
          | true ↦ unique-Pairwise seen rs
          | false ↦ (unseen r (r ∷ seen) rs (inl refl), unique-Pairwise (r ∷ seen) rs)
        ]

-- What `_configured_routes` ran on, if it returned: sorted routes of distinct priorities.
pub select_routes-parts :
    (s : Setup) (policy : RoutePolicy) (rs : List ConfiguredRoute)
    → select_routes s policy ≡ ok rs
    → (ordered : List ConfiguredRoute) × (is_empty ordered ≡ false)
      × Pairwise IsBefore ordered
      × (unique [] ordered ≡ rs)
unfolding select_routes
select_routes-parts s policy rs h =
    let cs = candidates_of s policy in
    let (order, e0, h0) = >>=-eq-ok (explicit_provider_order s.catalogs s.environment) _ h in
    let (routes, e1, h1) = >>=-eq-ok (configure_all s policy order (priority_stride cs) cs) _ h0 in
    let (ordered, e2, h2) = >>=-eq-ok (with_parameters s (by_priority routes)) _ h1 in
    let (e3, h3) = require-eq-ok (not (is_empty ordered)) _ _ h2 in
    let (e4, h4) = require-eq-ok (all_distinct ordered) _ _ h3 in
    (
      ordered,
      not-true (is_empty ordered) e3,
      distinct-Pairwise ordered
          (still-Pairwise s (by_priority routes) ordered (by_priority-Pairwise routes) e2) e4,
      ok-injective h4,
    )

unique_some : (rs : List ConfiguredRoute) → is_empty rs ≡ false → is_empty (unique [] rs) ≡ false
unfolding unique
unique_some [] e = cc
unique_some (r ∷ rs) e = refl

map_some :
    (s : Setup) (rs : List ConfiguredRoute)
    → is_empty rs ≡ false
    → is_empty (map (sealed s) rs) ≡ false
map_some s [] e = e
map_some s (r ∷ rs) e = refl

-- If `configured_routes` returns, it returns at least one route, by strictly rising priorities, and no
-- two routes have the same provider and the same model.
pub configured_routes-IsRanked :
    (s : Setup) (application function : String) (rs : List ConfiguredRoute)
    → configured_routes s application function ≡ ok rs
    → (is_empty rs ≡ false) × Pairwise IsBefore rs × Pairwise IsOther rs
configured_routes-IsRanked s application function rs h =
    let (policy, routes, e0, e1, same) = configured_routes-parts s application function rs h in
    let (ordered, some_left, before, made) = select_routes-parts s policy routes e1 in
    let good : (is_empty routes ≡ false) × Pairwise IsBefore routes × Pairwise IsOther routes =
      subst (λ o. (is_empty o ≡ false) × Pairwise IsBefore o × Pairwise IsOther o) made
        (
          unique_some ordered some_left,
          Pairwise-Sub IsBefore (unique-Sub [] ordered) before,
          unique-Pairwise [] ordered,
        ) in
    subst (λ o. (is_empty o ≡ false) × Pairwise IsBefore o × Pairwise IsOther o) same
      (
        map_some s routes good.0,
        Pairwise-mapped IsBefore (sealed s) routes good.1,
        Pairwise-mapped IsOther (sealed s) routes good.2,
      )
