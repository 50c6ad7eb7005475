-- ===== src/Routing/Follows.antt =====
-- src/subllm/resolver.py: an explicit order of providers decides before the offsets do.
use subllm.Prelude.{
  ℕ, zero, suc, ◌+◌, ◌*◌, ◌≤◌, ◌<◌, max, min, String, ◌≡◌, refl, Option, none, some, List, [], ◌∷◌,
  ◌⊎◌, inl, inr, arith, ok, ok-injective, All, All-map, All-both, Pairwise, subst, sym, ap, ◌∙◌,
}
use subllm.Routing.Allowed.{configured_routes-HasCandidate}
use subllm.Routing.Configure.{position, priority_of, rank_at}
use subllm.Routing.Configured.{configured_routes, candidates_of, priority_stride, largest, smallest}
use subllm.Routing.Order.{explicit_provider_order}
use subllm.Routing.Ranked.{configured_routes-IsRanked, IsBefore}
use subllm.Routing.Sanctioned.{HasCandidate, IsSanctioned}
use subllm.Routing.Setup.{Setup}
use subllm.Types.{ConfiguredRoute, RouteCandidate, RoutePolicy}

abbrev lowest : List RouteCandidate → ℕ
lowest [] = 0
lowest (c ∷ cs) = smallest c.priority_offset cs

smallest-le : (n : ℕ) (cs : List RouteCandidate) → smallest n cs ≤ n
smallest-le n [] = omega arith
smallest-le n (c ∷ cs) = ground (arith, smallest-le (min n c.priority_offset) cs)

le-largest : (n : ℕ) (cs : List RouteCandidate) → n ≤ largest n cs
le-largest n [] = omega arith
le-largest n (c ∷ cs) = ground (arith, le-largest (max n c.priority_offset) cs)

smallest-All : (n : ℕ) (cs : List RouteCandidate) → All (λ c. smallest n cs ≤ c.priority_offset) cs
smallest-All n [] = tt
smallest-All n (c ∷ cs) = (
  ground (arith, smallest-le (min n c.priority_offset) cs),
  smallest-All (min n c.priority_offset) cs,
)

largest-All : (n : ℕ) (cs : List RouteCandidate) → All (λ c. c.priority_offset ≤ largest n cs) cs
largest-All n [] = tt
largest-All n (c ∷ cs) = (
  ground (arith, le-largest (max n c.priority_offset) cs),
  largest-All (max n c.priority_offset) cs,
)

-- The offsets of the candidates fit into one stride.
abbrev FitsStride : List RouteCandidate → RouteCandidate → Type 0
FitsStride cs c =
    (lowest cs ≤ c.priority_offset) × (c.priority_offset < lowest cs + priority_stride cs)

candidates-FitsStride : (cs : List RouteCandidate) → All (FitsStride cs) cs
unfolding priority_stride
candidates-FitsStride [] = tt
candidates-FitsStride (c ∷ cs) =
    let low = smallest-le c.priority_offset cs in
    let high = le-largest c.priority_offset cs in
    (
      (low, omega (arith, low, high)),
      All-map cs (λ d h. (h.0, omega (arith, h.0, h.1, low, high)))
          (All-both (λ d. smallest c.priority_offset cs ≤ d.priority_offset)
            (λ d. d.priority_offset ≤ largest c.priority_offset cs) cs
            (smallest-All c.priority_offset cs) (largest-All c.priority_offset cs)),
    )

mul-le : (n m k : ℕ) → n ≤ m → n * k ≤ m * k
mul-le zero m k h = omega arith
mul-le (suc n) zero k h = omega (arith, h)
mul-le (suc n) (suc m) k h = omega (arith, mul-le n m k (omega (arith, h)))

le_or_above : (n m : ℕ) → (n ≤ m) ⊎ (suc m ≤ n)
le_or_above n m = omega arith

-- Ranks in order are positions in order.
position_order :
    (stride low n m a b : ℕ) → low ≤ a → b < low + stride → n * stride + a < m * stride + b → n ≤ m
position_order stride low n m a b above below before = elim (le_or_above n m) [
  | inl h ↦ h
  | inr h ↦ absurd (omega (arith, above, below, before, mul-le (suc m) n stride h))
]

-- A route's provider has a place in the order, and with the offset it makes the priority.
record IsPlaced (order : List String) (cs : List RouteCandidate) (r : ConfiguredRoute)
    : Type 0 where
  slot : ℕ
  offset : ℕ
  placed : position order r.provider ≡ some slot
  ranked : slot * priority_stride cs + offset ≡ r.priority
  above : lowest cs ≤ offset
  below : offset < lowest cs + priority_stride cs

rank_at-parts :
    (o : Option ℕ) (stride offset : ℕ) {p : ℕ}
    → rank_at o stride offset ≡ ok p
    → (n : ℕ) × (o ≡ some n) × (n * stride + offset ≡ p)
rank_at-parts none stride offset h = cc
rank_at-parts (some n) stride offset h = (n, refl, ok-injective h)

sanctioned-IsPlaced :
    (s : Setup) (policy : RoutePolicy) (order : List String) (c : RouteCandidate)
    (r : ConfiguredRoute)
    → IsSanctioned s policy (some order) c r
    → FitsStride (candidates_of s policy) c
    → IsPlaced order (candidates_of s policy) r
unfolding priority_of
sanctioned-IsPlaced s policy order c r h fits =
    let (n, e, same) =
      rank_at-parts (position order h.choice.provider.id) (priority_stride (candidates_of s policy))
        c.priority_offset h.ranked in
    record {
      slot = n;
      offset = c.priority_offset;
      placed = ap (position order) (sym h.same_provider) ∙ e;
      ranked = same;
      above = fits.0;
      below = fits.1;
    }

candidate-IsPlaced :
    (s : Setup) (policy : RoutePolicy) (order : List String) (r : ConfiguredRoute)
    (cs : List RouteCandidate)
    → All (FitsStride (candidates_of s policy)) cs
    → HasCandidate s policy (some order) cs r
    → IsPlaced order (candidates_of s policy) r
candidate-IsPlaced s policy order r [] fits h = elim h [ ]
candidate-IsPlaced s policy order r (c ∷ cs) fits (inl h) =
    sanctioned-IsPlaced s policy order c r h fits.0
candidate-IsPlaced s policy order r (c ∷ cs) fits (inr h) =
    candidate-IsPlaced s policy order r cs fits.1 h

-- The first place is there, and not after the second, which is there too.
abbrev pub IsNotLater : Option ℕ → Option ℕ → Type 0
IsNotLater (some n) (some m) = n ≤ m
IsNotLater _ _ = ⊥

placed-IsNotLater :
    (order : List String) (cs : List RouteCandidate) (r x : ConfiguredRoute)
    → IsPlaced order cs r
    → IsPlaced order cs x
    → IsBefore r x
    → IsNotLater (position order r.provider) (position order x.provider)
placed-IsNotLater order cs r x g h before =
    subst (λ o. IsNotLater o (position order x.provider)) (sym g.placed)
      (subst (IsNotLater (some g.slot)) (sym h.placed) (
        position_order (priority_stride cs) (lowest cs) g.slot h.slot g.offset h.offset g.above
          h.below (omega (arith, g.ranked, h.ranked, before))))

rest-IsNotLater :
    (order : List String) (cs : List RouteCandidate) (r : ConfiguredRoute)
    (rs : List ConfiguredRoute)
    → IsPlaced order cs r
    → All (IsPlaced order cs) rs
    → All (IsBefore r) rs
    → All (λ x. IsNotLater (position order r.provider) (position order x.provider)) rs
rest-IsNotLater order cs r [] g hs before = tt
rest-IsNotLater order cs r (x ∷ xs) g hs before =
    (placed-IsNotLater order cs r x g hs.0 before.0, rest-IsNotLater order cs r xs g hs.1 before.1)

abbrev pub FollowsOrder : List String → ConfiguredRoute → ConfiguredRoute → Type 0
FollowsOrder order r x = IsNotLater (position order r.provider) (position order x.provider)

placed-FollowsOrder :
    (order : List String) (cs : List RouteCandidate) (rs : List ConfiguredRoute)
    → All (IsPlaced order cs) rs
    → Pairwise IsBefore rs
    → Pairwise (FollowsOrder order) rs
placed-FollowsOrder order cs [] hs before = tt
placed-FollowsOrder order cs (r ∷ rs) hs before = (
  rest-IsNotLater order cs r rs hs.0 hs.1 before.0,
  placed-FollowsOrder order cs rs hs.1 before.1,
)

-- Under an explicit order of providers, the routes that `configured_routes` returns follow it: of two
-- routes the provider of the first has a place in the order, and not a later one than the provider of
-- the second, whatever the offsets of their candidates are.
pub configured_routes-FollowsOrder :
    (s : Setup) (application function : String) (order : List String) (rs : List ConfiguredRoute)
    → explicit_provider_order s.catalogs s.environment ≡ ok (some order)
    → configured_routes s application function ≡ ok rs
    → Pairwise (FollowsOrder order) rs
configured_routes-FollowsOrder s application function order rs given h =
    let (policy, found, e0, e1, good) =
      configured_routes-HasCandidate s application function rs h in
    let cs = candidates_of s policy in
    let same : found ≡ some order = ok-injective (sym e1 ∙ given) in
    let placed : All (IsPlaced order cs) rs =
      All-map rs (λ r x. candidate-IsPlaced s policy order r cs (candidates-FitsStride cs) x)
        (subst (λ o. All (HasCandidate s policy o cs) rs) same good) in
    placed-FollowsOrder order cs rs placed
      (configured_routes-IsRanked s application function rs h).1
