-- ===== src/Health/Routing.antt =====
-- src/subllm/health.py: `order_by_health` and `order_with_last_resort`.
use subllm.Prelude.{
  ℕ, String, Bool, false, none, some, List, not, is_empty, keep, if◌then◌else◌, Result, ok, ◌>>=◌,
}
use subllm.Dict.{lookup}
use subllm.Types.{ResolvedRoute}
use subllm.Health.Entry.{is_cooling, is_uncredited}
use subllm.Health.File.{State, OverflowError}
use subllm.Health.Store.{Host, Io, persisted_state, replace_memory}

-- `cooling.get(provider, False)`
unfoldable pub cooling : ℕ → State → String → Bool
cooling now state provider = elim (lookup provider state) [
  | none ↦ false
  | some entry ↦ is_cooling now entry
]

-- `provider in refused`
unfoldable pub refused : State → String → Bool
refused state provider = elim (lookup provider state) [
  | none ↦ false
  | some entry ↦ is_uncredited entry.reason
]

abbrev pub healthy_routes : ℕ → State → List ResolvedRoute → List ResolvedRoute
healthy_routes now state routes = keep (λ r. not (cooling now state r.provider)) routes

unfoldable pub order_by_health :
    Io → String → ℕ → List ResolvedRoute → Host → Result OverflowError (List ResolvedRoute × Host)
order_by_health io path now routes h = persisted_state io path h >>= λ (r : State × Host).
    ok (healthy_routes now r.0 routes, (replace_memory r).1)

-- The store is read a second time when no route is healthy.
unfoldable pub order_with_last_resort :
    Io
    → Io
    → String
    → ℕ
    → List ResolvedRoute
    → Host
    → Result OverflowError (List ResolvedRoute × Host)
order_with_last_resort io again path now routes h =
    order_by_health io path now routes h >>= λ (first : List ResolvedRoute × Host).
    if is_empty first.0
    then (if is_empty routes
        then ok first
        else persisted_state again path first.1 >>= λ (r : State × Host).
            ok (keep (λ route. not (refused r.0 route.provider)) routes, (replace_memory r).1))
    else ok first
