-- ===== src/Health/Leaves.antt =====
-- src/subllm/health.py: an order by health leaves out routes and adds none.
use subllm.Prelude.{
  ℕ, String, Bool, true, false, Bool-cases, inl, inr, List, [], ◌∷◌, Result, ok, err, if◌then◌else◌,
  keep, is_empty, All, ◌>>=◌,
}
use subllm.Health.File.{OverflowError, State}
use subllm.Health.Routing.{order_by_health, order_with_last_resort}
use subllm.Health.Store.{Host, Io, persisted_state}
use subllm.Types.{ResolvedRoute}

module _ (P : ResolvedRoute → Type 0) where
  pub keep-All : (p : ResolvedRoute → Bool) (rs : List ResolvedRoute) → All P rs → All P (keep p rs)
  keep-All p [] h = tt
  keep-All p (r ∷ rs) h = elim (Bool-cases (p r)) [
    | inl e ↦ rw (e, keep) (h.0, keep-All p rs h.1)
    | inr e ↦ rw (e, keep) (keep-All p rs h.1)
  ]

  -- The routes that a step returns, if it returns.
  abbrev pub Leaves : Result OverflowError (List ResolvedRoute × Host) → Type 0
  Leaves (ok (rs, h)) = All P rs
  Leaves (err e) = Unit

  pub if_Leaves :
      (b : Bool) (x y : Result OverflowError (List ResolvedRoute × Host))
      → Leaves x
      → Leaves y
      → Leaves (if b then x else y)
  if_Leaves true x y l m = l
  if_Leaves false x y l m = m

  read-Leaves :
      (r : Result OverflowError (State × Host)) (f : State × Host → List ResolvedRoute × Host)
      → ((q : State × Host) → All P (f q).0)
      → Leaves (r >>= λ q. ok (f q))
  read-Leaves (ok q) f l = l q
  read-Leaves (err e) f l = tt

  then-Leaves :
      (r : Result OverflowError (List ResolvedRoute × Host))
      (f : List ResolvedRoute × Host → Result OverflowError (List ResolvedRoute × Host))
      → Leaves r
      → ((q : List ResolvedRoute × Host) → All P q.0 → Leaves (f q))
      → Leaves (r >>= f)
  then-Leaves (ok q) f l k = k q l
  then-Leaves (err e) f l k = tt

  pub order-Leaves :
      (io again : Io) (path : String) (now : ℕ) (rs : List ResolvedRoute) (h : Host)
      → All P rs
      → Leaves (order_with_last_resort io again path now rs h)
  unfolding order_with_last_resort order_by_health
  order-Leaves io again path now rs h all =
      then-Leaves (order_by_health io path now rs h) _
        (read-Leaves (persisted_state io path h) _ (λ q. keep-All _ rs all))
        (λ q some_left.
          if_Leaves (is_empty q.0) _ _
            (if_Leaves (is_empty rs) _ _ some_left
              (read-Leaves (persisted_state again path q.1) _ (λ r. keep-All _ rs all)))
            some_left)
