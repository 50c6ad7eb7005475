-- ===== src/Client/Complete.antt =====
-- src/subllm/client_routes.py: what holds of the calls of `complete` as a whole.
use subllm.Prelude.{
  ℕ, ◌≤◌, String, ◌≡◌, refl, Bool, true, false, List, [], ◌∷◌, Option, none, some, arith, Result,
  ok, err, if◌then◌else◌, length, All, All-map, Any, inl, inr, subst, sym, ok-injective, >>=-eq-ok,
  ◌>>◌, ◌>>=◌, is_empty, absurd_err,
}
use subllm.Client.Attempt.{Setting, Call, World, start}
use subllm.Client.Failover.{NoneRetried, failover-IsOrderly}
use subllm.Client.Outcome.{CompletionResponse, ClientError, raised}
use subllm.Client.Routes.{
  Finished, Calls, failover, requested_model_routes, explicit_model, with_budgets, first_only,
  run_routes, ordered, run_available, no_credential, with_rule, complete,
}
use subllm.Client.Vision.{Message}
use subllm.Health.File.{OverflowError}
use subllm.Health.Leaves.{keep-All, Leaves, if_Leaves, order-Leaves}
use subllm.Health.Store.{Host}
use subllm.Types.{ResolvedRoute}

module _ (P : ResolvedRoute → Type 0) where
  -- All the routes have the property, where there are routes and no error.
  abbrev pub HoldsOfAll : Result ClientError (List ResolvedRoute) → Type 0
  HoldsOfAll (err e) = Unit
  HoldsOfAll (ok rs) = All P rs

  requested-Leaves :
      (rs qs : List ResolvedRoute) (model : Option String)
      → requested_model_routes rs model ≡ ok qs
      → All P rs
      → All P qs
  unfolding requested_model_routes
  requested-Leaves rs qs none h all = subst (All P) (ok-injective h) all
  requested-Leaves rs qs (some model) h all = kept _ _ (keep-All P _ rs all) h
    where
      kept :
          (e : ClientError) (selected : List ResolvedRoute)
          → All P selected
          → (if is_empty selected then err e else ok selected) ≡ ok qs
          → All P qs
      kept e [] l h = absurd_err h
      kept e (r ∷ rs) l h = subst (All P) (ok-injective h) l

  module _ (st : Setting) (c : Calls) where
    -- The call is of a route with the property, within the limits of its time.
    abbrev IsProper : Call → Type 0
    IsProper call =
        P call.route
        × ((budget : ℕ) × (c.budget call.route ≡ ok budget) × (call.timeout ≤ budget))
        × (call.timeout ≤ st.caller_limit)

    budgeted :
        (rs : List ResolvedRoute) (plan : List (ResolvedRoute × ℕ)) (call : Call)
        → with_budgets c.budget rs ≡ ok plan
        → All P rs
        → Any (λ (rb : ResolvedRoute × ℕ). (rb.0 ≡ call.route) × (call.timeout ≤ rb.1)) plan
        → P call.route
          × ((budget : ℕ) × (c.budget call.route ≡ ok budget) × (call.timeout ≤ budget))
    budgeted [] plan call made all found = absurd (
        subst (Any (λ (rb : ResolvedRoute × ℕ). (rb.0 ≡ call.route) × (call.timeout ≤ rb.1)))
          (sym (ok-injective made)) found)
    budgeted (r ∷ rs) plan call made all found =
        let (n, had, h) = >>=-eq-ok (c.budget r) _ made in
        let (rest, made', h') = >>=-eq-ok (with_budgets c.budget rs) _ h in
        elim (subst (Any (λ (rb : ResolvedRoute × ℕ). (rb.0 ≡ call.route) × (call.timeout ≤ rb.1)))
          (sym (ok-injective h')) found) [
            | inl (same, fits) ↦
                (subst P same all.0, (n, subst (λ q. c.budget q ≡ ok n) same had, fits))
            | inr later ↦ budgeted rs rest call made' all.1 later
          ]

    pub record IsCareful (out : Finished) : Type 0 where
      pub few : length out.1.calls ≤ st.execution.max_attempts
      pub fair : NoneRetried out.1.calls
      pub proper : All IsProper out.1.calls

    silent :
        (r : Result ClientError CompletionResponse) (w : World) → w.calls ≡ [] → IsCareful (r, w)
    silent r w none_yet = rw none_yet (record { few = omega arith; fair = tt; proper = tt })

    failover-IsCareful :
        (rs : List ResolvedRoute) (plan : List (ResolvedRoute × ℕ)) (w : World)
        → with_budgets c.budget rs ≡ ok plan
        → All P rs
        → w.calls ≡ []
        → IsCareful (failover st c.trials 0 plan start w)
    failover-IsCareful rs plan w made all none_yet =
        let v : _ = failover-IsOrderly st c.trials plan w none_yet in
        record {
          few = v.few;
          fair = v.fair;
          proper =
              All-map _
                (λ call (found, limit).
                  let (p, fits) = budgeted rs plan call made all found in (p, fits, limit))
                v.planned;
        }

    checked-IsCareful :
        (r : Result ClientError (Unit {0})) (w : World) (out : Finished)
        → w.calls ≡ []
        → IsCareful out
        → IsCareful (elim r [ err e ↦ (err e, w) | ok u ↦ out ])
    checked-IsCareful (err e) w out none_yet careful = silent _ w none_yet
    checked-IsCareful (ok u) w out none_yet careful = careful

    planned-IsCareful :
        (rs : List ResolvedRoute) (w : World) (checks : Result ClientError (Unit {0}))
        → All P rs
        → w.calls ≡ []
        → IsCareful (elim (checks >> with_budgets c.budget rs) [
          | err e ↦ (err e, w)
          | ok plan ↦ failover st c.trials 0 plan start w
        ])
    planned-IsCareful rs w (err e) all none_yet = silent _ w none_yet
    planned-IsCareful rs w (ok u) all none_yet =
        elim (with_budgets c.budget rs)
            as (λ x.
              with_budgets c.budget rs ≡ x
              → IsCareful
                  (elim x [ err e ↦ (err e, w) | ok plan ↦ failover st c.trials 0 plan start w ])) [
                    | err e ↦ λ made. silent _ w none_yet
                    | ok plan ↦ λ made. failover-IsCareful rs plan w made all none_yet
                  ]
          refl

    run_routes-IsCareful :
        (messages : List Message) (rs : List ResolvedRoute) (w : World)
        → All P rs
        → w.calls ≡ []
        → IsCareful (run_routes st c messages rs w)
    unfolding run_routes
    run_routes-IsCareful messages [] w all none_yet = silent _ w none_yet
    run_routes-IsCareful messages (r ∷ rs) w all none_yet =
        planned-IsCareful (r ∷ rs) w _ all none_yet

    first-Leaves : (rs : List ResolvedRoute) → All P rs → All P (first_only rs)
    first-Leaves [] all = tt
    first-Leaves (r ∷ rs) all = (all.0, tt)

    ordered-Leaves : (rs : List ResolvedRoute) (h : Host) → All P rs → Leaves P (ordered st c rs h)
    unfolding ordered
    ordered-Leaves rs h all =
        if_Leaves P st.execution.failover_enabled _ _
          (order-Leaves P c.io c.again st.path c.now rs h all) (first-Leaves rs all)

    left-IsCareful :
        (messages : List Message) (w : World) (r : Result OverflowError (List ResolvedRoute × Host))
        → w.calls ≡ []
        → Leaves P r
        → IsCareful (elim r [
          | err x ↦ (err (raised "OverflowError"), w)
          | ok (rs, h) ↦ run_routes st c messages rs (record w { host = h })
        ])
    left-IsCareful messages w (err x) none_yet l = silent _ w none_yet
    left-IsCareful messages w (ok (rs, h)) none_yet l =
        run_routes-IsCareful messages rs (record w { host = h }) l none_yet

    requested-IsCareful :
        (messages : List Message) (w : World) (r : Result ClientError (List ResolvedRoute))
        → w.calls ≡ []
        → ((rs : List ResolvedRoute) → r ≡ ok rs → All P rs)
        → IsCareful (elim r [
          | err e ↦ (err e, w)
          | ok routes ↦ elim (ordered st c routes w.host) [
            | err x ↦ (err (raised "OverflowError"), w)
            | ok (rs, h) ↦ run_routes st c messages rs (record w { host = h })
          ]
        ])
    requested-IsCareful messages w (err e) none_yet all = silent _ w none_yet
    requested-IsCareful messages w (ok rs) none_yet all =
        left-IsCareful messages w (ordered st c rs w.host) none_yet
          (ordered-Leaves rs w.host (all rs refl))

    loaded-Leaves :
        (available rs : List ResolvedRoute) (model : Option String)
        → (requested_model_routes available model >>= λ routes. c.loaded >> ok routes) ≡ ok rs
        → All P available
        → All P rs
    loaded-Leaves available rs model h all =
        let (qs, asked, h0) = >>=-eq-ok (requested_model_routes available model) _ h in
        let (u, fine, h1) = >>=-eq-ok c.loaded _ h0 in
        subst (All P) (ok-injective h1) (requested-Leaves available qs model asked all)

    if_IsCareful :
        (b : Bool) (x y : Finished) → IsCareful x → IsCareful y → IsCareful (if b then x else y)
    if_IsCareful true x y p q = p
    if_IsCareful false x y p q = q

    run_available-IsCareful :
        (messages : List Message) (model : Option String) (w : World)
        → HoldsOfAll c.available
        → w.calls ≡ []
        → IsCareful (run_available st c messages model w)
    unfolding run_available
    run_available-IsCareful messages model w all none_yet = with_available c.available all
      where
        with_available :
            (r : Result ClientError (List ResolvedRoute))
            → HoldsOfAll r
            → IsCareful (elim r [
              | err e ↦ (err e, w)
              | ok available ↦
                  if is_empty available
                  then (err (no_credential st c), w)
                  else elim (requested_model_routes available model >>= λ routes.
                      c.loaded >> ok routes) [
                        | err e ↦ (err e, w)
                        | ok routes ↦ elim (ordered st c routes w.host) [
                          | err x ↦ (err (raised "OverflowError"), w)
                          | ok (left, h) ↦ run_routes st c messages left (record w { host = h })
                        ]
                      ]
            ])
        with_available (err e) h = silent _ w none_yet
        with_available (ok available) h =
            if_IsCareful (is_empty available) _ _ (silent _ w none_yet) (
              requested-IsCareful messages w _ none_yet
                (λ rs e. loaded-Leaves available rs model e h))

-- A completion for a route without an adaptive rule, in a world without calls yet. Take any property
-- that all routes with a credential have: then each call is of a route with that property, for no
-- longer than the route's own budget and the caller's limit; there are at most `max_attempts` calls;
-- and no provider is called again after a call found that the provider itself fails.
pub complete-IsCareful :
    (P : ResolvedRoute → Type 0) (st : Setting) (c : Calls) (messages : List Message)
    (model : Option String) (w : World)
    → c.adaptive ≡ ok none
    → HoldsOfAll P c.available
    → w.calls ≡ []
    → IsCareful P st c (complete st c messages model w)
unfolding complete
complete-IsCareful P st c messages model w plain all none_yet =
    checked-IsCareful P st c _ w _ none_yet (
      subst (λ a. IsCareful P st c (with_rule st c messages (explicit_model st model) w a))
        (sym plain)
        (run_available-IsCareful P st c messages (explicit_model st model) w all none_yet))
