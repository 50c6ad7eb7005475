-- ===== src/Health/Orders.antt =====
-- src/subllm/health.py: what `order_by_health` and `order_with_last_resort` return.
use subllm.Prelude.{
  ℕ, String, ◌≡◌, ◌≢◌, refl, true, false, List, [], ◌∷◌, arith, if◌then◌else◌, Bool-cases, inl, inr,
  keep, not, ok, ◌∙◌, is_empty, >>=-eq-ok, Sub, Sub-keep, All, All-keep, All-map, All-both,
  keep-empty, ◌⊎◌, sym, Any, subst, if-true, if-false, Bool,
}
use subllm.Types.{ResolvedRoute}
use subllm.Health.File.{State}
use subllm.Health.Store.{
  Host, Io, works, no_store, no_write, no_mode, read_state, persisted_state, forget_fallback,
}
use subllm.Health.Routing.{
  cooling, refused, order_by_health, order_with_last_resort, healthy_routes,
}

pub persisted_state-read :
    (io : Io) (path : String) (h : Host) {state : State} {g : Host}
    → io ≢ no_store
    → persisted_state io path h ≡ ok (state, g)
    → read_state path h ≡ ok state
unfolding persisted_state
persisted_state-read works path h n e =
    let (a, got, eq) = >>=-eq-ok (read_state path h) _ e in got ∙ cc
persisted_state-read no_store path h n e = absurd (n refl)
persisted_state-read no_write path h n e =
    let (a, got, eq) = >>=-eq-ok (read_state path h) _ e in got ∙ cc
persisted_state-read no_mode path h n e =
    let (a, got, eq) = >>=-eq-ok (read_state path h) _ e in got ∙ cc

pub order_by_health-eq-ok :
    (io : Io) (path : String) (now : ℕ) (routes : List ResolvedRoute) (h : Host)
    {rs : List ResolvedRoute} {h' : Host}
    → order_by_health io path now routes h ≡ ok (rs, h')
    → (state : State) × (g : Host) × (persisted_state io path h ≡ ok (state, g))
      × (rs ≡ healthy_routes now state routes)
unfolding order_by_health
order_by_health-eq-ok io path now routes h e =
    let ((state, g), got, eq) = >>=-eq-ok (persisted_state io path h) _ e in (state, g, got, cc)

-- The routes that one observed state lets through.
abbrev chosen : ℕ → State → List ResolvedRoute → List ResolvedRoute
chosen now state routes =
    let healthy = healthy_routes now state routes in
    if is_empty healthy
    then (if is_empty routes then healthy else keep (λ r. not (refused state r.provider)) routes)
    else healthy

-- Reading does not change what the next read finds.
read_again :
    (path : String) (h : Host) (state : State)
    → read_state path (record (forget_fallback path h) { memory = state }) ≡ read_state path h
unfolding read_state
read_again path h state = refl

order_with_last_resort-chosen :
    (path : String) (now : ℕ) (routes rs : List ResolvedRoute) (h h' : Host) (state : State)
    → read_state path h ≡ ok state
    → order_with_last_resort works works path now routes h ≡ ok (rs, h')
    → rs ≡ chosen now state routes
unfolding order_with_last_resort order_by_health persisted_state
order_with_last_resort-chosen path now routes rs h h' state e ran =
    elim (Bool-cases (is_empty (healthy_routes now state routes))) [
      | inl cold ↦ elim (Bool-cases (is_empty routes)) [
        | inl nothing ↦ rw (cold, nothing) (ground (arith, rw (e, cold, nothing) at ran))
        | inr some_routes ↦
            rw (cold, some_routes)
              (ground (arith, rw (e, cold, some_routes, read_again path h state, e) at ran))
      ]
      | inr warm ↦ rw warm (ground (arith, rw (e, warm) at ran))
    ]

-- `r` may be tried: its provider is not cooling, or all are and its own is not refused.
abbrev pub MayServe : ℕ → State → List ResolvedRoute → ResolvedRoute → Type 0
MayServe now state routes r =
    (cooling now state r.provider ≡ false)
    ⊎ ((healthy_routes now state routes ≡ []) × (refused state r.provider ≡ false))

abbrev pub IsStranded : ℕ → State → ResolvedRoute → Type 0
IsStranded now state r = (cooling now state r.provider ≡ true) × (refused state r.provider ≡ true)

is_empty→nil {ℓ} : {A : Type ℓ} (xs : List A) → is_empty xs ≡ true → xs ≡ []
is_empty→nil [] e = refl
is_empty→nil (x ∷ xs) e = cc

chosen-Sub :
    (now : ℕ) (state : State) (routes : List ResolvedRoute) → Sub (chosen now state routes) routes
chosen-Sub now state routes = elim (Bool-cases (is_empty (healthy_routes now state routes))) [
  | inl cold ↦ elim (Bool-cases (is_empty routes)) [
    | inl nothing ↦ rw (cold, nothing) (Sub-keep _ routes)
    | inr some_routes ↦ rw (cold, some_routes) (Sub-keep _ routes)
  ]
  | inr warm ↦ rw warm (Sub-keep _ routes)
]

chosen-MayServe :
    (now : ℕ) (state : State) (routes : List ResolvedRoute)
    → All (MayServe now state routes) (chosen now state routes)
chosen-MayServe now state routes = elim (Bool-cases (is_empty (healthy_routes now state routes))) [
  | inl cold ↦ elim (Bool-cases (is_empty routes)) [
    | inl nothing ↦ rw (cold, nothing) warm_ones
    | inr some_routes ↦
        rw (cold, some_routes)
          (All-map _ (λ r e. inr (is_empty→nil _ cold, ground arith)) (All-keep _ routes))
  ]
  | inr warm ↦ rw warm warm_ones
]
  where
    warm_ones : All (MayServe now state routes) (healthy_routes now state routes)
    warm_ones =
        All-map (healthy_routes now state routes) (λ r e. inl (ground arith))
          (All-keep (λ r. not (cooling now state r.provider)) routes)

chosen-IsStranded :
    (now : ℕ) (state : State) (routes : List ResolvedRoute)
    → chosen now state routes ≡ []
    → All (IsStranded now state) routes
chosen-IsStranded now state [] e = tt
chosen-IsStranded now state (r ∷ rs) e =
    elim (Bool-cases (is_empty (healthy_routes now state (r ∷ rs)))) [
      | inl cold ↦
          All-map (r ∷ rs) (λ x b. (ground arith, ground arith))
            (All-both (λ x. not (cooling now state x.provider) ≡ false)
              (λ x. not (refused state x.provider) ≡ false) (r ∷ rs)
              (keep-empty _ (r ∷ rs) (is_empty→nil _ cold)) (keep-empty _ (r ∷ rs) (rw cold at e)))
      | inr warm ↦ absurd (filled _ warm (rw warm at e))
    ]
  where
    filled : (xs : List ResolvedRoute) → is_empty xs ≡ false → xs ≡ [] → ⊥
    filled [] p q = cc
    filled (x ∷ xs) p q = cc

keep-keeps :
    (p : ResolvedRoute → Bool) (rs : List ResolvedRoute)
    → All (λ r. p r ≡ true → Any (λ x. x ≡ r) (keep p rs)) rs
keep-keeps p [] = tt
keep-keeps p (r ∷ rs) = (
  λ h. subst (Any (λ x. x ≡ r)) (sym (if-true _ _ _ h)) (inl refl),
  All-map rs (λ q f h. later q (f h)) (keep-keeps p rs),
)
  where
    later : (q : ResolvedRoute) → Any (λ x. x ≡ q) (keep p rs) → Any (λ x. x ≡ q) (keep p (r ∷ rs))
    later q found = elim (Bool-cases (p r)) [
      | inl e ↦ subst (Any (λ x. x ≡ q)) (sym (if-true _ _ _ e)) (inr found)
      | inr e ↦ subst (Any (λ x. x ≡ q)) (sym (if-false _ _ _ e)) found
    ]

not_both : (b : Bool) → not b ≡ false → b ≡ false → ⊥
not_both true h e = cc
not_both false h e = cc

chosen-keeps :
    (now : ℕ) (state : State) (routes : List ResolvedRoute)
    → All
        (λ r. cooling now state r.provider ≡ false → Any (λ x. x ≡ r) (chosen now state routes))
        routes
chosen-keeps now state routes = elim (Bool-cases (is_empty (healthy_routes now state routes))) [
  | inl cold ↦
      All-map routes (λ r none_left warm. absurd (not_both _ none_left warm))
        (keep-empty (λ r. not (cooling now state r.provider)) routes (is_empty→nil _ cold))
  | inr some_left ↦ rw some_left (
      All-map routes (λ r f warm. f (rw warm refl))
        (keep-keeps (λ r. not (cooling now state r.provider)) routes))
]

-- With the store at hand and the clock at `now`, the routes to try are declared ones in their order.
-- Each is of a provider that is not cooling; where all are cooling, of one that was not refused for
-- credentials, payment or permission. Each route of a provider that is not cooling is among them, and
-- none is left only if every route's provider is both cooling and refused.
pub last_resort :
    (path : String) (now : ℕ) (routes rs : List ResolvedRoute) (h h' : Host) (state : State)
    → read_state path h ≡ ok state
    → order_with_last_resort works works path now routes h ≡ ok (rs, h')
    → Sub rs routes
      × All (MayServe now state routes) rs
      × All (λ r. cooling now state r.provider ≡ false → Any (λ x. x ≡ r) rs) routes
      × (rs ≡ [] → All (IsStranded now state) routes)
last_resort path now routes rs h h' state e ran =
    let eq = order_with_last_resort-chosen path now routes rs h h' state e ran in
    (
      rw eq (chosen-Sub now state routes),
      rw eq (chosen-MayServe now state routes),
      rw eq (chosen-keeps now state routes),
      λ nil. chosen-IsStranded now state routes (sym eq ∙ nil),
    )
