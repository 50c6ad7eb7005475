-- ===== src/Health/Names.antt =====
-- src/subllm/health.py: a health file never speaks of a provider whose name `_PROVIDER` does not
-- match, such as a custom provider `local_llm` (src/subllm/policy_config.py allows `_` and `.`).
use subllm.Prelude.{
  keep-keep_weaker, subst, sym, ℕ, String, ◌≡◌, refl, ◌⊎◌, Bool, true, false, Option, none, some,
  List, [], ◌∷◌, ◌==◌, eq_iff, if◌then◌else◌, Bool-cases, Option-cases, inl, inr, keep, not, Result,
  ok, err, ◌>>=◌, ◌∙◌, ap, ◌≢◌,
}
use subllm.Dict.{Dict, lookup}
use subllm.Json.{Json, object, members, has_keys}
use subllm.Types.{ResolvedRoute}
use subllm.Health.Entry.{ProviderHealth, is_provider}
use subllm.Health.File.{
  State, at, add_row, has_schema, read_provider, read_rows, read_providers, bounded_state,
  OverflowError,
}
use subllm.Health.Store.{Host, Io, no_store, read_state}
use subllm.Health.Orders.{order_by_health-eq-ok, persisted_state-read}
use subllm.Health.Routing.{cooling, order_by_health, healthy_routes}

-- The result of a read, if there is one, has no such provider.
abbrev Lacks : String → Result OverflowError State → Type 0
Lacks p (ok state) = lookup p state ≡ none
Lacks p (err e) = Unit

read_provider-none :
    (p : String) (row : Json) → is_provider p ≡ false → read_provider p row ≡ ok none
unfolding read_provider
read_provider-none p (object row) e = rw e
read_provider-none p _ e = refl

add_row-Lacks :
    (p k : String) (found : Option ProviderHealth) (state : State)
    → (k == p) ≡ false
    → lookup p state ≡ none
    → lookup p (add_row k found state) ≡ none
unfolding lookup
add_row-Lacks p k none state e h = h
add_row-Lacks p k (some entry) state e h = rw e h

bind-Lacks :
    (p k : String) (found : Result OverflowError (Option ProviderHealth))
    (others : Result OverflowError State)
    → ((k == p) ≡ false) ⊎ (found ≡ ok none)
    → Lacks p others
    → Lacks p (found >>= λ f. others >>= λ state. ok (add_row k f state))
bind-Lacks p k (err x) others h l = tt
bind-Lacks p k (ok f) (err x) h l = tt
bind-Lacks p k (ok f) (ok state) (inl e) l = add_row-Lacks p k f state e l
bind-Lacks p k (ok none) (ok state) (inr e) l = l
bind-Lacks p k (ok (some f)) (ok state) (inr e) l = cc

read_rows-Lacks : (p : String) (d : Dict Json) → is_provider p ≡ false → Lacks p (read_rows d)
unfolding read_rows
read_rows-Lacks p [] e = unfold lookup in refl
read_rows-Lacks p ((k, row) ∷ d) e =
    bind-Lacks p k (read_provider k row) (read_rows d) split (read_rows-Lacks p d e)
  where
    split : ((k == p) ≡ false) ⊎ (read_provider k row ≡ ok none)
    split = elim (Bool-cases (k == p)) [
      | inl same ↦ inr (read_provider-none k row (ap is_provider ((eq_iff k p).0 same) ∙ e))
      | inr other ↦ inl other
    ]

read_providers-Lacks : (p : String) (j : Json) → is_provider p ≡ false → Lacks p (read_providers j)
unfolding read_providers
read_providers-Lacks p (object rows) e = read_rows-Lacks p (members rows) e
read_providers-Lacks p _ e = unfold lookup in refl

if-Lacks :
    (p : String) (b : Bool) (r : Result OverflowError State)
    → Lacks p r
    → Lacks p (if b then r else ok [])
unfolding lookup
if-Lacks p true r l = l
if-Lacks p false r l = refl

bounded_state-Lacks :
    (p : String) (doc : Json) → is_provider p ≡ false → Lacks p (bounded_state doc)
unfolding bounded_state
bounded_state-Lacks p (object payload) e =
    let d = members payload in
    let state = read_providers (at d "providers") in
    let named = has_schema (at d "schema") in
    if-Lacks p (has_keys d ("schema" ∷ "providers" ∷ [])) (if named then state else ok [])
      (if-Lacks p named state (read_providers-Lacks p (at d "providers") e))
bounded_state-Lacks p _ e = unfold lookup in refl

read_state-Lacks :
    (p path : String) (h : Host) → is_provider p ≡ false → Lacks p (read_state path h)
unfolding read_state
read_state-Lacks p path h e = elim (Option-cases (lookup path h.files)) [
  | inl missing ↦ rw (missing, read_state) (unfold lookup in refl)
  | inr (doc, found) ↦ rw (found, read_state) (bounded_state-Lacks p doc e)
]

keep_healthy :
    (p : String) (now : ℕ) (state : State) (routes : List ResolvedRoute)
    → lookup p state ≡ none
    → keep (λ r. r.provider == p) (healthy_routes now state routes)
      ≡ keep (λ r. r.provider == p) routes
unfolding cooling
keep_healthy p now state routes h =
    keep-keep_weaker (λ r. r.provider == p) (λ r. not (cooling now state r.provider))
      (λ r e. subst (λ q. not (cooling now state q) ≡ true) (sym ((eq_iff r.provider p).0 e)) warm)
      routes
  where
    warm : not (cooling now state p) ≡ true
    warm = rw (h, cooling)

-- With the health store at hand, the circuit breaker never hides a route of a provider whose name
-- `_PROVIDER` does not match, whatever the file holds and whatever failures were recorded: all its
-- routes come back, in order.
pub unmatched_name_never_cools :
    (io : Io) (path p : String) (now : ℕ) (routes rs : List ResolvedRoute) (h h' : Host)
    → is_provider p ≡ false
    → io ≢ no_store
    → order_by_health io path now routes h ≡ ok (rs, h')
    → keep (λ r. r.provider == p) rs ≡ keep (λ r. r.provider == p) routes
unmatched_name_never_cools io path p now routes rs h h' e n ran =
    let (state, g, got, eq) = order_by_health-eq-ok io path now routes h ran in
    let l : lookup p state ≡ none =
      subst (Lacks p) (persisted_state-read io path h n got) (read_state-Lacks p path h e) in
    rw eq (keep_healthy p now state routes l)
