-- ===== src/Health/Bounds.antt =====
-- src/subllm/health.py: the bounds that `_bounded_state` demands hold of what the operations write.
use subllm.Prelude.{
  ℕ, suc, ◌+◌, ◌≤◌, String, ◌≡◌, refl, true, Option, none, some, [], ◌∷◌, ◌||◌, arith, ◌==◌, leb,
  Bool-cases, inl, inr, or_else, All,
}
use subllm.Dict.{insert, lookup}
use subllm.PolicyConfig.{ExecutionPolicyConfig}
use subllm.Health.Entry.{ProviderHealth, fresh, fail, succeed, is_reason, bounded_reason}
use subllm.Health.File.{State, max_failures, max_latency, max_cooldown}
use subllm.Health.Store.{update_entry}

abbrev pub LatencyBound : Option ℕ → Type 0
LatencyBound none = Unit
LatencyBound (some n) = n ≤ max_latency

pub record IsBounded (e : ProviderHealth) : Type 0 where
  pub failures : e.consecutive_failures ≤ max_failures
  pub cooldown : e.cooldown_until ≤ max_cooldown
  pub latency : LatencyBound e.last_latency_ms
  pub reason : (e.reason == "" || is_reason e.reason) ≡ true

abbrev pub AllBounded : State → Type 0
AllBounded state = All (λ (r : String × ProviderHealth). IsBounded r.1) state

bounded_reason-is_reason : (s : String) → is_reason (bounded_reason s) ≡ true
unfolding is_reason
bounded_reason-is_reason s = elim (Bool-cases (is_reason s)) [ inl e ↦ rw e e | inr e ↦ rw e refl ]

pub fail-IsBounded :
    (policy : ExecutionPolicyConfig) (reason : String) (latency now : ℕ) (e : ProviderHealth)
    → suc e.consecutive_failures ≤ max_failures
    → now + policy.cooldown ≤ max_cooldown
    → now + policy.uncredited_cooldown ≤ max_cooldown
    → IsBounded e
    → IsBounded (fail policy reason latency now e)
unfolding fail
fail-IsBounded policy reason latency now e room c u b = record {
  failures = room;
  cooldown = ground (arith, b.cooldown);
  latency = omega arith;
  reason = rw bounded_reason-is_reason (ground arith);
}

pub succeed-IsBounded :
    (policy : ExecutionPolicyConfig) (latency now : ℕ) (e : ProviderHealth)
    → now + policy.cooldown ≤ max_cooldown
    → IsBounded (succeed policy latency now e)
unfolding succeed is_reason
succeed-IsBounded policy latency now e c = record {
  failures = omega arith;
  cooldown = ground arith;
  latency = omega arith;
  reason = elim (Bool-cases (leb policy.slow_response latency)) [
    | inl slow ↦ rw slow refl
    | inr quick ↦ rw quick refl
  ];
}

pub insert-AllBounded :
    (provider : String) (v : ProviderHealth) (state : State)
    → AllBounded state
    → IsBounded v
    → AllBounded (insert provider v state)
unfolding insert
insert-AllBounded provider v [] b h = (h, tt)
insert-AllBounded provider v ((j, w) ∷ state) b h = elim (Bool-cases (j == provider)) [
  | inl e ↦ rw e (h, b.1)
  | inr e ↦ rw e (b.0, insert-AllBounded provider v state b.1 h)
]

lookup-AllBounded :
    (provider : String) (state : State)
    → AllBounded state
    → IsBounded (or_else (lookup provider state) fresh)
unfolding lookup
lookup-AllBounded provider [] b = record {
  failures = omega arith;
  cooldown = omega arith;
  latency = tt;
  reason = refl;
}
lookup-AllBounded provider ((j, w) ∷ state) b = elim (Bool-cases (j == provider)) [
  | inl e ↦ rw (e, lookup) b.0
  | inr e ↦ rw (e, lookup) (lookup-AllBounded provider state b.1)
]

-- The recorded failure keeps every row of the state within what a later read accepts, while the
-- count has room and the deadlines lie before the year 3000.
pub fail-AllBounded :
    (policy : ExecutionPolicyConfig) (provider reason : String) (latency now : ℕ) (state : State)
    → suc (or_else (lookup provider state) fresh).consecutive_failures ≤ max_failures
    → now + policy.cooldown ≤ max_cooldown
    → now + policy.uncredited_cooldown ≤ max_cooldown
    → AllBounded state
    → AllBounded (update_entry provider (fail policy reason latency now) state)
unfolding update_entry
fail-AllBounded policy provider reason latency now state room c u b =
    insert-AllBounded provider _ state b
      (fail-IsBounded policy reason latency now _ room c u (lookup-AllBounded provider state b))

pub succeed-AllBounded :
    (policy : ExecutionPolicyConfig) (provider : String) (latency now : ℕ) (state : State)
    → now + policy.cooldown ≤ max_cooldown
    → AllBounded state
    → AllBounded (update_entry provider (succeed policy latency now) state)
unfolding update_entry
succeed-AllBounded policy provider latency now state c b =
    insert-AllBounded provider _ state b (succeed-IsBounded policy latency now _ c)
