-- ===== src/Health/Circuit.antt =====
-- src/subllm/health.py: when the circuit breaker opens, and when it closes.
use subllm.Prelude.{
  ℕ, suc, ◌+◌, ◌≤◌, String, ◌≡◌, refl, false, List, [], ◌∷◌, arith, leb, if◌then◌else◌, length, All,
}
use subllm.PolicyConfig.{ExecutionPolicyConfig}
use subllm.Health.Entry.{ProviderHealth, fail, succeed, is_uncredited, bounded_reason}

-- One call of `record_failure`.
pub record Failure : Type 0 where
  pub reason : String
  pub latency : ℕ
  pub now : ℕ

-- The failures of a run, the newest first.
pub fail_run : ExecutionPolicyConfig → List Failure → ProviderHealth → ProviderHealth
fail_run policy [] entry = entry
fail_run policy (f ∷ fs) entry = fail policy f.reason f.latency f.now (fail_run policy fs entry)

abbrev pub IsCredited : Failure → Type 0
IsCredited f = is_uncredited (bounded_reason f.reason) ≡ false

pub failures-fail_run :
    (policy : ExecutionPolicyConfig) (fs : List Failure) (entry : ProviderHealth)
    → (fail_run policy fs entry).consecutive_failures ≡ length fs + entry.consecutive_failures
unfolding fail_run fail
failures-fail_run policy [] entry = omega arith
failures-fail_run policy (f ∷ fs) entry = omega (arith, failures-fail_run policy fs entry)

-- Below the threshold the run leaves the deadline alone.
closed_run :
    (policy : ExecutionPolicyConfig) (fs : List Failure) (entry : ProviderHealth)
    → All IsCredited fs
    → suc (length fs + entry.consecutive_failures) ≤ policy.failure_threshold
    → (fail_run policy fs entry).cooldown_until ≡ entry.cooldown_until
unfolding fail_run fail
closed_run policy [] entry c h = refl
closed_run policy (f ∷ fs) entry c h = rw c.0 (
    ground (arith, closed_run policy fs entry c.1 (omega arith), failures-fail_run policy fs entry))

opens_from :
    (policy : ExecutionPolicyConfig) (entry : ProviderHealth) (f : Failure) (fs : List Failure)
    → entry.consecutive_failures ≡ 0
    → entry.cooldown_until ≡ 0
    → All IsCredited (f ∷ fs)
    → (fail_run policy (f ∷ fs) entry).cooldown_until
      ≡ (if leb policy.failure_threshold (suc (length fs)) then f.now + policy.cooldown else 0)
unfolding fail_run fail
opens_from policy entry f fs zero closed c =
    rw c.0 (ground (arith, closed_run policy fs entry c.1, failures-fail_run policy fs entry))

-- After a success that was not slow, a run of failures for transient reasons opens the circuit
-- exactly when it has reached the configured threshold, and then until `cooldown` after its last
-- failure.
pub circuit_opens :
    (policy : ExecutionPolicyConfig) (entry : ProviderHealth) (latency at : ℕ) (f : Failure)
    (fs : List Failure)
    → leb policy.slow_response latency ≡ false
    → All IsCredited (f ∷ fs)
    → (fail_run policy (f ∷ fs) (succeed policy latency at entry)).cooldown_until
      ≡ (if leb policy.failure_threshold (suc (length fs)) then f.now + policy.cooldown else 0)
unfolding succeed
circuit_opens policy entry latency at f fs quick c =
    opens_from policy (succeed policy latency at entry) f fs refl (rw quick) c
