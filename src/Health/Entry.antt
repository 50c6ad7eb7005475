-- ===== src/Health/Entry.antt =====
-- src/subllm/health.py: one provider's health, and what a failure or a success does to it. Times
-- are microseconds; a latency is the difference of two readings of a monotonic clock.
use subllm.Prelude.{
  ℕ, suc, ◌+◌, ◌/◌, ◌%◌, String, Bool, Option, none, some, List, [], ◌∷◌, ◌||◌, ltb, leb, eqb,
  if◌then◌else◌, min, codes, is_lower, is_digit, bounded_name, contains,
}
use subllm.PolicyConfig.{ExecutionPolicyConfig}

pub record ProviderHealth : Type 0 where
  pub consecutive_failures : ℕ
  pub cooldown_until : ℕ
  pub last_latency_ms : Option ℕ
  pub reason : String

abbrev pub fresh : ProviderHealth
fresh = record { consecutive_failures = 0; cooldown_until = 0; last_latency_ms = none; reason = "" }

-- `^[a-z][a-z0-9-]{0,63}$`
unfoldable pub is_provider : String → Bool
is_provider s = bounded_name is_lower (λ c. is_lower c || is_digit c || eqb c b'-') 63 (codes s)

-- `^[a-z][a-z0-9_]{0,63}$`
unfoldable pub is_reason : String → Bool
is_reason s = bounded_name is_lower (λ c. is_lower c || is_digit c || eqb c b'_') 63 (codes s)

abbrev pub uncredited_reasons : List String
uncredited_reasons = "http_401" ∷ "http_402" ∷ "http_403" ∷ "quota_exhausted" ∷ []

-- `round(seconds * 1000)`: to the nearest millisecond, and to the even one from the middle.
unfoldable pub round_ms : ℕ → ℕ
round_ms t =
    let q = t / 1000 in
    let r = t % 1000 in
    if ltb r 500 then q else if ltb 500 r then suc q else if eqb (q % 2) 0 then q else suc q

-- `max(0, min(3_600_000, round(latency_seconds * 1000)))`; the latency is not negative.
abbrev pub latency_ms : ℕ → ℕ
latency_ms t = min 3_600_000 (round_ms t)

abbrev pub bounded_reason : String → String
bounded_reason reason = if is_reason reason then reason else "provider_error"

abbrev pub is_uncredited : String → Bool
is_uncredited reason = contains uncredited_reasons reason

-- `update` of `record_failure`
unfoldable pub fail : ExecutionPolicyConfig → String → ℕ → ℕ → ProviderHealth → ProviderHealth
fail policy reason latency now entry =
    let failures = suc entry.consecutive_failures in
    let bounded = bounded_reason reason in
    record {
      consecutive_failures = failures;
      cooldown_until =
          if is_uncredited bounded
          then now + policy.uncredited_cooldown
          else if leb policy.failure_threshold failures
          then now + policy.cooldown
          else entry.cooldown_until;
      last_latency_ms = some (latency_ms latency);
      reason = bounded;
    }

-- `update` of `record_success`
unfoldable pub succeed : ExecutionPolicyConfig → ℕ → ℕ → ProviderHealth → ProviderHealth
succeed policy latency now entry =
    let slow = leb policy.slow_response latency in
    record {
      consecutive_failures = 0;
      cooldown_until = if slow then now + policy.cooldown else 0;
      last_latency_ms = some (latency_ms latency);
      reason = if slow then "slow_response" else "";
    }

abbrev pub is_cooling : ℕ → ProviderHealth → Bool
is_cooling now entry = ltb now entry.cooldown_until
