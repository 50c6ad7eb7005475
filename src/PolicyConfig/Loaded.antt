-- ===== src/PolicyConfig/Loaded.antt =====
-- src/subllm/policy_config.py: the settings of an execution that a file gives.
use subllm.Prelude.{
  ℕ, ◌≤◌, String, ◌≡◌, Option, none, some, arith, leb, ok, >>=-eq-ok, require-eq-ok, ok-injective,
  subst,
}
use subllm.Dict.{Dict, lookup}
use subllm.Json.{Json}
use subllm.PolicyConfig.{ExecutionPolicyConfig}
use subllm.PolicyConfig.Rows.{
  table, item, flag, number, bounded_number, uncredited, has_execution_keys, validate_execution,
  read_execution, count, time, limits,
}
use subllm.PolicyConfig.Within.{Between, IsWithin, in_range-Between, integer-Between}

bounded_number-Between :
    (source : String) (raw : Json) (name : String) (low high : ℕ) (range : String) {n : ℕ}
    → bounded_number source raw name low high range ≡ ok n
    → Between low high n
unfolding bounded_number
bounded_number-Between source raw name low high range h =
    let (v, e, g) = >>=-eq-ok (number raw _) _ h in in_range-Between low high v _ g

uncredited-le :
    (source : String) (o : Option Json) {n : ℕ} → uncredited source o ≡ ok n → n ≤ 604_800_000_000
uncredited-le source none h = subst (λ m. m ≤ 604_800_000_000) (ok-injective h) (omega arith)
uncredited-le source (some raw) h =
    (bounded_number-Between source raw "uncredited_cooldown_seconds" 0 604_800_000_000 "0 to 604800"
      h).1

count-Between :
    (source : String) (row : Dict Json) (name : String) {n : ℕ}
    → count source row name ≡ ok n
    → Between 1 10 n
unfolding count
count-Between source row name h =
    let (raw, e, g) = >>=-eq-ok (item row name) _ h in integer-Between 1 10 raw _ g

time-Between :
    (source : String) (row : Dict Json) (name : String) (low high : ℕ) (range : String) {n : ℕ}
    → time source row name low high range ≡ ok n
    → Between low high n
unfolding time
time-Between source row name low high range h =
    let (raw, e, g) = >>=-eq-ok (item row name) _ h in
    bounded_number-Between source raw name low high range g

limits-Between :
    (source : String) (row : Dict Json) (times : ℕ × ℕ)
    → limits source row ≡ ok times
    → Between 100_000 3_600_000_000 times.0 × Between 100_000 times.0 times.1
unfolding limits
limits-Between source row times h =
    let (timeout, e0, h0) =
      >>=-eq-ok (time source row "attempt_timeout_seconds" 100_000 3_600_000_000 "0.1 to 3600") _
        h in
    let (slow, e1, h1) =
      >>=-eq-ok (time source row "slow_response_seconds" 100_000 3_600_000_000 "0.1 to 3600") _
        h0 in
    let (e2, h2) = require-eq-ok (leb slow timeout) _ _ h1 in
    let low =
      time-Between source row "slow_response_seconds" 100_000 3_600_000_000 "0.1 to 3600" e1 in
    subst (λ (t : ℕ × ℕ). Between 100_000 3_600_000_000 t.0 × Between 100_000 t.0 t.1)
      (ok-injective h2)
      (
        time-Between source row "attempt_timeout_seconds" 100_000 3_600_000_000 "0.1 to 3600" e0,
        (low.0, ground (arith, e2)),
      )

read_execution-IsWithin :
    (source : String) (row : Dict Json) (e : ExecutionPolicyConfig)
    → read_execution source row ≡ ok e
    → IsWithin e
unfolding read_execution
read_execution-IsWithin source row e h =
    let (enabled_row, e0, h0) = >>=-eq-ok (item row "failover_enabled") _ h in
    let (enabled, e1, h1) = >>=-eq-ok (flag enabled_row _) _ h0 in
    let (threshold, e2, h2) = >>=-eq-ok (count source row "failure_threshold") _ h1 in
    let (attempts, e3, h3) = >>=-eq-ok (count source row "max_attempts") _ h2 in
    let (times, e4, h4) = >>=-eq-ok (limits source row) _ h3 in
    let (refused, e5, h5) =
      >>=-eq-ok (uncredited source (lookup "uncredited_cooldown_seconds" row)) _ h4 in
    let (cooldown, e6, h6) =
      >>=-eq-ok (time source row "cooldown_seconds" 0 86_400_000_000 "0 to 86400") _ h5 in
    let limit = limits-Between source row times e4 in
    let counted = count-Between source row "failure_threshold" e2 in
    subst IsWithin (ok-injective h6) (record {
      timeout = limit.0;
      slow = limit.1;
      cooldown = (time-Between source row "cooldown_seconds" 0 86_400_000_000 "0 to 86400" e6).1;
      threshold = (counted.0, omega (arith, counted.1));
      attempts = count-Between source row "max_attempts" e3;
      uncredited = uncredited-le source (lookup "uncredited_cooldown_seconds" row) e5;
    })

pub validated-IsWithin :
    (source : String) (raw : Json) (e : ExecutionPolicyConfig)
    → validate_execution source raw ≡ ok e
    → IsWithin e
unfolding validate_execution
validated-IsWithin source raw e h =
    let (row, e0, h0) = >>=-eq-ok (table raw _) _ h in
    let (e1, h1) = require-eq-ok (has_execution_keys source row) _ _ h0 in
    read_execution-IsWithin source row e h1
