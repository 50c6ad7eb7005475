-- ===== src/PolicyConfig/Within.antt =====
-- src/subllm/policy_config.py: the bounds of the settings of an execution.
use subllm.Prelude.{
  ℕ, ◌≤◌, String, ◌≡◌, Option, none, some, arith, leb, ℤ, pos, negsuc, ok, require, >>=-eq-ok,
  guarded, require-true, ok-injective, absurd_err, subst,
}
use subllm.Dict.{Dict, lookup}
use subllm.Json.{Json, int}
use subllm.PolicyConfig.{ExecutionPolicyConfig}
use subllm.PolicyConfig.Environment.{
  Number, finite, not_finite, Readers, is_between, in_range, parsed, number_or, environment_number,
  first_set, general_timeout, slow_response, slow_or, slow_name, general_keys, threshold_of,
  cooldown_of, cooldown_name, failure_threshold, uncredited_cooldown, execution_with_environment,
}
use subllm.PolicyConfig.Rows.{integer}
use subllm.Routing.Errors.{RouteError}

-- The value is in a range.
abbrev pub Between : ℕ → ℕ → ℕ → Type 0
Between low high n = (low ≤ n) × (n ≤ high)

pub in_range-Between :
    (low high : ℕ) (v : Number) (e : RouteError) {n : ℕ}
    → in_range low high v e ≡ ok n
    → Between low high n
unfolding in_range
in_range-Between low high (finite (pos m)) e {n} h =
    let parts = guarded (require (is_between low high m) e) m h in
    let held = require-true (is_between low high m) e parts.0 in
    subst (Between low high) parts.1 (ground (arith, held))
in_range-Between low high (finite (negsuc m)) e h = absurd_err h
in_range-Between low high not_finite e h = absurd_err h

pub integer-Between :
    (low high : ℕ) (raw : Json) (e : RouteError) {n : ℕ}
    → integer low high raw e ≡ ok n
    → Between low high n
unfolding integer
integer-Between low high (int (pos m)) e h =
    let parts = guarded (require (is_between low high m) e) m h in
    let held = require-true (is_between low high m) e parts.0 in
    subst (Between low high) parts.1 (ground (arith, held))
integer-Between low high other e h = absurd_err h

pub parsed-Between :
    (name : String) (o : Option Number) {n : ℕ}
    → parsed name o ≡ ok n
    → Between 100_000 3_600_000_000 n
parsed-Between name none h = absurd_err h
parsed-Between name (some v) h = in_range-Between 100_000 3_600_000_000 v _ h

threshold_of-Between : (o : Option ℤ) {n : ℕ} → threshold_of o ≡ ok n → Between 1 100 n
threshold_of-Between none h = absurd_err h
threshold_of-Between (some (pos m)) h =
    let parts = guarded (require (is_between 1 100 m) _) m h in
    let held = require-true (is_between 1 100 m) _ parts.0 in
    subst (Between 1 100) parts.1 (ground (arith, held))
threshold_of-Between (some (negsuc m)) h = absurd_err h

cooldown_of-le : (o : Option Number) {n : ℕ} → cooldown_of o ≡ ok n → n ≤ 604_800_000_000
cooldown_of-le none h = absurd_err h
cooldown_of-le (some v) h = (in_range-Between 0 604_800_000_000 v _ h).1

number_or-Between :
    (r : Readers) (name : String) (default : ℕ) (o : Option String) {n : ℕ}
    → Between 100_000 3_600_000_000 default
    → number_or r name default o ≡ ok n
    → Between 100_000 3_600_000_000 n
number_or-Between r name default none within h =
    subst (Between 100_000 3_600_000_000) (ok-injective h) within
number_or-Between r name default (some raw) within h = parsed-Between name (r.to_float raw) h

-- The settings of an execution keep the bounds of the policy.
pub record IsWithin (e : ExecutionPolicyConfig) : Type 0 where
  pub timeout : Between 100_000 3_600_000_000 e.attempt_timeout
  pub slow : Between 100_000 e.attempt_timeout e.slow_response
  pub cooldown : e.cooldown ≤ 86_400_000_000
  pub threshold : Between 1 100 e.failure_threshold
  pub attempts : Between 1 10 e.max_attempts
  pub uncredited : e.uncredited_cooldown ≤ 604_800_000_000

general-Between :
    (r : Readers) (environment : Dict String) (default : ℕ) (key : Option String) {n : ℕ}
    → Between 100_000 3_600_000_000 default
    → general_timeout r environment default key ≡ ok n
    → Between 100_000 3_600_000_000 n
unfolding environment_number
general-Between r environment default none within h =
    subst (Between 100_000 3_600_000_000) (ok-injective h) within
general-Between r environment default (some key) within h =
    number_or-Between r key default (lookup key environment) within h

slow-Between :
    (r : Readers) (environment : Dict String) (timeout default : ℕ) (o : Option String) {n : ℕ}
    → Between 100_000 3_600_000_000 timeout
    → Between 100_000 3_600_000_000 default
    → slow_or r environment timeout default o ≡ ok n
    → Between 100_000 timeout n
unfolding environment_number
slow-Between r environment timeout default none t d h =
    subst (Between 100_000 timeout) (ok-injective h) (omega (arith, t.0, d.0), omega arith)
slow-Between r environment timeout default (some raw) t d h =
    let (slow, e, g) = >>=-eq-ok (environment_number r environment slow_name default) _ h in
    let parts = guarded (require (leb slow timeout) _) slow g in
    let held = require-true (leb slow timeout) _ parts.0 in
    let low = number_or-Between r slow_name default (lookup slow_name environment) d e in
    subst (Between 100_000 timeout) parts.1 (low.0, ground (arith, held))

threshold-Between :
    (r : Readers) (default : ℕ) (o : Option String) {n : ℕ}
    → Between 1 100 default
    → failure_threshold r default o ≡ ok n
    → Between 1 100 n
unfolding failure_threshold
threshold-Between r default none d h = subst (Between 1 100) (ok-injective h) d
threshold-Between r default (some raw) d h = threshold_of-Between (r.to_int raw) h

uncredited-le :
    (r : Readers) (default : ℕ) (o : Option String) {n : ℕ}
    → default ≤ 604_800_000_000
    → uncredited_cooldown r default o ≡ ok n
    → n ≤ 604_800_000_000
unfolding uncredited_cooldown
uncredited-le r default none d h = subst (λ m. m ≤ 604_800_000_000) (ok-injective h) d
uncredited-le r default (some raw) d h = cooldown_of-le (r.to_float raw) h

pub environment-IsWithin :
    (r : Readers) (environment : Dict String) (e out : ExecutionPolicyConfig)
    → IsWithin e
    → execution_with_environment r environment e ≡ ok out
    → IsWithin out
unfolding execution_with_environment slow_response
environment-IsWithin r environment e out within h =
    let (timeout, e0, h0) =
      >>=-eq-ok
        (general_timeout r environment e.attempt_timeout (first_set environment general_keys)) _
        h in
    let (slow, e1, h1) = >>=-eq-ok (slow_response r environment timeout e.slow_response) _ h0 in
    let (threshold, e2, h2) =
      >>=-eq-ok
        (failure_threshold r e.failure_threshold (lookup "SUBLLM_FAILURE_THRESHOLD" environment)) _
        h1 in
    let (refused, e3, h3) =
      >>=-eq-ok (uncredited_cooldown r e.uncredited_cooldown (lookup cooldown_name environment)) _
        h2 in
    let t = general-Between r environment e.attempt_timeout _ within.timeout e0 in
    let before = within.slow in
    subst IsWithin (ok-injective h3) (record {
      timeout = t;
      slow =
          slow-Between r environment timeout e.slow_response (lookup slow_name environment) t
            (before.0, omega (arith, before.1, within.timeout.1)) e1;
      cooldown = within.cooldown;
      threshold = threshold-Between r e.failure_threshold _ within.threshold e2;
      attempts = within.attempts;
      uncredited = uncredited-le r e.uncredited_cooldown _ within.uncredited e3;
    })
