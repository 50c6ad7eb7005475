-- ===== src/PolicyConfig/Safe.antt =====
-- src/subllm/policy_config.py: what holds of a policy that is loaded from a file.
use subllm.Prelude.{
  ◌≡◌, refl, Bool, true, false, is_some, arith, Result, ok, err, >>=-eq-ok, require-eq-ok,
  ok-injective, absurd_err, subst,
}
use subllm.Dict.{Dict, lookup}
use subllm.Json.{Json, keys}
use subllm.Policy.Defaults.{execution_defaults}
use subllm.Policy.Overlay.{Catalogs}
use subllm.PolicyConfig.{ExecutionPolicyConfig, RuntimePolicyConfig}
use subllm.PolicyConfig.Application.{Loader}
use subllm.PolicyConfig.Custom.{validate_custom_provider}
use subllm.PolicyConfig.Environment.{execution_with_environment}
use subllm.PolicyConfig.Load.{
  has_schema_keys, is_hashable, version_of, read_providers, read_applications, custom_rows,
  validate_rows, are_unique, priorities, execution_if, is_third, read_policy, with_execution,
  install, load_policy,
}
use subllm.PolicyConfig.Loaded.{validated-IsWithin}
use subllm.PolicyConfig.Rows.{item}
use subllm.PolicyConfig.Within.{IsWithin, environment-IsWithin}
use subllm.Routing.Errors.{RouteError}

-- The execution is within its bounds, and no two enabled providers have the same priority.
pub record IsSafe (p : RuntimePolicyConfig) : Type 0 where
  pub within : IsWithin p.execution
  pub unique : are_unique (priorities p.providers p.custom_providers) ≡ true

defaults-IsWithin : IsWithin execution_defaults
unfolding execution_defaults
defaults-IsWithin = record {
  timeout = (omega arith, omega arith);
  slow = (omega arith, omega arith);
  cooldown = omega arith;
  threshold = (omega arith, omega arith);
  attempts = (omega arith, omega arith);
  uncredited = omega arith;
}

module _ (l : Loader) where
  execution-IsWithin :
      (doc : Dict Json) (b : Bool) (e : ExecutionPolicyConfig)
      → execution_if l doc b ≡ ok e
      → IsWithin e
  execution-IsWithin doc false e h = subst IsWithin (ok-injective h) defaults-IsWithin
  execution-IsWithin doc true e h =
      let (raw, e0, h0) = >>=-eq-ok (item doc "execution") _ h in
      validated-IsWithin l.source raw e h0

  read_policy-IsSafe :
      (c : Catalogs) (doc : Dict Json) (p : RuntimePolicyConfig)
      → read_policy l c doc ≡ ok p
      → IsSafe p
  unfolding read_policy
  read_policy-IsSafe c doc p h =
      let (k0, h00) =
        require-eq-ok (has_schema_keys l doc (version_of (lookup "schema_version" doc))) _ _ h in
      let (k1, h01) = require-eq-ok (is_hashable l (lookup "schema_version" doc)) _ _ h00 in
      let (e0, h0) = require-eq-ok (is_some (version_of (lookup "schema_version" doc))) _ _ h01 in
      let (providers, e1, h1) = >>=-eq-ok (read_providers l c doc) _ h0 in
      let (apps, e2, h2) = >>=-eq-ok (read_applications l doc) _ h1 in
      let (rows, e3, h3) = >>=-eq-ok (custom_rows doc _) _ h2 in
      let (custom, e4, h4) =
        >>=-eq-ok
          (validate_rows (validate_custom_provider l.urlsplit l.str l.source) rows (keys rows)) _
          h3 in
      let (e5, h5) = require-eq-ok (are_unique (priorities providers custom)) _ _ h4 in
      let (execution, e6, h6) =
        >>=-eq-ok (execution_if l doc (is_third l (version_of (lookup "schema_version" doc)))) _
          h5 in
      subst IsSafe (ok-injective h6)
        (record { within = execution-IsWithin doc _ execution e6; unique = e5 })

  replaced-IsSafe :
      (p q : RuntimePolicyConfig) (e : Result RouteError ExecutionPolicyConfig)
      → IsSafe p
      → execution_with_environment l.readers l.environment p.execution ≡ e
      → with_execution l p e ≡ ok q
      → IsSafe q
  replaced-IsSafe p q (err x) safe ran h = absurd_err h
  replaced-IsSafe p q (ok e) safe ran h = subst IsSafe (ok-injective h) (record {
    within = environment-IsWithin l.readers l.environment p.execution e safe.within ran;
    unique = safe.unique;
  })

  install-IsSafe :
      (r : Result RouteError RuntimePolicyConfig) (c : Catalogs) (doc : Dict Json)
      (q : RuntimePolicyConfig)
      → read_policy l c doc ≡ r
      → (install l r c).0 ≡ ok q
      → IsSafe q
  install-IsSafe (err x) c doc q ran h = absurd_err h
  install-IsSafe (ok p) c doc q ran h =
      replaced-IsSafe p q (execution_with_environment l.readers l.environment p.execution)
        (read_policy-IsSafe c doc p ran) refl h

  -- A policy that is loaded from a file has an execution within the bounds, whatever the environment
  -- replaces, and no two enabled providers, built-in or custom, of the same priority.
  pub load_policy-IsSafe :
      (doc : Dict Json) (c : Catalogs) (p : RuntimePolicyConfig)
      → (load_policy l doc c).0 ≡ ok p
      → IsSafe p
  unfolding load_policy
  load_policy-IsSafe doc c p h = install-IsSafe (read_policy l c doc) c doc p refl h
