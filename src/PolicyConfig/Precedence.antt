-- ===== src/PolicyConfig/Precedence.antt =====
-- src/subllm/policy_config.py: which name decides the timeout of an attempt, by the table that the
-- docstring of `resolve_attempt_timeout` gives.
use subllm.Prelude.{
  ℕ, pos, negsuc, ap, ◌∙◌, and_parts, not-true, ◌&&◌, String, ◌⧺◌, ◌==◌, eq_iff, not, ◌≡◌, ◌≢◌,
  refl, false, Bool-cases, Option, none, some, is_some, List, [], ◌∷◌, ◌++◌, inl, inr, arith,
  Result, ok, err, if◌then◌else◌,
}
use subllm.Dict.{Dict, lookup}
use subllm.PolicyConfig.Environment.{
  Readers, Number, finite, not_finite, is_between, first_set, timeout_from, timeout_keys,
  environment_number, resolve_attempt_timeout, parsed, normalize_timeout_key_part, in_range,
  general_keys, keys_if,
}
use subllm.PolicyConfig.Within.{Between}
use subllm.Routing.Keys.{unequal, same-false}
use subllm.Routing.Errors.{RouteError, invalid_policy}

-- What a name may be about.
pub data Scope : Type 0 where
  provider_and_model : Scope
  model_by_kind model_alone : Scope
  provider_by_kind provider_alone : Scope
  attempts all_calls by_default : Scope

-- From the most special one on.
abbrev pub precedence : List Scope
precedence =
    provider_and_model ∷ model_by_kind ∷ model_alone ∷ provider_by_kind ∷ provider_alone ∷ attempts
    ∷ all_calls ∷ by_default ∷ []

-- The name is the variable of the scope, for the normalised names of a provider and a model. A name that
-- is empty after that has none.
abbrev pub IsName : String → String → Scope → String → Type 0
IsName provider model provider_and_model n =
    (provider ≢ "") × (model ≢ "") × (n ≡ "SUBLLM_TIMEOUT_" ⧺ provider ⧺ "_" ⧺ model)
IsName provider model model_by_kind n = (model ≢ "") × (n ≡ "SUBLLM_TIMEOUT_MODEL_" ⧺ model)
IsName provider model model_alone n = (model ≢ "") × (n ≡ "SUBLLM_TIMEOUT_" ⧺ model)
IsName provider model provider_by_kind n =
    (provider ≢ "") × (n ≡ "SUBLLM_TIMEOUT_PROVIDER_" ⧺ provider)
IsName provider model provider_alone n = (provider ≢ "") × (n ≡ "SUBLLM_TIMEOUT_" ⧺ provider)
IsName provider model attempts n = n ≡ "SUBLLM_ATTEMPT_TIMEOUT_SECONDS"
IsName provider model all_calls n = n ≡ "SUBLLM_TIMEOUT_SECONDS"
IsName provider model by_default n = n ≡ "SUBLLM_TIMEOUT_DEFAULT"

-- What the text of a variable gives: from 0.1 to 3600 seconds, or an error.
pub data IsRead (name : String) (v : Option Number) : Result RouteError ℕ → Type 0 where
  in_time :
      {n : ℕ} → v ≡ some (finite (pos n)) → Between 100_000 3_600_000_000 n → IsRead name v (ok n)
  no_number :
      v ≡ none → IsRead name v (err (invalid_policy ("runtime " ⧺ name ⧺ " must be a number")))
  out_of_time :
      (x : Number)
      → v ≡ some x
      → ((n : ℕ) → Between 100_000 3_600_000_000 n → x ≢ finite (pos n))
      → IsRead name v (err (invalid_policy ("runtime " ⧺ name ⧺ " must be from 0.1 to 3600")))

abbrev magnitude : Number → ℕ
magnitude (finite (pos n)) = n
magnitude _ = 0

in_range-IsRead : (name : String) (x : Number) → IsRead name (some x) (parsed name (some x))
unfolding in_range
in_range-IsRead name not_finite = out_of_time not_finite refl (λ n b e. cc)
in_range-IsRead name (finite (negsuc m)) = out_of_time _ refl (λ n b e. cc)
in_range-IsRead name (finite (pos m)) = elim (Bool-cases (is_between 100_000 3_600_000_000 m)) [
  | inl e ↦ rw e (in_time refl (ground (arith, e)))
  | inr e ↦
      rw e (
        out_of_time _ refl (λ n b same. let equal : m ≡ n = ap magnitude same in ground (arith, e)))
]

parsed-IsRead : (name : String) (v : Option Number) → IsRead name v (parsed name v)
parsed-IsRead name none = no_number refl
parsed-IsRead name (some x) = in_range-IsRead name x

module _ (r : Readers) (environment : Dict String) (provider model : String) (default : ℕ) where
  -- The first scope whose variable is set decides; where none is, the default of the policy.
  pub data IsDecided : List Scope → Result RouteError ℕ → Type 0 where
    by_set :
        {s : Scope} {ss : List Scope} {out : Result RouteError ℕ} (name raw : String)
        → IsName provider model s name
        → lookup name environment ≡ some raw
        → IsRead name (r.to_float raw) out
        → IsDecided (s ∷ ss) out
    past_unset :
        {s : Scope} {ss : List Scope} {out : Result RouteError ℕ}
        → ((name : String) → IsName provider model s name → lookup name environment ≡ none)
        → IsDecided ss out
        → IsDecided (s ∷ ss) out
    by_policy :
        {out : Result RouteError ℕ}
        → IsRead "policy_timeout" (some (finite (pos default))) out
        → IsDecided [] out

  abbrev outcome : List String → Result RouteError ℕ
  outcome ks = timeout_from r environment default (first_set environment ks)

  -- One more name before the others.
  named-IsDecided :
      (s : Scope) (ss : List Scope) (key : String) (ks : List String)
      → IsName provider model s key
      → ((name : String) → IsName provider model s name → name ≡ key)
      → IsDecided ss (outcome ks)
      → IsDecided (s ∷ ss) (outcome (key ∷ ks))
  unfolding first_set environment_number
  named-IsDecided s ss key ks named only rest =
      elim (lookup key environment)
          as (λ o.
            lookup key environment ≡ o
            → IsDecided (s ∷ ss) (
                timeout_from r environment default
                  (if is_some o then some key else first_set environment ks))) [
                    | none ↦ λ e.
                        past_unset (λ name h. ap (λ n. lookup n environment) (only name h) ∙ e) rest
                    | some raw ↦
                        λ e. rw e (by_set key raw named e (parsed-IsRead key (r.to_float raw)))
                  ]
        refl

  general-IsDecided : IsDecided (attempts ∷ all_calls ∷ by_default ∷ []) (outcome general_keys)
  unfolding first_set
  general-IsDecided =
      named-IsDecided attempts _ _ ("SUBLLM_TIMEOUT_SECONDS" ∷ "SUBLLM_TIMEOUT_DEFAULT" ∷ []) refl
        (λ n h. h)
        (named-IsDecided all_calls _ _ ("SUBLLM_TIMEOUT_DEFAULT" ∷ []) refl (λ n h. h)
          (named-IsDecided by_default [] _ [] refl (λ n h. h)
            (by_policy (in_range-IsRead "policy_timeout" (finite (pos default))))))

  abbrev of_provider : List String
  of_provider =
      keys_if (not (provider == ""))
        (("SUBLLM_TIMEOUT_PROVIDER_" ⧺ provider) ∷ ("SUBLLM_TIMEOUT_" ⧺ provider) ∷ [])
      ++ general_keys

  provider-IsDecided :
      IsDecided
        (provider_by_kind ∷ provider_alone ∷ attempts ∷ all_calls ∷ by_default ∷ [])
        (outcome of_provider)
  provider-IsDecided = elim (Bool-cases (provider == "")) [
    | inl e ↦
        let nothing : provider ≡ "" = (eq_iff provider "").0 e in
        rw e (
          past_unset (λ n h. absurd (h.0 nothing))
            (past_unset (λ n h. absurd (h.0 nothing)) general-IsDecided))
    | inr e ↦
        let something : provider ≢ "" = unequal provider "" e in
        rw e (
          named-IsDecided provider_by_kind _ _ (("SUBLLM_TIMEOUT_" ⧺ provider) ∷ general_keys)
            (something, refl) (λ n h. h.1)
            (named-IsDecided provider_alone _ _ general_keys (something, refl) (λ n h. h.1)
              general-IsDecided))
  ]

  abbrev of_model : List String
  of_model =
      keys_if (not (model == ""))
        (("SUBLLM_TIMEOUT_MODEL_" ⧺ model) ∷ ("SUBLLM_TIMEOUT_" ⧺ model) ∷ [])
      ++ of_provider

  model-IsDecided :
      IsDecided
        (model_by_kind ∷ model_alone ∷ provider_by_kind ∷ provider_alone ∷ attempts ∷ all_calls
          ∷ by_default ∷ [])
        (outcome of_model)
  model-IsDecided = elim (Bool-cases (model == "")) [
    | inl e ↦
        let nothing : model ≡ "" = (eq_iff model "").0 e in
        rw e (
          past_unset (λ n h. absurd (h.0 nothing))
            (past_unset (λ n h. absurd (h.0 nothing)) provider-IsDecided))
    | inr e ↦
        let something : model ≢ "" = unequal model "" e in
        rw e (
          named-IsDecided model_by_kind _ _ (("SUBLLM_TIMEOUT_" ⧺ model) ∷ of_provider)
            (something, refl) (λ n h. h.1)
            (named-IsDecided model_alone _ _ of_provider (something, refl) (λ n h. h.1)
              provider-IsDecided))
  ]

  both-IsDecided : IsDecided precedence (
      outcome (
        keys_if
          (not (provider == "") && not (model == ""))
          (("SUBLLM_TIMEOUT_" ⧺ provider ⧺ "_" ⧺ model) ∷ [])
        ++ of_model))
  both-IsDecided = elim (Bool-cases (not (provider == "") && not (model == ""))) [
    | inl e ↦
        let (p, m) = and_parts (not (provider == "")) _ e in
        rw e (
          named-IsDecided provider_and_model _ _ of_model
            (unequal provider "" (not-true _ p), unequal model "" (not-true _ m), refl) (λ n h. h.2)
            model-IsDecided)
    | inr e ↦ rw e (past_unset (λ n h. absurd (missing e h.0 h.1)) model-IsDecided)
  ]
    where
      missing : (not (provider == "") && not (model == "")) ≡ false → provider ≢ "" → model ≢ "" → ⊥
      missing e p m = cc (rw (same-false provider "" p, same-false model "" m) at e)

-- Of the scopes that may set the timeout of an attempt, from the provider with the model, over the model
-- and the provider, to the names for all calls, the first whose variable is set decides, a name that is
-- empty after normalisation having no variables; where none is set, the default decides. What decides is
-- returned if it is a number from 0.1 to 3600 seconds, and is refused with its name otherwise.
pub resolve_attempt_timeout-IsDecided :
    (r : Readers) (environment : Dict String) (provider model : String) (default : ℕ)
    → IsDecided r environment
        (normalize_timeout_key_part r provider)
        (normalize_timeout_key_part r model)
        default
        precedence
        (resolve_attempt_timeout r environment provider model default)
unfolding resolve_attempt_timeout timeout_keys
resolve_attempt_timeout-IsDecided r environment provider model default =
    both-IsDecided r environment (normalize_timeout_key_part r provider)
      (normalize_timeout_key_part r model) default
