-- ===== src/PolicyConfig/Usable.antt =====
-- src/subllm/policy_config.py: a custom provider that is validated and registered can be used.
use subllm.Prelude.{
  String, ◌≡◌, refl, true, false, Bool-cases, not, not-true, inl, inr, some, is_some, List, [], ◌∷◌,
  ◌==◌, eq_iff, eq_refl, contains, all, All, Result, ok, >>=-eq-ok, require-eq-ok, ok-injective,
  subst,
}
use subllm.Dict.{Dict, lookup}
use subllm.Json.{Json, keys}
use subllm.Policy.Defaults.{provider_defaults}
use subllm.Policy.Overlay.{Catalogs, find, register_custom_provider}
use subllm.Policy.Registered.{register_custom_provider-Serves, IsServed}
use subllm.PolicyConfig.{CustomProviderConfig}
use subllm.PolicyConfig.Custom.{
  Url, is_custom_id, api_base_of, key_env_of, text_or_empty, models_of, default_of, with_default,
  list_or, parameters_or, priority_or, enabled_or, read_custom, allowed_fields,
  validate_custom_provider, spec_of,
}
use subllm.PolicyConfig.Rows.{table}
use subllm.Routing.Errors.{RouteError}

module _ (urlsplit : String → Result RouteError Url) (str : Json → String)
    (source name : String) where
  -- The configuration has the name, and its default model is among its models.
  record IsUsable (custom : CustomProviderConfig) : Type 0 where
    named : custom.id ≡ name
    listed : contains custom.models custom.default_model ≡ true

  default-contains :
      (default : String) (models : List String)
      → contains (with_default urlsplit str source name default models) default ≡ true
  default-contains default models = elim (Bool-cases (contains models default)) [
    | inl e ↦ rw e e
    | inr e ↦ rw e (rw (eq_refl default) refl)
  ]

  read_custom-IsUsable :
      (row : Dict Json) (custom : CustomProviderConfig)
      → read_custom urlsplit str source name row ≡ ok custom
      → IsUsable custom
  unfolding read_custom
  read_custom-IsUsable row custom h =
      let (base, e0, h0) = >>=-eq-ok (api_base_of urlsplit str source name row) _ h in
      let (key, e1, h1) = >>=-eq-ok (key_env_of urlsplit str source name row) _ h0 in
      let (listed, e2, h2) = >>=-eq-ok (models_of urlsplit str source name row) _ h1 in
      let (given, e3, h3) =
        >>=-eq-ok (text_or_empty urlsplit str source name row "default_model") _ h2 in
      let (priority, e4, h4) =
        >>=-eq-ok (priority_or urlsplit str source name (lookup "priority" row)) _ h3 in
      let (enabled, e5, h5) =
        >>=-eq-ok (enabled_or urlsplit str source name (lookup "enabled" row)) _ h4 in
      let (routes, e6, h6) =
        >>=-eq-ok (list_or urlsplit str source name ("all" ∷ []) (lookup "routes" row) _) _ h5 in
      let (parameters, e7, h7) =
        >>=-eq-ok (parameters_or urlsplit str source name (lookup "model_parameters" row)) _ h6 in
      subst IsUsable (ok-injective h7) (record {
        named = refl;
        listed = default-contains (default_of urlsplit str source name given listed) listed;
      })

  validated-IsUsable :
      (raw : Json) (custom : CustomProviderConfig)
      → validate_custom_provider urlsplit str source name raw ≡ ok custom
      → IsUsable custom × (is_some (lookup name provider_defaults) ≡ false)
  unfolding validate_custom_provider
  validated-IsUsable raw custom h =
      let (e0, h0) = require-eq-ok (is_custom_id name) _ _ h in
      let (e1, h1) = require-eq-ok (not (is_some (lookup name provider_defaults))) _ _ h0 in
      let (row, e2, h2) = >>=-eq-ok (table raw _) _ h1 in
      let (e3, h3) =
        require-eq-ok (all (contains (allowed_fields urlsplit str source name)) (keys row)) _ _
          h2 in
      (read_custom-IsUsable row custom h3, not-true (is_some (lookup name provider_defaults)) e1)

  member-All :
      (P : String → Type 0) (names : List String) (k : String)
      → All P names
      → contains names k ≡ true
      → P k
  member-All P [] k h e = cc
  member-All P (x ∷ xs) k h e = elim (Bool-cases (x == k)) [
    | inl same ↦ subst P ((eq_iff x k).0 same) h.0
    | inr other ↦ member-All P xs k h.1 (rw other at e)
  ]

  -- A row of `custom_providers` that is valid is of no built-in provider, and after what it says is
  -- registered, the catalogs find the provider under the row's name, and its default model, served through
  -- it under its own name.
  pub validate_custom_provider-IsServed :
      (raw : Json) (custom : CustomProviderConfig) (c : Catalogs)
      → validate_custom_provider urlsplit str source name raw ≡ ok custom
      → let after = register_custom_provider (spec_of custom) custom.models c in
        (is_some (lookup name provider_defaults) ≡ false)
        × (find name after.providers ≡ some (spec_of custom))
        × IsServed name after.models custom.default_model
  unfolding spec_of
  validate_custom_provider-IsServed raw custom c h =
      let (usable, own) = validated-IsUsable raw custom h in
      let after = register_custom_provider (spec_of custom) custom.models c in
      let (found, served) = register_custom_provider-Serves (spec_of custom) custom.models c in
      (
        own,
        subst (λ k. find k after.providers ≡ some (spec_of custom)) usable.named found,
        subst (λ k. IsServed k after.models custom.default_model) usable.named
            (member-All (IsServed custom.id after.models) custom.models custom.default_model served
              usable.listed),
      )
