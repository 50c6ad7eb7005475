-- ===== src/Policy/Kept.antt =====
-- src/subllm/policy.py: what the built-in entries keep when custom providers are registered.
use subllm.Prelude.{
  String, ◌≡◌, refl, sym, ap, ◌∙◌, subst, false, Bool-cases, none, some, List, [], ◌∷◌, ◌==◌,
  eq_iff, eq_refl, inl, inr, if-true, if-false,
}
use subllm.Dict.{lookup}
use subllm.Types.{ProviderSpec, ModelSpec}
use subllm.Policy.Overlay.{
  Catalog, Catalogs, first_of, extended, find, clear_custom, serve_also, registered_model,
  register_model, custom_model, register_models, register_custom_provider, clear_custom_providers,
  Change, register, clear, change, changes,
}
use subllm.Policy.Registered.{find-register_model, lookup-serve_also}

-- The model has the built-in one's name and the same two controls.
abbrev pub IsGuarded : ModelSpec → ModelSpec → Type 0
IsGuarded b m = (m.id ≡ b.id) × (m.forbidden ≡ b.forbidden) × (m.vision ≡ b.vision)

-- Where the built-in model `b` is found, a model with its controls is.
record IsKept (k : String) (b : ModelSpec) (c : Catalog ModelSpec) : Type 0 where
  built_in : lookup k c.base ≡ some b
  model : ModelSpec
  found : find k c ≡ some model
  kept : IsGuarded b model

register-IsKept :
    (k : String) (b spec : ModelSpec) (c : Catalog ModelSpec)
    → IsKept k b c
    → IsKept k b (register_model spec c)
unfolding register_model registered_model serve_also
register-IsKept k b spec c h = elim (Bool-cases (spec.id == k)) [
  | inl e ↦ record {
    built_in = h.built_in;
    model = registered_model spec c;
    found = find-register_model spec c k ∙ if-true _ _ (spec.id == k) e;
    kept =
        subst (λ o. IsGuarded b (extended spec o (lookup spec.id c.custom)))
          (sym (ap (λ q. lookup q c.base) ((eq_iff spec.id k).0 e) ∙ h.built_in))
          (refl, refl, refl);
  }
  | inr e ↦ record {
    built_in = h.built_in;
    model = h.model;
    found = find-register_model spec c k ∙ (if-false _ _ (spec.id == k) e ∙ h.found);
    kept = h.kept;
  }
]

register_models-IsKept :
    (provider k : String) (b : ModelSpec) (names : List String) (c : Catalog ModelSpec)
    → IsKept k b c
    → IsKept k b (register_models provider names c)
unfolding register_models
register_models-IsKept provider k b [] c h = h
register_models-IsKept provider k b (name ∷ names) c h =
    register_models-IsKept provider k b names (register_model (custom_model provider name) c)
      (register-IsKept k b (custom_model provider name) c h)

fresh-IsKept :
    (k : String) (b : ModelSpec) (c : Catalog ModelSpec)
    → lookup k c.base ≡ some b
    → IsKept k b (clear_custom c)
unfolding clear_custom find lookup
fresh-IsKept k b c h = record { built_in = h; model = b; found = h; kept = (refl, refl, refl) }

change-IsKept :
    (k : String) (b : ModelSpec) (s : Change) (c : Catalogs)
    → IsKept k b c.models
    → IsKept k b (change s c).models
unfolding change register_custom_provider clear_custom_providers
change-IsKept k b (register spec names) c h = register_models-IsKept spec.id k b names c.models h
change-IsKept k b clear c h = fresh-IsKept k b c.models h.built_in

changes-IsKept :
    (k : String) (b : ModelSpec) (steps : List Change) (c : Catalogs)
    → IsKept k b c.models
    → IsKept k b (changes steps c).models
unfolding changes
changes-IsKept k b [] c h = h
changes-IsKept k b (s ∷ steps) c h = changes-IsKept k b steps (change s c) (change-IsKept k b s c h)

-- From catalogs without custom entries, however custom providers are registered and cleared, a
-- built-in model is still found under its name, with the name, the `forbidden` and the `vision` that it
-- is shipped with; and clearing them at the end finds the built-in model itself.
pub changes-IsGuarded :
    (steps : List Change) (k : String) (b : ModelSpec) (c : Catalogs)
    → c.models.custom ≡ []
    → lookup k c.models.base ≡ some b
    → ((m : ModelSpec) × (find k (changes steps c).models ≡ some m) × IsGuarded b m)
      × (find k (clear_custom_providers (changes steps c)).models ≡ some b)
unfolding clear_custom_providers clear_custom find lookup
changes-IsGuarded steps k b c empty h =
    let kept : IsKept k b (changes steps c).models = changes-IsKept k b steps c (record {
      built_in = h;
      model = b;
      found = ap (λ d. first_of (lookup k d) (lookup k c.models.base)) empty ∙ h;
      kept = (refl, refl, refl);
    }) in
    ((kept.model, kept.found, kept.kept), kept.built_in)

-- Two different custom providers are registered one after the other, both with the built-in model
-- `name`, which is not shipped with the first of them. The model is then not served through the first.
pub register_custom_provider_forgets :
    (first second : ProviderSpec) (name : String) (b : ModelSpec) (c : Catalogs)
    → lookup name c.models.base ≡ some b
    → lookup first.id b.providers ≡ none
    → (second.id == first.id) ≡ false
    → let both =
        register_custom_provider second
          (name ∷ [])
          (register_custom_provider first (name ∷ []) c) in
      (m : ModelSpec) × (find name both.models ≡ some m) × (lookup first.id m.providers ≡ none)
unfolding register_custom_provider register_models custom_model registered_model register_model
register_custom_provider_forgets first second name b c h new other = (
  serve_also b (custom_model second.id name),
  find-register_model (custom_model second.id name)
        (register_model (custom_model first.id name) c.models) name
      ∙ (if-true _ _ (name == name) (eq_refl name)
          ∙ ap
              (λ o. some (
                extended (custom_model second.id name) o
                  (lookup name (register_model (custom_model first.id name) c.models).custom)))
              h),
  lookup-serve_also b second.id name first.id ∙ (if-false _ _ (second.id == first.id) other ∙ new),
)
