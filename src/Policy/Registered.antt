-- ===== src/Policy/Registered.antt =====
-- src/subllm/policy.py: what registering custom providers does to the catalogs.
use subllm.Prelude.{
  String, ◌≡◌, refl, ap, ◌∙◌, subst, Bool, true, false, Bool-cases, Option, none, some, List, [],
  ◌∷◌, ◌==◌, eq_iff, eq_refl, inl, inr, All, if◌then◌else◌,
}
use subllm.Dict.{lookup, lookup-insert}
use subllm.Types.{ProviderSpec, ModelSpec}
use subllm.Policy.Overlay.{
  Catalog, Catalogs, first_of, extended, find, merge, serve_also, registered_model, register_model,
  register_provider, custom_serving, custom_model, register_models, register_custom_provider,
}

first_of-if :
    {V : Type 0} (b : Bool) (v : V) (o p : Option V)
    → first_of (if b then some v else o) p ≡ (if b then some v else first_of o p)
first_of-if true v o p = refl
first_of-if false v o p = refl

pub find-register_model :
    (spec : ModelSpec) (c : Catalog ModelSpec) (k : String)
    → find k (register_model spec c)
      ≡ (if spec.id == k then some (registered_model spec c) else find k c)
unfolding find register_model
find-register_model spec c k =
    ap (λ o. first_of o (lookup k c.base))
      (lookup-insert spec.id k (registered_model spec c) c.custom)
    ∙ first_of-if (spec.id == k) (registered_model spec c) (lookup k c.custom) (lookup k c.base)

pub lookup-serve_also :
    (model : ModelSpec) (provider name j : String)
    → lookup j (serve_also model (custom_model provider name)).providers
      ≡ (if provider == j then some (custom_serving name) else lookup j model.providers)
unfolding serve_also custom_model merge
lookup-serve_also model provider name j =
    lookup-insert provider j (custom_serving name) model.providers

-- The model `name` is known, and the provider serves it under the model's own name.
abbrev pub IsServed : String → Catalog ModelSpec → String → Type 0
IsServed provider c name =
    (m : ModelSpec) × (find name c ≡ some m)
    × (lookup provider m.providers ≡ some (custom_serving name))

own_serving :
    (provider name : String) (m : ModelSpec)
    → lookup provider (serve_also m (custom_model provider name)).providers
      ≡ some (custom_serving name)
own_serving provider name m =
    lookup-serve_also m provider name provider ∙ rw (eq_refl provider) refl

new_serving :
    (provider name : String)
    → lookup provider (custom_model provider name).providers ≡ some (custom_serving name)
unfolding lookup custom_model
new_serving provider name = rw (eq_refl provider) refl

extended-serves :
    (provider name : String) (base existing : Option ModelSpec)
    → lookup provider (extended (custom_model provider name) base existing).providers
      ≡ some (custom_serving name)
extended-serves provider name (some b) existing = own_serving provider name b
extended-serves provider name none (some m) = own_serving provider name m
extended-serves provider name none none = new_serving provider name

register-IsServed :
    (provider name : String) (c : Catalog ModelSpec)
    → IsServed provider (register_model (custom_model provider name) c) name
unfolding custom_model registered_model
register-IsServed provider name c = (
  registered_model (custom_model provider name) c,
  find-register_model (custom_model provider name) c name ∙ rw (eq_refl name) refl,
  extended-serves provider name (lookup name c.base) (lookup name c.custom),
)

-- A later registration leaves it so.
still-IsServed :
    (provider name other : String) (c : Catalog ModelSpec)
    → IsServed provider c name
    → IsServed provider (register_model (custom_model provider other) c) name
unfolding custom_model
still-IsServed provider name other c (m, found, serves) = elim (Bool-cases (other == name)) [
  | inl e ↦
      subst (IsServed provider (register_model (custom_model provider other) c))
        ((eq_iff other name).0 e) (register-IsServed provider other c)
  | inr e ↦ (m, find-register_model (custom_model provider other) c name ∙ rw e found, serves)
]

stays-IsServed :
    (provider name : String) (names : List String) (c : Catalog ModelSpec)
    → IsServed provider c name
    → IsServed provider (register_models provider names c) name
unfolding register_models
stays-IsServed provider name [] c h = h
stays-IsServed provider name (other ∷ names) c h =
    stays-IsServed provider name names (register_model (custom_model provider other) c)
      (still-IsServed provider name other c h)

models-IsServed :
    (provider : String) (names : List String) (c : Catalog ModelSpec)
    → All (IsServed provider (register_models provider names c)) names
unfolding register_models
models-IsServed provider [] c = tt
models-IsServed provider (name ∷ names) c = (
  stays-IsServed provider name names (register_model (custom_model provider name) c)
      (register-IsServed provider name c),
  models-IsServed provider names (register_model (custom_model provider name) c),
)

-- After a custom provider is registered with its models, the catalog of providers finds it under its
-- id, and the catalog of models finds each of the models, served through the provider under the
-- model's own name, whatever was registered before.
pub register_custom_provider-Serves :
    (spec : ProviderSpec) (names : List String) (c : Catalogs)
    → (find spec.id (register_custom_provider spec names c).providers ≡ some spec)
      × All (IsServed spec.id (register_custom_provider spec names c).models) names
unfolding register_custom_provider register_provider find
register_custom_provider-Serves spec names c = (
  rw (lookup-insert spec.id spec.id spec c.providers.custom, eq_refl spec.id) refl,
  models-IsServed spec.id names c.models,
)
