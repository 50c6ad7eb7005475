-- ===== src/Policy/Overlay.antt =====
-- src/subllm/policy.py: the catalogs of providers and models, which custom providers extend while
-- the program runs. A key error is `none`.
use subllm.Prelude.{
  String, ◌⧺◌, Bool, false, true, not, ◌||◌, Option, none, some, List, [], ◌∷◌, ◌++◌, ℕ, keep,
  length, contains, is_some,
}
use subllm.Dict.{Dict, lookup, insert}
use subllm.Json.{keys}
use subllm.Types.{ProviderSpec, ModelSpec, ProviderModelSpec}

-- `_base` and `_custom`
pub record Catalog (V : Type 0) : Type 0 where
  pub base : Dict V
  pub custom : Dict V

-- `set(xs)`, in the order of the first sights
unfoldable pub set_of : List String → List String → List String
set_of seen [] = []
set_of seen (x ∷ xs) = elim (contains seen x) [
  | true ↦ set_of seen xs
  | false ↦ x ∷ set_of (x ∷ seen) xs
]

module _ {V : Type 0} where
  abbrev pub first_of : Option V → Option V → Option V
  first_of (some v) o = some v
  first_of none o = o

  -- `__getitem__` and `get`: what is custom comes first.
  unfoldable pub find : String → Catalog V → Option V
  find k c = first_of (lookup k c.custom) (lookup k c.base)

  -- `__contains__`
  unfoldable pub member : String → Catalog V → Bool
  member k c = is_some (lookup k c.custom) || is_some (lookup k c.base)

  -- `k not in self._base`
  abbrev pub is_new : Dict V → String → Bool
  is_new base k = not (is_some (lookup k base))

  -- `__iter__`
  unfoldable pub ids : Catalog V → List String
  ids c = keys c.base ++ keep (is_new c.base) (keys c.custom)

  -- `__len__`
  unfoldable pub size : Catalog V → ℕ
  size c = length (set_of [] (keys c.base ++ keys c.custom))

  -- `clear_custom`
  unfoldable pub clear_custom : Catalog V → Catalog V
  clear_custom c = record c { custom = [] }

  -- `{**d, **e}`
  unfoldable pub merge : Dict V → Dict V → Dict V
  merge d [] = d
  merge d ((k, v) ∷ e) = merge (insert k v d) e

-- `_ProvidersCatalog.register_custom`
unfoldable pub register_provider : ProviderSpec → Catalog ProviderSpec → Catalog ProviderSpec
register_provider spec c = record c { custom = insert spec.id spec c.custom }

-- `replace(model, providers={**model.providers, **spec.providers})`
unfoldable pub serve_also : ModelSpec → ModelSpec → ModelSpec
serve_also model spec = record model { providers = merge model.providers spec.providers }

-- The entry that `_ModelsCatalog.register_custom` writes, from those of the base and of before.
abbrev pub extended : ModelSpec → Option ModelSpec → Option ModelSpec → ModelSpec
extended spec (some base) existing = serve_also base spec
extended spec none (some existing) = serve_also existing spec
extended spec none none = spec

unfoldable pub registered_model : ModelSpec → Catalog ModelSpec → ModelSpec
registered_model spec c = extended spec (lookup spec.id c.base) (lookup spec.id c.custom)

-- `_ModelsCatalog.register_custom`
unfoldable pub register_model : ModelSpec → Catalog ModelSpec → Catalog ModelSpec
register_model spec c = record c { custom = insert spec.id (registered_model spec c) c.custom }

-- `PROVIDERS`, `MODELS` and the `_base` of `ORDERABLE_PROVIDER_IDS`
pub record Catalogs : Type 0 where
  pub providers : Catalog ProviderSpec
  pub models : Catalog ModelSpec
  pub orderable : List String

-- `_OrderableProviderIds._all`
unfoldable pub orderable_ids : Catalogs → List String
orderable_ids c = c.orderable ++ keep (λ k. not (contains c.orderable k)) (keys c.providers.custom)

-- `_OrderableProviderIds.__contains__`
unfoldable pub is_orderable : Catalogs → String → Bool
is_orderable c k = contains c.orderable k || is_some (lookup k c.providers.custom)

-- The models that `register_custom_provider` makes up.
unfoldable pub custom_serving : String → ProviderModelSpec
custom_serving name = record { litellm_model = "openai/" ⧺ name; wire_model = name }

unfoldable pub custom_model : String → String → ModelSpec
custom_model provider name = record {
  id = name;
  providers = (provider, custom_serving name) ∷ [];
  forbidden = false;
  vision = false;
}

unfoldable pub register_models : String → List String → Catalog ModelSpec → Catalog ModelSpec
register_models provider [] c = c
register_models provider (name ∷ names) c =
    register_models provider names (register_model (custom_model provider name) c)

unfoldable pub register_custom_provider : ProviderSpec → List String → Catalogs → Catalogs
register_custom_provider spec names c = record c {
  providers = register_provider spec c.providers;
  models = register_models spec.id names c.models;
}

unfoldable pub clear_custom_providers : Catalogs → Catalogs
clear_custom_providers c = record c {
  providers = clear_custom c.providers;
  models = clear_custom c.models;
}

-- A use of the catalogs, and several in a row.
pub data Change : Type 0 where
  register : ProviderSpec → List String → Change
  clear : Change

unfoldable pub change : Change → Catalogs → Catalogs
change (register spec names) c = register_custom_provider spec names c
change clear c = clear_custom_providers c

unfoldable pub changes : List Change → Catalogs → Catalogs
changes [] c = c
changes (s ∷ steps) c = changes steps (change s c)
