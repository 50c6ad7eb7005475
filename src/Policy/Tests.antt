-- ===== src/Policy/Tests.antt =====
-- Custom providers on the shipped tables, and the theorems about the catalogs at them.
use subllm.Prelude.{String, ◌≡◌, refl, false, none, some, List, [], ◌∷◌, All}
use subllm.Dict.{lookup}
use subllm.Policy.Kept.{changes-IsGuarded, register_custom_provider_forgets, IsGuarded}
use subllm.Policy.Models.Base.{base_models}
use subllm.Policy.Models.Others.{grok_4_5}
use subllm.Policy.Overlay.{
  Catalogs, find, register_custom_provider, clear_custom_providers, changes, Change, register,
  clear,
}
use subllm.Policy.Providers.{base_providers, base_orderable_provider_ids}
use subllm.Policy.Registered.{register_custom_provider-Serves, IsServed}
use subllm.Types.{ProviderSpec, ModelSpec}

abbrev catalogs : Catalogs
catalogs = record {
  providers = record { base = base_providers; custom = [] };
  models = record { base = base_models; custom = [] };
  orderable = base_orderable_provider_ids;
}

abbrev provider : String → ProviderSpec
provider id = record {
  id = id;
  api_base = "https://localhost/v1";
  api_key_env = "";
  transport = "openai-compatible";
  attribution_headers = false;
}

register_custom_provider-Serves_example :
    (find "mine"
        (register_custom_provider (provider "mine") ("grok-4.5" ∷ "own" ∷ []) catalogs).providers
      ≡ some (provider "mine"))
    × All
        (IsServed "mine"
          (register_custom_provider (provider "mine") ("grok-4.5" ∷ "own" ∷ []) catalogs).models)
        ("grok-4.5" ∷ "own" ∷ [])
register_custom_provider-Serves_example =
    register_custom_provider-Serves (provider "mine") ("grok-4.5" ∷ "own" ∷ []) catalogs

shipped_grok : lookup "grok-4.5" base_models ≡ some grok_4_5
unfolding lookup base_models
shipped_grok = refl

abbrev steps : List Change
steps =
    register (provider "mine") ("grok-4.5" ∷ [])
    ∷ clear
    ∷ register (provider "yours") ("grok-4.5" ∷ "own" ∷ [])
    ∷ []

changes-IsGuarded_example :
    ((m : ModelSpec) × (find "grok-4.5" (changes steps catalogs).models ≡ some m)
      × IsGuarded grok_4_5 m)
    × (find "grok-4.5" (clear_custom_providers (changes steps catalogs)).models ≡ some grok_4_5)
changes-IsGuarded_example = changes-IsGuarded steps "grok-4.5" grok_4_5 catalogs refl shipped_grok

not_shipped : lookup "mine" grok_4_5.providers ≡ none
unfolding lookup
not_shipped = refl

register_custom_provider_forgets_example :
    (m : ModelSpec) × (find "grok-4.5"
        (register_custom_provider
          (provider "yours")
          ("grok-4.5" ∷ [])
          (register_custom_provider (provider "mine") ("grok-4.5" ∷ []) catalogs)).models
      ≡ some m)
    × (lookup "mine" m.providers ≡ none)
register_custom_provider_forgets_example =
    register_custom_provider_forgets (provider "mine") (provider "yours") "grok-4.5" grok_4_5
      catalogs shipped_grok not_shipped refl
