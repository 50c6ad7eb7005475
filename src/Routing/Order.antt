-- ===== src/Routing/Order.antt =====
-- src/subllm/provider_order.py. `environment` is what `merged_environment` returns.
use subllm.Prelude.{
  String, ◌⧺◌, Bool, not, ◌||◌, Option, none, some, or_else, List, [], ◌∷◌, ◌==◌, keep, any,
  contains, Result, ok, err, require, ◌>>=◌, ◌>>◌, strip, split, if◌then◌else◌, map,
}
use subllm.Dict.{Dict, lookup}
use subllm.Policy.Overlay.{Catalogs, find, is_orderable, orderable_ids}
use subllm.Routing.Credentials.{credential_is_valid}
use subllm.Routing.Errors.{RouteError, invalid_policy, raised}

abbrev pub provider_order_name : String
provider_order_name = "SUBLLM_PROVIDER_ORDER"

-- The loop of `parse_provider_order`, after the providers in `seen`.
unfoldable pub parse_parts : Catalogs → List String → List String → Result RouteError (List String)
parse_parts c seen [] = ok []
parse_parts c seen (part ∷ parts) = do
  require (is_orderable c part)
      (invalid_policy ("unknown provider in " ⧺ provider_order_name ⧺ ": " ⧺ part))
  require (not (contains seen part))
      (invalid_policy ("duplicate provider in " ⧺ provider_order_name ⧺ ": " ⧺ part))
  rest ← parse_parts c (part ∷ seen) parts
  ok (part ∷ rest)

unfoldable pub check_parts : Catalogs → List String → Result RouteError (List String)
check_parts c parts =
    require (not (any (λ part. part == "") parts))
      (invalid_policy ("empty provider name in " ⧺ provider_order_name))
    >> parse_parts c [] parts

unfoldable pub parse_provider_order : Catalogs → String → Result RouteError (List String)
parse_provider_order c raw = check_parts c (map strip (split b',' raw))

-- `environ.get(name, "")`
abbrev pub get_text : Dict String → String → String
get_text environment name = or_else (lookup name environment) ""

unfoldable pub explicit_provider_order :
    Catalogs → Dict String → Result RouteError (Option (List String))
explicit_provider_order c environment =
    let raw = strip (get_text environment provider_order_name) in
    if raw == "" then ok none else parse_provider_order c raw >>= λ order. ok (some order)

-- `PROVIDERS[name].api_key_env`, for the loops below
unfoldable pub with_key_names : Catalogs → List String → Result RouteError (List (String × String))
with_key_names c [] = ok []
with_key_names c (name ∷ names) = elim (find name c.providers) [
  | none ↦ err (raised "KeyError")
  | some provider ↦ with_key_names c names >>= λ rest. ok ((name, provider.api_key_env) ∷ rest)
]

abbrev pub names_of : List (String × String) → List String
names_of [] = []
names_of ((name, key) ∷ rest) = name ∷ names_of rest

abbrev is_default : (String → String) → Dict String → String × String → Bool
is_default upper environment (name, key) =
    credential_is_valid upper name (get_text environment key) || name == "openrouter"

unfoldable pub default_provider_order :
    (String → String) → Catalogs → Dict String → Result RouteError (List String)
default_provider_order upper c environment = with_key_names c (orderable_ids c) >>= λ named.
    ok (names_of (keep (is_default upper environment) named))

unfoldable pub provider_order :
    (String → String) → Catalogs → Dict String → Result RouteError (List String)
provider_order upper c environment = explicit_provider_order c environment >>= λ explicit.
    elim explicit [ some order ↦ ok order | none ↦ default_provider_order upper c environment ]

-- `credentials.get(name, environment.get(key, ""))`
abbrev pub secret : Dict String → Dict String → String → String → String
secret credentials environment name key =
    or_else (lookup name credentials) (get_text environment key)

abbrev has_credential : (String → String) → Dict String → Dict String → String × String → Bool
has_credential upper credentials environment (name, key) =
    credential_is_valid upper name (secret credentials environment name key)

unfoldable pub available_provider_order :
    (String → String) → Catalogs → Dict String → Dict String → Result RouteError (List String)
available_provider_order upper c credentials environment = do
  order ← provider_order upper c environment
  named ← with_key_names c order
  ok (names_of (keep (has_credential upper credentials environment) named))
