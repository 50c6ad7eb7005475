-- ===== src/Routing/Resolve.antt =====
-- src/subllm/resolver.py: `available_routes` and `resolve`.
use subllm.Prelude.{
  String, ◌⧺◌, Bool, true, not, ◌&&◌, Option, none, some, List, [], ◌∷◌, ◌==◌, text_leb, Result, ok,
  err, require, ◌>>=◌, ◌>>◌, if◌then◌else◌, any,
}
use subllm.Dict.{Dict, lookup}
use subllm.Policy.Overlay.{set_of}
use subllm.Routing.Configured.{configured_routes, is_wanted}
use subllm.Routing.Credentials.{credential_is_valid}
use subllm.Routing.Errors.{RouteError, unknown_route, missing_credential}
use subllm.Routing.Order.{secret}
use subllm.Routing.Setup.{Setup}
use subllm.Types.{ConfiguredRoute, ResolvedRoute}

-- src/subllm/cli_common.py
abbrev pub cli_executables : Dict String
cli_executables =
    ("codex-cli", "codex")
    ∷ ("claude-cli", "claude")
    ∷ ("agy-cli", "agy")
    ∷ ("cursor-cli", "cursor-agent")
    ∷ []

-- The key that `available_routes` resolves a route with, or none if it skips the route.
unfoldable pub key_of : Setup → Dict String → ConfiguredRoute → Option String
key_of s credentials route = elim (lookup route.transport cli_executables) [
  | some executable ↦ if s.which executable then some "" else none
  | none ↦
      if route.api_key_env == ""
      then some ""
      else let api_key = secret credentials s.environment route.provider route.api_key_env in
        if credential_is_valid s.upper route.provider api_key then some api_key else none
]

-- `resolved.append(...)` or `continue`
abbrev pub with_key : ConfiguredRoute → Option String → List ResolvedRoute → List ResolvedRoute
with_key r none rest = rest
with_key r (some key) rest = record { route = r; api_key = key } ∷ rest

unfoldable pub with_keys : Setup → Dict String → List ConfiguredRoute → List ResolvedRoute
with_keys s credentials [] = []
with_keys s credentials (r ∷ rs) = with_key r (key_of s credentials r) (with_keys s credentials rs)

unfoldable pub available_routes :
    Setup → String → String → Dict String → Result RouteError (List ResolvedRoute)
available_routes s application function credentials =
    configured_routes s application function >>= λ routes. ok (with_keys s credentials routes)

abbrev pub first_resolved : Option String → List ResolvedRoute → Option ResolvedRoute
first_resolved provider [] = none
first_resolved provider (r ∷ rs) =
    if is_wanted provider r.provider then some r else first_resolved provider rs

-- `sorted(texts)`
abbrev pub place_text : String → List String → List String
place_text t [] = t ∷ []
place_text t (x ∷ xs) = if text_leb t x then t ∷ x ∷ xs else x ∷ place_text t xs

abbrev pub sorted_texts : List String → List String
sorted_texts [] = []
sorted_texts (t ∷ ts) = place_text t (sorted_texts ts)

-- `sep.join(texts)`
abbrev pub join : String → List String → String
join sep [] = ""
join sep (t ∷ []) = t
join sep (t ∷ u ∷ ts) = t ⧺ sep ⧺ join sep (u ∷ ts)

-- `{route.api_key_env for route in configured if ...}`, before it is a set
abbrev pub key_names : Option String → List ConfiguredRoute → List String
key_names provider [] = []
key_names provider (r ∷ rs) =
    if not (r.api_key_env == "") && is_wanted provider r.provider
    then r.api_key_env ∷ key_names provider rs
    else key_names provider rs

abbrev pub is_configured : Option String → List ConfiguredRoute → Bool
is_configured none routes = true
is_configured (some name) routes = any (λ r. r.provider == name) routes

abbrev pub no_provider : String → String → Option String → RouteError
no_provider application function provider = unknown_route (
    "route "
    ⧺ application
    ⧺ "/"
    ⧺ function
    ⧺ " does not allow provider "
    ⧺ elim provider [ none ↦ "None" | some name ↦ name ])

-- After no route is available.
unfoldable pub refuse :
    String → String → Option String → List ConfiguredRoute → Result RouteError ResolvedRoute
refuse application function provider configured =
    require (is_configured provider configured) (no_provider application function provider)
    >> err (
        missing_credential (
          "no valid credential for "
          ⧺ application
          ⧺ "/"
          ⧺ function
          ⧺ "; configure one of: "
          ⧺ join ", " (sorted_texts (set_of [] (key_names provider configured)))))

abbrev pub pick_or :
    Result RouteError ResolvedRoute → Option ResolvedRoute → Result RouteError ResolvedRoute
pick_or otherwise none = otherwise
pick_or otherwise (some route) = ok route

unfoldable pub resolve :
    Setup → String → String → Option String → Dict String → Result RouteError ResolvedRoute
resolve s application function provider credentials = do
  available ← available_routes s application function credentials
  pick_or (configured_routes s application function >>= refuse application function provider)
      (first_resolved provider available)
