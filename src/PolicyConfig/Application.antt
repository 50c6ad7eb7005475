-- ===== src/PolicyConfig/Application.antt =====
-- src/subllm/policy_config.py: `_validate_application`.
use subllm.Prelude.{
  String, ◌⧺◌, ◌==◌, Bool, not, ◌&&◌, [], ◌∷◌, leb, length, codes, strip, Result, ok, require,
  ◌>>=◌, ◌>>◌,
}
use subllm.Dict.{Dict}
use subllm.Json.{Json, has_keys}
use subllm.PolicyConfig.{ApplicationPolicyConfig}
use subllm.PolicyConfig.Custom.{Url, is_given}
use subllm.PolicyConfig.Environment.{Readers}
use subllm.PolicyConfig.Rows.{table, item, name_of}
use subllm.Routing.Errors.{RouteError, invalid_policy}

-- What a load reads of the code around it.
pub record Loader : Type 0 where
  pub readers : Readers
  pub environment : Dict String
  pub urlsplit : String → Result RouteError Url
  pub str : Json → String
  pub source : String

module _ (l : Loader) where
  abbrev is_public : Url → Bool
  is_public u =
      u.scheme == "https"
      && not (u.netloc == "")
      && not (is_given u.username)
      && not (is_given u.password)
      && u.query == ""
      && u.fragment == ""

  -- `_validate_application`
  unfoldable pub validate_application : String → Json → Result RouteError ApplicationPolicyConfig
  validate_application name raw = do
    require (leb 6 (length (codes name)) && leb (length (codes name)) 128)
        (invalid_policy ("application ID " ⧺ name ⧺ " must contain 6 to 128 characters"))
    row ←
        table raw (invalid_policy ("invalid application settings for " ⧺ name ⧺ " in " ⧺ l.source))
    require (has_keys row ("name" ∷ "url" ∷ []))
        (invalid_policy ("invalid application settings for " ⧺ name ⧺ " in " ⧺ l.source))
    name_row ← item row "name"
    url_row ← item row "url"
    shown ← name_of name_row (
        invalid_policy
          ("application " ⧺ name ⧺ " name must be a non-empty trimmed string in " ⧺ l.source))
    require (not (shown == "") && shown == strip shown) (
        invalid_policy
          ("application " ⧺ name ⧺ " name must be a non-empty trimmed string in " ⧺ l.source))
    require (leb (length (codes shown)) 100) (
        invalid_policy
          ("application " ⧺ name ⧺ " name must not exceed 100 characters in " ⧺ l.source))
    url ←
        name_of url_row
          (invalid_policy ("application " ⧺ name ⧺ " URL must be HTTPS in " ⧺ l.source))
    u ← l.urlsplit url
    require (is_public u) (
        invalid_policy (
          "application " ⧺ name ⧺ " URL must be a public HTTPS URL without credentials or query in "
          ⧺ l.source))
    ok (record { name = shown; url = url })
