-- ===== src/Types.antt =====
-- The declarative types of src/subllm/types.py. A priority is a native number; `transport` and
-- `modality` keep the source's texts. The parameters of a configured route are documents: a policy for
-- OpenRouter adds some that are no texts.
use subllm.Prelude.{ℕ, String, Bool, Option, List}
use subllm.Dict.{Dict}
use subllm.Json.{Json}

pub record ProviderSpec : Type 0 where
  pub id : String
  pub api_base : String
  pub api_key_env : String
  pub transport : String
  pub attribution_headers : Bool

pub record ProviderModelSpec : Type 0 where
  pub litellm_model : String
  pub wire_model : String

pub record ModelSpec : Type 0 where
  pub id : String
  pub providers : Dict ProviderModelSpec
  pub forbidden : Bool
  pub vision : Bool

pub record ApplicationSpec : Type 0 where
  pub id : String
  pub title : String
  pub url : String

pub record RouteCandidate : Type 0 where
  pub provider : String
  pub model : Option String
  pub priority_offset : ℕ
  pub model_parameters : Dict String

pub record RoutePolicy : Type 0 where
  pub application : String
  pub function : String
  pub candidates : List RouteCandidate
  pub modality : String

pub record ConfiguredRoute : Type 0 where
  pub application : String
  pub application_name : String
  pub application_url : String
  pub function : String
  pub provider : String
  pub model : String
  pub priority : ℕ
  pub api_base : String
  pub api_key_env : String
  pub litellm_model : String
  pub wire_model : String
  pub extra_headers : Dict String
  pub transport : String
  pub model_parameters : Dict Json
  pub modality : String
  pub policy_sha256 : String

pub record ResolvedRoute : Type 0 where
  pub route : ConfiguredRoute
  pub open route use *
  pub api_key : String
