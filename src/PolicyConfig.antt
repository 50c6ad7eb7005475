-- ===== src/PolicyConfig.antt =====
-- The configuration records of src/subllm/policy_config.py. Times are whole microseconds, where
-- the source has seconds as floats; `source` and its digest are not read by the modelled code.
pub mod Environment
pub mod Rows
pub mod Custom
pub mod Usable
pub mod Application
pub mod Load
pub mod Safe
pub mod Within
pub mod Loaded
pub mod Precedence
pub mod Tests
use subllm.Prelude.{ℕ, String, Bool, List}
use subllm.Dict.{Dict}

pub record ProviderPolicyConfig : Type 0 where
  pub enabled : Bool
  pub priority : ℕ
  pub default_model : String

pub record CustomProviderConfig : Type 0 where
  pub id : String
  pub api_base : String
  pub api_key_env : String
  pub default_model : String
  pub models : List String
  pub priority : ℕ
  pub enabled : Bool
  pub routes : List String
  pub model_parameters : Dict String

pub record ApplicationPolicyConfig : Type 0 where
  pub name : String
  pub url : String

pub record ExecutionPolicyConfig : Type 0 where
  pub failover_enabled : Bool
  pub attempt_timeout : ℕ
  pub slow_response : ℕ
  pub cooldown : ℕ
  pub failure_threshold : ℕ
  pub max_attempts : ℕ
  pub uncredited_cooldown : ℕ

pub record RuntimePolicyConfig : Type 0 where
  pub providers : Dict ProviderPolicyConfig
  pub applications : Dict ApplicationPolicyConfig
  pub execution : ExecutionPolicyConfig
  pub custom_providers : Dict CustomProviderConfig
