-- ===== src/Routing/Setup.antt =====
-- src/subllm/resolver.py: what the choice of routes reads. `environment` is the merged environment;
-- `which`, `upper` are of the Python library; `apply_parameters` adds the controls of a policy for
-- OpenRouter, and `digest` is `effective_digest` of the loaded policy.
use subllm.Prelude.{String, Bool, List, Result}
use subllm.Dict.{Dict}
use subllm.Json.{Json}
use subllm.Policy.Overlay.{Catalogs}
use subllm.PolicyConfig.{RuntimePolicyConfig}
use subllm.Routing.Errors.{RouteError}
use subllm.Types.{RoutePolicy, ConfiguredRoute}

pub record Setup : Type 0 where
  pub catalogs : Catalogs
  pub routes : List RoutePolicy
  pub runtime : RuntimePolicyConfig
  pub environment : Dict String
  pub which : String → Bool
  pub upper : String → String
  pub apply_parameters : String → String → Dict Json → Result RouteError (Dict Json)
  pub digest : ConfiguredRoute → String
