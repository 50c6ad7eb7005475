-- ===== src/Routing/Errors.antt =====
-- src/subllm/errors.py: what the choice of routes raises. `raised` is any other exception, by its
-- class.
use subllm.Prelude.{String}

pub data RouteError : Type 0 where
  invalid_policy : String → RouteError
  unknown_route : String → RouteError
  missing_credential : String → RouteError
  completion : String → RouteError
  raised : String → RouteError
