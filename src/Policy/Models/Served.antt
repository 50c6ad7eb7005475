-- ===== src/Policy/Models/Served.antt =====
-- src/subllm/policy.py: how a provider serves a model.
use subllm.Prelude.{String}
use subllm.Types.{ProviderModelSpec}

-- `ProviderModelSpec(litellm_model=..., wire_model=...)`
abbrev pub served : String → String → ProviderModelSpec
served litellm wire = record { litellm_model = litellm; wire_model = wire }
