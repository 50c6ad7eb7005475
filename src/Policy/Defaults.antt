-- ===== src/Policy/Defaults.antt =====
-- src/subllm/policy_config.py: `_DEFAULTS`, `_APPLICATION_DEFAULTS` and `_EXECUTION_DEFAULTS`, in
-- microseconds, and the policy that they make without a policy file.
use subllm.Prelude.{ℕ, String, Bool, true, false, [], ◌∷◌}
use subllm.Dict.{Dict}
use subllm.Policy.Applications.{applications}
use subllm.PolicyConfig.{
  ProviderPolicyConfig, ApplicationPolicyConfig, ExecutionPolicyConfig, RuntimePolicyConfig,
}
use subllm.Types.{ApplicationSpec}

abbrev default_row : Bool → ℕ → String → ProviderPolicyConfig
default_row enabled priority model = record {
  enabled = enabled;
  priority = priority;
  default_model = model;
}

unfoldable pub provider_defaults : Dict ProviderPolicyConfig
provider_defaults =
    ("zai", default_row true 0 "glm-5.3")
    ∷ ("agy", default_row true 10 "gemini-3.8-flash")
    ∷ ("codex-cli", default_row true 16 "gpt-5.6-sol")
    ∷ ("cursor-cli", default_row false 21 "cursor-auto")
    ∷ ("agy-cli", default_row false 12 "claude-sonnet-4-6")
    ∷ ("claude-cli", default_row false 17 "claude-sonnet-5")
    ∷ ("codex", default_row true 15 "gpt-5.6-sol")
    ∷ ("claude", default_row true 18 "claude-opus-5")
    ∷ ("cursor", default_row true 20 "gpt-5.6-sol")
    ∷ ("ollama", default_row true 25 "qwen3-coder:30b")
    ∷ ("openrouter", default_row true 30 "glm-5.3-flash")
    ∷ []

unfoldable pub application_defaults : Dict ApplicationSpec → Dict ApplicationPolicyConfig
application_defaults [] = []
application_defaults ((name, application) ∷ rest) =
    (name, record { name = application.title; url = application.url }) ∷ application_defaults rest

unfoldable pub execution_defaults : ExecutionPolicyConfig
execution_defaults = record {
  failover_enabled = true;
  attempt_timeout = 12000000;
  slow_response = 10000000;
  cooldown = 60000000;
  failure_threshold = 1;
  max_attempts = 6;
  uncredited_cooldown = 3600000000;
}

unfoldable pub default_policy : RuntimePolicyConfig
default_policy = record {
  providers = provider_defaults;
  applications = application_defaults applications;
  execution = execution_defaults;
  custom_providers = [];
}
