-- ===== src/Policy/Models.antt =====
-- src/subllm/policy.py: the built-in models.
pub mod Served
pub mod Glm
pub mod Google
pub mod Openai
pub mod Anthropic
pub mod Others
pub mod Base
