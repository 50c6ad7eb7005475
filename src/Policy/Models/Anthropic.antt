-- ===== src/Policy/Models/Anthropic.antt =====
-- src/subllm/policy.py: entries of `_BASE_MODELS`.
use subllm.Prelude.{false, [], ◌∷◌}
use subllm.Types.{ModelSpec}
use subllm.Policy.Models.Served.{served}

abbrev pub claude_opus_5 : ModelSpec
claude_opus_5 = record {
  id = "claude-opus-5";
  providers =
      ("claude-cli", served "" "claude-opus-5")
      ∷ ("claude", served "anthropic/claude-opus-5" "claude-opus-5")
      ∷ [];
  forbidden = false;
  vision = false;
}

abbrev pub claude_sonnet_5 : ModelSpec
claude_sonnet_5 = record {
  id = "claude-sonnet-5";
  providers =
      ("claude-cli", served "" "claude-sonnet-5")
      ∷ ("claude", served "anthropic/claude-sonnet-5" "claude-sonnet-5")
      ∷ [];
  forbidden = false;
  vision = false;
}

abbrev pub claude_sonnet_4_6 : ModelSpec
claude_sonnet_4_6 = record {
  id = "claude-sonnet-4-6";
  providers = ("agy-cli", served "" "claude-sonnet-5-5") ∷ [];
  forbidden = false;
  vision = false;
}

abbrev pub claude_opus_4_6_thinking : ModelSpec
claude_opus_4_6_thinking = record {
  id = "claude-opus-4-6-thinking";
  providers = ("agy-cli", served "" "claude-opus-4-6-thinking") ∷ [];
  forbidden = false;
  vision = false;
}

abbrev pub claude_3_7_sonnet : ModelSpec
claude_3_7_sonnet = record {
  id = "claude-3.7-sonnet";
  providers =
      ("claude", served "anthropic/claude-3-7-sonnet-20250219" "claude-3-7-sonnet-20250219")
      ∷ (
        "openrouter",
        served "openrouter/anthropic/claude-3.7-sonnet" "anthropic/claude-3.7-sonnet",
      )
      ∷ [];
  forbidden = false;
  vision = false;
}
