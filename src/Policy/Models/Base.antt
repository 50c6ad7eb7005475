-- ===== src/Policy/Models/Base.antt =====
-- src/subllm/policy.py: `_BASE_MODELS`.
use subllm.Prelude.{[], ◌∷◌}
use subllm.Dict.{Dict}
use subllm.Types.{ModelSpec}
use subllm.Policy.Models.Glm.{glm_5_2, glm_5_3, z_ai_glm_5_3, glm_5_3_flash, glm_4_5v}
use subllm.Policy.Models.Google.{
  gemini_3_6_flash, gemini_3_1_pro_high, gemini_3_7_flash_medium, gemini_3_8_flash,
  gemini_3_5_flash_lite, gemini_2_5_flash, gemini_2_5_pro, gemini_3_1_pro_preview,
}
use subllm.Policy.Models.Openai.{
  gpt_6_sol, gpt_5_6_sol, gpt_5_6_terra, gpt_6_luna, gpt_6_1_terra, gpt_5_6_luna, gpt_5_5,
}
use subllm.Policy.Models.Anthropic.{
  claude_opus_5, claude_sonnet_5, claude_sonnet_4_6, claude_opus_4_6_thinking, claude_3_7_sonnet,
}
use subllm.Policy.Models.Others.{
  cursor_auto, grok_4_5, deepseek_v4_1_flash, deepseek_v4_1_flash_1017, deepseek_v4_pro,
  qwen3_7_plus, qwen3_coder_30b, qwen2_5_1_5b, qwen2_5, grok_4_6, composer_2_5, qwen2_5_coder,
}

unfoldable pub base_models : Dict ModelSpec
base_models =
    ("cursor-auto", cursor_auto)
    ∷ ("glm-5.2", glm_5_2)
    ∷ ("glm-5.3", glm_5_3)
    ∷ ("z-ai/glm-5.3", z_ai_glm_5_3)
    ∷ ("glm-5.3-flash", glm_5_3_flash)
    ∷ ("glm-4.5v", glm_4_5v)
    ∷ ("grok-4.5", grok_4_5)
    ∷ ("gemini-3.6-flash", gemini_3_6_flash)
    ∷ ("deepseek-v4.1-flash", deepseek_v4_1_flash)
    ∷ ("deepseek-v4.1-flash-1017", deepseek_v4_1_flash_1017)
    ∷ ("deepseek-v4-pro", deepseek_v4_pro)
    ∷ ("qwen3.7-plus", qwen3_7_plus)
    ∷ ("gemini-3.1-pro-high", gemini_3_1_pro_high)
    ∷ ("gemini-3.7-flash-medium", gemini_3_7_flash_medium)
    ∷ ("gemini-3.8-flash", gemini_3_8_flash)
    ∷ ("gemini-3.5-flash-lite", gemini_3_5_flash_lite)
    ∷ ("claude-opus-5", claude_opus_5)
    ∷ ("claude-sonnet-5", claude_sonnet_5)
    ∷ ("claude-sonnet-4-6", claude_sonnet_4_6)
    ∷ ("claude-opus-4-6-thinking", claude_opus_4_6_thinking)
    ∷ ("gpt-6-sol", gpt_6_sol)
    ∷ ("gpt-5.6-sol", gpt_5_6_sol)
    ∷ ("gpt-5.6-terra", gpt_5_6_terra)
    ∷ ("gpt-6-luna", gpt_6_luna)
    ∷ ("gpt-6.1-terra", gpt_6_1_terra)
    ∷ ("gpt-5.6-luna", gpt_5_6_luna)
    ∷ ("qwen3-coder:30b", qwen3_coder_30b)
    ∷ ("qwen2.5:1.5b", qwen2_5_1_5b)
    ∷ ("qwen2.5", qwen2_5)
    ∷ ("grok-4.6", grok_4_6)
    ∷ ("composer-2.5", composer_2_5)
    ∷ ("gemini-2.5-flash", gemini_2_5_flash)
    ∷ ("gemini-2.5-pro", gemini_2_5_pro)
    ∷ ("gpt-5.5", gpt_5_5)
    ∷ ("claude-3.7-sonnet", claude_3_7_sonnet)
    ∷ ("qwen2.5-coder", qwen2_5_coder)
    ∷ ("gemini-3.1-pro-preview", gemini_3_1_pro_preview)
    ∷ []
