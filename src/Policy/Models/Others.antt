-- ===== src/Policy/Models/Others.antt =====
-- src/subllm/policy.py: entries of `_BASE_MODELS`.
use subllm.Prelude.{true, false, [], ◌∷◌}
use subllm.Types.{ModelSpec}
use subllm.Policy.Models.Served.{served}

abbrev pub cursor_auto : ModelSpec
cursor_auto = record {
  id = "cursor-auto";
  providers = ("cursor-cli", served "" "auto") ∷ [];
  forbidden = false;
  vision = false;
}

abbrev pub grok_4_5 : ModelSpec
grok_4_5 = record {
  id = "grok-4.5";
  providers = ("openrouter", served "openrouter/x-ai/grok-4.5" "x-ai/grok-4.5") ∷ [];
  forbidden = false;
  vision = false;
}

abbrev pub deepseek_v4_1_flash : ModelSpec
deepseek_v4_1_flash = record {
  id = "deepseek-v4.1-flash";
  providers =
      (
        "openrouter",
        served "openrouter/deepseek/deepseek-v4.1-flash" "deepseek/deepseek-v4.1-flash",
      )
      ∷ [];
  forbidden = false;
  vision = true;
}

abbrev pub deepseek_v4_1_flash_1017 : ModelSpec
deepseek_v4_1_flash_1017 = record {
  id = "deepseek-v4.1-flash-1017";
  providers =
      (
        "openrouter",
        served "openrouter/deepseek/deepseek-v4.1-flash-1017" "deepseek/deepseek-v4.1-flash-1017",
      )
      ∷ [];
  forbidden = false;
  vision = true;
}

abbrev pub deepseek_v4_pro : ModelSpec
deepseek_v4_pro = record {
  id = "deepseek-v4-pro";
  providers =
      ("openrouter", served "openrouter/deepseek/deepseek-v4-pro" "deepseek/deepseek-v4-pro") ∷ [];
  forbidden = false;
  vision = false;
}

abbrev pub qwen3_7_plus : ModelSpec
qwen3_7_plus = record {
  id = "qwen3.7-plus";
  providers = ("openrouter", served "openrouter/qwen/qwen3.7-plus" "qwen/qwen3.7-plus") ∷ [];
  forbidden = false;
  vision = false;
}

abbrev pub qwen3_coder_30b : ModelSpec
qwen3_coder_30b = record {
  id = "qwen3-coder:30b";
  providers = ("ollama", served "openai/qwen3-coder:30b" "qwen3-coder:30b") ∷ [];
  forbidden = false;
  vision = false;
}

abbrev pub qwen2_5_1_5b : ModelSpec
qwen2_5_1_5b = record {
  id = "qwen2.5:1.5b";
  providers = ("ollama", served "openai/qwen2.5:1.5b" "qwen2.5:1.5b") ∷ [];
  forbidden = false;
  vision = false;
}

abbrev pub qwen2_5 : ModelSpec
qwen2_5 = record {
  id = "qwen2.5";
  providers = ("ollama", served "openai/qwen2.5:1.5b" "qwen2.5:1.5b") ∷ [];
  forbidden = false;
  vision = false;
}

abbrev pub grok_4_6 : ModelSpec
grok_4_6 = record {
  id = "grok-4.6";
  providers = ("cursor", served "cursor/grok-4.6" "grok-4.6") ∷ [];
  forbidden = false;
  vision = false;
}

abbrev pub composer_2_5 : ModelSpec
composer_2_5 = record {
  id = "composer-2.5";
  providers = ("cursor", served "cursor/composer-2.5" "composer-2.5") ∷ [];
  forbidden = false;
  vision = false;
}

abbrev pub qwen2_5_coder : ModelSpec
qwen2_5_coder = record {
  id = "qwen2.5-coder";
  providers =
      ("ollama", served "openai/qwen2.5-coder" "qwen2.5-coder")
      ∷ (
        "openrouter",
        served "openrouter/qwen/qwen-2.5-coder-32b-instruct" "qwen/qwen-2.5-coder-32b-instruct",
      )
      ∷ [];
  forbidden = false;
  vision = false;
}
