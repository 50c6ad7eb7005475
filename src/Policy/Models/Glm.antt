-- ===== src/Policy/Models/Glm.antt =====
-- src/subllm/policy.py: entries of `_BASE_MODELS`.
use subllm.Prelude.{true, false, [], ◌∷◌}
use subllm.Types.{ModelSpec}
use subllm.Policy.Models.Served.{served}

abbrev pub glm_5_2 : ModelSpec
glm_5_2 = record {
  id = "glm-5.2";
  providers =
      ("zai", served "zai/glm-5.2" "glm-5.2")
      ∷ ("openrouter", served "openrouter/z-ai/glm-5.2" "z-ai/glm-5.2")
      ∷ [];
  forbidden = false;
  vision = false;
}

abbrev pub glm_5_3 : ModelSpec
glm_5_3 = record {
  id = "glm-5.3";
  providers =
      ("zai", served "zai/glm-5.3" "glm-5.3")
      ∷ ("openrouter", served "openrouter/z-ai/glm-5.3" "z-ai/glm-5.3")
      ∷ [];
  forbidden = false;
  vision = false;
}

abbrev pub z_ai_glm_5_3 : ModelSpec
z_ai_glm_5_3 = record {
  id = "z-ai/glm-5.3";
  providers =
      ("zai", served "zai/glm-5.3" "glm-5.3")
      ∷ ("openrouter", served "openrouter/z-ai/glm-5.3" "z-ai/glm-5.3")
      ∷ [];
  forbidden = false;
  vision = false;
}

abbrev pub glm_5_3_flash : ModelSpec
glm_5_3_flash = record {
  id = "glm-5.3-flash";
  providers =
      ("zai", served "zai/glm-5.3-flash" "glm-5.3-flash")
      ∷ ("openrouter", served "openrouter/z-ai/glm-5.3-flash" "z-ai/glm-5.3-flash")
      ∷ [];
  forbidden = false;
  vision = false;
}

abbrev pub glm_4_5v : ModelSpec
glm_4_5v = record {
  id = "glm-4.5v";
  providers = ("openrouter", served "openrouter/z-ai/glm-4.5v" "z-ai/glm-4.5v") ∷ [];
  forbidden = false;
  vision = true;
}
