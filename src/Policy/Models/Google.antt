-- ===== src/Policy/Models/Google.antt =====
-- src/subllm/policy.py: entries of `_BASE_MODELS`.
use subllm.Prelude.{true, false, [], ◌∷◌}
use subllm.Types.{ModelSpec}
use subllm.Policy.Models.Served.{served}

abbrev pub gemini_3_6_flash : ModelSpec
gemini_3_6_flash = record {
  id = "gemini-3.6-flash";
  providers =
      ("agy", served "gemini/gemini-3.6-flash" "gemini-3.6-flash")
      ∷ ("openrouter", served "openrouter/google/gemini-3.6-flash" "google/gemini-3.6-flash")
      ∷ [];
  forbidden = false;
  vision = true;
}

abbrev pub gemini_3_1_pro_high : ModelSpec
gemini_3_1_pro_high = record {
  id = "gemini-3.1-pro-high";
  providers =
      ("agy-cli", served "" "gemini-3.1-pro-high")
      ∷ ("agy", served "gemini/gemini-3.1-pro-preview" "gemini-3.1-pro-preview")
      ∷ [];
  forbidden = false;
  vision = false;
}

abbrev pub gemini_3_7_flash_medium : ModelSpec
gemini_3_7_flash_medium = record {
  id = "gemini-3.7-flash-medium";
  providers =
      ("agy-cli", served "" "gemini-3.7-flash-medium")
      ∷ ("agy", served "gemini/gemini-3.7-flash" "gemini-3.7-flash")
      ∷ [];
  forbidden = false;
  vision = false;
}

abbrev pub gemini_3_8_flash : ModelSpec
gemini_3_8_flash = record {
  id = "gemini-3.8-flash";
  providers =
      ("agy-cli", served "" "gemini-3.8-flash-medium")
      ∷ ("agy", served "gemini/gemini-3.8-flash" "gemini-3.8-flash")
      ∷ [];
  forbidden = false;
  vision = false;
}

abbrev pub gemini_3_5_flash_lite : ModelSpec
gemini_3_5_flash_lite = record {
  id = "gemini-3.5-flash-lite";
  providers = ("agy", served "gemini/gemini-3.5-flash-lite" "gemini-3.5-flash-lite") ∷ [];
  forbidden = false;
  vision = false;
}

abbrev pub gemini_2_5_flash : ModelSpec
gemini_2_5_flash = record {
  id = "gemini-2.5-flash";
  providers =
      ("agy", served "gemini/gemini-2.5-flash" "gemini-2.5-flash")
      ∷ ("openrouter", served "openrouter/google/gemini-2.5-flash" "google/gemini-2.5-flash")
      ∷ [];
  forbidden = false;
  vision = false;
}

abbrev pub gemini_2_5_pro : ModelSpec
gemini_2_5_pro = record {
  id = "gemini-2.5-pro";
  providers =
      ("agy", served "gemini/gemini-2.5-pro" "gemini-2.5-pro")
      ∷ ("openrouter", served "openrouter/google/gemini-2.5-pro" "google/gemini-2.5-pro")
      ∷ [];
  forbidden = false;
  vision = false;
}

abbrev pub gemini_3_1_pro_preview : ModelSpec
gemini_3_1_pro_preview = record {
  id = "gemini-3.1-pro-preview";
  providers =
      (
        "openrouter",
        served "openrouter/google/gemini-3.1-pro-preview" "google/gemini-3.1-pro-preview",
      )
      ∷ [];
  forbidden = true;
  vision = false;
}
