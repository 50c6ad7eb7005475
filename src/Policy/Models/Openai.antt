-- ===== src/Policy/Models/Openai.antt =====
-- src/subllm/policy.py: entries of `_BASE_MODELS`.
use subllm.Prelude.{false, [], ◌∷◌}
use subllm.Types.{ModelSpec}
use subllm.Policy.Models.Served.{served}

abbrev pub gpt_6_sol : ModelSpec
gpt_6_sol = record {
  id = "gpt-6-sol";
  providers =
      ("codex-cli", served "" "gpt-6-sol") ∷ ("codex", served "openai/gpt-6-sol" "gpt-6-sol") ∷ [];
  forbidden = false;
  vision = false;
}

abbrev pub gpt_5_6_sol : ModelSpec
gpt_5_6_sol = record {
  id = "gpt-5.6-sol";
  providers =
      ("codex-cli", served "" "gpt-5.6-sol")
      ∷ ("codex", served "openai/gpt-5.6-sol" "gpt-5.6-sol")
      ∷ ("cursor", served "cursor/gpt-5.6-sol" "gpt-5.6-sol")
      ∷ [];
  forbidden = false;
  vision = false;
}

abbrev pub gpt_5_6_terra : ModelSpec
gpt_5_6_terra = record {
  id = "gpt-5.6-terra";
  providers = ("codex", served "openai/gpt-5.6-terra" "gpt-5.6-terra") ∷ [];
  forbidden = false;
  vision = false;
}

abbrev pub gpt_6_luna : ModelSpec
gpt_6_luna = record {
  id = "gpt-6-luna";
  providers =
      ("codex-cli", served "" "gpt-6-luna")
      ∷ ("codex", served "openai/gpt-6-luna" "gpt-6-luna")
      ∷ [];
  forbidden = false;
  vision = false;
}

abbrev pub gpt_6_1_terra : ModelSpec
gpt_6_1_terra = record {
  id = "gpt-6.1-terra";
  providers = ("codex", served "openai/gpt-6.1-terra" "gpt-6.1-terra") ∷ [];
  forbidden = false;
  vision = false;
}

abbrev pub gpt_5_6_luna : ModelSpec
gpt_5_6_luna = record {
  id = "gpt-5.6-luna";
  providers =
      ("codex-cli", served "" "gpt-5.6-luna")
      ∷ ("codex", served "openai/gpt-5.6-luna" "gpt-5.6-luna")
      ∷ [];
  forbidden = false;
  vision = false;
}

abbrev pub gpt_5_5 : ModelSpec
gpt_5_5 = record {
  id = "gpt-5.5";
  providers =
      ("codex", served "openai/gpt-5.5" "gpt-5.5")
      ∷ ("cursor", served "cursor/gpt-5.5" "gpt-5.5")
      ∷ ("openrouter", served "openrouter/openai/gpt-5.5" "openai/gpt-5.5")
      ∷ [];
  forbidden = false;
  vision = false;
}
