-- ===== src/Policy/Providers.antt =====
-- src/subllm/policy.py: the built-in providers.
use subllm.Prelude.{String, true, false, List, [], ◌∷◌}
use subllm.Dict.{Dict}
use subllm.Types.{ProviderSpec}

unfoldable pub base_providers : Dict ProviderSpec
base_providers =
    (
      "zai",
      record {
        id = "zai";
        api_base = "https://api.z.ai/api/coding/paas/v4";
        api_key_env = "ZAI_API_KEY";
        transport = "openai-compatible";
        attribution_headers = false;
      },
    )
    ∷ (
      "agy",
      record {
        id = "agy";
        api_base = "https://generativelanguage.googleapis.com/v1beta";
        api_key_env = "GEMINI_API_KEY";
        transport = "gemini-sdk";
        attribution_headers = false;
      },
    )
    ∷ (
      "cursor-cli",
      record {
        id = "cursor-cli";
        api_base = "";
        api_key_env = "";
        transport = "cursor-cli";
        attribution_headers = false;
      },
    )
    ∷ (
      "codex-cli",
      record {
        id = "codex-cli";
        api_base = "";
        api_key_env = "";
        transport = "codex-cli";
        attribution_headers = false;
      },
    )
    ∷ (
      "claude-cli",
      record {
        id = "claude-cli";
        api_base = "";
        api_key_env = "";
        transport = "claude-cli";
        attribution_headers = false;
      },
    )
    ∷ (
      "agy-cli",
      record {
        id = "agy-cli";
        api_base = "";
        api_key_env = "";
        transport = "agy-cli";
        attribution_headers = false;
      },
    )
    ∷ (
      "codex",
      record {
        id = "codex";
        api_base = "https://api.openai.com/v1";
        api_key_env = "OPENAI_API_KEY";
        transport = "openai-compatible";
        attribution_headers = false;
      },
    )
    ∷ (
      "claude",
      record {
        id = "claude";
        api_base = "https://api.anthropic.com/v1";
        api_key_env = "ANTHROPIC_API_KEY";
        transport = "anthropic";
        attribution_headers = false;
      },
    )
    ∷ (
      "cursor",
      record {
        id = "cursor";
        api_base = "https://api.cursor.com";
        api_key_env = "CURSOR_API_KEY";
        transport = "cursor-sdk";
        attribution_headers = false;
      },
    )
    ∷ (
      "ollama",
      record {
        id = "ollama";
        api_base = "http://127.0.0.1:11434/v1";
        api_key_env = "OLLAMA_API_KEY";
        transport = "openai-compatible";
        attribution_headers = false;
      },
    )
    ∷ (
      "openrouter",
      record {
        id = "openrouter";
        api_base = "https://openrouter.ai/api/v1";
        api_key_env = "OPENROUTER_API_KEY";
        transport = "openai-compatible";
        attribution_headers = true;
      },
    )
    ∷ []

abbrev pub base_orderable_provider_ids : List String
base_orderable_provider_ids =
    "zai" ∷ "agy" ∷ "codex" ∷ "claude" ∷ "cursor" ∷ "ollama" ∷ "openrouter" ∷ "codex-cli"
    ∷ "claude-cli" ∷ "agy-cli" ∷ "cursor-cli" ∷ []
