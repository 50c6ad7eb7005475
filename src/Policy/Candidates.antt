-- ===== src/Policy/Candidates.antt =====
-- src/subllm/policy.py: the shared lists of candidates.
use subllm.Prelude.{
  ℕ, String, Option, none, some, List, [], ◌∷◌, ◌++◌, ◌==◌, if◌then◌else◌, map, drop, length,
}
use subllm.Types.{RouteCandidate}

-- `RouteCandidate(provider, model, priority_offset)`
abbrev pub candidate : String → Option String → ℕ → RouteCandidate
candidate provider model offset = record {
  provider = provider;
  model = model;
  priority_offset = offset;
  model_parameters = [];
}

abbrev pub default : List RouteCandidate
default =
    (candidate "zai" (some "glm-5.3") 0
      ∷ candidate "zai" (some "glm-5.3-flash") 2
      ∷ candidate "cursor" (some "gpt-5.6-sol") 0
      ∷ candidate "cursor" (some "grok-4.6") 5
      ∷ candidate "agy" (some "gemini-3.8-flash") 0
      ∷ candidate "agy" (some "gemini-3.6-flash") 1
      ∷ candidate "codex" (some "gpt-6-luna") 0
      ∷ candidate "claude" (some "claude-sonnet-5") 0
      ∷ candidate "ollama" (some "qwen3-coder:30b") 1
      ∷ candidate "agy-cli" (some "claude-sonnet-4-6") 0
      ∷ candidate "claude-cli" (some "claude-sonnet-5") 0
      ∷ candidate "openrouter" (some "glm-5.3-flash") 2
      ∷ candidate "openrouter" none 0
      ∷ [])

-- `replace(candidate, ...)` of `_BOUNDED`
abbrev pub low_effort : RouteCandidate → RouteCandidate
low_effort c =
    if c.provider == "zai"
    then record c { model_parameters = ("reasoning_effort", "low") ∷ [] }
    else c

abbrev pub bounded : List RouteCandidate
bounded = map low_effort default

abbrev pub repair : List RouteCandidate
repair =
    (candidate "zai" (some "glm-5.3") 0
      ∷ candidate "zai" (some "glm-5.3-flash") 2
      ∷ candidate "cursor" (some "gpt-5.6-sol") 0
      ∷ candidate "cursor" (some "grok-4.6") 5
      ∷ candidate "agy" (some "gemini-3.8-flash") 0
      ∷ candidate "agy" (some "gemini-3.6-flash") 1
      ∷ candidate "codex" (some "gpt-6-luna") 0
      ∷ candidate "claude" (some "claude-sonnet-5") 0
      ∷ candidate "ollama" (some "qwen3-coder:30b") 1
      ∷ candidate "agy-cli" (some "claude-sonnet-4-6") 0
      ∷ candidate "claude-cli" (some "claude-sonnet-5") 0
      ∷ candidate "openrouter" (some "glm-5.3-flash") 2
      ∷ candidate "openrouter" (some "glm-5.3") 0
      ∷ [])

abbrev pub validator : List RouteCandidate
validator =
    (candidate "cursor-cli" (some "cursor-auto") 0
      ∷ candidate "zai" (some "glm-5.3") 0
      ∷ candidate "zai" (some "glm-5.3-flash") 2
      ∷ candidate "cursor" (some "gpt-5.6-sol") 0
      ∷ candidate "cursor" (some "grok-4.6") 5
      ∷ candidate "agy" (some "gemini-3.8-flash") 0
      ∷ candidate "agy" (some "gemini-3.6-flash") 1
      ∷ candidate "codex" (some "gpt-6-luna") 0
      ∷ candidate "claude" (some "claude-sonnet-5") 0
      ∷ candidate "ollama" (some "qwen3-coder:30b") 1
      ∷ candidate "agy-cli" (some "claude-sonnet-4-6") 0
      ∷ candidate "claude-cli" (some "claude-sonnet-5") 0
      ∷ candidate "openrouter" (some "glm-5.3-flash") 0
      ∷ [])

abbrev pub koru : List RouteCandidate
koru = default ++ (candidate "openrouter" (some "deepseek-v4-pro") 30 ∷ [])

abbrev pub koru_executor : List RouteCandidate
koru_executor = koru ++ (candidate "codex-cli" (some "gpt-6-luna") 0 ∷ [])

abbrev pub koru_dsl : List RouteCandidate
koru_dsl =
    bounded ++ (candidate "codex-cli" (some "gpt-6-luna") 0 ∷ []) ++ drop (length default) koru

abbrev pub heyasa : List RouteCandidate
heyasa = default ++ (candidate "codex-cli" (some "gpt-6-luna") 0 ∷ [])

abbrev pub supervisor_assessment : List RouteCandidate
supervisor_assessment = bounded ++ (candidate "codex-cli" (some "gpt-6-luna") 0 ∷ [])

abbrev pub coding : List RouteCandidate
coding =
    (candidate "codex-cli" none 100
      ∷ candidate "zai" (some "glm-5.3") 0
      ∷ candidate "zai" (some "glm-5.3-flash") 2
      ∷ candidate "cursor" (some "gpt-5.6-sol") 0
      ∷ candidate "cursor" (some "grok-4.6") 5
      ∷ candidate "agy" (some "gemini-3.8-flash") 0
      ∷ candidate "agy" (some "gemini-3.6-flash") 1
      ∷ candidate "codex" (some "gpt-6-luna") 0
      ∷ candidate "claude" (some "claude-sonnet-5") 0
      ∷ candidate "ollama" (some "qwen3-coder:30b") 1
      ∷ candidate "agy-cli" (some "claude-sonnet-4-6") 0
      ∷ candidate "claude-cli" (some "claude-sonnet-5") 0
      ∷ candidate "openrouter" (some "glm-5.3-flash") 2
      ∷ candidate "openrouter" (some "glm-5.3") 0
      ∷ [])

-- `replace(candidate, ...)` of `_CODE_CONTEXT`
abbrev pub flash_on_openrouter : RouteCandidate → RouteCandidate
flash_on_openrouter c =
    if c.provider == "openrouter"
    then record c {
      model = some "glm-5.3-flash";
      model_parameters = ("reasoning_effort", "low") ∷ [];
    }
    else c

abbrev pub code_context : List RouteCandidate
code_context = map flash_on_openrouter coding

abbrev pub vision : List RouteCandidate
vision =
    (candidate "openrouter" (some "glm-4.5v") 0
      ∷ candidate "openrouter" (some "gemini-3.6-flash") 10
      ∷ [])

abbrev pub szeptnik : List RouteCandidate
szeptnik =
    (candidate "codex" (some "gpt-6-luna") 0
      ∷ candidate "codex" (some "gpt-6.1-terra") 2
      ∷ candidate "zai" (some "glm-5.3") 10
      ∷ candidate "zai" (some "glm-5.3-flash") 12
      ∷ candidate "openrouter" (some "glm-5.3-flash") 20
      ∷ [])
