-- ===== src/Policy/Routes.antt =====
-- src/subllm/policy.py: the routes.
use subllm.Prelude.{String, some, none, Option, List, [], ◌∷◌, ◌++◌, ◌&&◌, ◌==◌, if◌then◌else◌}
use subllm.Types.{RouteCandidate, RoutePolicy}
use subllm.Policy.Candidates.{
  candidate, bounded, code_context, coding, default, heyasa, koru, koru_dsl, koru_executor, repair,
  supervisor_assessment, szeptnik, validator, vision,
}

-- `RoutePolicy(application, function, candidates, modality)`
abbrev policy : String → String → String → List RouteCandidate → RoutePolicy
policy application function modality candidates = record {
  application = application;
  function = function;
  candidates = candidates;
  modality = modality;
}

abbrev route_values_before : List RoutePolicy
route_values_before =
    policy "wellman" "standard-selection" "text" default
    ∷ policy "organism-guard" "refactor" "text" (candidate "codex-cli" none 0 ∷ [])
    ∷ policy "doctor-agent" "repair-proposal" "text" default
    ∷ policy "repair-agent" "repair-plan" "text" repair
    ∷ policy "validator-agent" "patch-review" "text"
        (validator ++ (candidate "openrouter" (some "qwen3.7-plus") 10 ∷ []))
    ∷ policy "validator-agent" "direct-pr-review" "text" validator
    ∷ policy "skills-agent" "developer" "text" default
    ∷ policy "skills-agent" "process-editor" "text" default
    ∷ policy "skills-agent" "validator" "text" default
    ∷ policy "onedev-agent" "code-edit" "text" coding
    ∷ policy "onedev-agent" "code-context" "text" code_context
    ∷ policy "todo2code" "semantic" "text" bounded
    ∷ policy "szeptnik-one" "program-generation" "text" szeptnik
    ∷ policy "szeptnik-one" "voice-programming" "text" szeptnik
    ∷ policy "koru-agent" "planning-assistant" "text" koru
    ∷ policy "koru-agent" "queue-executor" "text" koru_executor
    ∷ policy "koru-agent" "reflection" "text" koru
    ∷ policy "koru-agent" "nl-to-koru-dsl" "text" koru_dsl
    ∷ policy "koru-agent" "nl-to-coru-dsl" "text" koru_dsl
    ∷ policy "koru-agent" "strategy-review" "text" koru
    ∷ policy "c2004-system" "oql-generation" "text" default
    ∷ policy "c2004-system" "doctor-recommendation" "text" default
    ∷ policy "prellm" "preprocess" "text" default
    ∷ policy "prellm" "execute" "text" default
    ∷ policy "semcod-nfo" "analyze" "text" default
    ∷ policy "semcod-code2logic" "analyze" "text" default
    ∷ policy "semcod-code2docs" "generate" "text" default
    ∷ policy "semcod-vallm" "invoke" "text" default
    ∷ policy "semcod-taskill" "execute" "text" default
    ∷ policy "semcod-fixos" "repair" "text" default
    ∷ policy "semcod-pfix" "repair" "text" default
    ∷ policy "semcod-algitex" "autofix" "text" default
    ∷ policy "semcod-docval" "validate" "text" default
    ∷ policy "semcod-planfile" "plan" "text" default
    ∷ policy "autogrammar-nexu" "generate" "text" default
    ∷ policy "autogrammar-nexu" "cinema" "text" default
    ∷ policy "autogrammar-nexu" "vision" "vision" vision
    ∷ policy "autogrammar-intract" "propose" "text" default
    ∷ policy "autogrammar-nlp2cmd" "generate" "text" default
    ∷ policy "autogrammar-nlp2cmd" "extract-schema" "text" default
    ∷ []

abbrev route_values_after : List RoutePolicy
route_values_after =
    policy "autogrammar-nlp2cmd" "vision" "vision" vision
    ∷ policy "autogrammar-nlp2dsl" "generate" "text" default
    ∷ policy "autogrammar-imgl" "generate" "text" default
    ∷ policy "autogrammar-imgl" "vision" "vision" vision
    ∷ policy "autogrammar-tillm" "invoke" "text" default
    ∷ policy "autogrammar-hillm" "invoke" "text" default
    ∷ policy "autogrammar-doql" "translate" "text" default
    ∷ policy "autogrammar-toonic" "invoke" "text" default
    ∷ policy "autogrammar-curllm" "invoke" "text" default
    ∷ policy "autogrammar-testql" "generate" "text" default
    ∷ policy "autogrammar-redsl" "evaluate" "text" default
    ∷ policy "autogrammar-vql" "generate" "text" default
    ∷ policy "autogrammar-vql" "vision" "vision" vision
    ∷ policy "twinstudio" "eda-nl2dsl" "text" default
    ∷ policy "twinstudio" "eda-firmware-audit" "text" default
    ∷ policy "twinstudio" "eda-conflict-chat" "text" default
    ∷ policy "platform" "interactive" "text" (
        default
        ++ (candidate "openrouter" (some "grok-4.5") 10
            ∷ candidate "openrouter" (some "gemini-3.6-flash") 20
            ∷ []))
    ∷ policy "platform" "site-audit" "text" (
        default
        ++ (candidate "openrouter" (some "grok-4.5") 10
            ∷ candidate "openrouter" (some "gemini-3.6-flash") 20
            ∷ []))
    ∷ policy "supervisor" "assessment" "text" supervisor_assessment
    ∷ policy "supervisor" "delegation" "text" default
    ∷ policy "supervisor" "review" "text" default
    ∷ policy "subactor-proxy" "chat" "text" default
    ∷ policy "subactor-proxy" "deepseek-flash" "text"
        (candidate "openrouter" (some "deepseek-v4.1-flash") 0 ∷ [])
    ∷ policy "subactor-proxy" "completion" "text" bounded
    ∷ policy "premesh" "chat" "text" default
    ∷ policy "autogrammar-gillm" "invoke" "text" default
    ∷ policy "heyasa" "command" "text" heyasa
    ∷ policy "heyasa" "decision-routing" "text" heyasa
    ∷ []

unfoldable pub routes : List RoutePolicy
routes = route_values_before ++ route_values_after

-- `ROUTES[(application, function)]`: the keys are distinct.
unfoldable pub find_route : List RoutePolicy → String → String → Option RoutePolicy
find_route [] application function = none
find_route (r ∷ rs) application function =
    let rest = find_route rs application function in
    if r.application == application && r.function == function then some r else rest
