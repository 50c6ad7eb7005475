-- ===== src/Policy/Applications.antt =====
-- src/subllm/policy.py: the applications.
use subllm.Prelude.{String, [], ◌∷◌, ◌++◌}
use subllm.Dict.{Dict}
use subllm.Types.{ApplicationSpec}

-- An entry: the key is the id.
abbrev application : String → String → String → String × ApplicationSpec
application id title url = (id, record { id = id; title = title; url = url })

abbrev applications_before : Dict ApplicationSpec
applications_before =
    application "wellman" "Wellman standard selection" "https://github.com/wellmanifest/wellman"
    ∷ application "organism-guard" "Organism Guard" "https://github.com/subactor/organism-guard"
    ∷ application "doctor-agent" "doctor-agent" "https://github.com/subactor/doctor-agent"
    ∷ application "repair-agent" "repair-agent" "https://github.com/subactor/repair-agent"
    ∷ application "validator-agent" "validator-agent" "https://github.com/subactor/validator-agent"
    ∷ application "skills-agent" "skills-agent" "https://github.com/subactor/skills-agent"
    ∷ application "onedev-agent" "onedev-agent" "https://github.com/subactor/onedev-agent"
    ∷ application "todo2code" "todo2code" "https://github.com/autogrammar/todo2code"
    ∷ application "koru-agent" "Koru" "https://github.com/semcod/koru"
    ∷ application "c2004-system" "C2004" "https://github.com/maskservice/c2004"
    ∷ application "prellm" "PreLLM" "https://github.com/semcod/prellm"
    ∷ application "semcod-nfo" "NFO" "https://github.com/semcod/nfo"
    ∷ application "semcod-code2logic" "code2logic" "https://github.com/semcod/code2logic"
    ∷ application "semcod-code2docs" "code2docs" "https://github.com/semcod/code2docs"
    ∷ application "semcod-vallm" "vallm" "https://github.com/semcod/vallm"
    ∷ application "semcod-taskill" "taskill" "https://github.com/semcod/taskill"
    ∷ application "semcod-fixos" "fixos" "https://github.com/semcod/fixos"
    ∷ application "semcod-pfix" "pfix" "https://github.com/semcod/pfix"
    ∷ application "semcod-algitex" "algitex" "https://github.com/semcod/algitex"
    ∷ application "semcod-docval" "docval" "https://github.com/semcod/docval"
    ∷ application "semcod-planfile" "planfile" "https://github.com/semcod/planfile"
    ∷ application "autogrammar-nexu" "nexu" "https://github.com/autogrammar/nexu"
    ∷ application "autogrammar-intract" "intract" "https://github.com/autogrammar/intract"
    ∷ application "autogrammar-nlp2cmd" "nlp2cmd" "https://github.com/autogrammar/nlp2cmd"
    ∷ []

abbrev applications_after : Dict ApplicationSpec
applications_after =
    application "autogrammar-nlp2dsl" "nlp2dsl" "https://github.com/autogrammar/nlp2dsl"
    ∷ application "autogrammar-imgl" "imgl" "https://github.com/autogrammar/imgl"
    ∷ application "autogrammar-tillm" "tillm" "https://github.com/autogrammar/tillm"
    ∷ application "autogrammar-hillm" "hillm" "https://github.com/autogrammar/hillm"
    ∷ application "autogrammar-doql" "doql" "https://github.com/autogrammar/doql"
    ∷ application "autogrammar-toonic" "toonic" "https://github.com/autogrammar/toonic"
    ∷ application "autogrammar-curllm" "curllm" "https://github.com/autogrammar/curllm"
    ∷ application "autogrammar-testql" "testql" "https://github.com/autogrammar/testql"
    ∷ application "autogrammar-redsl" "redsl" "https://github.com/autogrammar/redsl"
    ∷ application "autogrammar-vql" "vql" "https://github.com/autogrammar/vql"
    ∷ application "twinstudio" "TwinStudio" "https://github.com/subactor/twinstudio"
    ∷ application "platform" "Subactor Platform" "https://github.com/subactor/platform"
    ∷ application "szeptnik-one" "Szeptnik One" "https://github.com/tom-sapletta-com/watch"
    ∷ application "supervisor" "Subactor Supervisor" "https://github.com/subactor/supervisor"
    ∷ application "subactor-proxy" "Subactor Proxy" "https://github.com/subactor/subllm"
    ∷ application "premesh" "Premesh" "https://github.com/subactor/premesh"
    ∷ application "autogrammar-gillm" "gillm" "https://github.com/autogrammar/gillm"
    ∷ application "heyasa" "Heyasa Autonomy" "https://github.com/paxlet-com/heyasa"
    ∷ []

unfoldable pub applications : Dict ApplicationSpec
applications = applications_before ++ applications_after
