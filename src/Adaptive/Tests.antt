-- ===== src/Adaptive/Tests.antt =====
-- The loop of `execute` on two models, runs of it, and the theorems about it at them.
use subllm.Prelude.{
  ℕ, String, ◌≡◌, refl, arith, true, false, none, some, List, [], ◌∷◌, ltb, strip, if◌then◌else◌,
  ◌==◌, pos, ◌^◌, ok, err,
}
use subllm.Dict.{lookup, insert}
use subllm.Json.{text, int, array, object, cons, nil, field, end}
use subllm.Adaptive.Careful.{IsCareful, loop-IsCareful}
use subllm.Adaptive.Classes.{
  requested_class, model_levels, failure_kind, check_response, compatible,
}
use subllm.Adaptive.Config.{
  Config, fast, strong, level, read_time, read_policy, read_tables, read_classes, read_models,
  tier_of, read_table, finite_limit,
}
use subllm.Adaptive.Execute.{
  Request, rounds, most_attempts, execute, prepare, collect, compatible_routes, one_each, put_route,
  eligible_routes, raise_tier,
}
use subllm.Adaptive.Loop.{Loops, loop-Terminates}
use subllm.Adaptive.Observed.{Database, save, observations, status_of, replace_row, claim_sweep}
use subllm.Adaptive.Rank.{rank, rank_leb, sort_by, place_by}
use subllm.Adaptive.Remembered.{save-observations, claim_sweep-apart, row_of}
use subllm.Adaptive.Strong.{execute-IsCompatible, IsCompatible}
use subllm.Adaptive.Turn.{
  Job, Round, World, Pick, begin, turn, try_first, attempt, settle, fail_with,
}
use subllm.Client.Outcome.{CompletionResponse, Outcome, answered, failed, retryable, raised}
use subllm.Client.Vision.{Message}
use subllm.Health.Entry.{is_provider, fail, succeed, is_reason, round_ms}
use subllm.Health.File.{bounded_state, state_payload}
use subllm.Health.Routing.{order_with_last_resort, order_by_health, cooling}
use subllm.Health.Store.{
  works, record_failure, record_success, with_persisted_state, persisted_state, read_state,
  write_state, update_entry,
}
use subllm.PolicyConfig.{ExecutionPolicyConfig}
use subllm.Types.{ResolvedRoute}

abbrev config : Config
config = record {
  classes = (fast, "small" ∷ []) ∷ (strong, "large" ∷ []) ∷ [];
  aliases = ("external", fast) ∷ [];
  routes = [];
  probe_timeout = 60_000_000;
  sweep_budget = 180_000_000;
  ttl = 900_000_000;
  sweep_interval = 300_000_000;
}

abbrev execution : ExecutionPolicyConfig
execution = record {
  failover_enabled = true;
  attempt_timeout = 10_000_000;
  slow_response = 20_000_000;
  cooldown = 60_000_000;
  failure_threshold = 2;
  max_attempts = 3;
  uncredited_cooldown = 3_600_000_000;
}

abbrev route_of : String → String → ℕ → ResolvedRoute
route_of provider model priority = record {
  route = record {
    application = "app";
    application_name = "app";
    application_url = "";
    function = "f";
    provider = provider;
    model = model;
    priority = priority;
    api_base = "";
    api_key_env = "";
    litellm_model = "";
    wire_model = model;
    extra_headers = [];
    transport = "openai-compatible";
    model_parameters = [];
    modality = "text";
    policy_sha256 = "";
  };
  api_key = "k";
}

abbrev response : CompletionResponse
response = record {
  content = "yes";
  provider = "zai";
  model = "large";
  usage = [];
  finish_reason = "stop";
  attempts = [];
  raw = [];
}

abbrev timed_out : Outcome
timed_out = failed none (
    retryable (record {
      message = "no answer";
      outcome = "timeout";
      provider_level = true;
      diagnostic_code = none;
    }))

-- The first call fails, a later one is answered.
abbrev given : ℕ → Round
given n = record {
  reads = true;
  read_at = 7;
  io = works;
  again = works;
  health_at = 7;
  elapsed = 25_000_000;
  duration = 1_500;
  invoke = λ route timeout. if ltb n 1 then timed_out else answered response;
  writes = true;
  saved_at = 7;
  record_io = works;
  recorded_at = 7;
}

abbrev world : World
world = record {
  host = record { files = []; fallback = []; memory = [] };
  database = record { availability = []; sweeps = [] };
  picks = [];
}

abbrev routes_of : String → List ResolvedRoute
routes_of model =
    if model == "small"
    then route_of "agy" "small" 1 ∷ route_of "agy" "small" 0 ∷ []
    else route_of "zai" "large" 0 ∷ []

abbrev question : List Message
question = (("content", text "why") ∷ []) ∷ []

abbrev request : Request
request = record {
  config = config;
  requested = "external";
  messages = question;
  minimum_class = none;
  format = "text";
  timeout = 30_000_000;
  execution = execution;
  path = "h";
  models = record { base = []; custom = [] };
  build_routes = routes_of;
  budget = λ r. 3_000_000;
  loads = λ s. none;
}

abbrev job : Job
job = record {
  config = config;
  requested = "external";
  tier = fast;
  levels = ("small", 1) ∷ ("large", 3) ∷ [];
  format = "text";
  eligible = route_of "agy" "small" 0 ∷ route_of "zai" "large" 0 ∷ [];
  timeout = 30_000_000;
  execution = execution;
  path = "h";
  budget = λ r. 3_000_000;
  loads = λ s. none;
}

abbrev model_and_timeout : List Pick → List (String × ℕ)
model_and_timeout [] = []
model_and_timeout (c ∷ cs) = (c.route.model, c.timeout) ∷ model_and_timeout cs

-- The model of the requested class is called first, and after it failed the one of a higher class.
two_calls :
    model_and_timeout (execute request given world).1.picks
    ≡ ("large", 3_000_000) ∷ ("small", 3_000_000) ∷ []
unfolding execute prepare requested_class raise_tier collect compatible_routes compatible one_each
    put_route eligible_routes model_levels level rounds turn try_first attempt settle fail_with
    failure_kind check_response observations status_of save replace_row rank rank_leb sort_by
    place_by strip order_with_last_resort order_by_health persisted_state cooling record_failure
    record_success with_persisted_state read_state write_state lookup insert bounded_state
    state_payload update_entry is_provider fail succeed is_reason round_ms
two_calls = refl

abbrev IsServed : ResolvedRoute → Type 0
IsServed r = r.transport ≡ "openai-compatible"

loop-IsCareful_example :
    IsCareful IsServed job 3 (rounds job given (most_attempts execution) 0 begin world)
loop-IsCareful_example = loop-IsCareful IsServed job given (refl, (refl, tt)) world refl

loop-Terminates_example :
    Loops job given 0 begin world (rounds job given (most_attempts execution) 0 begin world)
loop-Terminates_example = loop-Terminates job given world

asked : requested_class config "external" ≡ some fast
unfolding requested_class lookup
asked = refl

execute-IsCompatible_example : IsCompatible request fast (execute request given world).1.picks
execute-IsCompatible_example = execute-IsCompatible request fast given world asked refl

save-observations_example :
    status_of "zai" "large" (
      observations true 9 config "text"
        (save true 7 (route_of "zai" "large" 0) "text" "timeout" 1_500 world.database))
    ≡ some (row_of (route_of "zai" "large" 0) "text" "timeout" 7 1_500)
save-observations_example =
    save-observations config (route_of "zai" "large" 0) "text" "timeout" "zai" "large" 7 9 1_500
      world.database (omega arith)

abbrev claimed : Database
claimed = record { availability = []; sweeps = ("text", 7) ∷ [] }

claims : claim_sweep true 7 config "text" world.database ≡ (true, claimed)
unfolding claim_sweep lookup insert
claims = refl

claim_sweep-apart_example : claim_sweep true 9 config "text" claimed ≡ (false, claimed)
claim_sweep-apart_example =
    claim_sweep-apart true true 7 9 config "text" world.database claimed claims (omega arith)

-- An integer that no float holds leaves the policy as an OverflowError.
too_large : read_time (some (int (pos (2 ^ 1024)))) 5 ≡ err (raised "OverflowError")
unfolding read_time finite_limit
too_large = refl

-- A policy with a class, and the default times.
reads_policy :
    read_policy (
      object (
        field "classes"
          (object (field "fast" (array (cons (text "m") nil)) end))
          (field "ttl" (int (pos 7)) end)))
    ≡ ok (record {
      classes = (fast, "m" ∷ []) ∷ [];
      aliases = [];
      routes = [];
      probe_timeout = 60_000_000;
      sweep_budget = 180_000_000;
      ttl = 7_000_000;
      sweep_interval = 300_000_000;
    })
unfolding read_policy read_tables read_classes read_models tier_of read_table read_time lookup
    finite_limit
reads_policy = refl
