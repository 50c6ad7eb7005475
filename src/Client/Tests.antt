-- ===== src/Client/Tests.antt =====
-- The failover of `complete` at a concrete plan, and runs of the model.
use subllm.Prelude.{ℕ, String, ◌≡◌, refl, true, List, ok, [], ◌∷◌, none, some, ltb, if◌then◌else◌}
use subllm.Client.Attempt.{
  Setting, Trial, Call, World, start, turn, attempt, settle, call_of, diagnostic,
}
use subllm.Client.Failover.{Planned, IsOrderly, failover-IsOrderly}
use subllm.Client.Outcome.{
  CompletionResponse, Outcome, answered, failed, retryable, attempt_diagnostic_code,
}
use subllm.Client.Routes.{
  failover, Calls, complete, run_available, check_model, explicit_model, requested_model_routes,
  ordered, run_routes,
}
use subllm.Client.Vision.{Message, validate_vision_messages}
use subllm.Client.Complete.{complete-IsCareful, IsCareful}
use subllm.Health.Routing.{order_with_last_resort, order_by_health, cooling}
use subllm.Json.{text}
use subllm.Dict.{lookup, insert, remove}
use subllm.Health.Entry.{is_provider, fail}
use subllm.Health.File.{bounded_state, state_payload}
use subllm.Health.Store.{
  works, record_failure, record_success, with_persisted_state, persisted_state, read_state,
  write_state, update_entry,
}
use subllm.Types.{ResolvedRoute}

abbrev setting : Setting
setting = record {
  application = "app";
  function = "f";
  request_id = "r";
  path = "h";
  caller_limit = 30_000_000;
  execution = record {
    failover_enabled = true;
    attempt_timeout = 10_000_000;
    slow_response = 20_000_000;
    cooldown = 60_000_000;
    failure_threshold = 2;
    max_attempts = 3;
    uncredited_cooldown = 3_600_000_000;
  };
}

abbrev route_of : String → ResolvedRoute
route_of p = record {
  route = record {
    application = "app";
    application_name = "app";
    application_url = "";
    function = "f";
    provider = p;
    model = "m";
    priority = 0;
    api_base = "";
    api_key_env = "";
    litellm_model = "";
    wire_model = "m";
    extra_headers = [];
    transport = "openai-compatible";
    model_parameters = [];
    modality = "text";
    policy_sha256 = "";
  };
  api_key = "k";
}

abbrev response : CompletionResponse
response = record {
  content = "yes";
  provider = "agy";
  model = "m";
  usage = [];
  finish_reason = "stop";
  attempts = [];
  raw = [];
}

abbrev timed_out : Outcome
timed_out = failed none (
    retryable (record {
      message = "no answer";
      outcome = "timeout";
      provider_level = true;
      diagnostic_code = none;
    }))

-- The first call fails, a later one is answered.
abbrev trials : ℕ → Trial
trials n = record {
  elapsed = 25_000_000;
  duration = 1_500;
  now = 7;
  io = works;
  invoke = λ route timeout. if ltb n 1 then timed_out else answered response;
}

abbrev plan : Planned
plan = (route_of "zai", 10_000_000) ∷ (route_of "zai", 1) ∷ (route_of "agy", 3_000_000) ∷ []

abbrev world : World
world = record { host = record { files = []; fallback = []; memory = [] }; calls = [] }

failover-IsOrderly_example :
    IsOrderly setting plan
      (failover setting trials 0 plan start world).0
      (failover setting trials 0 plan start world).1.calls
failover-IsOrderly_example = failover-IsOrderly setting trials plan world refl

abbrev provider_and_timeout : List Call → List (String × ℕ)
provider_and_timeout [] = []
provider_and_timeout (c ∷ cs) = (c.route.provider, c.timeout) ∷ provider_and_timeout cs

-- The second route has the provider that failed, so the third is called, with the budget that it has.
two_calls :
    provider_and_timeout (failover setting trials 0 plan start world).1.calls
    ≡ ("agy", 3_000_000) ∷ ("zai", 5_000_000) ∷ []
unfolding failover turn attempt settle call_of diagnostic attempt_diagnostic_code record_failure
    record_success with_persisted_state read_state lookup write_state insert bounded_state
    state_payload update_entry is_provider fail
two_calls = refl

abbrev calls : Calls
calls = record {
  available = ok (route_of "zai" ∷ route_of "agy" ∷ []);
  required = ok "";
  loaded = ok tt;
  budget = λ r. ok 3_000_000;
  adaptive = ok none;
  io = works;
  again = works;
  now = 7;
  str = λ j. "";
  trials = trials;
}

abbrev HasModel : ResolvedRoute → Type 0
HasModel r = r.model ≡ "m"

abbrev question : List Message
question = (("content", text "why") ∷ []) ∷ []

complete-IsCareful_example :
    IsCareful HasModel setting calls (complete setting calls question (some "m") world)
complete-IsCareful_example =
    complete-IsCareful HasModel setting calls question (some "m") world refl (refl, (refl, tt)) refl

-- Both providers are called, the second after the first failed.
both_called :
    provider_and_timeout (complete setting calls question (some "m") world).1.calls
    ≡ ("agy", 3_000_000) ∷ ("zai", 3_000_000) ∷ []
unfolding complete run_available check_model explicit_model requested_model_routes ordered
    run_routes validate_vision_messages order_with_last_resort order_by_health persisted_state
    cooling remove failover turn attempt settle call_of diagnostic attempt_diagnostic_code
    record_failure record_success with_persisted_state read_state lookup write_state insert
    bounded_state state_payload update_entry is_provider fail
both_called = refl
