-- ===== src/Health/Tests.antt =====
-- The health theorems at concrete inputs, and runs of the model.
use subllm.Prelude.{
  length, text_leb, ℕ, ◌≤◌, String, ◌≡◌, refl, true, false, none, some, List, [], ◌∷◌, arith, ◌==◌,
  if◌then◌else◌, ok, keep, Sub, All, Any,
}
use subllm.Dict.{lookup, insert, remove}
use subllm.Types.{ResolvedRoute}
use subllm.PolicyConfig.{ExecutionPolicyConfig}
use subllm.Health.Entry.{ProviderHealth, fresh, fail, succeed, is_provider, is_reason}
use subllm.Health.File.{State, bounded_state, state_payload}
use subllm.Health.Store.{
  Host, works, no_store, no_write, read_state, write_state, record_failure, persisted_state,
  with_persisted_state, update_entry,
}
use subllm.Health.Routing.{order_by_health, order_with_last_resort, cooling, refused}
use subllm.Health.Circuit.{Failure, fail_run, circuit_opens}
use subllm.Health.Bounds.{AllBounded, fail-AllBounded}
use subllm.Health.RoundTrip.{read-write}
use subllm.Health.Orders.{MayServe, IsStranded, last_resort}
use subllm.Health.Names.{unmatched_name_never_cools}
use subllm.Health.Hosts.{Op, failure, observe, run, run-IsWithinLimit, run-other_paths}

abbrev policy : ExecutionPolicyConfig
policy = record {
  failover_enabled = true;
  attempt_timeout = 30_000_000;
  slow_response = 20_000_000;
  cooldown = 60_000_000;
  failure_threshold = 2;
  max_attempts = 6;
  uncredited_cooldown = 3_600_000_000;
}

abbrev failed_at : ℕ → Failure
failed_at t = record { reason = "timeout"; latency = 1_500; now = t }

circuit_opens_example :
    (fail_run policy (failed_at 9 ∷ failed_at 5 ∷ []) (succeed policy 1_000 0 fresh)).cooldown_until
    ≡ 60_000_009
unfolding is_reason
circuit_opens_example =
    circuit_opens policy fresh 1_000 0 (failed_at 9) (failed_at 5 ∷ []) refl (refl, (refl, tt))

abbrev empty_host : Host
empty_host = record { files = []; fallback = []; memory = [] }

abbrev open_entry : ProviderHealth
open_entry = record {
  consecutive_failures = 2;
  cooldown_until = 100;
  last_latency_ms = some 3;
  reason = "http_401";
}

abbrev two_providers : State
two_providers = ("zai", open_entry) ∷ ("my_llm", open_entry) ∷ []

two_providers-AllBounded : AllBounded two_providers
unfolding is_reason
two_providers-AllBounded = (
  record { failures = omega arith; cooldown = omega arith; latency = omega arith; reason = refl },
  (
    record { failures = omega arith; cooldown = omega arith; latency = omega arith; reason = refl },
    tt,
  ),
)

read-write_example :
    (found : State) × (read_state "h" (write_state "h" two_providers empty_host) ≡ ok found)
    × ((p : String) → lookup p found ≡ (if is_provider p then lookup p two_providers else none))
read-write_example = read-write "h" two_providers empty_host two_providers-AllBounded

fail-AllBounded_example :
    AllBounded (update_entry "zai" (fail policy "timeout" 1_000 5) two_providers)
unfolding lookup
fail-AllBounded_example =
    fail-AllBounded policy "zai" "timeout" 1_000 5 two_providers (omega arith) (omega arith)
      (omega arith) two_providers-AllBounded

abbrev route_of : String → ResolvedRoute
route_of p = record {
  route = record {
    application = "app";
    application_name = "app";
    application_url = "";
    function = "f";
    provider = p;
    model = "m";
    priority = 0;
    api_base = "";
    api_key_env = "";
    litellm_model = "";
    wire_model = "m";
    extra_headers = [];
    transport = "openai-compatible";
    model_parameters = [];
    modality = "text";
    policy_sha256 = "";
  };
  api_key = "k";
}

abbrev host_with : State → Host
host_with state = record empty_host { files = ("h", state_payload state) ∷ [] }

abbrev cold_host : Host
cold_host = host_with (("zai", open_entry) ∷ ("agy", record open_entry { reason = "timeout" }) ∷ [])

abbrev cold_state : State
cold_state = ("agy", record open_entry { reason = "timeout" }) ∷ ("zai", open_entry) ∷ []

cold_host_reads : read_state "h" cold_host ≡ ok cold_state
unfolding read_state lookup bounded_state state_payload is_provider is_reason text_leb
cold_host_reads = refl

last_resort_example :
    Sub (route_of "agy" ∷ []) (route_of "zai" ∷ route_of "agy" ∷ [])
    × All (MayServe 50 cold_state (route_of "zai" ∷ route_of "agy" ∷ [])) (route_of "agy" ∷ [])
    × All
        (λ (r : ResolvedRoute).
          cooling 50 cold_state r.provider ≡ false
          → Any (λ (x : ResolvedRoute). x ≡ r) (route_of "agy" ∷ []))
        (route_of "zai" ∷ route_of "agy" ∷ [])
    × (((route_of "agy" ∷ []) ≡ [])
        → All (IsStranded 50 cold_state) (route_of "zai" ∷ route_of "agy" ∷ []))
unfolding order_with_last_resort order_by_health persisted_state cooling refused lookup read_state
    bounded_state state_payload is_provider is_reason text_leb remove
last_resort_example =
    last_resort "h" 50 (route_of "zai" ∷ route_of "agy" ∷ []) (route_of "agy" ∷ []) cold_host _
      cold_state cold_host_reads refl

unmatched_name_never_cools_example :
    keep (λ (r : ResolvedRoute). r.provider == "my_llm") (route_of "my_llm" ∷ [])
    ≡ keep (λ (r : ResolvedRoute). r.provider == "my_llm") (route_of "my_llm" ∷ [])
unfolding order_by_health persisted_state cooling lookup read_state bounded_state state_payload
    is_provider is_reason text_leb remove
unmatched_name_never_cools_example =
    unmatched_name_never_cools works "h" "my_llm" 50 (route_of "my_llm" ∷ [])
      (route_of "my_llm" ∷ []) (host_with two_providers) _ refl (λ e. cc) refl

abbrev calls : List Op
calls =
    failure works "a" "zai" "timeout" 9 policy 5
    ∷ failure no_store "b" "zai" "http_402" 9 policy 6
    ∷ observe no_write "a"
    ∷ []

run-IsWithinLimit_example : length (run calls empty_host).fallback ≤ 64
run-IsWithinLimit_example = run-IsWithinLimit calls empty_host (omega arith)

run-other_paths_example : read_state "h" (run calls cold_host) ≡ read_state "h" cold_host
run-other_paths_example = run-other_paths calls "h" cold_host (refl, (refl, (refl, tt)))

-- A failure recorded for `zai` opens its circuit for the next reader; one recorded for `my_llm`
-- is lost.
failures_recorded :
    (record_failure works "h" "zai" "http_402" 0 policy 5 empty_host
      ≡ ok (record {
        files = ("h", state_payload (("zai", fail policy "http_402" 0 5 fresh) ∷ [])) ∷ [];
        fallback = [];
        memory = ("zai", fail policy "http_402" 0 5 fresh) ∷ [];
      }))
unfolding record_failure with_persisted_state update_entry read_state write_state lookup insert
    remove
failures_recorded = refl
