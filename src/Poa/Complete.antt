-- ===== src/Poa/Complete.antt =====
-- src/subllm/poa/bus.py and registry.py: `_build_plan` refuses nothing but malformed input and
-- unregistered processes.
use subllm.Prelude.{◌==◌, String, ◌≡◌, refl, true, false, ◌&&◌, ok, any, contains, some}
use subllm.Dict.{Dict, lookup, insert}
use subllm.Json.{Json, text}
use subllm.Poa.Closed.{registered_closed}
use subllm.Poa.Plan.{
  Ambient, Plan, observation, build_plan, check_plan, mutating_effects, doc, sign, unhashed,
  planned_step, request_json,
}
use subllm.Poa.Refs.{
  observation_facts, require_pattern, artifact_ref_pattern, sha256_pattern, adapter,
  process_ref_pattern,
}
use subllm.Poa.Registry.{Bound, registered, first_step, binding_for_process}
use subllm.Poa.Tables.{Step, Process, Binding, processes, bindings, process_uris}
use subllm.Regex.{fullmatch}

abbrev bound_to : Binding → String → String → Bound
bound_to b uri sha256 = record {
  binding = b;
  process_uri = uri;
  observation_ref = observation_facts;
  observation_sha256 = sha256;
}

module _ (ref : String) (p : Process) (step : Step) (b : Binding) (uri : String) where
  binding_for_process-registered :
      (sha256 : String)
      → lookup ref processes ≡ some p
      → fullmatch process_ref_pattern ref ≡ true
      → first_step p ≡ ok step
      → lookup step.capability_ref bindings ≡ some b
      → lookup ref process_uris ≡ some uri
      → binding_for_process (text ref) sha256 ≡ ok (bound_to b uri sha256)
  unfolding binding_for_process require_pattern registered
  binding_for_process-registered sha256 found shape first bound address =
      rw (shape, found, first, bound, address) refl

  check_plan-registered :
      (input sha key sha256 : String)
      → (step.kind == "query" && any (contains mutating_effects) step.effects) ≡ false
      → b.adapter_ref ≡ adapter
      → check_plan (planned_step step (bound_to b uri sha256) input sha key) (bound_to b uri sha256)
        ≡ ok tt
  unfolding check_plan
  check_plan-registered input sha key sha256 pure allowed = rw (pure, allowed) refl

-- For a registered process, references of the right shape and facts that could be read, a plan is
-- made. Its one step is the process's own, at the process's own address, and the plan carries the
-- process, the subject and the idempotency key that were asked for.
pub build_plan-registered :
    (a : Ambient) (ref input sha subject key : String) (p : Process) (facts : Dict Json)
    → lookup ref processes ≡ some p
    → fullmatch artifact_ref_pattern input ≡ true
    → fullmatch sha256_pattern sha ≡ true
    → a.facts ≡ ok facts
    → (step : Step) × (uri : String) × (plan : Plan) × (first_step p ≡ ok step)
      × (lookup ref process_uris ≡ some uri)
      × (build_plan a (record {
        process_ref = text ref;
        input_ref = text input;
        input_sha256 = text sha;
        subject = subject;
        idempotency_key = key;
      })
          ≡ ok plan)
      × (plan.step.id ≡ step.id)
      × (plan.step.kind ≡ step.kind)
      × (plan.step.effects ≡ step.effects)
      × (plan.step.process_uri ≡ uri)
      × (plan.step.idempotency_key ≡ key)
      × (plan.process_ref ≡ ref)
      × (plan.subject ≡ subject)
unfolding build_plan observation require_pattern registered
build_plan-registered a ref input sha subject key p facts found input_ok sha_ok read =
    let (step, b, uri, (first, bound, address, shape, _, _, pure, allowed)) =
      registered_closed ref p found in
    let sha256 : String = a.digest (doc (insert "policy_status" (text "ok") facts)) in
    let bind : _ =
      binding_for_process-registered ref p step b uri sha256 found shape first bound address in
    let checked : _ = check_plan-registered ref p step b uri input sha key sha256 pure allowed in
    (
      step,
      uri,
      sign a (
          unhashed a (planned_step step (bound_to b uri sha256) input sha key) ref subject
            (a.digest (request_json ref input sha))),
      first,
      address,
      rw (shape, found, input_ok, sha_ok, read, bind, first, checked) refl,
      refl,
      refl,
      refl,
      refl,
      refl,
      refl,
      refl,
    )
