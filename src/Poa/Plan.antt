-- ===== src/Poa/Plan.antt =====
-- src/subllm/poa/bus.py: `_observation` and `_build_plan`.
use subllm.Prelude.{
  ℕ, String, true, false, List, [], ◌∷◌, ◌++◌, ◌&&◌, not, ◌==◌, Result, ok, require, ◌>>=◌, ◌>>◌,
  contains, any, pos, ◌⧺◌, prefix,
}
use subllm.Dict.{Dict, insert}
use subllm.Json.{Json, boolean, int, text, array, object, Items, nil, cons, fields}
use subllm.Poa.Refs.{
  PoaError, contract, process_ref_pattern, artifact_ref_pattern, sha256_pattern, require_pattern,
  target, adapter, input_schema, grammar,
}
use subllm.Poa.Registry.{Bound, registered, first_step, binding_for_process}
use subllm.Poa.Tables.{Step, Verification}
use subllm.Poa.Store.{Event, EventStore}

-- What the bus takes from outside itself: the clock as `_rfc3339` prints it, a fresh run id,
-- `digest_document`, the observed facts, and the store's `append`. `facts` is what
-- `_query_observe_credentials` and `validate_policy` give, or raise, from the local files.
pub record Ambient : Type 0 where
  pub now : String
  pub valid_until : String
  pub run_id : String
  pub digest : Json → String
  pub facts : Result PoaError (Dict Json)
  pub append : Event → EventStore → Result PoaError (Event × EventStore)

abbrev pub doc : Dict Json → Json
doc d = object (fields d)

abbrev pub items : List Json → Items
items [] = nil
items (x ∷ xs) = cons x (items xs)

abbrev pub texts : List String → Json
texts xs = array (items (go xs))
  where
    go : List String → List Json
    go [] = []
    go (s ∷ r) = text s ∷ go r

pub record Observation : Type 0 where
  pub observation_id : String
  pub observed_at : String
  pub valid_until : String
  pub facts_sha256 : String
  pub facts : Dict Json

unfoldable pub observation : Ambient → Result PoaError Observation
observation a = do
  facts ← a.facts
  let checked : Dict Json = insert "policy_status" (text "ok") facts
  let digest : String = a.digest (doc checked)
  ok (record {
    observation_id = "obs." ⧺ prefix 12 digest;
    observed_at = a.now;
    valid_until = a.valid_until;
    facts_sha256 = digest;
    facts = checked;
  })

-- The payload of `_build_plan`. The bus has checked `subject` and `idempotency_key`.
pub record PlanRequest : Type 0 where
  pub process_ref : Json
  pub input_ref : Json
  pub input_sha256 : Json
  pub subject : String
  pub idempotency_key : String

-- `planned_step`
pub record PlannedStep : Type 0 where
  pub id : String
  pub capability_ref : String
  pub process_uri : String
  pub target_ref : String
  pub kind : String
  pub effects : List String
  pub input_ref : String
  pub input_sha256 : String
  pub timeout_seconds : ℕ
  pub max_attempts : ℕ
  pub idempotency_key : String
  pub verification : List Verification

-- `unsigned`, its constant members left to `unsigned_json`, and the hash over them
pub record Plan : Type 0 where
  pub plan_id : String
  pub process_ref : String
  pub request_sha256 : String
  pub valid_until : String
  pub step : PlannedStep
  pub schema_sha256 : String
  pub grammar_sha256 : String
  pub subject : String
  pub plan_hash : String

abbrev pub verification_json : List Verification → Items
verification_json [] = nil
verification_json (v ∷ vs) =
    cons
      (doc (
        ("capability_ref", text v.capability_ref)
        ∷ ("expectation_schema_ref", text v.expectation_schema_ref)
        ∷ []))
      (verification_json vs)

abbrev pub step_json : PlannedStep → Json
step_json s = doc (
    ("id", text s.id)
    ∷ ("capability_ref", text s.capability_ref)
    ∷ ("process_uri", text s.process_uri)
    ∷ ("target_ref", text s.target_ref)
    ∷ ("kind", text s.kind)
    ∷ ("effects", texts s.effects)
    ∷ ("depends_on", array nil)
    ∷ ("input_ref", text s.input_ref)
    ∷ ("input_sha256", text s.input_sha256)
    ∷ ("timeout_seconds", int (pos s.timeout_seconds))
    ∷ ("max_attempts", int (pos s.max_attempts))
    ∷ ("idempotency_key", text s.idempotency_key)
    ∷ ("verification", array (verification_json s.verification))
    ∷ [])

-- `unsigned` of `_build_plan`
unfoldable pub unsigned_json : Plan → Dict Json
unsigned_json p =
    ("schema", text "poa.plan/v1")
    ∷ ("plan_id", text p.plan_id)
    ∷ ("process_ref", text p.process_ref)
    ∷ ("request_sha256", text p.request_sha256)
    ∷ ("valid_until", text p.valid_until)
    ∷ ("steps", array (cons (step_json p.step) nil))
    ∷ (
      "dsl_contract",
      doc (
          ("schema_ref", text input_schema)
          ∷ ("grammar_ref", text grammar)
          ∷ ("schema_sha256", text p.schema_sha256)
          ∷ ("grammar_sha256", text p.grammar_sha256)
          ∷ ("canonical_sha256", text p.request_sha256)
          ∷ ("canonicalization", text "RFC8785")
          ∷ ("hash_algorithm", text "SHA-256")
          ∷ ("validated", boolean true)
          ∷ ("additional_properties", boolean false)
          ∷ []),
    )
    ∷ (
      "authority_requirements",
      doc (
          ("subject", text p.subject)
          ∷ ("scopes", texts ("subllm.policy" ∷ []))
          ∷ ("grant_ttl_seconds", int (pos 300))
          ∷ ("intent_required", boolean true)
          ∷ ("plan_hash_binding", boolean true)
          ∷ []),
    )
    ∷ (
      "execution_boundary",
      doc (
          ("boundary_ref", text target)
          ∷ ("host_shell", boolean false)
          ∷ ("arbitrary_executable", boolean false)
          ∷ ("transport_from_registry", boolean true)
          ∷ []),
    )
    ∷ ("hash_profile", text "RFC8785+SHA-256")
    ∷ []

-- `plan`: the unsigned document and its hash
unfoldable pub plan_json : Plan → Json
plan_json p = doc (unsigned_json p ++ ("plan_hash", text p.plan_hash) ∷ [])

abbrev pub mutating_effects : List String
mutating_effects = "local_write" ∷ "external_write" ∷ "destructive" ∷ []

-- The two guards at the end of `_build_plan`.
unfoldable pub check_plan : PlannedStep → Bound → Result PoaError (Unit {0})
check_plan s b = do
  require (not (s.kind == "query" && any (contains mutating_effects) s.effects))
      (contract "POA-PLAN-001" "planned query declares a mutating effect")
  require (b.binding.adapter_ref == adapter) (contract "POA-EXEC-001" "adapter is not allowlisted")

abbrev pub request_json : String → String → String → Json
request_json process_ref input_ref input_sha256 = doc (
    ("schema", text "poa.request/v1")
    ∷ ("operation", text "plan")
    ∷ ("process_ref", text process_ref)
    ∷ ("input_ref", text input_ref)
    ∷ ("input_sha256", text input_sha256)
    ∷ [])

abbrev pub planned_step : Step → Bound → String → String → String → PlannedStep
planned_step step b input_ref input_sha256 key = record {
  id = step.id;
  capability_ref = step.capability_ref;
  process_uri = b.process_uri;
  target_ref = target;
  kind = step.kind;
  effects = step.effects;
  input_ref = input_ref;
  input_sha256 = input_sha256;
  timeout_seconds = step.timeout_seconds;
  max_attempts = step.max_attempts;
  idempotency_key = key;
  verification = step.verification;
}

-- The plan without its hash.
abbrev pub unhashed : Ambient → PlannedStep → String → String → String → Plan
unhashed a step process_ref subject request_sha256 = record {
  plan_id = "plan." ⧺ prefix 12 request_sha256;
  process_ref = process_ref;
  request_sha256 = request_sha256;
  valid_until = a.valid_until;
  step = step;
  schema_sha256 = a.digest (doc (("schema", text "subllm.query/v1") ∷ []));
  grammar_sha256 = a.digest (doc (("grammar", text "subllm.poa.request/v1") ∷ []));
  subject = subject;
  plan_hash = "";
}

abbrev pub sign : Ambient → Plan → Plan
sign a p = record p { plan_hash = a.digest (doc (unsigned_json p)) }

unfoldable pub build_plan : Ambient → PlanRequest → Result PoaError Plan
build_plan a payload = do
  process_ref ← require_pattern payload.process_ref "process_ref" process_ref_pattern
  process ← registered process_ref
  input_ref ← require_pattern payload.input_ref "input_ref" artifact_ref_pattern
  input_sha256 ← require_pattern payload.input_sha256 "input_sha256" sha256_pattern
  seen ← observation a
  bound ← binding_for_process (text process_ref) seen.facts_sha256
  step ← first_step process
  let planned : PlannedStep = planned_step step bound input_ref input_sha256 payload.idempotency_key
  let request : String = a.digest (request_json process_ref input_ref input_sha256)
  check_plan planned bound
  ok (sign a (unhashed a planned process_ref payload.subject request))
