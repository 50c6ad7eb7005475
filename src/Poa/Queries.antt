-- ===== src/Poa/Queries.antt =====
-- src/subllm/poa/bus.py: `PolicyBus.query`, with the queries that read the journal and the registry.
-- The others only call read-only functions of other modules: they are the parameter `views`.
use subllm.Prelude.{
  List, String, true, none, some, [], ◌∷◌, ◌==◌, Result, ok, err, or_raise, if◌then◌else◌, ◌>>=◌,
  ◌>>◌, pos, map,
}
use subllm.Dict.{Dict, lookup}
use subllm.Json.{keys, Json, null, boolean, int, text, array, object}
use subllm.Poa.Check.{check_query, check_secrets}
use subllm.Poa.Inputs.{at}
use subllm.Poa.Plan.{Ambient, Observation, observation, doc, items, texts, verification_json}
use subllm.Poa.Refs.{PoaError, contract, raised, exact, input_schema, observation_facts, target}
use subllm.Poa.Registry.{Bound, get_process, get_process_uri, binding_for_process}
use subllm.Poa.Store.{EventStore, events_of}
use subllm.Poa.Tables.{process_uris, Step, Process, events_uri, receipt_uri, inspect_uri}

-- `_query_events`
unfoldable pub query_events : EventStore → Dict Json → Result PoaError Json
query_events s document = do
  payload ← exact (doc document) ("schema" ∷ "process_uri" ∷ []) ("run_id" ∷ [])
  run_id ← elim (at payload "run_id") [
    | null ↦ ok none
    | text r ↦ ok (some r)
    | _ ↦ err (contract "POA-ID-001" "run_id is not a closed identifier")
  ]
  ok (doc (("events", array (items (map doc (events_of run_id s)))) ∷ []))

-- `_query_receipt`
unfoldable pub query_receipt : EventStore → Dict Json → Result PoaError Json
query_receipt s document = do
  payload ← exact (doc document) ("schema" ∷ "process_uri" ∷ "run_id" ∷ []) []
  elim (at payload "run_id") [
    | text r ↦
        or_raise (lookup r s.receipts) (contract "POA-RECEIPT-001" "receipt is not registered")
    | array _ ↦ err (raised "TypeError")
    | object _ ↦ err (raised "TypeError")
    | _ ↦ err (contract "POA-RECEIPT-001" "receipt is not registered")
  ]

abbrev process_step_json : Step → Json
process_step_json s = doc (
    ("id", text s.id)
    ∷ ("capability_ref", text s.capability_ref)
    ∷ ("kind", text s.kind)
    ∷ ("effects", texts s.effects)
    ∷ ("depends_on", texts s.depends_on)
    ∷ ("requires_approval", boolean s.requires_approval)
    ∷ ("timeout_seconds", int (pos s.timeout_seconds))
    ∷ ("max_attempts", int (pos s.max_attempts))
    ∷ ("idempotency", text s.idempotency)
    ∷ ("verification", array (verification_json s.verification))
    ∷ [])

abbrev pub process_json : Process → Json
process_json p = doc (
    ("schema", text p.schema)
    ∷ ("process_ref", text p.process_ref)
    ∷ ("title", text p.title)
    ∷ ("owner", text p.owner)
    ∷ ("input_schema_ref", text p.input_schema_ref)
    ∷ ("output_schema_ref", text p.output_schema_ref)
    ∷ ("policy_refs", texts p.policy_refs)
    ∷ ("steps", array (items (map process_step_json p.steps)))
    ∷ [])

abbrev bound_json : Bound → Json
bound_json b = doc (
    ("schema", text b.binding.schema)
    ∷ ("binding_id", text b.binding.binding_id)
    ∷ ("capability_ref", text b.binding.capability_ref)
    ∷ ("process_uri", text b.process_uri)
    ∷ ("target_ref", text b.binding.target_ref)
    ∷ ("adapter_ref", text b.binding.adapter_ref)
    ∷ ("priority", int (pos b.binding.priority))
    ∷ ("observation_ref", text b.observation_ref)
    ∷ ("observation_sha256", text b.observation_sha256)
    ∷ [])

abbrev observation_json : Observation → Json
observation_json o = doc (
    ("schema", text "poa.observation/v1")
    ∷ ("observation_id", text o.observation_id)
    ∷ ("target_ref", text target)
    ∷ ("observed_at", text o.observed_at)
    ∷ ("valid_until", text o.valid_until)
    ∷ ("fact_schema_ref", text input_schema)
    ∷ ("facts_ref", text observation_facts)
    ∷ ("facts_sha256", text o.facts_sha256)
    ∷ ("read_only", boolean true)
    ∷ ("facts", doc o.facts)
    ∷ [])

-- `_query_inspect`
unfoldable pub query_inspect : Ambient → Dict Json → Result PoaError Json
query_inspect a document = do
  payload ← exact (doc document) ("schema" ∷ "process_uri" ∷ "process_ref" ∷ []) []
  process ← get_process (at payload "process_ref")
  seen ← observation a
  bound ← binding_for_process (at payload "process_ref") seen.facts_sha256
  uri ← get_process_uri (at payload "process_ref")
  ok (
      doc (
        ("schema", text "poa.request/v1")
        ∷ ("operation", text "inspect")
        ∷ ("process", process_json process)
        ∷ ("binding", bound_json bound)
        ∷ ("observation", observation_json seen)
        ∷ ("process_uri", text uri)
        ∷ ("ready", boolean true)
        ∷ []))

abbrev pub Views : Type 0
Views = String → Dict Json → Result PoaError Json

unfoldable pub answer : Ambient → Views → EventStore → String → Dict Json → Result PoaError Json
answer a views s uri payload =
    if uri == inspect_uri
    then query_inspect a payload
    else if uri == events_uri
    then query_events s payload
    else if uri == receipt_uri
    then query_receipt s payload
    else views uri payload

unfoldable pub query : Ambient → Views → EventStore → Dict Json → Result PoaError Json
query a views s document = do
  (payload, uri) ← check_query document
  result ← answer a views s uri payload
  check_secrets result
  ok result

abbrev all_processes : List String → Result PoaError (List Json)
all_processes [] = ok []
all_processes (ref ∷ refs) = do
  process ← get_process (text ref)
  rest ← all_processes refs
  ok (process_json process ∷ rest)

abbrev text_values : Dict String → Dict Json
text_values [] = []
text_values ((k, v) ∷ d) = (k, text v) ∷ text_values d

-- `catalog_document`: the processes in the order of their addresses
unfoldable pub catalog_document : Result PoaError Json
catalog_document = do
  listed ← all_processes (keys process_uris)
  ok (
      doc (
        ("schema", text "subllm.poa.catalog/v1")
        ∷ ("home", text "subactor")
        ∷ ("shape", text "runtime_service")
        ∷ (
          "adopt",
          texts (
              "wellmanifest/poa" ∷ "wellmanifest/env-dsl" ∷ "wellmanifest/modularity"
              ∷ "wellmanifest/new-project" ∷ "wellmanifest/policy-dsl" ∷ []),
        )
        ∷ ("single_exporter", text "subactor/subllm")
        ∷ ("processes", array (items listed))
        ∷ ("uris", doc (text_values process_uris))
        ∷ []))
