-- ===== src/Poa/Commands.antt =====
-- src/subllm/poa/bus.py: `_emit`, `_receipt` and the five command handlers.
use subllm.Prelude.{
  or_raise, eqb, Option, none, some, length, ◌==◌, ◌++◌, String, Bool, true, false, List, [], ◌∷◌,
  not, Result, ok, err, if◌then◌else◌, pos, ◌⧺◌,
}
use subllm.Dict.{Dict, insert}
use subllm.Json.{Json, null, boolean, int, text, array, object, Items, nil, cons, end, float}
use subllm.Poa.Exec.{Exec, lift, give, modify, ◌>>=◌, ◌>>◌}
use subllm.Poa.Refs.{PoaError, contract, exact, observation_facts, route_input, process_dsl_input}
use subllm.Poa.Inputs.{at, interaction_ref, usage_attempt}
use subllm.Poa.Plan.{Ambient, Plan, plan_json, doc, texts, build_plan}
use subllm.Poa.Store.{Event, EventStore, remember_plan, remember_receipt}
use subllm.Poa.Tables.{
  gateway_exchange_ref, record_usage_ref, edit_process_ref, import_credentials_ref,
}

-- What `propose_process_edit` returns: two of its members and the whole document.
pub record Proposal : Type 0 where
  pub base_sha256 : String
  pub candidate_sha256 : String
  pub document : Json

-- The code of other modules that the handlers call.
pub record Services : Type 0 where
  -- `digest_document`, the clock, the store, the facts and a fresh run id
  pub ambient : Ambient
  -- `record_attempt(**event, event_key=key, strict=True)`: was the event new?
  pub record_attempt : Dict Json → String → Result PoaError Bool
  -- `import_credentials`, and the target path as resolved
  pub import_credentials : List String → String → Result PoaError (List String)
  pub resolve : String → String
  -- `propose_process_edit`
  pub propose : Json → Json → Json → Result PoaError Proposal

-- `_emit`
unfoldable pub event_of : Ambient → String → Plan → String → Event
event_of a run_id plan event_type =
    ("schema", text "poa.event/v1")
    ∷ ("event_id", text "evt.pending")
    ∷ ("run_id", text run_id)
    ∷ ("sequence", int (pos 0))
    ∷ ("process_ref", text plan.process_ref)
    ∷ ("plan_ref", text ("sha256:" ⧺ plan.plan_hash))
    ∷ ("event_type", text event_type)
    ∷ ("occurred_at", text a.now)
    ∷ ("step_id", text plan.step.id)
    ∷ ("artifact_refs", texts (plan.step.input_ref ∷ []))
    ∷ ("raw_output_included", boolean false)
    ∷ ("secret_material_included", boolean false)
    ∷ []

abbrev pub appended :
    Result PoaError (Event × EventStore) → EventStore → Result PoaError (Unit {0}) × EventStore
appended (ok (event, s')) s = (ok tt, s')
appended (err e) s = (err e, s)

unfoldable pub emit : Ambient → String → Plan → String → Exec (Unit {0})
emit a run_id plan event_type s = appended (a.append (event_of a run_id plan event_type) s) s

-- `unsigned` of `_receipt`
abbrev unsigned_receipt : Ambient → String → Plan → String → String → Dict Json
unsigned_receipt a run_id plan state output =
    ("schema", text "poa.receipt/v1")
    ∷ ("run_id", text run_id)
    ∷ ("process_ref", text plan.process_ref)
    ∷ ("plan_ref", text ("sha256:" ⧺ plan.plan_hash))
    ∷ ("grant_ref", text ("grant:" ⧺ run_id))
    ∷ ("intent_ref", text ("intent:" ⧺ run_id))
    ∷ ("state", text state)
    ∷ ("started_at", text a.now)
    ∷ ("completed_at", text a.now)
    ∷ (
      "steps",
      array (
          cons
            (doc (
              ("step_id", text plan.step.id)
              ∷ ("process_uri", text plan.step.process_uri)
              ∷ ("state", text state)
              ∷ ("attempts", int (pos 1))
              ∷ ("output_sha256", text output)
              ∷ ("output_bytes", int (pos 0))
              ∷ ("effect_verified", boolean (state == "succeeded"))
              ∷ ("verification_refs", texts (observation_facts ∷ []))
              ∷ []))
            nil),
    )
    ∷ ("raw_output_included", boolean false)
    ∷ ("secret_material_included", boolean false)
    ∷ ("hash_profile", text "RFC8785+SHA-256")
    ∷ []

unfoldable pub receipt_json : Ambient → String → Plan → String → String → Json
receipt_json a run_id plan state output =
    let unsigned = unsigned_receipt a run_id plan state output in
    doc (unsigned ++ ("receipt_hash", text (a.digest (doc unsigned))) ∷ [])

-- The reply of the commands that keep a plan; an idempotent repeat has the same form.
abbrev pub reply : String → Bool → Json → Json → Dict Json
reply run_id idempotent plan receipt =
    ("run_id", text run_id)
    ∷ ("idempotent", boolean idempotent)
    ∷ ("plan", plan)
    ∷ ("receipt", receipt)
    ∷ []

-- What `remember_plan`, `_receipt` and `remember_receipt` leave behind.
unfoldable pub conclude : Ambient → Plan → String → String → Exec Json
conclude a plan key output = do
  modify (remember_plan a.run_id (plan_json plan) key)
  let receipt : Json = receipt_json a a.run_id plan "succeeded" output
  modify (remember_receipt a.run_id receipt)
  give receipt

unfoldable pub create_plan : Services → Dict Json → String → String → Exec Json
create_plan sv document subject key = do
  let a : Ambient = sv.ambient
  payload ← lift (
      exact (doc document)
        ("schema" ∷ "process_uri" ∷ "process_ref" ∷ "input_ref" ∷ "input_sha256" ∷ "subject"
          ∷ "idempotency_key" ∷ [])
        [])
  plan ← lift (
      build_plan a (record {
        process_ref = at payload "process_ref";
        input_ref = at payload "input_ref";
        input_sha256 = at payload "input_sha256";
        subject = subject;
        idempotency_key = key;
      }))
  emit a a.run_id plan "planned"
  receipt ← conclude a plan key plan.plan_hash
  give (doc (reply a.run_id false (plan_json plan) receipt))

unfoldable pub gateway_exchange : Services → Dict Json → String → String → Exec Json
gateway_exchange sv document subject key = do
  let a : Ambient = sv.ambient
  payload ← lift (
      exact (doc document)
        ("schema" ∷ "process_uri" ∷ "subject" ∷ "idempotency_key" ∷ "interaction_ref" ∷ []) [])
  ref ← lift (interaction_ref (at payload "interaction_ref"))
  plan ← lift (
      build_plan a (record {
        process_ref = text gateway_exchange_ref;
        input_ref = text route_input;
        input_sha256 = text (a.digest (doc (("interaction_ref", text ref) ∷ [])));
        subject = subject;
        idempotency_key = key;
      }))
  emit a a.run_id plan "completed"
  give (doc (("interaction_ref", text ref) ∷ ("accepted", boolean true) ∷ []))

unfoldable pub record_usage : Services → Dict Json → String → String → Exec Json
record_usage sv document subject key = do
  let a : Ambient = sv.ambient
  payload ← lift (
      exact (doc document)
        ("schema" ∷ "process_uri" ∷ "subject" ∷ "idempotency_key" ∷ "attempt" ∷ []) [])
  event ← lift (usage_attempt (at payload "attempt"))
  plan ← lift (
      build_plan a (record {
        process_ref = text record_usage_ref;
        input_ref = text route_input;
        input_sha256 = text (a.digest (doc event));
        subject = subject;
        idempotency_key = key;
      }))
  inserted ←
      lift (sv.record_attempt (insert "diagnostic_code" (at event "diagnostic_code") event) key)
  if inserted then emit a a.run_id plan "completed" else give tt
  give (
      doc (
        ("schema", text "subllm.usage-ingest/v1")
        ∷ ("accepted", boolean true)
        ∷ ("duplicate", boolean (not inserted))
        ∷ []))

-- A list of texts, if the source's test on `sources` passes.
abbrev pub texts_of : Items → Option (List String)
texts_of nil = some []
texts_of (cons (text s) rest) = elim (texts_of rest) [ none ↦ none | some ss ↦ some (s ∷ ss) ]
texts_of (cons _ rest) = none

abbrev source_list : Json → Option (List String)
source_list (array nil) = none
source_list (array xs) = texts_of xs
source_list _ = none

-- `payload.get(key) or default`: a member that is falsy gives way.
abbrev or_default : Json → Json → Json
or_default null d = d
or_default (boolean false) d = d
or_default (int (pos n)) d = if eqb n 0 then d else int (pos n)
or_default (text s) d = if s == "" then d else text s
or_default (array nil) d = d
or_default (float (pos n)) d = if eqb n 0 then d else float (pos n)
or_default (object end) d = d
or_default j d = j

unfoldable pub import_credentials : Services → Dict Json → String → String → Exec Json
import_credentials sv document subject key = do
  let a : Ambient = sv.ambient
  payload ← lift (
      exact (doc document)
        ("schema" ∷ "process_uri" ∷ "sources" ∷ "target" ∷ "subject" ∷ "idempotency_key" ∷ [])
        ("input_ref" ∷ "input_sha256" ∷ "process_ref" ∷ []))
  sources ← lift (
      or_raise (source_list (at payload "sources"))
        (contract "POA-DOC-001" "sources must be a closed path list"))
  target ← lift (elim (at payload "target") [
    | text s ↦ ok s
    | _ ↦ err (contract "POA-DOC-001" "target must be a closed path")
  ])
  plan ← lift (
      build_plan a (record {
        process_ref = or_default (at payload "process_ref") (text import_credentials_ref);
        input_ref = or_default (at payload "input_ref") (text route_input);
        input_sha256 =
            or_default (at payload "input_sha256")
              (text (a.digest (doc (("sources", int (pos (length sources))) ∷ []))));
        subject = subject;
        idempotency_key = key;
      }))
  emit a a.run_id plan "planned"
  emit a a.run_id plan "started"
  names ← lift (sv.import_credentials sources target)
  let output : Json = doc (("imported", texts names) ∷ ("target", text (sv.resolve target)) ∷ [])
  emit a a.run_id plan "completed"
  emit a a.run_id plan "verified"
  receipt ← conclude a plan key (a.digest output)
  give (doc (reply a.run_id false (plan_json plan) receipt ++ ("result", output) ∷ []))

unfoldable pub edit_process : Services → Dict Json → String → String → Exec Json
edit_process sv document subject key = do
  let a : Ambient = sv.ambient
  payload ← lift (
      exact (doc document)
        ("schema" ∷ "process_uri" ∷ "source_process" ∷ "base_sha256" ∷ "edits" ∷ "subject"
          ∷ "idempotency_key" ∷ [])
        [])
  proposal ←
      lift
        (sv.propose (at payload "source_process") (at payload "base_sha256") (at payload "edits"))
  plan ← lift (
      build_plan a (record {
        process_ref = text edit_process_ref;
        input_ref = text process_dsl_input;
        input_sha256 = text proposal.base_sha256;
        subject = subject;
        idempotency_key = key;
      }))
  emit a a.run_id plan "planned"
  emit a a.run_id plan "started"
  emit a a.run_id plan "completed"
  emit a a.run_id plan "verified"
  receipt ← conclude a plan key proposal.candidate_sha256
  give (doc (reply a.run_id false (plan_json plan) receipt ++ ("result", proposal.document) ∷ []))
