-- ===== src/Poa/Tests.antt =====
-- The bus's theorems at concrete inputs.
use subllm.Prelude.{
  String, ◌≡◌, refl, true, false, some, [], ◌∷◌, ◌++◌, arith, Result, ok, err, length, min, pos,
  suc, inl,
}
use subllm.Dict.{Dict, lookup, insert}
use subllm.Json.{Json, text, int, boolean, object, field, end}
use subllm.Regex.{fullmatch}
use subllm.Poa.Bus.{command, execute, dispatch}
use subllm.Poa.Check.{Checked, check_command, check_query, secret_free}
use subllm.Poa.Closed.{registered_closed, Fits}
use subllm.Poa.Commands.{
  gateway_exchange, Services, event_of, emit, receipt_json, conclude, create_plan, reply,
}
use subllm.Poa.Complete.{build_plan-registered}
use subllm.Poa.Gateway.{exchange_repeats, record_gateway_exchange}
use subllm.Poa.Inputs.{interaction_ref, is_day}
use subllm.Poa.Invariant.{command-IsJournal, gateway_command-IsJournal, IsGatewayJournal}
use subllm.Poa.Journal.{IsJournal, append-IsJournal, gateway_append-IsJournal}
use subllm.Poa.Plan.{
  Ambient, Plan, build_plan, plan_json, unsigned_json, check_plan, observation, doc,
}
use subllm.Poa.Queries.{Views, query, answer}
use subllm.Poa.Refs.{PoaError, contract, exact, require_pattern, route_input}
use subllm.Poa.Registry.{registered, first_step, binding_for_process, require_uri}
use subllm.Poa.Repeat.{command_repeat}
use subllm.Poa.Secrets.{
  HasSecret, in_object, in_value, by_key, later_field, command_secret, answers_secret_free,
}
use subllm.Poa.Store.{
  Event, EventStore, empty_store, append, gateway_append, admissible, event_id, remember_plan,
  remember_receipt, window,
}
use subllm.Poa.Tables.{
  Step, Process, Binding, processes, bindings, process_uris, uri_kind, create_plan_uri, inspect_ref,
  gateway_exchange_uri,
}

abbrev some_digest : String
some_digest = "0123456789abcdef0123456789abcdef0123456789abcdef0123456789abcdef"

abbrev ambient : Ambient
ambient = record {
  now = "2026-01-01T00:00:00Z";
  valid_until = "2026-01-01T00:05:00Z";
  run_id = "run.1";
  digest = λ j. some_digest;
  facts = ok [];
  append = append;
}

abbrev services_of : Ambient → Services
services_of a = record {
  ambient = a;
  record_attempt = λ event key. ok true;
  import_credentials = λ sources target. ok [];
  resolve = λ path. path;
  propose = λ p q r. err (contract "EDIT" "no edits");
}

abbrev services : Services
services = services_of ambient

abbrev request : Dict Json
request =
    ("schema", text "subllm.command/v1")
    ∷ ("process_uri", text create_plan_uri)
    ∷ ("process_ref", text inspect_ref)
    ∷ ("input_ref", text route_input)
    ∷ ("input_sha256", text some_digest)
    ∷ ("subject", text "service:tests")
    ∷ ("idempotency_key", text "key-00000001")
    ∷ []

abbrev checked : Checked
checked = record {
  payload = request;
  subject = "service:tests";
  idempotency_key = "key-00000001";
  process_uri = create_plan_uri;
}

request_accepted : check_command request ≡ ok checked
unfolding check_command exact require_pattern fullmatch require_uri uri_kind lookup secret_free
request_accepted = refl

inspect_found : (p : Process) × (lookup inspect_ref processes ≡ some p)
unfolding lookup processes
inspect_found = (_, refl)

registered_closed_example :
    (step : Step) × (b : Binding) × (uri : String) × Fits inspect_ref (inspect_found.0) step b uri
registered_closed_example = registered_closed inspect_ref (inspect_found.0) (inspect_found.1)

build_plan-registered_example :
    (step : Step) × (uri : String) × (plan : Plan) × (first_step (inspect_found.0) ≡ ok step)
    × (lookup inspect_ref process_uris ≡ some uri)
    × (build_plan ambient (record {
      process_ref = text inspect_ref;
      input_ref = text route_input;
      input_sha256 = text some_digest;
      subject = "service:tests";
      idempotency_key = "key-00000001";
    })
        ≡ ok plan)
    × (plan.step.id ≡ step.id)
    × (plan.step.kind ≡ step.kind)
    × (plan.step.effects ≡ step.effects)
    × (plan.step.process_uri ≡ uri)
    × (plan.step.idempotency_key ≡ "key-00000001")
    × (plan.process_ref ≡ inspect_ref)
    × (plan.subject ≡ "service:tests")
unfolding fullmatch
build_plan-registered_example =
    build_plan-registered ambient inspect_ref route_input some_digest "service:tests" "key-00000001"
      (inspect_found.0) [] (inspect_found.1) refl refl refl

abbrev reply_of : Result PoaError Json → Json
reply_of (ok j) = j
reply_of (err e) = text ""

abbrev first_run : Result PoaError Json × EventStore
first_run = command services request empty_store

first_ran : command services request empty_store ≡ (ok (reply_of first_run.0), first_run.1)
unfolding command execute dispatch check_command exact require_pattern fullmatch require_uri
    uri_kind lookup insert secret_free create_plan build_plan registered processes bindings
    process_uris observation binding_for_process check_plan emit event_of append admissible event_id
    conclude remember_plan remember_receipt receipt_json plan_json unsigned_json
first_ran = refl

command_repeat_example :
    (plan : Json) × (receipt : Json) × (result : Dict Json) × (reply_of first_run.0
      ≡ doc (reply "run.1" false plan receipt ++ result))
    × (command services request first_run.1
        ≡ (ok (doc (reply "run.1" true plan receipt)), first_run.1))
unfolding lookup
command_repeat_example =
    command_repeat services services request request checked checked empty_store first_run.1
      (reply_of first_run.0) request_accepted (inl refl) refl first_ran request_accepted refl

empty_store-IsJournal : IsJournal empty_store
empty_store-IsJournal = record { fits = omega arith; numbered = tt }

command-IsJournal_example : IsJournal (command services request empty_store).1
command-IsJournal_example =
    command-IsJournal services request empty_store refl empty_store-IsJournal

abbrev gateway_services : Services
gateway_services = services_of (record ambient { append = gateway_append })

gateway_command-IsJournal_example :
    IsGatewayJournal (command gateway_services request empty_store).1
gateway_command-IsJournal_example =
    gateway_command-IsJournal gateway_services request empty_store refl
      (empty_store-IsJournal, omega arith)

abbrev an_event : Event
an_event =
    ("schema", text "poa.event/v1")
    ∷ ("event_id", text "evt.pending")
    ∷ ("sequence", int (pos 0))
    ∷ ("event_type", text "planned")
    ∷ ("raw_output_included", boolean false)
    ∷ ("secret_material_included", boolean false)
    ∷ []

abbrev first_event : Event
first_event =
    ("schema", text "poa.event/v1")
    ∷ ("event_id", text "evt.000001")
    ∷ ("sequence", int (pos 1))
    ∷ ("event_type", text "planned")
    ∷ ("raw_output_included", boolean false)
    ∷ ("secret_material_included", boolean false)
    ∷ []

abbrev one_event : EventStore
one_event = record empty_store { events = first_event ∷ []; sequence = 1 }

append-IsJournal_example :
    IsJournal one_event
    × (one_event.events ≡ [] ++ first_event ∷ [])
    × (lookup "sequence" first_event ≡ some (int (pos 1)))
unfolding append admissible lookup insert event_id
append-IsJournal_example =
    append-IsJournal an_event first_event empty_store one_event empty_store-IsJournal refl

gateway_append-IsJournal_example :
    IsJournal one_event
    × (1 ≡ suc 0)
    × (length one_event.events ≡ min window (suc (length empty_store.events)))
unfolding gateway_append append admissible lookup insert event_id
gateway_append-IsJournal_example =
    gateway_append-IsJournal an_event first_event empty_store one_event empty_store-IsJournal
      (omega arith) refl

abbrev leaking : Dict Json
leaking =
    ("schema", text "subllm.command/v1") ∷ ("attempt", object (field "token" (text "t") end)) ∷ []

leaking-HasSecret : HasSecret (doc leaking)
leaking-HasSecret = in_object (later_field (in_value (in_object (by_key refl))))

command_secret_example :
    (e : PoaError) × (command services leaking empty_store ≡ (err e, empty_store))
command_secret_example = command_secret services leaking empty_store leaking-HasSecret

abbrev views : Views
views uri payload = ok (text uri)

abbrev list_providers : Dict Json
list_providers =
    ("schema", text "subllm.query/v1")
    ∷ ("process_uri", text "subllm://local/policy/query/list-providers")
    ∷ []

abbrev executed : Result PoaError Json × EventStore
executed = execute services checked empty_store

execute_ran : execute services checked empty_store ≡ (ok (reply_of executed.0), executed.1)
unfolding execute dispatch exact require_pattern fullmatch lookup insert secret_free create_plan
    build_plan registered processes bindings process_uris observation binding_for_process check_plan
    emit event_of append admissible event_id conclude remember_plan remember_receipt receipt_json
    plan_json unsigned_json
execute_ran = refl

answers_secret_free_example :
    ¬ HasSecret (text "subllm://local/policy/query/list-providers")
    × ¬ HasSecret (reply_of executed.0)
unfolding query answer check_query exact require_pattern fullmatch require_uri uri_kind lookup
    secret_free
answers_secret_free_example =
    answers_secret_free ambient views services list_providers checked empty_store executed.1
      (text "subllm://local/policy/query/list-providers") (reply_of executed.0) refl execute_ran

abbrev exchange : Dict Json
exchange =
    ("schema", text "subllm.command/v1")
    ∷ ("process_uri", text gateway_exchange_uri)
    ∷ ("subject", text "service:subllm-gateway")
    ∷ ("idempotency_key", text "gateway.0123456789abcdef0123456789abcdef")
    ∷ ("interaction_ref", text "2026-01-02/0123456789abcdef0123456789abcdef")
    ∷ []

abbrev checked_exchange : Checked
checked_exchange = record {
  payload = exchange;
  subject = "service:subllm-gateway";
  idempotency_key = "gateway.0123456789abcdef0123456789abcdef";
  process_uri = gateway_exchange_uri;
}

exchange_accepted : check_command exchange ≡ ok checked_exchange
unfolding check_command exact require_pattern fullmatch require_uri uri_kind lookup secret_free
exchange_accepted = refl

abbrev exchanged : Result PoaError Json × EventStore
exchanged = command services exchange empty_store

exchange_ran : command services exchange empty_store ≡ (ok (reply_of exchanged.0), exchanged.1)
unfolding command execute dispatch check_command exact require_pattern fullmatch require_uri
    uri_kind lookup insert secret_free gateway_exchange interaction_ref build_plan registered
    processes bindings process_uris observation binding_for_process check_plan emit event_of append
    admissible event_id unsigned_json is_day
exchange_ran = refl

exchange_repeats_example :
    (u : EventStore) × (command services exchange exchanged.1 ≡ (ok (reply_of exchanged.0), u))
    × (length exchanged.1.events ≡ suc (length empty_store.events))
    × (length u.events ≡ suc (length exchanged.1.events))
unfolding lookup
exchange_repeats_example =
    exchange_repeats services exchange checked_exchange empty_store exchanged.1
      (reply_of exchanged.0) refl exchange_accepted refl refl exchange_ran

-- `record_gateway_exchange` sends that command.
gateway_sends :
    record_gateway_exchange services "2026-01-02" "0123456789abcdef0123456789abcdef" empty_store
    ≡ command services exchange empty_store
unfolding record_gateway_exchange
gateway_sends = refl
