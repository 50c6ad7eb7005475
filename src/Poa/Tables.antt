-- ===== src/Poa/Tables.antt =====
-- src/subllm/poa/registry.py: the closed tables of processes, bindings and process addresses. The
-- constants keep the source's names, in small letters.
use subllm.Prelude.{ℕ, String, Bool, true, false, List, [], ◌∷◌}
use subllm.Dict.{Dict}
use subllm.Poa.Refs.{
  adapter, input_schema, output_schema, policy, target, verify_capability, verify_schema,
}

abbrev pub inspect_uri : String
inspect_uri = "subllm://local/policy/query/inspect"

abbrev pub export_contract_uri : String
export_contract_uri = "subllm://local/policy/query/export-routing-contract"

abbrev pub list_routes_uri : String
list_routes_uri = "subllm://local/policy/query/list-routes"

abbrev pub list_providers_uri : String
list_providers_uri = "subllm://local/policy/query/list-providers"

abbrev pub list_applications_uri : String
list_applications_uri = "subllm://local/policy/query/list-applications"

abbrev pub configured_route_uri : String
configured_route_uri = "subllm://local/policy/query/configured-route"

abbrev pub resolve_route_uri : String
resolve_route_uri = "subllm://local/policy/query/resolve-route"

abbrev pub observe_credentials_uri : String
observe_credentials_uri = "subllm://local/policy/query/observe-credentials"

abbrev pub validate_uri : String
validate_uri = "subllm://local/policy/query/validate"

abbrev pub gateway_exchange_uri : String
gateway_exchange_uri = "subllm://local/policy/command/record-gateway-exchange"

abbrev pub record_usage_uri : String
record_usage_uri = "subllm://local/policy/command/record-usage"

abbrev pub usage_uri : String
usage_uri = "subllm://local/policy/query/usage"

abbrev pub events_uri : String
events_uri = "subllm://local/policy/query/events"

abbrev pub receipt_uri : String
receipt_uri = "subllm://local/policy/query/receipt"

abbrev pub create_plan_uri : String
create_plan_uri = "subllm://local/policy/command/create-plan"

abbrev pub import_credentials_uri : String
import_credentials_uri = "subllm://local/policy/command/import-credentials"

abbrev pub edit_process_uri : String
edit_process_uri = "subllm://local/policy/command/edit-process"

abbrev pub inspect_ref : String
inspect_ref = "poa://subactor.subllm/process/inspect-policy/v1"

abbrev pub export_contract_ref : String
export_contract_ref = "poa://subactor.subllm/process/export-routing-contract/v1"

abbrev pub list_routes_ref : String
list_routes_ref = "poa://subactor.subllm/process/list-routes/v1"

abbrev pub list_providers_ref : String
list_providers_ref = "poa://subactor.subllm/process/list-providers/v1"

abbrev pub list_applications_ref : String
list_applications_ref = "poa://subactor.subllm/process/list-applications/v1"

abbrev pub configured_route_ref : String
configured_route_ref = "poa://subactor.subllm/process/configured-route/v1"

abbrev pub resolve_route_ref : String
resolve_route_ref = "poa://subactor.subllm/process/resolve-route/v1"

abbrev pub observe_credentials_ref : String
observe_credentials_ref = "poa://subactor.subllm/process/observe-credentials/v1"

abbrev pub validate_ref : String
validate_ref = "poa://subactor.subllm/process/validate-policy/v1"

abbrev pub gateway_exchange_ref : String
gateway_exchange_ref = "poa://subactor.subllm/process/record-gateway-exchange/v1"

abbrev pub record_usage_ref : String
record_usage_ref = "poa://subactor.subllm/process/record-usage/v1"

abbrev pub usage_ref : String
usage_ref = "poa://subactor.subllm/process/usage/v1"

abbrev pub events_ref : String
events_ref = "poa://subactor.subllm/process/list-events/v1"

abbrev pub receipt_ref : String
receipt_ref = "poa://subactor.subllm/process/get-receipt/v1"

abbrev pub create_plan_ref : String
create_plan_ref = "poa://subactor.subllm/process/create-plan/v1"

abbrev pub import_credentials_ref : String
import_credentials_ref = "poa://subactor.subllm/process/import-credentials/v1"

abbrev pub edit_process_ref : String
edit_process_ref = "poa://subactor.subllm/process/edit-process/v1"

abbrev pub cap_inspect : String
cap_inspect = "capability://subactor.subllm/policy/inspect/v1"

abbrev pub cap_list : String
cap_list = "capability://subactor.subllm/policy/list/v1"

abbrev pub cap_resolve : String
cap_resolve = "capability://subactor.subllm/policy/resolve/v1"

abbrev pub cap_observe : String
cap_observe = "capability://subactor.subllm/policy/observe/v1"

abbrev pub cap_validate : String
cap_validate = "capability://subactor.subllm/policy/validate/v1"

abbrev pub cap_journal : String
cap_journal = "capability://subactor.subllm/policy/journal/v1"

abbrev pub cap_plan : String
cap_plan = "capability://subactor.subllm/policy/plan/v1"

abbrev pub cap_import : String
cap_import = "capability://subactor.subllm/policy/import-credentials/v1"

abbrev pub cap_edit_process : String
cap_edit_process = "capability://subactor.subllm/policy/edit-process/v1"

pub record Verification : Type 0 where
  pub capability_ref : String
  pub expectation_schema_ref : String

pub record Step : Type 0 where
  pub id : String
  pub capability_ref : String
  pub kind : String
  pub effects : List String
  pub depends_on : List String
  pub requires_approval : Bool
  pub timeout_seconds : ℕ
  pub max_attempts : ℕ
  pub idempotency : String
  pub verification : List Verification

pub record Process : Type 0 where
  pub schema : String
  pub process_ref : String
  pub title : String
  pub owner : String
  pub input_schema_ref : String
  pub output_schema_ref : String
  pub policy_refs : List String
  pub steps : List Step

pub record Binding : Type 0 where
  pub schema : String
  pub binding_id : String
  pub capability_ref : String
  pub process_uri : String
  pub target_ref : String
  pub adapter_ref : String
  pub priority : ℕ

-- `_verification`
abbrev verification_of : List Verification
verification_of =
    record { capability_ref = verify_capability; expectation_schema_ref = verify_schema } ∷ []

-- `_step`, with its keyword arguments written out
abbrev step : String → String → String → List String → Bool → String → Step
step id capability kind effects approval idempotency = record {
  id = id;
  capability_ref = capability;
  kind = kind;
  effects = effects;
  depends_on = [];
  requires_approval = approval;
  timeout_seconds = 15;
  max_attempts = 1;
  idempotency = idempotency;
  verification = verification_of;
}

-- `_process`
abbrev process : String → String → List Step → Process
process ref title steps = record {
  schema = "poa.process/v1";
  process_ref = ref;
  title = title;
  owner = "service:subllm";
  input_schema_ref = input_schema;
  output_schema_ref = output_schema;
  policy_refs = policy ∷ [];
  steps = steps;
}

unfoldable pub processes : Dict Process
processes =
    (
      gateway_exchange_ref,
      process gateway_exchange_ref "Record gateway exchange reference" (
          step "record-gateway-exchange" cap_journal "command" ("write_data" ∷ []) false "required"
          ∷ []),
    )
    ∷ (
      record_usage_ref,
      process record_usage_ref "Record a declared application API attempt"
          (step "record-usage" cap_journal "command" ("write_data" ∷ []) false "required" ∷ []),
    )
    ∷ (
      usage_ref,
      process usage_ref "Read API usage history"
          (step "usage" cap_journal "query" ("read_data" ∷ []) false "read_only" ∷ []),
    )
    ∷ (
      inspect_ref,
      process inspect_ref "Inspect a declared SubLLM process"
          (step "inspect" cap_inspect "query" ("read_data" ∷ []) false "read_only" ∷ []),
    )
    ∷ (
      export_contract_ref,
      process export_contract_ref "Export an exact routing contract"
          (step "export-contract" cap_list "query" ("read_data" ∷ []) false "read_only" ∷ []),
    )
    ∷ (
      list_routes_ref,
      process list_routes_ref "List configured application and function routes"
          (step "list-routes" cap_list "query" ("read_data" ∷ []) false "read_only" ∷ []),
    )
    ∷ (
      list_providers_ref,
      process list_providers_ref "List public provider enablement and defaults"
          (step "list-providers" cap_list "query" ("read_data" ∷ []) false "read_only" ∷ []),
    )
    ∷ (
      list_applications_ref,
      process list_applications_ref "List public application identity"
          (step "list-applications" cap_list "query" ("read_data" ∷ []) false "read_only" ∷ []),
    )
    ∷ (
      configured_route_ref,
      process configured_route_ref "Inspect one route without requiring a credential"
          (step "configured-route" cap_resolve "query" ("read_data" ∷ []) false "read_only" ∷ []),
    )
    ∷ (
      resolve_route_ref,
      process resolve_route_ref "Resolve one route using credential presence, not the key value" (
          step "resolve-route" cap_resolve "query" ("read_data" ∷ "credential_use" ∷ []) true
            "read_only"
          ∷ []),
    )
    ∷ (
      observe_credentials_ref,
      process observe_credentials_ref "Observe credential names as configured or missing" (
          step "observe-credentials" cap_observe "query" ("read_data" ∷ []) false "read_only" ∷ []),
    )
    ∷ (
      validate_ref,
      process validate_ref "Validate the effective SubLLM policy"
          (step "validate" cap_validate "query" ("read_data" ∷ []) false "read_only" ∷ []),
    )
    ∷ (
      events_ref,
      process events_ref "Read the event journal projection"
          (step "list-events" cap_journal "query" ("read_data" ∷ []) false "read_only" ∷ []),
    )
    ∷ (
      receipt_ref,
      process receipt_ref "Read one terminal receipt"
          (step "get-receipt" cap_journal "query" ("read_data" ∷ []) false "read_only" ∷ []),
    )
    ∷ (
      create_plan_ref,
      process create_plan_ref "Create a secret-free dry plan for a declared process"
          (step "create-plan" cap_plan "command" ("read_data" ∷ []) false "required" ∷ []),
    )
    ∷ (
      import_credentials_ref,
      process import_credentials_ref
          "Import provider credential names into the local ignored env file"
          (step "import-credentials" cap_import "command" ("local_write" ∷ []) false "required"
            ∷ []),
    )
    ∷ (
      edit_process_ref,
      process edit_process_ref "Validate a digest-bound LLM process DSL edit proposal"
          (step "edit-process" cap_edit_process "command" ("read_data" ∷ []) false "required" ∷ []),
    )
    ∷ []

abbrev binding : String → String → String → Binding
binding id capability uri = record {
  schema = "poa.binding/v1";
  binding_id = id;
  capability_ref = capability;
  process_uri = uri;
  target_ref = target;
  adapter_ref = adapter;
  priority = 0;
}

unfoldable pub bindings : Dict Binding
bindings =
    (cap_inspect, binding "bind.inspect" cap_inspect inspect_uri)
    ∷ (cap_list, binding "bind.list" cap_list list_routes_uri)
    ∷ (cap_resolve, binding "bind.resolve" cap_resolve configured_route_uri)
    ∷ (cap_observe, binding "bind.observe" cap_observe observe_credentials_uri)
    ∷ (cap_validate, binding "bind.validate" cap_validate validate_uri)
    ∷ (cap_journal, binding "bind.journal" cap_journal events_uri)
    ∷ (cap_plan, binding "bind.plan" cap_plan create_plan_uri)
    ∷ (cap_import, binding "bind.import" cap_import import_credentials_uri)
    ∷ (cap_edit_process, binding "bind.edit-process" cap_edit_process edit_process_uri)
    ∷ []

unfoldable pub process_uris : Dict String
process_uris =
    (gateway_exchange_ref, gateway_exchange_uri)
    ∷ (record_usage_ref, record_usage_uri)
    ∷ (usage_ref, usage_uri)
    ∷ (inspect_ref, inspect_uri)
    ∷ (export_contract_ref, export_contract_uri)
    ∷ (list_routes_ref, list_routes_uri)
    ∷ (list_providers_ref, list_providers_uri)
    ∷ (list_applications_ref, list_applications_uri)
    ∷ (configured_route_ref, configured_route_uri)
    ∷ (resolve_route_ref, resolve_route_uri)
    ∷ (observe_credentials_ref, observe_credentials_uri)
    ∷ (validate_ref, validate_uri)
    ∷ (events_ref, events_uri)
    ∷ (receipt_ref, receipt_uri)
    ∷ (create_plan_ref, create_plan_uri)
    ∷ (import_credentials_ref, import_credentials_uri)
    ∷ (edit_process_ref, edit_process_uri)
    ∷ []

unfoldable pub uri_kind : Dict String
uri_kind =
    (gateway_exchange_uri, "command")
    ∷ (record_usage_uri, "command")
    ∷ (usage_uri, "query")
    ∷ (inspect_uri, "query")
    ∷ (export_contract_uri, "query")
    ∷ (list_routes_uri, "query")
    ∷ (list_providers_uri, "query")
    ∷ (list_applications_uri, "query")
    ∷ (configured_route_uri, "query")
    ∷ (resolve_route_uri, "query")
    ∷ (observe_credentials_uri, "query")
    ∷ (validate_uri, "query")
    ∷ (events_uri, "query")
    ∷ (receipt_uri, "query")
    ∷ (create_plan_uri, "command")
    ∷ (import_credentials_uri, "command")
    ∷ (edit_process_uri, "command")
    ∷ []
