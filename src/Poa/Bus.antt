-- ===== src/Poa/Bus.antt =====
-- src/subllm/poa/bus.py: `PolicyBus.command`.
use subllm.Prelude.{String, true, Option, none, some, ◌==◌, err, if◌then◌else◌}
use subllm.Dict.{Dict, lookup}
use subllm.Json.{Json, null}
use subllm.Poa.Check.{Checked, check_command, check_secrets}
use subllm.Poa.Commands.{
  Services, create_plan, gateway_exchange, record_usage, import_credentials, edit_process, reply,
}
use subllm.Poa.Exec.{Exec, lift, give, gets, ◌>>=◌, ◌>>◌}
use subllm.Poa.Plan.{doc}
use subllm.Poa.Refs.{raised}
use subllm.Poa.Store.{EventStore}
use subllm.Poa.Tables.{
  create_plan_uri, gateway_exchange_uri, record_usage_uri, import_credentials_uri, edit_process_uri,
}

-- `self._commands[process_uri]`
unfoldable pub dispatch : Services → Checked → Exec Json
dispatch sv c =
    if c.process_uri == gateway_exchange_uri
    then gateway_exchange sv c.payload c.subject c.idempotency_key
    else if c.process_uri == record_usage_uri
    then record_usage sv c.payload c.subject c.idempotency_key
    else if c.process_uri == create_plan_uri
    then create_plan sv c.payload c.subject c.idempotency_key
    else if c.process_uri == edit_process_uri
    then edit_process sv c.payload c.subject c.idempotency_key
    else if c.process_uri == import_credentials_uri
    then import_credentials sv c.payload c.subject c.idempotency_key
    else lift (err (raised "KeyError"))

abbrev or_null : Option Json → Json
or_null none = null
or_null (some j) = j

-- The reply for a key that is known.
abbrev pub repeated : EventStore → String → Json
repeated s run_id =
    doc (reply run_id true (or_null (lookup run_id s.plans)) (or_null (lookup run_id s.receipts)))

unfoldable pub execute : Services → Checked → Exec Json
execute sv c = do result ← dispatch sv c; lift (check_secrets result); give result

abbrev pub resume : Services → Checked → Option String → Exec Json
resume sv c (some run_id) = gets (λ s. repeated s run_id)
resume sv c none = execute sv c

unfoldable pub command : Services → Dict Json → Exec Json
command sv document = do
  c ← lift (check_command document)
  known ← gets (λ s. lookup c.idempotency_key s.idempotency)
  resume sv c known
