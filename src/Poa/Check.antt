-- ===== src/Poa/Check.antt =====
-- src/subllm/poa/bus.py: `_secret_free`, and what `command` and `query` check of a document before
-- they look at the store.
use subllm.Prelude.{
  String, Bool, true, List, [], ◌∷◌, ◌&&◌, not, ◌==◌, Result, ok, err, require, contains, ◌>>=◌,
  ◌>>◌,
}
use subllm.Dict.{Dict}
use subllm.Json.{Json, text, array, object, Items, nil, cons, Fields, end, field, keys}
use subllm.Poa.Inputs.{at}
use subllm.Poa.Plan.{doc}
use subllm.Poa.Refs.{
  PoaError, contract, exact, require_pattern, subject_pattern, idempotency_pattern,
}
use subllm.Poa.Registry.{require_uri}

abbrev pub secret_keys : List String
secret_keys = "api_key" ∷ "secret" ∷ "token" ∷ "password" ∷ "authorization" ∷ "signature" ∷ []

-- `_secret_free` does not raise.
unfoldable mutual
  pub secret_free : Json → Bool
  secret_free (object fs) = secret_free_fields fs
  secret_free (array xs) = secret_free_items xs
  secret_free _ = true

  pub secret_free_items : Items → Bool
  secret_free_items nil = true
  secret_free_items (cons x xs) = secret_free x && secret_free_items xs

  pub secret_free_fields : Fields → Bool
  secret_free_fields end = true
  secret_free_fields (field k v fs) =
      not (contains secret_keys k) && secret_free v && secret_free_fields fs

abbrev pub check_secrets : Json → Result PoaError (Unit {0})
check_secrets j =
    require (secret_free j) (contract "POA-SECRET-001" "payload must not include secret material")

abbrev pub check_schema : Json → String → Result PoaError (Unit {0})
check_schema (text s) schema =
    require (s == schema) (contract "POA-DOC-001" "document schema is not registered")
check_schema _ schema = err (contract "POA-DOC-001" "document schema is not registered")

pub record Checked : Type 0 where
  pub payload : Dict Json
  pub subject : String
  pub idempotency_key : String
  pub process_uri : String

unfoldable pub check_command : Dict Json → Result PoaError Checked
check_command document = do
  payload ←
      exact (doc document) ("schema" ∷ "process_uri" ∷ "subject" ∷ "idempotency_key" ∷ [])
        (keys document)
  check_schema (at payload "schema") "subllm.command/v1"
  check_secrets (doc payload)
  subject ← require_pattern (at payload "subject") "subject" subject_pattern
  key ← require_pattern (at payload "idempotency_key") "idempotency_key" idempotency_pattern
  uri ← require_uri (at payload "process_uri") "command"
  ok (record { payload = payload; subject = subject; idempotency_key = key; process_uri = uri })

-- The payload and its address.
unfoldable pub check_query : Dict Json → Result PoaError (Dict Json × String)
check_query document = do
  payload ← exact (doc document) ("schema" ∷ "process_uri" ∷ []) (keys document)
  check_schema (at payload "schema") "subllm.query/v1"
  uri ← require_uri (at payload "process_uri") "query"
  ok (payload, uri)
