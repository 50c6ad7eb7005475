-- ===== src/Health/File.antt =====
-- src/subllm/health.py: `_bounded_state`, and the document that `_write_state` writes.
use subllm.Prelude.{
  ℕ, ◌+◌, ◌-◌, ◌*◌, ◌^◌, String, Bool, Option, none, some, List, [], ◌∷◌, ◌||◌, ◌==◌, leb,
  if◌then◌else◌, pos, negsuc, Result, ok, err, text_leb, ◌>>=◌,
}
use subllm.Dict.{Dict, lookup}
use subllm.Json.{Json, null, int, float, text, object, members, fields, has_keys}
use subllm.Health.Entry.{ProviderHealth, is_provider, is_reason}

pub data OverflowError : Type 0 where
  int_too_large_to_convert_to_float : OverflowError

abbrev pub State : Type 0
State = Dict ProviderHealth

abbrev pub state_schema : String
state_schema = "subllm.provider-health/v1"

abbrev pub max_failures : ℕ
max_failures = 1_000_000

abbrev pub max_latency : ℕ
max_latency = 3_600_000

-- 32_503_680_000 seconds, the year 3000
abbrev pub max_cooldown : ℕ
max_cooldown = 32_503_680_000 * 1_000_000

-- The least integer that `float()` refuses: halfway from the largest double to 2 ^ 1024.
abbrev pub float_limit : ℕ
float_limit = 2 ^ 1024 - 2 ^ 970

abbrev pub within : ℕ → ℕ → Option ℕ
within most n = if leb n most then some n else none

unfoldable pub read_failures : Json → Option ℕ
read_failures (int (pos n)) = within max_failures n
read_failures _ = none

unfoldable pub read_latency : Json → Option (Option ℕ)
read_latency null = some none
read_latency (int (pos n)) = if leb n max_latency then some (some n) else none
read_latency _ = none

-- `float(cooldown)` raises before the comparison. An integer is exact in the range that passes.
unfoldable pub read_cooldown : Json → Result OverflowError (Option ℕ)
read_cooldown (int (pos n)) =
    if leb float_limit n
    then err int_too_large_to_convert_to_float
    else ok (within max_cooldown (n * 1_000_000))
read_cooldown (int (negsuc n)) =
    if leb float_limit (n + 1) then err int_too_large_to_convert_to_float else ok none
read_cooldown (float (pos n)) = ok (within max_cooldown n)
read_cooldown _ = ok none

unfoldable pub read_reason : Json → Option String
read_reason (text s) = if s == "" || is_reason s then some s else none
read_reason _ = none

-- The tests in the order of the source; `none` is `continue`.
unfoldable pub read_row : Json → Json → Json → Json → Result OverflowError (Option ProviderHealth)
unfolding read_failures read_latency read_cooldown read_reason
read_row failures cooldown latency reason = elim (read_failures failures) [
  | none ↦ ok none
  | some n ↦ read_cooldown cooldown >>= λ found. ok (elim found [
    | none ↦ none
    | some c ↦ elim (read_latency latency) [
      | none ↦ none
      | some l ↦ elim (read_reason reason) [
        | none ↦ none
        | some r ↦ some (record {
          consecutive_failures = n;
          cooldown_until = c;
          last_latency_ms = l;
          reason = r;
        })
      ]
    ]
  ])
]

abbrev pub row_keys : List String
row_keys = "consecutive_failures" ∷ "cooldown_until" ∷ "last_latency_ms" ∷ "reason" ∷ []

abbrev pub at : Dict Json → String → Json
at d k = elim (lookup k d) [ none ↦ null | some v ↦ v ]

unfoldable pub read_provider : String → Json → Result OverflowError (Option ProviderHealth)
unfolding read_row lookup
read_provider provider (object row) =
    let d = members row in
    let entry =
      read_row (at d "consecutive_failures") (at d "cooldown_until") (at d "last_latency_ms")
        (at d "reason") in
    if is_provider provider then (if has_keys d row_keys then entry else ok none) else ok none
read_provider provider _ = ok none

abbrev pub add_row : String → Option ProviderHealth → State → State
add_row provider none state = state
add_row provider (some entry) state = (provider, entry) ∷ state

-- The loop over the providers. Their names are distinct, so each row comes behind those before it.
unfoldable pub read_rows : Dict Json → Result OverflowError State
unfolding read_provider
read_rows [] = ok []
read_rows ((provider, row) ∷ rest) =
    let others = read_rows rest in
    read_provider provider row >>= λ found. others >>= λ state. ok (add_row provider found state)

abbrev pub has_schema : Json → Bool
has_schema (text s) = s == state_schema
has_schema _ = Bool.false

unfoldable pub read_providers : Json → Result OverflowError State
unfolding read_rows
read_providers (object rows) = read_rows (members rows)
read_providers _ = ok []

unfoldable pub bounded_state : Json → Result OverflowError State
unfolding read_providers lookup
bounded_state (object payload) =
    let d = members payload in
    let state = read_providers (at d "providers") in
    if has_keys d ("schema" ∷ "providers" ∷ [])
    then (if has_schema (at d "schema") then state else ok [])
    else ok []
bounded_state _ = ok []

-- `sorted(state.items())`: by name
module _ {ℓ} {V : Type ℓ} where
  unfoldable pub insert_by_name : String → V → Dict V → Dict V
  insert_by_name k v [] = (k, v) ∷ []
  insert_by_name k v ((j, w) ∷ d) =
      if text_leb k j then (k, v) ∷ (j, w) ∷ d else (j, w) ∷ insert_by_name k v d

  unfoldable pub sort_items : Dict V → Dict V
  unfolding insert_by_name
  sort_items [] = []
  sort_items ((k, v) ∷ d) = insert_by_name k v (sort_items d)

abbrev pub latency_json : Option ℕ → Json
latency_json none = null
latency_json (some n) = int (pos n)

abbrev pub row_json : ProviderHealth → Json
row_json entry = object (
    fields (
      ("consecutive_failures", int (pos entry.consecutive_failures))
      ∷ ("cooldown_until", float (pos entry.cooldown_until))
      ∷ ("last_latency_ms", latency_json entry.last_latency_ms)
      ∷ ("reason", text entry.reason)
      ∷ []))

unfoldable pub rows_json : State → Dict Json
rows_json [] = []
rows_json ((provider, entry) ∷ rest) =
    if is_provider provider then (provider, row_json entry) ∷ rows_json rest else rows_json rest

-- `payload` of `_write_state`
unfoldable pub state_payload : State → Json
unfolding rows_json sort_items
state_payload state = object (
    fields (
      ("schema", text state_schema)
      ∷ ("providers", object (fields (rows_json (sort_items state))))
      ∷ []))
