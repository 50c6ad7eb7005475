-- ===== src/Health/Store.antt =====
-- src/subllm/health.py: the persisted store with its in-memory fallback, and the operations on it.
-- A host holds the health files that parse as JSON (a path without one reads as no state), the
-- module's `_FALLBACK_HEALTH` and its `_HEALTH`. `path` is what `_state_path` returns for the
-- caller's environment, and `io` says what the operating system does during the call.
use subllm.Prelude.{
  ℕ, ◌-◌, String, Bool, Option, none, some, List, [], ◌∷◌, ltb, is_empty, if◌then◌else◌, length,
  or_else, Result, ok, ◌>>=◌,
}
use subllm.Dict.{Dict, lookup, insert, remove}
use subllm.Json.{Json}
use subllm.PolicyConfig.{ExecutionPolicyConfig}
use subllm.Health.Entry.{ProviderHealth, fresh, fail, succeed, is_cooling}
use subllm.Health.File.{State, OverflowError, bounded_state, state_payload, sort_items}

pub record Host : Type 0 where
  pub files : Dict Json
  pub fallback : Dict State
  pub memory : State

-- `no_store`: an `OSError` before the state is read. `no_write`: one in `_write_state`, before the
-- file is replaced. `no_mode`: one after it, from `path.chmod`.
pub data Io : Type 0 where
  works no_store no_write no_mode : Io

abbrev pub fallback_limit : ℕ
fallback_limit = 64

-- `_read_state`
unfoldable pub read_state : String → Host → Result OverflowError State
read_state path h = elim (lookup path h.files) [ none ↦ ok [] | some doc ↦ bounded_state doc ]

-- `_write_state`
unfoldable pub write_state : String → State → Host → Host
write_state path state h = record h { files = insert path (state_payload state) h.files }

abbrev pub drop_oldest {ℓ} : {A : Type ℓ} → List A → List A
drop_oldest [] = []
drop_oldest (x ∷ xs) = xs

-- What `_FALLBACK_HEALTH` holds after a call without the store.
unfoldable pub remember_fallback : String → State → Dict State → Dict State
remember_fallback path state fallback =
    let others = remove path fallback in
    let kept = if is_empty state then others else insert path state others in
    if ltb fallback_limit (length kept) then drop_oldest kept else kept

-- The `except OSError` branch.
unfoldable pub without_store : String → (State → State) → Host → State × Host
without_store path mutator h =
    let state = mutator (or_else (lookup path h.fallback) []) in
    (state, record h { fallback = remember_fallback path state h.fallback })

abbrev pub forget_fallback : String → Host → Host
forget_fallback path h = record h { fallback = remove path h.fallback }

-- `_with_persisted_state(mutator)`
unfoldable pub with_persisted_state :
    Io → String → (State → State) → Host → Result OverflowError (State × Host)
with_persisted_state works path mutator h = read_state path h >>= λ state.
    ok (mutator state, forget_fallback path (write_state path (mutator state) h))
with_persisted_state no_store path mutator h = ok (without_store path mutator h)
with_persisted_state no_write path mutator h =
    read_state path h >>= λ state. ok (without_store path mutator h)
with_persisted_state no_mode path mutator h = read_state path h >>= λ state.
    ok (without_store path mutator (write_state path (mutator state) h))

-- `_with_persisted_state()`: nothing is written.
unfoldable pub persisted_state : Io → String → Host → Result OverflowError (State × Host)
persisted_state no_store path h = ok (without_store path (λ s. s) h)
persisted_state _ path h = read_state path h >>= λ state. ok (state, forget_fallback path h)

-- `_replace_memory`
abbrev pub replace_memory : State × Host → State × Host
replace_memory (state, h) = (state, record h { memory = state })

-- `state.setdefault(provider, _ProviderHealth())`, and the update of the entry
unfoldable pub update_entry : String → (ProviderHealth → ProviderHealth) → State → State
update_entry provider f state = insert provider (f (or_else (lookup provider state) fresh)) state

unfoldable pub record_failure :
    Io → String → String → String → ℕ → ExecutionPolicyConfig → ℕ → Host → Result OverflowError Host
record_failure io path provider reason latency policy now h =
    with_persisted_state io path (update_entry provider (fail policy reason latency now)) h >>= λ r.
    ok (replace_memory r).1

unfoldable pub record_success :
    Io → String → String → ℕ → ExecutionPolicyConfig → ℕ → Host → Result OverflowError Host
record_success io path provider latency policy now h =
    with_persisted_state io path (update_entry provider (succeed policy latency now)) h >>= λ r.
    ok (replace_memory r).1

-- `reset_provider_health`; `unlinks` says whether the file can be removed.
unfoldable pub reset_provider_health : Bool → String → Host → Host
reset_provider_health unlinks path h = record {
  files = if unlinks then remove path h.files else h.files;
  fallback = remove path h.fallback;
  memory = [];
}

pub record ProviderHealthReceipt : Type 0 where
  pub provider : String
  pub status : String
  pub consecutive_failures : ℕ
  pub cooldown_remaining : ℕ
  pub last_latency_ms : Option ℕ
  pub reason : String

abbrev pub receipt : ℕ → String → ProviderHealth → ProviderHealthReceipt
receipt now name entry = record {
  provider = name;
  status = if is_cooling now entry then "degraded" else "healthy";
  consecutive_failures = entry.consecutive_failures;
  cooldown_remaining = entry.cooldown_until - now;
  last_latency_ms = entry.last_latency_ms;
  reason = entry.reason;
}

unfoldable pub receipts : ℕ → State → List ProviderHealthReceipt
receipts now [] = []
receipts now ((name, entry) ∷ rest) = receipt now name entry ∷ receipts now rest

unfoldable pub provider_health :
    Io → String → ℕ → Host → Result OverflowError (List ProviderHealthReceipt × Host)
provider_health io path now h = persisted_state io path h >>= λ (r : State × Host).
    ok (receipts now (sort_items r.0), (replace_memory r).1)
