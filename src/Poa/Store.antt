-- ===== src/Poa/Store.antt =====
-- src/subllm/poa/store.py: the in-memory journal, and src/subllm/gateway_bus.py's bounded one. A
-- document handed out is a copy in the source, so values serve here. Run ids and keys are texts.
use subllm.Prelude.{
  ℕ, zero, suc, ◌+◌, ◌-◌, ◌/◌, ◌%◌, String, Bool, true, false, Option, none, some, List, [], ◌∷◌,
  ◌++◌, ◌&&◌, ◌==◌, eqb, Result, ok, require, if◌then◌else◌, ◌>>=◌, ◌>>◌, contains, keep, length,
  pos,
}
use subllm.Dict.{Dict, lookup, insert}
use subllm.Json.{Json, boolean, int, text}
use subllm.Poa.Refs.{PoaError, contract}

abbrev pub event_types : List String
event_types =
    "requested" ∷ "planned" ∷ "authorized" ∷ "started" ∷ "completed" ∷ "verified" ∷ "failed"
    ∷ "denied" ∷ []

abbrev pub Event : Type 0
Event = Dict Json

pub record EventStore : Type 0 where
  pub events : List Event
  pub receipts : Dict Json
  pub plans : Dict Json
  pub idempotency : Dict String
  pub sequence : ℕ

abbrev pub empty_store : EventStore
empty_store = record { events = []; receipts = []; plans = []; idempotency = []; sequence = 0 }

abbrev digit : ℕ → String → String
digit n s =
    if eqb n 0
    then String.◌∷◌ "0" s
    else if eqb n 1
    then String.◌∷◌ "1" s
    else if eqb n 2
    then String.◌∷◌ "2" s
    else if eqb n 3
    then String.◌∷◌ "3" s
    else if eqb n 4
    then String.◌∷◌ "4" s
    else if eqb n 5
    then String.◌∷◌ "5" s
    else if eqb n 6
    then String.◌∷◌ "6" s
    else if eqb n 7
    then String.◌∷◌ "7" s
    else if eqb n 8
    then String.◌∷◌ "8" s
    else String.◌∷◌ "9" s

-- At least `width` digits, and as many more as `fuel` allows; a number has fewer digits than itself.
decimal : ℕ → ℕ → ℕ → String → String
decimal zero width n s = s
decimal (suc fuel) width n s =
    let rest = decimal fuel (width - 1) (n / 10) (digit (n % 10) s) in
    if eqb n 0 && eqb width 0 then s else rest

-- `f"evt.{sequence:06d}"`
unfoldable pub event_id : ℕ → String
unfolding decimal
event_id n =
    String.◌∷◌ "e" (String.◌∷◌ "v" (String.◌∷◌ "t" (String.◌∷◌ "." (decimal (n + 6) 6 n ""))))

-- `event.get(key) == value`, `event.get(key) is False`
abbrev pub get_text : String → Event → String → Bool
get_text key event value = elim (lookup key event) [ some (text s) ↦ s == value | _ ↦ false ]

abbrev pub get_event_type : Event → Bool
get_event_type event = elim (lookup "event_type" event) [
  | some (text s) ↦ contains event_types s
  | _ ↦ false
]

abbrev pub is_false : Option Json → Bool
is_false (some (boolean false)) = true
is_false _ = false

-- The event as it is stored under the next number.
abbrev pub stored : ℕ → Event → Event
stored n event = insert "event_id" (text (event_id n)) (insert "sequence" (int (pos n)) event)

-- The three guards of `append`.
unfoldable pub admissible : Event → Result PoaError (Unit {0})
admissible event = do
  require (get_text "schema" event "poa.event/v1")
      (contract "POA-EVENT-001" "event schema is not registered")
  require (get_event_type event) (contract "POA-EVENT-001" "event type is not registered")
  require
      (is_false (lookup "raw_output_included" event)
        && is_false (lookup "secret_material_included" event))
      (contract "POA-EVENT-001" "event must not carry raw output or secrets")

unfoldable pub append : Event → EventStore → Result PoaError (Event × EventStore)
append event s =
    admissible event
    >> ok (
      stored (suc s.sequence) event,
      record s {
        events = s.events ++ stored (suc s.sequence) event ∷ [];
        sequence = suc s.sequence;
      },
    )

abbrev of_run : String → Event → Bool
of_run run_id event = get_text "run_id" event run_id

unfoldable pub events_of : Option String → EventStore → List Event
events_of none s = s.events
events_of (some run_id) s = keep (of_run run_id) s.events

unfoldable pub remember_plan : String → Json → String → EventStore → EventStore
remember_plan run_id plan key s = record s {
  plans = insert run_id plan s.plans;
  idempotency = insert key run_id s.idempotency;
}

unfoldable pub remember_receipt : String → Json → EventStore → EventStore
remember_receipt run_id receipt s = record s { receipts = insert run_id receipt s.receipts }

-- `del self._events[:-1024]`
abbrev pub drop : ℕ → List Event → List Event
drop zero es = es
drop (suc n) [] = []
drop (suc n) (e ∷ es) = drop n es

abbrev pub window : ℕ
window = 1024

unfoldable pub gateway_append : Event → EventStore → Result PoaError (Event × EventStore)
gateway_append event s = append event s >>= λ (r : Event × EventStore).
    ok (r.0, record (r.1) { events = drop (length r.1.events - window) r.1.events })
