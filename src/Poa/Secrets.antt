-- ===== src/Poa/Secrets.antt =====
-- src/subllm/poa/bus.py: `_secret_free` finds a secret's key at any depth, and what it keeps out.
use subllm.Prelude.{
  String, ◌≡◌, refl, Bool, true, false, ◌&&◌, not, arith, ok, err, contains, List, subst, guarded,
  ap, ◌∙◌, sym, ok-injective, Bool-cases, all, inl, inr, ◌++◌, Result-cases, absurd_err,
  require-true, absurd_bool, >>=-eq-ok, require-eq-ok,
}
use subllm.Dict.{Dict}
use subllm.Json.{Json, fields, members, keys, end, array, object, Items, cons, Fields, field}
use subllm.Poa.Bus.{command, execute, dispatch}
use subllm.Poa.Check.{
  Checked, secret_keys, secret_free, secret_free_items, secret_free_fields, check_secrets,
  check_schema, check_command, check_query,
}
use subllm.Poa.Commands.{Services}
use subllm.Poa.Exec.{lift}
use subllm.Poa.Inputs.{at}
use subllm.Poa.Keeps.{bind-eq-ok}
use subllm.Poa.Plan.{Ambient, doc}
use subllm.Poa.Queries.{Views, query, answer}
use subllm.Poa.Refs.{PoaError, exact}
use subllm.Poa.Store.{EventStore}

-- Some object of the document, at whatever depth, has a secret's name among its keys.
mutual
  pub data HasSecret : Json → Type 0 where
    in_array : {xs : Items} → HasSecretItem xs → HasSecret (array xs)
    in_object : {fs : Fields} → HasSecretField fs → HasSecret (object fs)

  pub data HasSecretItem : Items → Type 0 where
    first_item : {x : Json} {xs : Items} → HasSecret x → HasSecretItem (cons x xs)
    later_item : {x : Json} {xs : Items} → HasSecretItem xs → HasSecretItem (cons x xs)

  pub data HasSecretField : Fields → Type 0 where
    by_key :
        {k : String} {v : Json} {fs : Fields}
        → contains secret_keys k ≡ true
        → HasSecretField (field k v fs)
    in_value : {k : String} {v : Json} {fs : Fields} → HasSecret v → HasSecretField (field k v fs)
    later_field :
        {k : String} {v : Json} {fs : Fields} → HasSecretField fs → HasSecretField (field k v fs)

not-first : (a b c : Bool) → a ≡ true → (not a && b && c) ≡ false
not-first true b c e = refl
not-first false b c e = cc

not-second : (a b c : Bool) → b ≡ false → (not a && b && c) ≡ false
not-second a b c e = ground arith

not-third : (a b c : Bool) → c ≡ false → (not a && b && c) ≡ false
not-third a b c e = ground arith

mutual
  unfolding secret_free

  secret_found : {j : Json} → HasSecret j → secret_free j ≡ false
  secret_found (in_array h) = secret_found_items h
  secret_found (in_object h) = secret_found_fields h

  secret_found_items : {xs : Items} → HasSecretItem xs → secret_free_items xs ≡ false
  secret_found_items (first_item h) = ground (arith, secret_found h)
  secret_found_items (later_item h) = ground (arith, secret_found_items h)

  secret_found_fields : {fs : Fields} → HasSecretField fs → secret_free_fields fs ≡ false
  secret_found_fields (by_key {k = k} {v = v} {fs = fs} e) =
      not-first (contains secret_keys k) (secret_free v) (secret_free_fields fs) e
  secret_found_fields (in_value {k = k} {v = v} {fs = fs} h) =
      not-second (contains secret_keys k) (secret_free v) (secret_free_fields fs) (secret_found h)
  secret_found_fields (later_field {k = k} {v = v} {fs = fs} h) =
      not-third (contains secret_keys k) (secret_free v) (secret_free_fields fs)
        (secret_found_fields h)

fields-members : (fs : Fields) → fields (members fs) ≡ fs
fields-members end = refl
fields-members (field k v fs) = ap (field k v) (fields-members fs)

exact-eq-ok :
    (d payload : Dict Json) (required optional : List String)
    → exact (doc d) required optional ≡ ok payload
    → doc payload ≡ doc d
unfolding exact
exact-eq-ok d payload required optional h =
    elim (Bool-cases (
      all (contains (required ++ optional)) (keys (members (fields d)))
      && all (contains (keys (members (fields d)))) required)) [
        | inl e ↦ ap object (ap fields (sym (ok-injective (rw e at h))) ∙ fields-members (fields d))
        | inr e ↦ absurd_err (rw e at h)
      ]

check_command-secret_free :
    (document : Dict Json) (c : Checked)
    → check_command document ≡ ok c
    → secret_free (doc document) ≡ true
unfolding check_command
check_command-secret_free document c h =
    let (payload, closed, h1) = >>=-eq-ok (exact (doc document) _ _) _ h in
    let (_, _, h2) = >>=-eq-ok (check_schema (at payload "schema") "subllm.command/v1") _ h1 in
    let (clean, _) = require-eq-ok (secret_free (doc payload)) _ _ h2 in
    subst (λ j. secret_free j ≡ true) (exact-eq-ok document payload _ _ closed) clean

-- A command whose document has the name of a secret among the keys of any object in it is refused
-- with an error, and the event store stays as it was.
pub command_secret :
    (sv : Services) (document : Dict Json) (s : EventStore)
    → HasSecret (doc document)
    → (e : PoaError) × (command sv document s ≡ (err e, s))
unfolding command
command_secret sv document s secret = elim (Result-cases (check_command document)) [
  | inl (c, fine) ↦ absurd_bool (check_command-secret_free document c fine) (secret_found secret)
  | inr (e, bad) ↦ (e, rw bad refl)
]

-- What a query answers, and what a command that ran returns, has the name of a secret among the keys
-- of no object in it.
pub answers_secret_free :
    (a : Ambient) (views : Views) (sv : Services) (document : Dict Json) (c : Checked)
    (s t : EventStore) (j r : Json)
    → query a views s document ≡ ok j
    → execute sv c s ≡ (ok r, t)
    → ¬ HasSecret j × ¬ HasSecret r
unfolding query execute
answers_secret_free a views sv document c s t j r asked ran =
    let ((payload, uri), _, h1) = >>=-eq-ok (check_query document) _ asked in
    let (result, _, h2) = >>=-eq-ok (answer a views s uri payload) _ h1 in
    let (clean, same) = guarded (check_secrets result) _ h2 in
    let (found, u, _, rest) = bind-eq-ok (dispatch sv c) _ s ran in
    let (_, _, clean', last) = bind-eq-ok (lift (check_secrets found)) _ u rest in
    (
      λ h. absurd_bool (require-true _ _ clean) (secret_found (rw same h)),
      λ h.
          absurd_bool (require-true _ _ (ap (λ q. q.0) clean'))
            (secret_found (rw (ok-injective (ap (λ q. q.0) last)) h)),
    )
