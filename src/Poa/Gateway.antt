-- ===== src/Poa/Gateway.antt =====
-- src/subllm/gateway_bus.py: `record_gateway_exchange`, and the command that it sends.
use subllm.Prelude.{
  suc, String, ◌≡◌, refl, none, [], ◌∷◌, ◌⧺◌, Result, ok, err, length, arith, length-append, ap,
  sym, ◌∙◌, ◌++◌, absurd_err, subst,
}
use subllm.Dict.{Dict, lookup}
use subllm.Json.{Json, text}
use subllm.Poa.Bus.{command, execute, dispatch}
use subllm.Poa.Check.{Checked, check_command, check_secrets}
use subllm.Poa.Commands.{Services, gateway_exchange, emit, event_of, appended}
use subllm.Poa.Exec.{Exec, lift, give, proceed, ◌>>=◌}
use subllm.Poa.Journal.{append-eq-ok}
use subllm.Poa.Keeps.{bind-eq-ok}
use subllm.Poa.Plan.{Plan}
use subllm.Poa.Refs.{PoaError}
use subllm.Poa.Store.{Event, EventStore, append, stored, admissible}
use subllm.Poa.Tables.{gateway_exchange_uri}

unfoldable pub record_gateway_exchange : Services → String → String → Exec Json
record_gateway_exchange sv day id = command sv (
    ("schema", text "subllm.command/v1")
    ∷ ("process_uri", text gateway_exchange_uri)
    ∷ ("subject", text "service:subllm-gateway")
    ∷ ("idempotency_key", text ("gateway." ⧺ id))
    ∷ ("interaction_ref", text (day ⧺ "/" ⧺ id))
    ∷ [])

-- One event more, and no key remembered.
abbrev HasOneMore : EventStore → EventStore → Type 0
HasOneMore s t = (length t.events ≡ suc (length s.events)) × (t.idempotency ≡ s.idempotency)

-- What a method that returned did to the store, and that it returns the same from every other.
record Moves {ℓ} {A : Type ℓ} (R : EventStore → EventStore → Type 0) (m : Exec A) : Type ℓ where
  at : (s : EventStore) (a : A) (t : EventStore) → m s ≡ (ok a, t) → R s t
  returns :
      (s : EventStore) (a : A) (t : EventStore) (other : EventStore)
      → m s ≡ (ok a, t)
      → (u : EventStore) × (m other ≡ (ok a, u))

Moves-lift-bind {ℓ} :
    {A B : Type ℓ} {R : EventStore → EventStore → Type 0} (r : Result PoaError A) (f : A → Exec B)
    → ((a : A) → Moves R (f a))
    → Moves R (lift r >>= f)
Moves-lift-bind (ok x) f k = record {
  at = λ s a t h. (k x).at s a t h;
  returns = λ s a t other h. (k x).returns s a t other h;
}
Moves-lift-bind (err e) f k = record {
  at = λ s a t h. absurd_err (ap (λ q. q.0) h);
  returns = λ s a t other h. absurd_err (ap (λ q. q.0) h);
}

appended-eq-ok :
    (r : Result PoaError (Event × EventStore)) (s t : EventStore) (u : Unit {0})
    → appended r s ≡ (ok u, t)
    → (e : Event) × (r ≡ ok (e, t))
appended-eq-ok (ok (e, t')) s t u h = (e, ap (λ q. ok (e, q)) (ap (λ q. q.1) h))
appended-eq-ok (err x) s t u h = absurd_err (ap (λ q. q.0) h)

append-returns :
    (event : Event) (s : EventStore)
    → admissible event ≡ ok tt
    → append event s
      ≡ ok (
        stored (suc s.sequence) event,
        record s {
          events = s.events ++ stored (suc s.sequence) event ∷ [];
          sequence = suc s.sequence;
        },
      )
unfolding append
append-returns event s fine = rw fine refl

emit-HasOneMore :
    (sv : Services) (run_id : String) (plan : Plan) (kind : String) (s t : EventStore)
    (u : Unit {0})
    → sv.ambient.append ≡ append
    → emit sv.ambient run_id plan kind s ≡ (ok u, t)
    → HasOneMore s t
unfolding emit
emit-HasOneMore sv run_id plan kind s t u plain ran =
    let event : Event = event_of sv.ambient run_id plan kind in
    let (e, done) = appended-eq-ok (sv.ambient.append event s) s t u ran in
    let (_, _, now) = append-eq-ok event e s t (ap (λ f. f event s) (sym plain) ∙ done) in
    rw now (omega (arith, length-append s.events (stored (suc s.sequence) event ∷ [])), refl)

emit-returns :
    (sv : Services) (run_id : String) (plan : Plan) (kind : String) (s t other : EventStore)
    (u : Unit {0})
    → sv.ambient.append ≡ append
    → emit sv.ambient run_id plan kind s ≡ (ok u, t)
    → (v : EventStore) × (emit sv.ambient run_id plan kind other ≡ (ok tt, v))
unfolding emit
emit-returns sv run_id plan kind s t other u plain ran =
    let event : Event = event_of sv.ambient run_id plan kind in
    let (e, done) = appended-eq-ok (sv.ambient.append event s) s t u ran in
    let (fine, _, _) = append-eq-ok event e s t (ap (λ f. f event s) (sym plain) ∙ done) in
    (
      _,
      ap (λ f. appended (f event other) other) plain
          ∙ ap (λ r. appended r other) (append-returns event other fine),
    )

emit-give-Moves :
    (sv : Services) (run_id : String) (plan : Plan) (kind : String) (j : Json)
    → sv.ambient.append ≡ append
    → Moves HasOneMore (emit sv.ambient run_id plan kind >>= λ u. give j)
emit-give-Moves sv run_id plan kind j plain = record {
  at = λ s a t ran.
      let (u, v, first, last) = bind-eq-ok (emit sv.ambient run_id plan kind) _ s ran in
      subst (HasOneMore s) (ap (λ q. q.1) last)
        (emit-HasOneMore sv run_id plan kind s v u plain first);
  returns = λ s a t other ran.
      let (u, v, first, last) = bind-eq-ok (emit sv.ambient run_id plan kind) _ s ran in
      let (w, again) = emit-returns sv run_id plan kind s v other u plain first in
      (w, ap (λ q. proceed q (λ x. give j)) again ∙ ap (λ q. (q, w)) (ap (λ q. q.0) last));
}

gateway_exchange-Moves :
    (sv : Services) (d : Dict Json) (subject key : String)
    → sv.ambient.append ≡ append
    → Moves HasOneMore (gateway_exchange sv d subject key)
unfolding gateway_exchange
gateway_exchange-Moves sv d subject key plain =
    search (Moves-lift-bind, emit-give-Moves, plain) depth 8

dispatch-Moves :
    (sv : Services) (c : Checked)
    → sv.ambient.append ≡ append
    → c.process_uri ≡ gateway_exchange_uri
    → Moves HasOneMore (dispatch sv c)
unfolding dispatch
dispatch-Moves sv c plain uri =
    rw uri (gateway_exchange-Moves sv c.payload c.subject c.idempotency_key plain)

check_secrets-give-Moves :
    (j : Json) → Moves (λ s t. s ≡ t) (lift (check_secrets j) >>= λ u. give j)
check_secrets-give-Moves j =
    Moves-lift-bind (check_secrets j) (λ u. give j)
      (λ u. record {
        at = λ s a t h. ap (λ q. q.1) h;
        returns = λ s a t other h. (other, ap (λ q. (q, other)) (ap (λ q. q.0) h));
      })

execute-Moves :
    (sv : Services) (c : Checked)
    → sv.ambient.append ≡ append
    → c.process_uri ≡ gateway_exchange_uri
    → Moves HasOneMore (execute sv c)
unfolding execute
execute-Moves sv c plain uri = record {
  at = λ s a t ran.
      let (x, v, first, rest) = bind-eq-ok (dispatch sv c) _ s ran in
      subst (HasOneMore s) ((check_secrets-give-Moves x).at v a t rest)
        ((dispatch-Moves sv c plain uri).at s x v first);
  returns = λ s a t other ran.
      let (x, v, first, rest) = bind-eq-ok (dispatch sv c) _ s ran in
      let (w, again) = (dispatch-Moves sv c plain uri).returns s x v other first in
      let (u, done) = (check_secrets-give-Moves x).returns v a t w rest in
      (u, ap (λ q. proceed q (λ y. lift (check_secrets y) >>= λ z. give y)) again ∙ done);
}

-- A record-gateway-exchange command over the plain store, under a key that the store does not know,
-- has returned. Then the same command, sent again under the same key, returns the same reply, and
-- appends a second event: the handler keeps nothing under the key.
pub exchange_repeats :
    (sv : Services) (document : Dict Json) (c : Checked) (s t : EventStore) (r : Json)
    → sv.ambient.append ≡ append
    → check_command document ≡ ok c
    → c.process_uri ≡ gateway_exchange_uri
    → lookup c.idempotency_key s.idempotency ≡ none
    → command sv document s ≡ (ok r, t)
    → (u : EventStore) × (command sv document t ≡ (ok r, u))
      × (length t.events ≡ suc (length s.events))
      × (length u.events ≡ suc (length t.events))
unfolding command
exchange_repeats sv document c s t r plain fine uri new ran =
    let moves : _ = execute-Moves sv c plain uri in
    let first : execute sv c s ≡ (ok r, t) = rw (fine, new) at ran in
    let (more, same) = moves.at s r t first in
    let (u, again) = moves.returns s r t t first in
    let unknown : lookup c.idempotency_key t.idempotency ≡ none =
      ap (λ d. lookup c.idempotency_key d) same ∙ new in
    let (more', _) = moves.at t r u again in (u, rw (fine, unknown) again, more, more')
