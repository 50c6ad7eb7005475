-- ===== src/Poa/Repeat.antt =====
-- src/subllm/poa/bus.py: a command that is sent again under the same idempotency key.
use subllm.Prelude.{
  inl, inr, sym, subst, ok-injective, String, ◌≡◌, refl, true, false, none, some, [], ◌++◌, ok,
  eq_refl, ◌∙◌, ap, ◌⊎◌,
}
use subllm.Dict.{Dict, lookup, lookup-insert}
use subllm.Json.{Json}
use subllm.Poa.Tables.{create_plan_uri, import_credentials_uri, edit_process_uri}
use subllm.Poa.Bus.{execute, dispatch, command}
use subllm.Poa.Check.{Checked, check_secrets, check_command}
use subllm.Poa.Commands.{Services, create_plan, import_credentials, edit_process, conclude, reply}
use subllm.Poa.Exec.{give, lift, ◌>>=◌}
use subllm.Poa.Keeps.{Ensures, Ensures-bind, bind-eq-ok}
use subllm.Poa.Plan.{Ambient, Plan, plan_json, doc}
use subllm.Poa.Store.{EventStore, remember_plan, remember_receipt}

-- The store knows the key, and the plan and the receipt of its run.
abbrev pub Remembers : String → String → Json → Json → EventStore → Type 0
Remembers key run_id plan receipt s =
    (lookup key s.idempotency ≡ some run_id)
    × (lookup run_id s.plans ≡ some plan)
    × (lookup run_id s.receipts ≡ some receipt)

conclude-Remembers :
    (a : Ambient) (plan : Plan) (key output : String) (s : EventStore)
    → (receipt : Json) × (t : EventStore) × (conclude a plan key output s ≡ (ok receipt, t))
      × Remembers key a.run_id (plan_json plan) receipt t
unfolding conclude remember_plan remember_receipt
conclude-Remembers a plan key output s = (
  _,
  _,
  refl,
  (
    lookup-insert key key a.run_id s.idempotency ∙ rw eq_refl,
    lookup-insert a.run_id a.run_id (plan_json plan) s.plans ∙ rw eq_refl,
    lookup-insert a.run_id a.run_id _ s.receipts ∙ rw eq_refl,
  ),
)

-- A first reply, to a command whose key was new, and what the store remembers of it.
abbrev pub IsFirst : Ambient → String → Json → EventStore → Type 0
IsFirst a key r t =
    (plan : Json) × (receipt : Json) × (result : Dict Json) × (r
      ≡ doc (reply a.run_id false plan receipt ++ result))
    × Remembers key a.run_id plan receipt t

pair-injective :
    {A B : Type 0} {a c : A} {b d : B} → ◌≡◌ {A = A × B} (a, b) (c, d) → (a ≡ c) × (b ≡ d)
pair-injective e = (ap (λ p. p.0) e, ap (λ p. p.1) e)

module _ (a : Ambient) (plan : Plan) (key output : String) (result : Dict Json) where
  conclude-IsFirst : Ensures (IsFirst a key) (
      conclude a plan key output >>= λ receipt.
      give (doc (reply a.run_id false (plan_json plan) receipt ++ result)))
  conclude-IsFirst = record {
    at = λ s r t ran.
        let (receipt, u, first, last) = bind-eq-ok (conclude a plan key output) _ s ran in
        let (receipt', u', first', kept) = conclude-Remembers a plan key output s in
        let (same, store) = pair-injective last in
        let (got, state) = pair-injective (sym first' ∙ first) in
        (
          plan_json plan,
          receipt,
          result,
          sym (ok-injective same),
          subst (Remembers key a.run_id (plan_json plan) receipt) (state ∙ store)
              (subst (λ j. Remembers key a.run_id (plan_json plan) j u') (ok-injective got) kept),
        );
  }

planned-IsFirst :
    (a : Ambient) (plan : Plan) (key output : String)
    → Ensures (IsFirst a key) (
        conclude a plan key output >>= λ receipt.
        give (doc (reply a.run_id false (plan_json plan) receipt)))
planned-IsFirst a plan key output = conclude-IsFirst a plan key output []

create_plan-IsFirst :
    (sv : Services) (d : Dict Json) (subject key : String)
    → Ensures (IsFirst sv.ambient key) (create_plan sv d subject key)
unfolding create_plan
create_plan-IsFirst sv d subject key = search (Ensures-bind, planned-IsFirst) depth 6

import_credentials-IsFirst :
    (sv : Services) (d : Dict Json) (subject key : String)
    → Ensures (IsFirst sv.ambient key) (import_credentials sv d subject key)
unfolding import_credentials
import_credentials-IsFirst sv d subject key = search (Ensures-bind, conclude-IsFirst) depth 12

edit_process-IsFirst :
    (sv : Services) (d : Dict Json) (subject key : String)
    → Ensures (IsFirst sv.ambient key) (edit_process sv d subject key)
unfolding edit_process
edit_process-IsFirst sv d subject key = search (Ensures-bind, conclude-IsFirst) depth 12

-- The commands whose handlers remember a plan.
abbrev pub IsPlanKeeping : String → Type 0
IsPlanKeeping uri =
    (uri ≡ create_plan_uri) ⊎ ((uri ≡ import_credentials_uri) ⊎ (uri ≡ edit_process_uri))

dispatch-IsFirst :
    (sv : Services) (c : Checked)
    → IsPlanKeeping c.process_uri
    → Ensures (IsFirst sv.ambient c.idempotency_key) (dispatch sv c)
unfolding dispatch
dispatch-IsFirst sv c h = elim h [
  | inl e ↦ rw e (create_plan-IsFirst sv c.payload c.subject c.idempotency_key)
  | inr (inl e) ↦ rw e (import_credentials-IsFirst sv c.payload c.subject c.idempotency_key)
  | inr (inr e) ↦ rw e (edit_process-IsFirst sv c.payload c.subject c.idempotency_key)
]

execute-IsFirst :
    (sv : Services) (c : Checked)
    → IsPlanKeeping c.process_uri
    → Ensures (IsFirst sv.ambient c.idempotency_key) (execute sv c)
unfolding execute
execute-IsFirst sv c h = record {
  at = λ s r t ran.
      let (result, u, first, rest) = bind-eq-ok (dispatch sv c) _ s ran in
      let (_, v, clean, last) = bind-eq-ok (lift (check_secrets result)) _ u rest in
      let (same, store) = pair-injective last in
      let (_, unchanged) = pair-injective clean in
      subst (λ j. IsFirst sv.ambient c.idempotency_key j t) (ok-injective same)
        (subst (IsFirst sv.ambient c.idempotency_key result) (unchanged ∙ store)
          ((dispatch-IsFirst sv c h).at s result u first));
}

-- A command of those that keep a plan, under a key that the store does not know, has returned.
-- Then each command that is accepted later under the same key, whatever it asks for, returns the
-- same run, plan and receipt, marked as idempotent, and changes nothing in the store.
pub command_repeat :
    (sv again : Services) (document later : Dict Json) (c d : Checked) (s t : EventStore) (r : Json)
    → check_command document ≡ ok c
    → IsPlanKeeping c.process_uri
    → lookup c.idempotency_key s.idempotency ≡ none
    → command sv document s ≡ (ok r, t)
    → check_command later ≡ ok d
    → d.idempotency_key ≡ c.idempotency_key
    → (plan : Json) × (receipt : Json) × (result : Dict Json) × (r
        ≡ doc (reply sv.ambient.run_id false plan receipt ++ result))
      × (command again later t ≡ (ok (doc (reply sv.ambient.run_id true plan receipt)), t))
unfolding command
command_repeat sv again document later c d s t r fine keeps new ran fine' same =
    let (plan, receipt, result, first, (key, kept, got)) =
      (execute-IsFirst sv c keeps).at s r t (rw (fine, new) at ran) in
    (plan, receipt, result, first, rw (fine', same, key, kept, got) refl)
