-- ===== src/Poa/Invariant.antt =====
-- src/subllm/poa/bus.py: what the store's own operations keep, every command keeps.
use subllm.Prelude.{arith, length, ◌≤◌, String, ◌≡◌, ok, err, Result, Option, none, some, refl}
use subllm.Dict.{Dict}
use subllm.Json.{Json}
use subllm.Poa.Bus.{dispatch, execute, resume, command}
use subllm.Poa.Check.{Checked}
use subllm.Poa.Commands.{
  Services, appended, emit, conclude, create_plan, gateway_exchange, record_usage,
  import_credentials, edit_process,
}
use subllm.Poa.Journal.{IsJournal, append-IsJournal, gateway_append-IsJournal}
use subllm.Poa.Keeps.{Keeps, keeps_rules}
use subllm.Poa.Plan.{Plan, Ambient}
use subllm.Poa.Refs.{PoaError}
use subllm.Poa.Store.{
  Event, EventStore, remember_plan, remember_receipt, append, gateway_append, window,
}

-- A property of event stores that each of the store's operations keeps.
pub record IsStoreInvariant (a : Ambient) (P : EventStore → Type 0) : Type 0 where
  pub appends : (event e : Event) (s t : EventStore) → a.append event s ≡ ok (e, t) → P s → P t
  pub plans :
      (run_id key : String) (plan : Json) (s : EventStore)
      → P s
      → P (remember_plan run_id plan key s)
  pub receipts :
      (run_id : String) (receipt : Json) (s : EventStore)
      → P s
      → P (remember_receipt run_id receipt s)

module _ (sv : Services) (P : EventStore → Type 0) (inv : IsStoreInvariant sv.ambient P) where
  appended_keeps :
      (s : EventStore) (event : Event) (r : Result PoaError (Event × EventStore))
      → sv.ambient.append event s ≡ r
      → P s
      → P (appended r s).1
  appended_keeps s event (ok (e, t)) h p = inv.appends event e s t h p
  appended_keeps s event (err x) h p = p

  emit-Keeps :
      (run_id : String) (plan : Plan) (kind : String) → Keeps P (emit sv.ambient run_id plan kind)
  unfolding emit
  emit-Keeps run_id plan kind = record { at = λ s p. appended_keeps s _ _ refl p }

  conclude-Keeps :
      (plan : Plan) (key output : String) → Keeps P (conclude sv.ambient plan key output)
  unfolding conclude
  conclude-Keeps plan key output = record { at = λ s p. inv.receipts _ _ _ (inv.plans _ key _ s p) }

  create_plan-Keeps :
      (d : Dict Json) (subject key : String) → Keeps P (create_plan sv d subject key)
  unfolding create_plan
  create_plan-Keeps d subject key = search (keeps_rules, emit-Keeps, conclude-Keeps)

  gateway_exchange-Keeps :
      (d : Dict Json) (subject key : String) → Keeps P (gateway_exchange sv d subject key)
  unfolding gateway_exchange
  gateway_exchange-Keeps d subject key = search (keeps_rules, emit-Keeps)

  record_usage-Keeps :
      (d : Dict Json) (subject key : String) → Keeps P (record_usage sv d subject key)
  unfolding record_usage
  record_usage-Keeps d subject key = search (keeps_rules, emit-Keeps) depth 9

  import_credentials-Keeps :
      (d : Dict Json) (subject key : String) → Keeps P (import_credentials sv d subject key)
  unfolding import_credentials
  import_credentials-Keeps d subject key = search (keeps_rules, emit-Keeps, conclude-Keeps) depth 14

  edit_process-Keeps :
      (d : Dict Json) (subject key : String) → Keeps P (edit_process sv d subject key)
  unfolding edit_process
  edit_process-Keeps d subject key = search (keeps_rules, emit-Keeps, conclude-Keeps) depth 12

  dispatch-Keeps : (c : Checked) → Keeps P (dispatch sv c)
  unfolding dispatch
  dispatch-Keeps c =
      search
        (
          keeps_rules, create_plan-Keeps, gateway_exchange-Keeps, record_usage-Keeps,
          import_credentials-Keeps, edit_process-Keeps,
        )
        depth 9

  resume-Keeps : (c : Checked) (known : Option String) → Keeps P (resume sv c known)
  unfolding execute
  resume-Keeps c none = search (keeps_rules, dispatch-Keeps)
  resume-Keeps c (some run_id) = record { at = λ s p. p }

  -- Whatever document a command is given, and whether it returns or raises, it keeps each property
  -- of the event store that `append`, `remember_plan` and `remember_receipt` keep.
  pub command-Keeps : (document : Dict Json) → Keeps P (command sv document)
  unfolding command
  command-Keeps document = search (keeps_rules, resume-Keeps)

plans-IsJournal :
    (run_id key : String) (plan : Json) (s : EventStore)
    → IsJournal s
    → IsJournal (remember_plan run_id plan key s)
unfolding remember_plan
plans-IsJournal run_id key plan s v = record { fits = v.fits; numbered = v.numbered }

receipts-IsJournal :
    (run_id : String) (receipt : Json) (s : EventStore)
    → IsJournal s
    → IsJournal (remember_receipt run_id receipt s)
unfolding remember_receipt
receipts-IsJournal run_id receipt s v = record { fits = v.fits; numbered = v.numbered }

-- After any command over the plain store, whether it returned or raised, the journal still numbers
-- its events without a gap up to `sequence`.
pub command-IsJournal :
    (sv : Services) (document : Dict Json) (s : EventStore)
    → sv.ambient.append ≡ append
    → IsJournal s
    → IsJournal (command sv document s).1
command-IsJournal sv document s plain v =
    (command-Keeps sv IsJournal
        (record {
          appends = λ event e s t ran p. (append-IsJournal event e s t p (rw plain at ran)).0;
          plans = plans-IsJournal;
          receipts = receipts-IsJournal;
        })
        document).at
      s v

abbrev pub IsGatewayJournal : EventStore → Type 0
IsGatewayJournal s = IsJournal s × (length s.events ≤ window)

-- After any command over the gateway's store, whether it returned or raised, the journal numbers
-- the events that it keeps without a gap up to `sequence`, and keeps at most 1024.
pub gateway_command-IsJournal :
    (sv : Services) (document : Dict Json) (s : EventStore)
    → sv.ambient.append ≡ gateway_append
    → IsGatewayJournal s
    → IsGatewayJournal (command sv document s).1
gateway_command-IsJournal sv document s gateway v =
    (command-Keeps sv IsGatewayJournal
        (record {
          appends = λ event e s t ran p.
              let (journal, _, many) =
                gateway_append-IsJournal event e s t p.0 p.1 (rw gateway at ran) in
              (journal, omega (arith, many));
          plans = λ run_id key plan s p.
              (plans-IsJournal run_id key plan s p.0, unfold remember_plan in p.1);
          receipts = λ run_id receipt s p.
              (receipts-IsJournal run_id receipt s p.0, unfold remember_receipt in p.1);
        })
        document).at
      s v
