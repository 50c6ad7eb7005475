-- ===== src/Health/Hosts.antt =====
-- src/subllm/health.py: what holds of a host after any calls, for any paths and failures of the
-- operating system. A call that raises leaves the host as it was.
use subllm.Prelude.{
  All, ℕ, suc, ◌≤◌, String, ◌≡◌, refl, Bool, true, false, Option, List, [], ◌∷◌, arith, ◌==◌, ltb,
  if◌then◌else◌, Bool-cases, inl, inr, Result, ok, err, ◌>>=◌, is_empty, length, ◌∙◌,
}
use subllm.Dict.{Dict, lookup, insert, remove, lookup-remove, length-insert, length-remove}
use subllm.Json.{Json}
use subllm.PolicyConfig.{ExecutionPolicyConfig}
use subllm.Health.File.{State, OverflowError}
use subllm.Health.RoundTrip.{lookup-write_state}
use subllm.Health.Store.{
  Host, Io, works, no_store, no_write, no_mode, fallback_limit, remember_fallback, drop_oldest,
  read_state, write_state, forget_fallback, without_store, with_persisted_state, persisted_state,
  replace_memory, record_failure, record_success, reset_provider_health,
}

pub data Op : Type 0 where
  failure : Io → String → String → String → ℕ → ExecutionPolicyConfig → ℕ → Op
  success : Io → String → String → ℕ → ExecutionPolicyConfig → ℕ → Op
  observe : Io → String → Op
  reset : Bool → String → Op

abbrev pub path_of : Op → String
path_of (failure io path provider reason latency policy now) = path
path_of (success io path provider latency policy now) = path
path_of (observe io path) = path
path_of (reset unlinks path) = path

abbrev after : Host → Result OverflowError Host → Host
after h (ok h') = h'
after h (err e) = h

pub step : Op → Host → Host
step (failure io path provider reason latency policy now) h =
    after h (record_failure io path provider reason latency policy now h)
step (success io path provider latency policy now) h =
    after h (record_success io path provider latency policy now h)
step (observe io path) h = after h (persisted_state io path h >>= λ r. ok (replace_memory r).1)
step (reset unlinks path) h = reset_provider_health unlinks path h

pub run : List Op → Host → Host
run [] h = h
run (op ∷ ops) h = run ops (step op h)

-- A property of hosts that each way to leave a call keeps.
record Keeps (P : Host → Type 0) (path : String) : Type 0 where
  write : (state : State) (h : Host) → P h → P (write_state path state h)
  forget : (h : Host) → P h → P (forget_fallback path h)
  fall : (mutator : State → State) (h : Host) → P h → P (without_store path mutator h).1
  memory : (state : State) (h : Host) → P h → P (record h { memory = state })

module _ (P : Host → Type 0) (path : String) (k : Keeps P path) where
  keeps_read :
      (r : Result OverflowError State) (f : State → State × Host) (h : Host)
      → P h
      → ((state : State) → P (f state).1)
      → P (after h (r >>= (λ state. ok (f state)) >>= λ q. ok (replace_memory q).1))
  keeps_read (ok state) f h p g = k.memory _ _ (g state)
  keeps_read (err e) f h p g = p

  keeps_update :
      (io : Io) (mutator : State → State) (h : Host)
      → P h
      → P (after h (with_persisted_state io path mutator h >>= λ r. ok (replace_memory r).1))
  unfolding with_persisted_state
  keeps_update works mutator h p =
      keeps_read (read_state path h) _ h p (λ state. k.forget _ (k.write (mutator state) h p))
  keeps_update no_store mutator h p = k.memory _ _ (k.fall mutator h p)
  keeps_update no_write mutator h p =
      keeps_read (read_state path h) _ h p (λ state. k.fall mutator h p)
  keeps_update no_mode mutator h p =
      keeps_read (read_state path h) _ h p (λ state. k.fall mutator _ (k.write (mutator state) h p))

  keeps_observe :
      (io : Io) (h : Host)
      → P h
      → P (after h (persisted_state io path h >>= λ r. ok (replace_memory r).1))
  unfolding persisted_state
  keeps_observe no_store h p = k.memory _ _ (k.fall _ h p)
  keeps_observe _ h p = keeps_read (read_state path h) _ h p (λ state. k.forget h p)

  keeps_step :
      (op : Op)
      → path_of op ≡ path
      → ((unlinks : Bool) (h : Host) → P h → P (reset_provider_health unlinks path h))
      → (h : Host) → P h
      → P (step op h)
  unfolding step record_failure record_success
  keeps_step (failure io path' provider reason latency policy now) e r h p =
      rw e (keeps_update io _ h p)
  keeps_step (success io path' provider latency policy now) e r h p = rw e (keeps_update io _ h p)
  keeps_step (observe io path') e r h p = rw e (keeps_observe io h p)
  keeps_step (reset unlinks path') e r h p = rw e (r unlinks h p)

abbrev IsWithinLimit : Host → Type 0
IsWithinLimit h = length h.fallback ≤ fallback_limit

capped : (d : Dict State) → Dict State
capped d = if ltb fallback_limit (length d) then drop_oldest d else d

length-capped :
    (d : Dict State) → length d ≤ suc fallback_limit → length (capped d) ≤ fallback_limit
unfolding capped
length-capped [] h = omega arith
length-capped (x ∷ d) h = ground arith

remember_fallback-length :
    (path : String) (state : State) (d : Dict State)
    → length d ≤ fallback_limit
    → length (remember_fallback path state d) ≤ fallback_limit
unfolding remember_fallback capped
remember_fallback-length path state d h = elim (Bool-cases (is_empty state)) [
  | inl nothing ↦ rw nothing (length-capped (remove path d) (omega (arith, length-remove path d)))
  | inr something ↦ rw something (
      length-capped (insert path state (remove path d))
        (omega (arith, length-remove path d, length-insert path state (remove path d))))
]

within-Keeps : (path : String) → Keeps IsWithinLimit path
unfolding without_store write_state
within-Keeps path = record {
  write = λ state h p. p;
  forget = λ h p. omega (arith, length-remove path h.fallback);
  fall = λ mutator h p. remember_fallback-length path _ h.fallback p;
  memory = λ state h p. p;
}

-- Whatever calls are made, for whatever paths and with whatever failures of the operating system, if
-- the in-memory fallback holds at most 64 stores before them, it holds at most 64 after them.
pub run-IsWithinLimit : (ops : List Op) (h : Host) → IsWithinLimit h → IsWithinLimit (run ops h)
unfolding run
run-IsWithinLimit [] h p = p
run-IsWithinLimit (op ∷ ops) h p = run-IsWithinLimit ops (step op h) (
    keeps_step IsWithinLimit (path_of op) (within-Keeps (path_of op)) op refl
      (λ unlinks h' q.
        unfold reset_provider_health in omega (arith, length-remove (path_of op) h'.fallback))
      h p)

-- The calls for one path leave the health file of every other path as it was.
same-Keeps :
    (path other : String) (found : Option Json)
    → (path == other) ≡ false
    → Keeps (λ h. lookup other h.files ≡ found) path
unfolding without_store
same-Keeps path other found e = record {
  write = λ state h p. lookup-write_state path other state h ∙ rw e p;
  forget = λ h p. p;
  fall = λ mutator h p. p;
  memory = λ state h p. p;
}

reset-other_path :
    (unlinks : Bool) (path other : String) (h : Host)
    → (path == other) ≡ false
    → lookup other (reset_provider_health unlinks path h).files ≡ lookup other h.files
unfolding reset_provider_health
reset-other_path true path other h e = lookup-remove path other h.files ∙ rw e
reset-other_path false path other h e = refl

pub step-other_path :
    (op : Op) (other : String) (h : Host)
    → (path_of op == other) ≡ false
    → lookup other (step op h).files ≡ lookup other h.files
step-other_path op other h e =
    keeps_step (λ g. lookup other g.files ≡ lookup other h.files) (path_of op)
      (same-Keeps (path_of op) other (lookup other h.files) e) op refl
      (λ unlinks h' q. reset-other_path unlinks (path_of op) other h' e ∙ q) h refl

same_read :
    (other : String) (g h : Host)
    → lookup other g.files ≡ lookup other h.files
    → read_state other g ≡ read_state other h
unfolding read_state
same_read other g h e = rw (e, read_state)

-- Whatever is recorded, observed or reset for other paths, and however the system fails, a path's
-- health file reads as before.
pub run-other_paths :
    (ops : List Op) (other : String) (h : Host)
    → All (λ op. (path_of op == other) ≡ false) ops
    → read_state other (run ops h) ≡ read_state other h
unfolding run
run-other_paths [] other h a = refl
run-other_paths (op ∷ ops) other h a =
    run-other_paths ops other (step op h) a.1
    ∙ same_read other (step op h) h (step-other_path op other h a.0)
