-- ===== src/Poa/Closed.antt =====
-- src/subllm/poa/registry.py: the tables fit together.
use subllm.Prelude.{
  ap, inl, inr, Option-cases, absurd_bool, eq_iff, String, ◌≡◌, refl, Bool, true, false, Option,
  none, some, List, [], ◌∷◌, ◌&&◌, not, ◌==◌, arith, any, contains, Result, ok, err,
}
use subllm.Dict.{lookup, all_entries, lookup-all_entries}
use subllm.Json.{text}
use subllm.Regex.{fullmatch}
use subllm.Poa.Refs.{PoaError, process_ref_pattern, require_pattern, adapter}
use subllm.Poa.Registry.{first_step, require_uri, uri_to_process}
use subllm.Poa.Tables.{Step, Process, Binding, processes, bindings, process_uris, uri_kind}
use subllm.Poa.Plan.{mutating_effects}

abbrev is_ok_uri : Result PoaError String → String → Bool
is_ok_uri (ok u) uri = u == uri
is_ok_uri (err e) uri = false

abbrev names : Option String → String → Bool
names none ref = false
names (some r) ref = r == ref

-- What the bus relies on for one process: its first step, the binding of the step's capability, and
-- the process's address.
abbrev fits : String → Step → Binding → String → Bool
fits ref step b uri =
    fullmatch process_ref_pattern ref
    && is_ok_uri (require_uri (text uri) step.kind) uri
    && names (lookup uri uri_to_process) ref
    && not (step.kind == "query" && any (contains mutating_effects) step.effects)
    && b.adapter_ref == adapter

fits_step : String → Step → Bool
fits_step ref step = elim (lookup step.capability_ref bindings) [
  | none ↦ false
  | some b ↦ elim (lookup ref process_uris) [ none ↦ false | some uri ↦ fits ref step b uri ]
]

fits_steps : String → List Step → Bool
fits_steps ref [] = false
fits_steps ref (step ∷ rest) = fits_step ref step

abbrev entry_fits : String → Process → Bool
entry_fits ref p = p.process_ref == ref && fits_steps ref p.steps

table_fits : all_entries entry_fits processes ≡ true
unfolding fits_steps fits_step processes bindings process_uris uri_kind uri_to_process lookup
    require_uri require_pattern fullmatch
table_fits = refl

abbrev pub Fits : String → Process → Step → Binding → String → Type 0
Fits ref p step b uri =
    (first_step p ≡ ok step)
    × (lookup step.capability_ref bindings ≡ some b)
    × (lookup ref process_uris ≡ some uri)
    × (fullmatch process_ref_pattern ref ≡ true)
    × (require_uri (text uri) step.kind ≡ ok uri)
    × (lookup uri uri_to_process ≡ some ref)
    × ((step.kind == "query" && any (contains mutating_effects) step.effects) ≡ false)
    × (b.adapter_ref ≡ adapter)

is_ok_uri→eq : (r : Result PoaError String) (uri : String) → is_ok_uri r uri ≡ true → r ≡ ok uri
is_ok_uri→eq (ok u) uri e = ap ok ((eq_iff u uri).0 e)
is_ok_uri→eq (err x) uri e = cc

names→eq : (o : Option String) (ref : String) → names o ref ≡ true → o ≡ some ref
names→eq none ref e = cc
names→eq (some r) ref e = ap some ((eq_iff r ref).0 e)

not-true : (a : Bool) → not a ≡ true → a ≡ false
not-true a e = ground arith

all_five :
    (a b c d e : Bool)
    → (a && b && c && d && e) ≡ true
    → (a ≡ true) × (b ≡ true) × (c ≡ true) × (d ≡ true) × (e ≡ true)
all_five a b c d e h = (ground arith, ground arith, ground arith, ground arith, ground arith)

&&-true : (a b : Bool) → (a && b) ≡ true → (a ≡ true) × (b ≡ true)
&&-true a b e = (ground arith, ground arith)

fits_step-Fits :
    (ref : String) (p : Process) (step : Step)
    → first_step p ≡ ok step
    → fits_step ref step ≡ true
    → (b : Binding) × (uri : String) × Fits ref p step b uri
unfolding fits_step
fits_step-Fits ref p step f e = elim (Option-cases (lookup step.capability_ref bindings)) [
  | inl n ↦ absurd_bool (rw (n, fits_step) at e) refl
  | inr (b, eb) ↦ elim (Option-cases (lookup ref process_uris)) [
    | inl n ↦ absurd_bool (rw (eb, n, fits_step) at e) refl
    | inr (uri, eu) ↦
        let h : fits ref step b uri ≡ true = rw (eb, eu, fits_step) at e in
        let (h1, h2, h3, h4, h5) =
          all_five (fullmatch process_ref_pattern ref)
            (is_ok_uri (require_uri (text uri) step.kind) uri)
            (names (lookup uri uri_to_process) ref)
            (not (step.kind == "query" && any (contains mutating_effects) step.effects))
            (b.adapter_ref == adapter) h in
        (
          b,
          uri,
          (
            f,
            eb,
            eu,
            h1,
            is_ok_uri→eq _ uri h2,
            names→eq _ ref h3,
            not-true _ h4,
            (eq_iff _ adapter).0 h5,
          ),
        )
  ]
]

fits_steps-Fits :
    (ref : String) (p : Process) (steps : List Step)
    → p.steps ≡ steps
    → fits_steps ref steps ≡ true
    → (step : Step) × (b : Binding) × (uri : String) × Fits ref p step b uri
unfolding fits_steps
fits_steps-Fits ref p [] e h = cc
fits_steps-Fits ref p (step ∷ rest) e h =
    let (b, uri, fit) = fits_step-Fits ref p step (rw e) h in (step, b, uri, fit)

-- Every registered process has a first step, a binding for its capability and an address of the
-- step's own kind, which leads back to it. A step that is a query declares no mutating effect, and
-- the binding names the one allowed adapter.
pub registered_closed :
    (ref : String) (p : Process)
    → lookup ref processes ≡ some p
    → (step : Step) × (b : Binding) × (uri : String) × Fits ref p step b uri
registered_closed ref p h =
    fits_steps-Fits ref p p.steps refl
      (&&-true (p.process_ref == ref) (fits_steps ref p.steps)
        (lookup-all_entries entry_fits ref processes table_fits h)).1
