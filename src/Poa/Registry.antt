-- ===== src/Poa/Registry.antt =====
-- src/subllm/poa/registry.py: the lookups in the closed tables.
use subllm.Prelude.{
  ℕ, String, Bool, true, false, List, [], ◌∷◌, ◌++◌, ◌&&◌, ◌||◌, ◌==◌, Result, ok, err, or_raise,
  require, ◌>>=◌, ◌>>◌, codes, eqb,
}
use subllm.Dict.{Dict, lookup}
use subllm.Json.{Json}
use subllm.Poa.Refs.{
  PoaError, contract, raised, process_ref_pattern, process_uri_pattern, require_pattern,
}
use subllm.Poa.Tables.{Step, Process, Binding, processes, bindings, process_uris, uri_kind}

abbrev swap : Dict String → Dict String
swap [] = []
swap ((a, b) ∷ d) = (b, a) ∷ swap d

-- `URI_TO_PROCESS`; its addresses are distinct.
unfoldable pub uri_to_process : Dict String
unfolding process_uris
uri_to_process = swap process_uris

-- `part in whole`
abbrev starts : List ℕ → List ℕ → Bool
starts [] ys = true
starts (x ∷ xs) [] = false
starts (x ∷ xs) (y ∷ ys) = eqb x y && starts xs ys

abbrev contains_text : List ℕ → List ℕ → Bool
contains_text part [] = starts part []
contains_text part (y ∷ ys) = starts part (y ∷ ys) || contains_text part ys

-- `PROCESSES[ref]`
unfoldable pub registered : String → Result PoaError Process
registered ref =
    or_raise (lookup ref processes) (contract "POA-REGISTRY-001" "process is not registered")

unfoldable pub get_process : Json → Result PoaError Process
get_process process_ref = do
  ref ← require_pattern process_ref "process_ref" process_ref_pattern
  registered ref

unfoldable pub get_process_uri : Json → Result PoaError String
get_process_uri process_ref = do
  ref ← require_pattern process_ref "process_ref" process_ref_pattern
  process ← registered ref
  or_raise (lookup ref process_uris) (raised "KeyError")

unfoldable pub require_uri : Json → String → Result PoaError String
require_uri process_uri kind = do
  uri ← require_pattern process_uri "process_uri" process_uri_pattern
  expected ←
      or_raise (lookup uri uri_kind) (contract "POA-REGISTRY-001" "process URI is not registered")
  require (expected == kind && contains_text (b'/' ∷ codes kind ++ b'/' ∷ []) (codes uri))
      (contract "POA-REGISTRY-001" "process URI kind does not match the request")
  ok uri

-- A binding with the process's own address, bound to one observation.
pub record Bound : Type 0 where
  pub binding : Binding
  pub process_uri : String
  pub observation_ref : String
  pub observation_sha256 : String

-- `process["steps"][0]`
abbrev pub first_step : Process → Result PoaError Step
first_step p = elim p.steps [ [] ↦ err (raised "IndexError") | s ∷ rest ↦ ok s ]

unfoldable pub binding_for_process : Json → String → Result PoaError Bound
binding_for_process process_ref sha256 = do
  ref ← require_pattern process_ref "process_ref" process_ref_pattern
  process ← registered ref
  step ← first_step process
  binding ← or_raise (lookup step.capability_ref bindings) (raised "KeyError")
  uri ← or_raise (lookup ref process_uris) (raised "KeyError")
  ok (record {
    binding = binding;
    process_uri = uri;
    observation_ref = "artifact://subactor.subllm/observations/policy-facts/r1";
    observation_sha256 = sha256;
  })
