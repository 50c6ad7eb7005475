-- ===== src/Poa/Editor/Propose.antt =====
-- src/subllm/poa/process_editor.py: `propose_process_edit` and `_preserve_controls`.
use subllm.Prelude.{
  String, Bool, true, false, List, [], ◌∷◌, ◌&&◌, not, ◌==◌, Option, none, some, Result, ok, err,
  require, or_raise, contains, all, length, leb, ◌>>=◌, ◌>>◌,
}
use subllm.Dict.{Dict, lookup}
use subllm.Json.{
  Json, null, boolean, int, float, nonfinite, text, array, object, Items, nil, cons, members,
}
use subllm.Poa.Commands.{texts_of}
use subllm.Poa.Editor.Document.{item, editor_policy, replace}
use subllm.Poa.Inputs.{at}
use subllm.Poa.Refs.{PoaError, contract, raised, exact, require_pattern, sha256_pattern}

abbrev pub protected_paths : List String
protected_paths =
    "/schema_version" ∷ "/process_id" ∷ "/process_ref" ∷ "/entrypoint" ∷ "/owner"
    ∷ "/required_inputs" ∷ "/allowed_actions" ∷ "/required_artifacts"
    ∷ "/decision_policy/deterministic_controls" ∷ "/decision_policy/heuristic/authority"
    ∷ "/decision_policy/llm_editor/authority" ∷ "/decision_policy/llm_editor/editable_paths"
    ∷ "/decision_policy/publication" ∷ []

-- `type(a) is type(b)`
abbrev pub same_type : Json → Json → Bool
same_type null null = true
same_type (boolean a) (boolean b) = true
same_type (int a) (int b) = true
same_type (float a) (float b) = true
same_type (float a) nonfinite = true
same_type nonfinite (float b) = true
same_type nonfinite nonfinite = true
same_type (text a) (text b) = true
same_type (array a) (array b) = true
same_type (object a) (object b) = true
same_type a b = false

-- `editor["editable_paths"]`, if it is a closed list
unfoldable pub editable_paths : Dict Json → Result PoaError (List String)
editable_paths editor = do
  found ← or_raise (lookup "editable_paths" editor) (raised "KeyError")
  or_raise (elim found [ array (cons x xs) ↦ texts_of (cons x xs) | _ ↦ none ])
      (contract "POA-EDIT-001" "editable_paths is not a closed list")

abbrev pub list_of : Items → List Json
list_of nil = []
list_of (cons x xs) = x ∷ list_of xs

-- `edits`, if it is a list of 1 to 16
unfoldable pub edit_list : Json → Result PoaError (List Json)
edit_list (array xs) = do
  require (leb 1 (length (list_of xs)) && leb (length (list_of xs)) 16)
      (contract "POA-EDIT-001" "edits must contain between 1 and 16 operations")
  ok (list_of xs)
edit_list _ = err (contract "POA-EDIT-001" "edits must contain between 1 and 16 operations")

-- An entry of `normalized`
pub record Edit : Type 0 where
  pub path : String
  pub value : Json

-- The path and the value of one raw edit.
unfoldable pub read_edit : Json → Result PoaError Edit
read_edit raw = do
  edit ← exact raw ("op" ∷ "path" ∷ "value" ∷ []) []
  elim (at edit "op") [
    | text op ↦ elim (at edit "path") [
      | text path ↦ do
        require (op == "replace")
            (contract "POA-EDIT-001" "only closed replace operations are supported")
        ok (record { path = path; value = at edit "value" })
      | _ ↦ err (contract "POA-EDIT-001" "only closed replace operations are supported")
    ]
    | _ ↦ err (contract "POA-EDIT-001" "only closed replace operations are supported")
  ]

abbrev pub is_authorized : List String → String → Bool
is_authorized editable path = contains editable path && not (contains protected_paths path)

-- The guards on one edit, and the candidate that it leaves.
unfoldable pub apply_edit : List String → List String → Json → Edit → Result PoaError Json
apply_edit editable seen candidate edit = do
  require (not (contains seen edit.path))
      (contract "POA-EDIT-001" "an editable path may occur only once")
  require (is_authorized editable edit.path)
      (contract "POA-EDIT-003" "edit path is not authorized by the process DSL")
  (changed, previous) ← replace candidate edit.path edit.value
  require (same_type previous edit.value)
      (contract "POA-EDIT-004" "edit must preserve the field value type")
  ok changed

-- The loop over the edits.
unfoldable pub apply_edits :
    List String → List String → Json → List Json → Result PoaError (Json × List Edit)
apply_edits editable seen candidate [] = ok (candidate, [])
apply_edits editable seen candidate (raw ∷ rest) = do
  edit ← read_edit raw
  changed ← apply_edit editable seen candidate edit
  (last, edits) ← apply_edits editable (edit.path ∷ seen) changed rest
  ok (last, edit ∷ edits)

abbrev pub identity_keys : List String
identity_keys = "schema_version" ∷ "process_id" ∷ "process_ref" ∷ "entrypoint" ∷ "owner" ∷ []

abbrev pub authority_keys : List String
authority_keys = "required_inputs" ∷ "allowed_actions" ∷ "required_artifacts" ∷ []

abbrev pub boundary_keys : List String
boundary_keys = "deterministic_controls" ∷ "heuristic" ∷ "publication" ∷ []

-- The candidate is an object, as the source is.
abbrev pub as_members : Json → Result PoaError (Dict Json)
as_members (object fs) = ok (members fs)
as_members _ = err (raised "AttributeError")

-- Python's `==` on two documents
module _ (equal : Json → Json → Bool) where
  abbrev pub equal_values : Option Json → Option Json → Bool
  equal_values none none = true
  equal_values (some a) (some b) = equal a b
  -- `get` gives `None` for a missing key
  equal_values none (some b) = equal null b
  equal_values (some a) none = equal a null

  -- `source.get(key) == candidate.get(key)`
  abbrev pub equal_at : Dict Json → Dict Json → String → Bool
  equal_at source candidate key = equal_values (lookup key source) (lookup key candidate)

  abbrev changed : String → PoaError
  changed = contract "POA-EDIT-006"

  unfoldable pub preserve_controls : Dict Json → Dict Json → Result PoaError (Unit {0})
  preserve_controls source candidate = do
    require (all (equal_at source candidate) identity_keys) (changed "process identity changed")
    require (all (equal_at source candidate) authority_keys)
        (changed "process authority surface changed")
    source_policy ← item "decision_policy" source
    candidate_policy ← item "decision_policy" candidate
    require (all (equal_at source_policy candidate_policy) boundary_keys)
        (changed "process control boundary changed")
    source_editor ← item "llm_editor" source_policy
    candidate_editor ← item "llm_editor" candidate_policy
    require (equal_at source_editor candidate_editor "editable_paths")
        (changed "process editor authority changed")

  pub record Proposal : Type 0 where
    pub base_sha256 : String
    pub candidate_sha256 : String
    pub edits : List Edit
    pub candidate : Dict Json

  -- `digest_document` raises on a document with a float: it may fail.
  unfoldable pub propose_process_edit :
      (Json → Result PoaError String) → Json → Json → Json → Result PoaError Proposal
  propose_process_edit digest (object fs) base edits = do
    let source : Dict Json = members fs
    expected ← require_pattern base "base_sha256" sha256_pattern
    actual ← digest (object fs)
    require (expected == actual) (contract "POA-EDIT-002" "process base digest is stale")
    editor ← editor_policy source
    editable ← editable_paths editor
    raw ← edit_list edits
    (candidate, applied) ← apply_edits editable [] (object fs) raw
    target ← as_members candidate
    preserve_controls source target
    candidate_sha256 ← digest candidate
    require (not (candidate_sha256 == actual))
        (contract "POA-EDIT-005" "process edit proposal has no material change")
    ok (record {
      base_sha256 = actual;
      candidate_sha256 = candidate_sha256;
      edits = applied;
      candidate = target;
    })
  propose_process_edit digest _ base edits =
      err (contract "POA-EDIT-001" "source_process must be an object")
