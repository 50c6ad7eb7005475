-- ===== src/Poa/Editor/Tests.antt =====
-- A proposal for a concrete process.
use subllm.Prelude.{
  String, List, [], ◌∷◌, ◌≡◌, refl, Bool, true, false, ◌==◌, ◌⧺◌, eq_refl, none, some, Result, ok,
  err, if◌then◌else◌,
}
use subllm.Dict.{lookup, insert}
use subllm.Json.{Json, boolean, text, array, object, nil, cons, Fields, field, end, members}
use subllm.Poa.Plan.{doc}
use subllm.Poa.Editor.Authority.{editor_path, with_editor, apply_edit-with_editor}
use subllm.Poa.Editor.Controls.{proposal-IsConfined, IsConfined}
use subllm.Poa.Editor.Document.{editor_policy, pointer, replace_at, replace}
use subllm.Poa.Editor.Pointer.{Replaced, replace_at-Replaced}
use subllm.Poa.Editor.Propose.{
  Proposal, propose_process_edit, apply_edits, apply_edit, read_edit, edit_list, editable_paths,
  preserve_controls,
}
use subllm.Poa.Refs.{PoaError, raised, exact, require_pattern}
use subllm.Regex.{fullmatch}

abbrev first_digest : String
first_digest = "0123456789abcdef0123456789abcdef0123456789abcdef0123456789abcdef"

-- The digest tells the title apart.
abbrev digest : Json → Result PoaError String
digest (object fs) = elim (lookup "title" (members fs)) [
  | some (text s) ↦ if s == "old" then ok first_digest else ok "ff"
  | _ ↦ ok "ff"
]
digest _ = err (raised "TypeError")

abbrev equal : Json → Json → Bool
equal (text a) (text b) = a == b
equal (array a) (array b) = true
equal (object a) (object b) = true
equal a b = false

abbrev editor : Fields
editor =
    field "authority" (text "proposal-only")
      (field "editable_paths" (array (cons (text "/title") nil)) end)

abbrev publication : Fields
publication =
    field "schema_validation" (boolean true)
      (field "exact_base_digest" (boolean true) (field "independent_validation" (boolean true) end))

abbrev process : Fields
process = field "owner" (text "service:subllm") (
    field "title" (text "old") (
      field "decision_policy"
        (object (field "llm_editor" (object editor) (field "publication" (object publication) end)))
        end))

abbrev edits : Json
edits = array (
    cons
      (object (
        field "op" (text "replace")
          (field "path" (text "/title") (field "value" (text "new") end))))
      nil)

abbrev proposed : Proposal equal
proposed = record {
  base_sha256 = first_digest;
  candidate_sha256 = "ff";
  edits = record { path = "/title"; value = text "new" } ∷ [];
  candidate =
      ("owner", text "service:subllm")
      ∷ ("title", text "new")
      ∷ (
        "decision_policy",
        object (field "llm_editor" (object editor) (field "publication" (object publication) end)),
      )
      ∷ [];
}

accepted :
    propose_process_edit equal digest (object process) (text first_digest) edits ≡ ok proposed
unfolding propose_process_edit require_pattern fullmatch editor_policy lookup editable_paths
    edit_list apply_edits read_edit exact apply_edit replace pointer replace_at insert
    preserve_controls
accepted = refl

proposal-IsConfined_example : IsConfined equal digest process (text first_digest) proposed
proposal-IsConfined_example =
    proposal-IsConfined equal digest process (text first_digest) edits proposed accepted

-- The editor may replace its own policy, and with it its authority, where the path of the whole policy
-- is listed as editable.
abbrev self_editor : String → Fields
self_editor mode =
    field "authority" (text mode)
      (field "editable_paths" (array (cons (text "/decision_policy/llm_editor") nil)) end)

abbrev self_process : String → Fields
self_process mode = field "owner" (text "service:subllm") (
    field "decision_policy"
      (object (
        field "llm_editor" (object (self_editor mode))
          (field "publication" (object publication) end)))
      end)

abbrev self_edits : Json
self_edits = array (
    cons
      (object (
        field "op" (text "replace") (
          field "path" (text "/decision_policy/llm_editor")
            (field "value" (object (self_editor "publish")) end))))
      nil)

abbrev mode_of : Json → String
mode_of (object fs) = elim (lookup "authority" (members fs)) [ some (text s) ↦ s | _ ↦ "" ]
mode_of _ = ""

abbrev editor_of : Json → Json
editor_of (object fs) = elim (lookup "llm_editor" (members fs)) [ some d ↦ d | none ↦ text "" ]
editor_of _ = text ""

abbrev self_digest : Json → Result PoaError String
self_digest (object fs) = elim (lookup "decision_policy" (members fs)) [
  | some d ↦ if mode_of (editor_of d) == "proposal-only" then ok first_digest else ok "ff"
  | none ↦ ok "ff"
]
self_digest _ = err (raised "TypeError")

authority_replaced :
    propose_process_edit equal self_digest
      (object (self_process "proposal-only"))
      (text first_digest)
      self_edits
    ≡ ok (record {
      base_sha256 = first_digest;
      candidate_sha256 = "ff";
      edits =
          record { path = "/decision_policy/llm_editor"; value = object (self_editor "publish") }
          ∷ [];
      candidate = members (self_process "publish");
    })
unfolding propose_process_edit require_pattern fullmatch editor_policy lookup editable_paths
    edit_list apply_edits read_edit exact apply_edit replace pointer replace_at insert
    preserve_controls
authority_replaced = refl

abbrev shape : Json → String
shape (text s) = "text " ⧺ s
shape (array xs) = "array"
shape (object fs) = "object"
shape d = "other"

abbrev self_policy : Fields
self_policy =
    field "llm_editor" (object (self_editor "proposal-only"))
      (field "publication" (object publication) end)

apply_edit-with_editor_example :
    (apply_edit
        (editor_path ∷ [])
        []
        (object (self_process "proposal-only"))
        (record { path = editor_path; value = object (self_editor "publish") })
      ≡ ok (with_editor (self_process "proposal-only") self_policy (self_editor "publish")))
    × (preserve_controls
          (λ a b. shape a == shape b)
          (members (self_process "proposal-only"))
          (insert "decision_policy"
            (doc (insert "llm_editor" (object (self_editor "publish")) (members self_policy)))
            (members (self_process "proposal-only")))
        ≡ ok tt)
unfolding lookup
apply_edit-with_editor_example =
    apply_edit-with_editor (λ a b. shape a == shape b) (λ j. eq_refl (shape j)) (editor_path ∷ [])
      (self_process "proposal-only") self_policy (self_editor "proposal-only")
      (self_editor "publish") refl refl refl refl

abbrev mode_path : List String
mode_path = "llm_editor" ∷ "authority" ∷ []

abbrev nested : String → Json
nested mode = object (field "llm_editor" (object (field "authority" (text mode) end)) end)

replace_at-Replaced_example : Replaced mode_path (text "b") (nested "a") (nested "b") (text "a")
unfolding replace_at lookup insert
replace_at-Replaced_example =
    replace_at-Replaced mode_path (text "b") (nested "a") (nested "b") (text "a") refl
