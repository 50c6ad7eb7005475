-- ===== src/Poa/Editor/Document.antt =====
-- src/subllm/poa/process_editor.py: `_editor_policy`, `_replace` and `_preserve_controls`. Documents
-- are compared as Python's `==` compares them, which is a parameter, as is the digest.
use subllm.Prelude.{
  String, Char, code, codes, Bool, true, false, List, [], ◌∷◌, ◌&&◌, not, ◌==◌, eqb, Option, none,
  some, Result, ok, err, require, or_raise, if◌then◌else◌, all, ◌>>=◌, ◌>>◌,
}
use subllm.Dict.{Dict, lookup, insert}
use subllm.Json.{Json, boolean, text, object, members}
use subllm.Poa.Plan.{doc}
use subllm.Poa.Refs.{PoaError, contract, raised}

-- `document.get(key)` as a dictionary
abbrev pub member : String → Dict Json → Option (Dict Json)
member key d = elim (lookup key d) [ some (object fs) ↦ some (members fs) | _ ↦ none ]

-- `document[key]`, on which `get` is called next
abbrev pub item : String → Dict Json → Result PoaError (Dict Json)
item key d = elim (lookup key d) [
  | none ↦ err (raised "KeyError")
  | some (object fs) ↦ ok (members fs)
  | some _ ↦ err (raised "AttributeError")
]

abbrev is_text : String → Option Json → Bool
is_text s (some (text t)) = t == s
is_text s _ = false

abbrev is_true : Option Json → Bool
is_true (some (boolean true)) = true
is_true _ = false

-- `_editor_policy`
unfoldable pub editor_policy : Dict Json → Result PoaError (Dict Json)
editor_policy source = do
  decision ←
      or_raise (member "decision_policy" source)
        (contract "POA-EDIT-001" "source process has no decision_policy")
  editor ←
      or_raise (member "llm_editor" decision)
        (contract "POA-EDIT-001" "source process has no proposal-only LLM editor")
  require (is_text "proposal-only" (lookup "authority" editor))
      (contract "POA-EDIT-001" "source process has no proposal-only LLM editor")
  publication ←
      or_raise (member "publication" decision)
        (contract "POA-EDIT-001" "source process publication gates are incomplete")
  require
      (all (λ key. is_true (lookup key publication))
        ("schema_validation" ∷ "exact_base_digest" ∷ "independent_validation" ∷ []))
      (contract "POA-EDIT-001" "source process publication gates are incomplete")
  ok editor

abbrev cons_first : Char → List String → List String
cons_first c [] = String.◌∷◌ c "" ∷ []
cons_first c (s ∷ ss) = String.◌∷◌ c s ∷ ss

-- `s.split("/")`
split_slash : String → List String
split_slash String.[] = "" ∷ []
split_slash (String.◌∷◌ c s) =
    let rest = split_slash s in if eqb (code c) b'/' then "" ∷ rest else cons_first c rest

-- `path[1:].split("/")`, after the tests on the pointer
unfoldable pub pointer : String → Option (List String)
unfolding split_slash
pointer String.[] = none
pointer (String.◌∷◌ c s) =
    if eqb (code c) b'/' && all (λ x. not (eqb x b'~')) (codes s)
    then some (split_slash s)
    else none

-- The document with the member at the path replaced, and what stood there: `none` if there is none.
unfoldable pub replace_at : List String → Json → Json → Option (Json × Json)
replace_at [] value d = none
replace_at (leaf ∷ []) value (object fs) = elim (lookup leaf (members fs)) [
  | none ↦ none
  | some old ↦ some (doc (insert leaf value (members fs)), old)
]
replace_at (part ∷ more) value (object fs) =
    elim (lookup part (members fs)) as (λ x. Option (Json × Json)) [
      | none ↦ none
      | some inner ↦ elim (replace_at more value inner) [
        | none ↦ none
        | some (changed, old) ↦ some (doc (insert part changed (members fs)), old)
      ]
    ]
replace_at _ value _ = none

-- `_replace`
unfoldable pub replace : Json → String → Json → Result PoaError (Json × Json)
replace document path value = do
  parts ← or_raise (pointer path) (contract "POA-EDIT-001" "edit path is not a closed JSON pointer")
  or_raise (replace_at parts value document) (contract "POA-EDIT-001" "edit path does not exist")
