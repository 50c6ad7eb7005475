-- ===== src/Poa/Editor/Pointer.antt =====
-- src/subllm/poa/process_editor.py: `_replace` against a plain reading of a path.
use subllm.Prelude.{
  String, ◌≡◌, refl, List, [], ◌∷◌, ◌==◌, Option, none, some, some-injective, Option-cases, inl,
  inr, ap, ◌∙◌, if◌then◌else◌, eq_refl, subst,
}
use subllm.Dict.{Dict, lookup, insert, lookup-insert}
use subllm.Json.{Json, object, Fields, members, fields}
use subllm.Poa.Plan.{doc}
use subllm.Poa.Editor.Document.{replace_at}

abbrev pub get_inner : (Json → Option Json) → Option Json → Option Json
get_inner f none = none
get_inner f (some d) = f d

-- What stands at a path.
pub get_at : List String → Json → Option Json
get_at [] d = some d
get_at (part ∷ more) (object fs) = get_inner (get_at more) (lookup part (members fs))
get_at (part ∷ more) _ = none

pub members-fields : (d : Dict Json) → members (fields d) ≡ d
members-fields [] = refl
members-fields ((k, v) ∷ d) = ap (λ r. (k, v) ∷ r) (members-fields d)

lookup-changed :
    (k j : String) (v : Json) (d : Dict Json)
    → lookup j (members (fields (insert k v d))) ≡ (if k == j then some v else lookup j d)
lookup-changed k j v d = ap (lookup j) (members-fields (insert k v d)) ∙ lookup-insert k j v d

found_changed :
    (k : String) (v : Json) (d : Dict Json) → lookup k (members (fields (insert k v d))) ≡ some v
found_changed k v d = lookup-changed k k v d ∙ rw eq_refl refl

abbrev pub Replaced : List String → Json → Json → Json → Json → Type 0
Replaced parts value d changed old =
    (get_at parts d ≡ some old) × (get_at parts changed ≡ some value)

leaf-Replaced :
    (leaf : String) (value changed old : Json) (fs : Fields)
    → replace_at (leaf ∷ []) value (object fs) ≡ some (changed, old)
    → Replaced (leaf ∷ []) value (object fs) changed old
unfolding replace_at get_at
leaf-Replaced leaf value changed old fs h = elim (Option-cases (lookup leaf (members fs))) [
  | inl gone ↦ absurd (let bad : none ≡ some (changed, old) = rw (gone, replace_at) at h in cc)
  | inr (found, there) ↦
      let same : (doc (insert leaf value (members fs)), found) ≡ (changed, old) =
        some-injective (rw (there, replace_at) at h) in
      (
        rw there (ap (λ p. some p.1) same),
        subst (λ d. get_at (leaf ∷ []) d ≡ some value) (ap (λ p. p.0) same)
            (ap (get_inner (λ d. some d)) (found_changed leaf value (members fs))),
      )
]

inner-Replaced :
    (part : String) (more : List String) (value inner inner' old : Json) (fs : Fields)
    → lookup part (members fs) ≡ some inner
    → Replaced more value inner inner' old
    → Replaced (part ∷ more) value (object fs) (doc (insert part inner' (members fs))) old
unfolding get_at
inner-Replaced part more value inner inner' old fs there (was, now) =
    (rw there was, ap (get_inner (get_at more)) (found_changed part inner' (members fs)) ∙ now)

-- If an edit finds its path, then it reports what a plain reading of the path finds in the document,
-- and the same reading of the changed document finds the new value.
pub replace_at-Replaced :
    (parts : List String) (value d changed old : Json)
    → replace_at parts value d ≡ some (changed, old)
    → Replaced parts value d changed old
unfolding replace_at
replace_at-Replaced [] value d changed old h = absurd (cc)
replace_at-Replaced (leaf ∷ []) value (object fs) changed old h =
    leaf-Replaced leaf value changed old fs h
replace_at-Replaced (part ∷ next ∷ more) value (object fs) changed old h =
    elim (Option-cases (lookup part (members fs))) [
      | inl gone ↦ absurd (let bad : none ≡ some (changed, old) = rw (gone, replace_at) at h in cc)
      | inr (inner, there) ↦ elim (Option-cases (replace_at (next ∷ more) value inner)) [
        | inl gone ↦
            absurd (let bad : none ≡ some (changed, old) = rw (there, gone, replace_at) at h in cc)
        | inr ((inner', old'), deeper) ↦
            let same : (doc (insert part inner' (members fs)), old') ≡ (changed, old) =
              some-injective (rw (there, deeper, replace_at) at h) in
            subst (λ p. Replaced (part ∷ next ∷ more) value (object fs) p.0 p.1) same
              (inner-Replaced part (next ∷ more) value inner inner' old' fs there
                (replace_at-Replaced (next ∷ more) value inner inner' old' deeper))
      ]
    ]
replace_at-Replaced (leaf ∷ []) value _ changed old h = absurd (cc)
replace_at-Replaced (part ∷ next ∷ more) value _ changed old h = absurd (cc)
