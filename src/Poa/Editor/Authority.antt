-- ===== src/Poa/Editor/Authority.antt =====
-- src/subllm/poa/process_editor.py: an edit of the whole policy of the editor.
use subllm.Prelude.{
  String, ◌≡◌, refl, Bool, true, false, List, [], ◌∷◌, ◌==◌, some, none, Option, ok, err, Result,
  ok-injective, absurd_err, All, all, contains, ap, ◌∙◌, sym, subst, if-false, eq_refl, require,
  ◌>>=◌,
}
use subllm.Dict.{Dict, lookup, insert, lookup-insert}
use subllm.Json.{Json, object, Fields, members}
use subllm.Poa.Editor.Document.{replace, replace_at, pointer, item}
use subllm.Poa.Editor.Pointer.{members-fields}
use subllm.Poa.Editor.Propose.{
  apply_edit, preserve_controls, equal_at, equal_values, identity_keys, authority_keys,
  boundary_keys,
}
use subllm.Poa.Plan.{doc}

abbrev pub editor_path : String
editor_path = "/decision_policy/llm_editor"

abbrev pub with_editor : Fields → Fields → Fields → Json
with_editor fs p f =
    doc (insert "decision_policy" (doc (insert "llm_editor" (object f) (members p))) (members fs))

passes {ℓ} :
    {E : Type 0} {A : Type ℓ} (b : Bool) (e : E) (k : Unit {0} → Result E A)
    → b ≡ true
    → (require b e >>= k) ≡ k tt
passes true e k h = refl
passes false e k h = cc

goes_on {ℓ κ} :
    {E : Type 0} {A : Type ℓ} {B : Type κ} (m : Result E A) (k : A → Result E B) (a : A)
    → m ≡ ok a
    → (m >>= k) ≡ k a
goes_on (ok x) k a h = ap k (ok-injective h)
goes_on (err e) k a h = absurd_err h

allowed : {E : Type 0} (b : Bool) (e : E) → b ≡ true → require b e ≡ ok tt
allowed true e h = refl
allowed false e h = cc

replace-with_editor :
    (fs p e f : Fields)
    → lookup "decision_policy" (members fs) ≡ some (object p)
    → lookup "llm_editor" (members p) ≡ some (object e)
    → replace_at ("decision_policy" ∷ "llm_editor" ∷ []) (object f) (object fs)
      ≡ some (with_editor fs p f, object e)
unfolding replace_at
replace-with_editor fs p e f policy editor = rw (policy, replace_at, editor) refl

apply-with_editor :
    (editable : List String) (fs p e f : Fields)
    → contains editable editor_path ≡ true
    → replace_at ("decision_policy" ∷ "llm_editor" ∷ []) (object f) (object fs)
      ≡ some (with_editor fs p f, object e)
    → apply_edit editable [] (object fs) (record { path = editor_path; value = object f })
      ≡ ok (with_editor fs p f)
unfolding apply_edit replace pointer
apply-with_editor editable fs p e f listed made = rw (listed, made) refl

module _ (equal : Json → Json → Bool) (same : (j : Json) → equal j j ≡ true) where
  equal_values-same : (o : Option Json) → equal_values equal o o ≡ true
  equal_values-same none = refl
  equal_values-same (some a) = same a

  equal_at-insert :
      (d : Dict Json) (k j : String) (v : Json)
      → (k == j) ≡ false
      → equal_at equal d (insert k v d) j ≡ true
  equal_at-insert d k j v other =
      subst (λ o. equal_values equal (lookup j d) o ≡ true)
        (sym (lookup-insert k j v d ∙ if-false _ _ _ other)) (equal_values-same (lookup j d))

  all-equal_at-insert :
      (d : Dict Json) (k : String) (v : Json) (js : List String)
      → All (λ j. (k == j) ≡ false) js
      → all (equal_at equal d (insert k v d)) js ≡ true
  all-equal_at-insert d k v [] h = refl
  all-equal_at-insert d k v (j ∷ js) h =
      rw (equal_at-insert d k j v h.0) (all-equal_at-insert d k v js h.1)

  item-found :
      (k : String) (d : Dict Json) (fs : Fields)
      → lookup k d ≡ some (object fs)
      → item k d ≡ ok (members fs)
  item-found k d fs h = rw (h, item) refl

  item-insert :
      (d : Dict Json) (k : String) (fs : Fields) → item k (insert k (object fs) d) ≡ ok (members fs)
  item-insert d k fs = item-found k _ fs (lookup-insert k k (object fs) d ∙ rw eq_refl refl)

  preserve_controls-with_editor :
      (d : Dict Json) (p e f : Fields)
      → lookup "decision_policy" d ≡ some (object p)
      → lookup "llm_editor" (members p) ≡ some (object e)
      → equal_at equal (members e) (members f) "editable_paths" ≡ true
      → preserve_controls equal d
          (insert "decision_policy" (doc (insert "llm_editor" (object f) (members p))) d)
        ≡ ok tt
  unfolding preserve_controls
  preserve_controls-with_editor d p e f policy editor kept =
      let inner : Dict Json = insert "llm_editor" (object f) (members p) in
      passes _ _ _ (
        all-equal_at-insert d "decision_policy" _ identity_keys
          (refl, (refl, (refl, (refl, (refl, tt))))))
      ∙ passes _ _ _
          (all-equal_at-insert d "decision_policy" _ authority_keys (refl, (refl, (refl, tt))))
      ∙ goes_on (item "decision_policy" d) _ (members p) (item-found "decision_policy" d p policy)
      ∙ goes_on (item "decision_policy" (insert "decision_policy" (doc inner) d)) _ inner
          (item-insert d "decision_policy" _ ∙ ap ok (members-fields inner))
      ∙ passes _ _ _ (
          all-equal_at-insert (members p) "llm_editor" (object f) boundary_keys
            (refl, (refl, (refl, tt))))
      ∙ goes_on (item "llm_editor" (members p)) _ (members e)
          (item-found "llm_editor" (members p) e editor)
      ∙ goes_on (item "llm_editor" inner) _ (members f) (item-insert (members p) "llm_editor" f)
      ∙ allowed _ _ kept

  -- An untrusted process may list the whole policy of its editor as editable. Then an edit that replaces
  -- that policy by any object with the same `editable_paths`, whatever its authority, passes the guards
  -- on the edit and those on the controls.
  pub apply_edit-with_editor :
      (editable : List String) (fs p e f : Fields)
      → contains editable editor_path ≡ true
      → lookup "decision_policy" (members fs) ≡ some (object p)
      → lookup "llm_editor" (members p) ≡ some (object e)
      → equal_at equal (members e) (members f) "editable_paths" ≡ true
      → (apply_edit editable [] (object fs) (record { path = editor_path; value = object f })
          ≡ ok (with_editor fs p f))
        × (preserve_controls equal (members fs) (
              insert "decision_policy"
                (doc (insert "llm_editor" (object f) (members p)))
                (members fs))
            ≡ ok tt)
  apply_edit-with_editor editable fs p e f listed policy editor kept = (
    apply-with_editor editable fs p e f listed (replace-with_editor fs p e f policy editor),
    preserve_controls-with_editor (members fs) p e f policy editor kept,
  )
