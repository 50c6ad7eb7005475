-- ===== src/Poa/Editor/Applied.antt =====
-- src/subllm/poa/process_editor.py: what the loop over the edits accepts.
use subllm.Prelude.{
  suc, String, ◌≡◌, refl, Bool, true, false, List, [], ◌∷◌, not, ok, arith, contains, length, All,
  >>=-eq-ok, require-eq-ok, ok-injective, subst,
}
use subllm.Json.{Json}
use subllm.Poa.Editor.Document.{replace}
use subllm.Poa.Editor.Propose.{Edit, apply_edits, apply_edit, read_edit, is_authorized, same_type}

abbrev pub Unseen : List String → List Edit → Type 0
Unseen seen [] = Unit
Unseen seen (e ∷ es) = (contains seen e.path ≡ false) × Unseen (e.path ∷ seen) es

abbrev pub IsAuthorized : List String → Edit → Type 0
IsAuthorized editable e = is_authorized editable e.path ≡ true

pub not-false : (b : Bool) → not b ≡ true → b ≡ false
not-false b h = ground arith

-- The edits turn one document into another, one after the other, each replacing a member that is there
-- by a value of its type.
pub data Becomes : Json → List Edit → Json → Type 0 where
  done : {d : Json} → Becomes d [] d
  replaced :
      {d changed last previous : Json} {e : Edit} {es : List Edit}
      → replace d e.path e.value ≡ ok (changed, previous)
      → same_type previous e.value ≡ true
      → Becomes changed es last
      → Becomes d (e ∷ es) last

apply_edit-eq-ok :
    (editable seen : List String) (candidate changed : Json) (e : Edit)
    → apply_edit editable seen candidate e ≡ ok changed
    → (contains seen e.path ≡ false)
      × (is_authorized editable e.path ≡ true)
      × ((previous : Json) × (replace candidate e.path e.value ≡ ok (changed, previous))
          × (same_type previous e.value ≡ true))
unfolding apply_edit
apply_edit-eq-ok editable seen candidate changed e h =
    let (new, h1) = require-eq-ok (not (contains seen e.path)) _ _ h in
    let (allowed, h2) = require-eq-ok (is_authorized editable e.path) _ _ h1 in
    let ((after, previous), made, h3) = >>=-eq-ok (replace candidate e.path e.value) _ h2 in
    let (same, h4) = require-eq-ok (same_type previous e.value) _ _ h3 in
    (
      not-false _ new,
      allowed,
      (
        previous,
        subst (λ c. replace candidate e.path e.value ≡ ok (c, previous)) (ok-injective h4) made,
        same,
      ),
    )

pub apply_edits-eq-ok :
    (editable seen : List String) (candidate last : Json) (raw : List Json) (edits : List Edit)
    → apply_edits editable seen candidate raw ≡ ok (last, edits)
    → All (IsAuthorized editable) edits
      × Unseen seen edits
      × (length edits ≡ length raw)
      × Becomes candidate edits last
unfolding apply_edits
apply_edits-eq-ok editable seen candidate last [] edits h =
    let same : (candidate, []) ≡ (last, edits) = ok-injective h in
    subst
      (λ (q : Json × List Edit).
        All (IsAuthorized editable) q.1
        × Unseen seen q.1
        × (length q.1 ≡ 0)
        × Becomes candidate q.1 q.0)
      same (tt, tt, refl, done)
apply_edits-eq-ok editable seen candidate last (raw ∷ rest) edits h =
    let (e, _, h1) = >>=-eq-ok (read_edit raw) _ h in
    let (changed, applied, h2) = >>=-eq-ok (apply_edit editable seen candidate e) _ h1 in
    let ((last', es), more, h3) =
      >>=-eq-ok (apply_edits editable (e.path ∷ seen) changed rest) _ h2 in
    let (new, allowed, (previous, made, typed)) =
      apply_edit-eq-ok editable seen candidate changed e applied in
    let (fine, unseen, long, becomes) =
      apply_edits-eq-ok editable (e.path ∷ seen) changed last' rest es more in
    let same : (last', e ∷ es) ≡ (last, edits) = ok-injective h3 in
    subst
      (λ (q : Json × List Edit).
        All (IsAuthorized editable) q.1
        × Unseen seen q.1
        × (length q.1 ≡ suc (length rest))
        × Becomes candidate q.1 q.0)
      same ((allowed, fine), (new, unseen), omega (arith, long), replaced made typed becomes)
