-- ===== src/Poa/Editor/Controls.antt =====
-- src/subllm/poa/process_editor.py: what an accepted proposal may have changed.
use subllm.Prelude.{
  ◌≤◌, String, ◌≡◌, Bool, true, false, List, [], ◌&&◌, not, ◌==◌, Result, ok, arith, require-true,
  eq_iff, ◌∙◌, sym, Bool-cases, inl, inr, if-true, if-false, ap, all, length, leb, All, >>=-eq-ok,
  require-eq-ok, absurd_err, ok-injective, subst,
}
use subllm.Dict.{Dict}
use subllm.Json.{Json, text, object, Fields, members, array}
use subllm.Poa.Editor.Document.{editor_policy, item}
use subllm.Poa.Editor.Propose.{
  Proposal, propose_process_edit, apply_edits, edit_list, editable_paths, preserve_controls,
  equal_at, list_of, as_members, identity_keys, authority_keys, boundary_keys,
}
use subllm.Regex.{Regex, fullmatch}
use subllm.Poa.Refs.{PoaError, require_pattern, sha256_pattern}
use subllm.Poa.Editor.Applied.{Unseen, IsAuthorized, not-false, Becomes, apply_edits-eq-ok}

require_pattern-eq-ok :
    (base : Json) (label : String) (pattern : Regex) (s : String)
    → require_pattern base label pattern ≡ ok s
    → base ≡ text s
unfolding require_pattern
require_pattern-eq-ok (text t) label pattern s h = elim (Bool-cases (fullmatch pattern t)) [
  | inl e ↦ ap text (ok-injective (sym (if-true _ _ _ e) ∙ h))
  | inr e ↦ absurd_err (sym (if-false _ _ _ e) ∙ h)
]
require_pattern-eq-ok _ label pattern s h = absurd_err h

edit_list-eq-ok :
    (edits : Json) (raw : List Json)
    → edit_list edits ≡ ok raw
    → (1 ≤ length raw) × (length raw ≤ 16)
unfolding edit_list
edit_list-eq-ok (array xs) raw h =
    let (fits, same) =
      require-eq-ok (leb 1 (length (list_of xs)) && leb (length (list_of xs)) 16) _ _ h in
    let equal : list_of xs ≡ raw = ok-injective same in
    subst (λ r. (1 ≤ length r) × (length r ≤ 16)) equal (ground (arith, fits), ground (arith, fits))
edit_list-eq-ok _ raw h = absurd_err h

-- What a process keeps from its editor, by Python's equality. Of the editor's own policy only
-- `editable_paths` is compared.
pub record IsControlled (equal : Json → Json → Bool) (source candidate : Dict Json) : Type 0 where
  pub identity : all (equal_at equal source candidate) identity_keys ≡ true
  pub authority : all (equal_at equal source candidate) authority_keys ≡ true
  pub policies :
      (p : Dict Json) × (q : Dict Json) × (item "decision_policy" source ≡ ok p)
      × (item "decision_policy" candidate ≡ ok q)
      × (all (equal_at equal p q) boundary_keys ≡ true)
      × ((e : Dict Json) × (f : Dict Json) × (item "llm_editor" p ≡ ok e)
          × (item "llm_editor" q ≡ ok f)
          × (equal_at equal e f "editable_paths" ≡ true))

preserve_controls-eq-ok :
    (equal : Json → Json → Bool) (source candidate : Dict Json)
    → preserve_controls equal source candidate ≡ ok tt
    → IsControlled equal source candidate
unfolding preserve_controls
preserve_controls-eq-ok equal source candidate h =
    let (identity, h1) =
      require-eq-ok (all (equal_at equal source candidate) identity_keys) _ _ h in
    let (authority, h2) =
      require-eq-ok (all (equal_at equal source candidate) authority_keys) _ _ h1 in
    let (p, found, h3) = >>=-eq-ok (item "decision_policy" source) _ h2 in
    let (q, found', h4) = >>=-eq-ok (item "decision_policy" candidate) _ h3 in
    let (boundary, h5) = require-eq-ok (all (equal_at equal p q) boundary_keys) _ _ h4 in
    let (e, edited, h6) = >>=-eq-ok (item "llm_editor" p) _ h5 in
    let (f, edited', h7) = >>=-eq-ok (item "llm_editor" q) _ h6 in
    record {
      identity = identity;
      authority = authority;
      policies = (
        p,
        q,
        found,
        found',
        boundary,
        (e, f, edited, edited', require-true (equal_at equal e f "editable_paths") _ h7),
      );
    }

pub record IsConfined (equal : Json → Json → Bool) (digest : Json → Result PoaError String)
    (fs : Fields) (base : Json) (p : Proposal equal) : Type 0 where
  pub fresh : base ≡ text p.base_sha256
  pub based : digest (object fs) ≡ ok p.base_sha256
  pub changes : (p.candidate_sha256 == p.base_sha256) ≡ false
  pub digested :
      (last : Json) × (digest last ≡ ok p.candidate_sha256)
      × (as_members last ≡ ok p.candidate)
      × Becomes (object fs) p.edits last
  pub some_edits : 1 ≤ length p.edits
  pub few_edits : length p.edits ≤ 16
  pub authorized :
      (editor : Dict Json) × (editable : List String) × (editor_policy (members fs) ≡ ok editor)
      × (editable_paths editor ≡ ok editable)
      × All (IsAuthorized editable) p.edits
  pub distinct : Unseen [] p.edits
  pub controlled : IsControlled equal (members fs) p.candidate

-- A proposal that is accepted for a process document: the base that was sent is the digest of that
-- document, and the candidate's digest is another; the edits turn the document into the candidate, each
-- replacing a member that is there by a value of the same type; there are 1 to 16 edits, of distinct
-- paths, each among the `editable_paths` of the document's own editor policy and none of them
-- protected; and the candidate has the document's identity, its authority surface, the deterministic
-- controls, the heuristic and the publication of its decision policy, and the `editable_paths` of its
-- editor, as Python's equality compares them.
pub proposal-IsConfined :
    (equal : Json → Json → Bool) (digest : Json → Result PoaError String) (fs : Fields)
    (base edits : Json) (p : Proposal equal)
    → propose_process_edit equal digest (object fs) base edits ≡ ok p
    → IsConfined equal digest fs base p
unfolding propose_process_edit
proposal-IsConfined equal digest fs base edits p h =
    let (expected, given, h1) = >>=-eq-ok (require_pattern base "base_sha256" sha256_pattern) _ h in
    let (actual, based, h1') = >>=-eq-ok (digest (object fs)) _ h1 in
    let (same, h2) = require-eq-ok (expected == actual) _ _ h1' in
    let (editor, policy, h3) = >>=-eq-ok (editor_policy (members fs)) _ h2 in
    let (editable, listed, h4) = >>=-eq-ok (editable_paths editor) _ h3 in
    let (raw, closed, h5) = >>=-eq-ok (edit_list edits) _ h4 in
    let ((last, applied), ran, h6) = >>=-eq-ok (apply_edits editable [] (object fs) raw) _ h5 in
    let (target, members_of, h7) = >>=-eq-ok (as_members last) _ h6 in
    let (u, kept, h8) = >>=-eq-ok (preserve_controls equal (members fs) target) _ h7 in
    let (sha, digested, h8') = >>=-eq-ok (digest last) _ h8 in
    let (other, h9) = require-eq-ok (not (sha == actual)) _ _ h8' in
    let (fine, unseen, long, becomes) =
      apply_edits-eq-ok editable [] (object fs) last raw applied ran in
    let (least, most) = edit_list-eq-ok edits raw closed in
    subst (IsConfined equal digest fs base) (ok-injective h9) (record {
      fresh =
          require_pattern-eq-ok base "base_sha256" sha256_pattern expected given
          ∙ ap text ((eq_iff expected actual).0 same);
      based = based;
      changes = not-false _ other;
      digested = (last, digested, members_of, becomes);
      some_edits = omega (arith, least, long);
      few_edits = omega (arith, most, long);
      authorized = (editor, editable, policy, listed, fine);
      distinct = unseen;
      controlled = preserve_controls-eq-ok equal (members fs) target kept;
    })
