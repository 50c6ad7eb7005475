-- ===== src/Routing/Listed.antt =====
-- src/subllm/resolver.py: `required` of `resolve`, the names of the keys that would help.
use subllm.Prelude.{
  String, ◌==◌, eq_iff, ◌≡◌, ◌≢◌, refl, Bool, true, false, not, ◌&&◌, Bool-cases, Option, none,
  some, List, [], ◌∷◌, inl, inr, All, All-map, Any, contains, subst, sym, if-true, if-false,
  text_leb,
}
use subllm.Policy.Overlay.{set_of}
use subllm.Routing.Configured.{is_wanted}
use subllm.Routing.Keys.{same-false, unequal}
use subllm.Routing.Resolve.{sorted_texts, place_text, key_names}
use subllm.Types.{ConfiguredRoute}

-- The caller asked for no provider, or for this one.
abbrev pub IsWanted : Option String → ConfiguredRoute → Type 0
IsWanted none r = Unit
IsWanted (some name) r = r.provider ≡ name

abbrev pub IsUnwanted : Option String → ConfiguredRoute → Type 0
IsUnwanted none r = ⊥
IsUnwanted (some name) r = r.provider ≢ name

pub is_wanted-IsWanted :
    (provider : Option String) (r : ConfiguredRoute)
    → is_wanted provider r.provider ≡ true
    → IsWanted provider r
is_wanted-IsWanted none r h = tt
is_wanted-IsWanted (some name) r h = (eq_iff r.provider name).0 h

pub is_wanted-IsUnwanted :
    (provider : Option String) (r : ConfiguredRoute)
    → is_wanted provider r.provider ≡ false
    → IsUnwanted provider r
is_wanted-IsUnwanted none r h = cc
is_wanted-IsUnwanted (some name) r h = unequal r.provider name h

is_wanted-lem :
    (provider : Option String) (r : ConfiguredRoute)
    → IsWanted provider r
    → is_wanted provider r.provider ≡ true
is_wanted-lem none r h = refl
is_wanted-lem (some name) r h = (eq_iff r.provider name).1 h

abbrev pub IsNamed : String → List String → Type 0
IsNamed name names = Any (λ n. n ≡ name) names

place_text-IsNamed :
    (name t : String) (ts : List String) → IsNamed name (t ∷ ts) → IsNamed name (place_text t ts)
place_text-IsNamed name t [] h = h
place_text-IsNamed name t (x ∷ xs) h = elim (Bool-cases (text_leb t x)) [
  | inl e ↦ subst (IsNamed name) (sym (if-true _ _ _ e)) h
  | inr e ↦ subst (IsNamed name) (sym (if-false _ _ _ e)) (elim h [
    | inl same ↦ inr (place_text-IsNamed name t xs (inl same))
    | inr (inl same) ↦ inl same
    | inr (inr found) ↦ inr (place_text-IsNamed name t xs (inr found))
  ])
]

sorted_texts-IsNamed :
    (name : String) (ts : List String) → IsNamed name ts → IsNamed name (sorted_texts ts)
sorted_texts-IsNamed name [] h = elim h [ ]
sorted_texts-IsNamed name (t ∷ ts) (inl same) =
    place_text-IsNamed name t (sorted_texts ts) (inl same)
sorted_texts-IsNamed name (t ∷ ts) (inr found) =
    place_text-IsNamed name t (sorted_texts ts) (inr (sorted_texts-IsNamed name ts found))

set_of-IsNamed :
    (name : String) (seen ts : List String)
    → IsNamed name ts
    → contains seen name ≡ false
    → IsNamed name (set_of seen ts)
unfolding set_of
set_of-IsNamed name seen [] h new = elim h [ ]
set_of-IsNamed name seen (t ∷ ts) (inl same) new = elim (Bool-cases (contains seen t)) [
  | inl e ↦ absurd (cc (subst (λ n. contains seen n ≡ true) same e, new))
  | inr e ↦ rw (e, set_of) (inl same)
]
set_of-IsNamed name seen (t ∷ ts) (inr found) new = elim (Bool-cases (contains seen t)) [
  | inl e ↦ rw (e, set_of) (set_of-IsNamed name seen ts found new)
  | inr e ↦
      rw (e, set_of)
        (elim (Bool-cases (t == name)) [
          | inl same ↦ inl ((eq_iff t name).0 same)
          | inr other ↦ inr (set_of-IsNamed name (t ∷ seen) ts found (rw other new))
        ])
]

abbrev key_name : Option String → ConfiguredRoute → Bool
key_name provider r = not (r.api_key_env == "") && is_wanted provider r.provider

key_names-IsNamed :
    (provider : Option String) (rs : List ConfiguredRoute)
    → All (λ r. key_name provider r ≡ true → IsNamed r.api_key_env (key_names provider rs)) rs
key_names-IsNamed provider [] = tt
key_names-IsNamed provider (r ∷ rs) = (
  λ h. subst (IsNamed r.api_key_env) (sym (if-true _ _ _ h)) (inl refl),
  All-map rs (λ x f h. more x (f h)) (key_names-IsNamed provider rs),
)
  where
    more :
        (x : ConfiguredRoute)
        → IsNamed x.api_key_env (key_names provider rs)
        → IsNamed x.api_key_env (key_names provider (r ∷ rs))
    more x found = elim (Bool-cases (key_name provider r)) [
      | inl e ↦ subst (IsNamed x.api_key_env) (sym (if-true _ _ _ e)) (inr found)
      | inr e ↦ subst (IsNamed x.api_key_env) (sym (if-false _ _ _ e)) found
    ]

-- Each route of a wanted provider that reads a key has its name among the texts.
abbrev pub NamesKeys : Option String → List ConfiguredRoute → List String → Type 0
NamesKeys provider rs names =
    All (λ r. IsWanted provider r → r.api_key_env ≢ "" → IsNamed r.api_key_env names) rs

pub required-NamesKeys :
    (provider : Option String) (rs : List ConfiguredRoute)
    → NamesKeys provider rs (sorted_texts (set_of [] (key_names provider rs)))
required-NamesKeys provider rs =
    All-map rs
      (λ r f wanted keyed. sorted_texts-IsNamed r.api_key_env _ (
        set_of-IsNamed r.api_key_env [] (key_names provider rs)
          (f (rw (same-false r.api_key_env "" keyed, is_wanted-lem provider r wanted) refl)) refl))
      (key_names-IsNamed provider rs)
