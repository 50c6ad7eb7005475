-- ===== src/Routing/Keys.antt =====
-- src/subllm/resolver.py, credential_env.py: which routes have a key that is valid.
use subllm.Prelude.{
  String, ◌==◌, eq_iff, ◌≡◌, ◌≢◌, refl, Bool, true, false, not, ◌||◌, Bool-cases, and_parts,
  or_parts, if-true, if-false, not-true, Option, none, some, List, [], ◌∷◌, inl, inr, All, any,
  subst, sym, ap, ◌∙◌, strip, split, is_within, if◌then◌else◌,
}
use subllm.Dict.{Dict, lookup}
use subllm.Routing.Credentials.{credential_is_valid, placeholder_parts, is_pair}
use subllm.Routing.Order.{secret}
use subllm.Routing.Resolve.{cli_executables, key_of}
use subllm.Routing.Setup.{Setup}
use subllm.Types.{ConfiguredRoute}

-- A text that may be a credential: it is not blank and holds no part of a placeholder, and one of Z.AI
-- is two texts with a point between them.
pub record IsCredential (upper : String → String) (provider value : String) : Type 0 where
  pub filled : strip value ≢ ""
  pub genuine : All (λ part. is_within part (upper (strip value)) ≡ false) placeholder_parts
  pub paired :
      provider ≡ "zai"
      → (id : String) × (signature : String) × (split b'.' (strip value) ≡ id ∷ signature ∷ [])
        × (id ≢ "")
        × (signature ≢ "")

pub unequal : (a b : String) → (a == b) ≡ false → a ≢ b
unequal a b h e = cc ((eq_iff a b).1 e, h)

none_within :
    (text : String) (parts : List String)
    → any (λ part. is_within part text) parts ≡ false
    → All (λ part. is_within part text ≡ false) parts
none_within text [] h = tt
none_within text (p ∷ ps) h =
    let (first, rest) = or_parts (is_within p text) _ h in (first, none_within text ps rest)

within_none :
    (text : String) (parts : List String)
    → All (λ part. is_within part text ≡ false) parts
    → any (λ part. is_within part text) parts ≡ false
within_none text [] h = refl
within_none text (p ∷ ps) h = rw h.0 (within_none text ps h.1)

is_pair-parts :
    (parts : List String)
    → is_pair parts ≡ true
    → (id : String) × (signature : String) × (parts ≡ id ∷ signature ∷ [])
      × (id ≢ "")
      × (signature ≢ "")
is_pair-parts (id ∷ signature ∷ []) h =
    let (a, b) = and_parts (not (id == "")) _ h in
    (id, signature, refl, unequal id "" (not-true _ a), unequal signature "" (not-true _ b))
is_pair-parts [] h = cc
is_pair-parts (a ∷ []) h = cc
is_pair-parts (a ∷ b ∷ c ∷ more) h = cc

pub same-false : (a b : String) → a ≢ b → (a == b) ≡ false
same-false a b h = elim (Bool-cases (a == b)) [ inl e ↦ absurd (h ((eq_iff a b).0 e)) | inr e ↦ e ]

parts-is_pair :
    (id signature : String) → id ≢ "" → signature ≢ "" → is_pair (id ∷ signature ∷ []) ≡ true
parts-is_pair id signature a b = rw (same-false id "" a, same-false signature "" b) refl

module _ (upper : String → String) (provider value : String) where
  abbrev rejected : Bool
  rejected =
      strip value == "" || any (λ part. is_within part (upper (strip value))) placeholder_parts

  valid-IsCredential :
      credential_is_valid upper provider value ≡ true → IsCredential upper provider value
  unfolding credential_is_valid
  valid-IsCredential h = elim (Bool-cases rejected) [
    | inl e ↦ absurd (cc (sym (if-true _ _ rejected e) ∙ h))
    | inr e ↦
        let (filled, genuine) = or_parts (strip value == "") _ e in
        record {
          filled = unequal (strip value) "" filled;
          genuine = none_within (upper (strip value)) placeholder_parts genuine;
          paired = λ zai. is_pair-parts (split b'.' (strip value)) (
              sym (if-true _ _ (provider == "zai") ((eq_iff provider "zai").1 zai))
              ∙ sym (if-false _ _ rejected e)
              ∙ h);
        }
  ]

  IsCredential-valid :
      IsCredential upper provider value → credential_is_valid upper provider value ≡ true
  unfolding credential_is_valid
  IsCredential-valid c =
      if-false _ _ rejected (
        rw (same-false (strip value) "" c.filled)
          (within_none (upper (strip value)) placeholder_parts c.genuine))
      ∙ elim (Bool-cases (provider == "zai")) [
        | inl e ↦
            let (id, signature, parts, a, b) = c.paired ((eq_iff provider "zai").0 e) in
            if-true _ _ _ e ∙ ap is_pair parts ∙ parts-is_pair id signature a b
        | inr e ↦ if-false _ _ _ e
      ]

module _ (s : Setup) (credentials : Dict String) where
  -- What a route is called with: nothing for an executable that is installed or a provider that needs no
  -- key, and otherwise the provider's key, if it is a credential.
  pub data HasKey (r : ConfiguredRoute) : String → Type 0 where
    installed :
        {executable : String}
        → lookup r.transport cli_executables ≡ some executable
        → s.which executable ≡ true
        → HasKey r ""
    keyless : lookup r.transport cli_executables ≡ none → r.api_key_env ≡ "" → HasKey r ""
    keyed :
        lookup r.transport cli_executables ≡ none
        → r.api_key_env ≢ ""
        → IsCredential s.upper r.provider
            (secret credentials s.environment r.provider r.api_key_env)
        → HasKey r (secret credentials s.environment r.provider r.api_key_env)

  -- Why a route has no key.
  pub data HasNoKey (r : ConfiguredRoute) : Type 0 where
    missing :
        {executable : String}
        → lookup r.transport cli_executables ≡ some executable
        → s.which executable ≡ false
        → HasNoKey r
    no_credential :
        lookup r.transport cli_executables ≡ none
        → r.api_key_env ≢ ""
        → ¬ IsCredential s.upper r.provider
            (secret credentials s.environment r.provider r.api_key_env)
        → HasNoKey r

  abbrev pub IsKey : ConfiguredRoute → Option String → Type 0
  IsKey r none = HasNoKey r
  IsKey r (some key) = HasKey r key

  abbrev key_in : ConfiguredRoute → String → Option String
  key_in r api_key =
      if r.api_key_env == ""
      then some ""
      else if credential_is_valid s.upper r.provider api_key
      then some api_key
      else none

  called-IsKey :
      (r : ConfiguredRoute)
      → lookup r.transport cli_executables ≡ none
      → IsKey r (key_in r (secret credentials s.environment r.provider r.api_key_env))
  called-IsKey r called =
      let value : String = secret credentials s.environment r.provider r.api_key_env in
      elim (Bool-cases (r.api_key_env == "")) [
        | inl e ↦
            subst (IsKey r) (sym (if-true _ _ _ e)) (keyless called ((eq_iff r.api_key_env "").0 e))
        | inr e ↦
            subst (IsKey r) (sym (if-false _ _ _ e))
              (elim (Bool-cases (credential_is_valid s.upper r.provider value)) [
                | inl v ↦ subst (IsKey r) (sym (if-true _ _ _ v)) (
                    keyed called (unequal r.api_key_env "" e)
                      (valid-IsCredential s.upper r.provider value v))
                | inr v ↦ subst (IsKey r) (sym (if-false _ _ _ v)) (
                    no_credential called (unequal r.api_key_env "" e)
                      (λ c. cc (IsCredential-valid s.upper r.provider value c, v)))
              ])
      ]

  pub key_of-IsKey : (r : ConfiguredRoute) → IsKey r (key_of s credentials r)
  unfolding key_of
  key_of-IsKey r =
      elim (lookup r.transport cli_executables)
          as (λ o.
            lookup r.transport cli_executables ≡ o
            → IsKey r (elim o [
              | some executable ↦ if s.which executable then some "" else none
              | none ↦ key_in r (secret credentials s.environment r.provider r.api_key_env)
            ])) [
              | none ↦ λ e. called-IsKey r e
              | some executable ↦ λ e. elim (Bool-cases (s.which executable)) [
                | inl w ↦ subst (IsKey r) (sym (if-true _ _ _ w)) (installed e w)
                | inr w ↦ subst (IsKey r) (sym (if-false _ _ _ w)) (missing e w)
              ]
            ]
        refl
