-- ===== src/Routing/Pick.antt =====
-- src/subllm/resolver.py: which route `resolve` picks, and what it raises.
use subllm.Prelude.{
  String, ◌⧺◌, ◌==◌, eq_iff, ◌≡◌, ◌≢◌, refl, true, false, Bool-cases, or_parts, Option, none, some,
  List, [], ◌∷◌, inl, inr, ◌⊎◌, Result, ok, err, All, Any, any, subst, sym, if-true, if-false,
}
use subllm.Dict.{Dict}
use subllm.Routing.Configured.{configured_routes, is_wanted}
use subllm.Routing.Errors.{RouteError, unknown_route, missing_credential}
use subllm.Routing.Keys.{HasKey, HasNoKey, IsKey, key_of-IsKey, unequal}
use subllm.Routing.Listed.{
  IsWanted, IsUnwanted, is_wanted-IsWanted, is_wanted-IsUnwanted, NamesKeys, required-NamesKeys,
}
use subllm.Routing.Resolve.{
  key_of, with_keys, with_key, available_routes, first_resolved, resolve, pick_or, refuse, join,
}
use subllm.Routing.Setup.{Setup}
use subllm.Types.{ConfiguredRoute, ResolvedRoute}

-- One of the routes is of the provider that the caller asked for, if any.
abbrev pub IsServed : Option String → List ConfiguredRoute → Type 0
IsServed none rs = Unit
IsServed (some name) rs = Any (λ r. r.provider ≡ name) rs

module _ (s : Setup) (credentials : Dict String) (provider : Option String) where
  -- The route is the first one of a wanted provider that has a key, and it carries that key.
  pub data IsPick : List ConfiguredRoute → ResolvedRoute → Type 0 where
    here :
        {r : ConfiguredRoute} {rs : List ConfiguredRoute} {key : String}
        → HasKey s credentials r key
        → IsWanted provider r
        → IsPick (r ∷ rs) (record { route = r; api_key = key })
    unwanted :
        {r : ConfiguredRoute} {rs : List ConfiguredRoute} {x : ResolvedRoute}
        → IsUnwanted provider r
        → IsPick rs x
        → IsPick (r ∷ rs) x
    locked :
        {r : ConfiguredRoute} {rs : List ConfiguredRoute} {x : ResolvedRoute}
        → HasNoKey s credentials r
        → IsPick rs x
        → IsPick (r ∷ rs) x

  abbrev pub IsUseless : ConfiguredRoute → Type 0
  IsUseless r = IsUnwanted provider r ⊎ HasNoKey s credentials r

  -- What the first route with a key among `rs` is.
  abbrev IsAnswer : List ConfiguredRoute → Option ResolvedRoute → Type 0
  IsAnswer rs none = All IsUseless rs
  IsAnswer rs (some x) = IsPick rs x

  skip_unwanted :
      (r : ConfiguredRoute) (rs : List ConfiguredRoute) (o : Option ResolvedRoute)
      → IsUnwanted provider r
      → IsAnswer rs o
      → IsAnswer (r ∷ rs) o
  skip_unwanted r rs none e h = (inl e, h)
  skip_unwanted r rs (some x) e h = unwanted e h

  skip_locked :
      (r : ConfiguredRoute) (rs : List ConfiguredRoute) (o : Option ResolvedRoute)
      → HasNoKey s credentials r
      → IsAnswer rs o
      → IsAnswer (r ∷ rs) o
  skip_locked r rs none e h = (inr e, h)
  skip_locked r rs (some x) e h = locked e h

  with_key-IsAnswer :
      (r : ConfiguredRoute) (rs : List ConfiguredRoute) (more : List ResolvedRoute)
      (key : Option String)
      → IsKey s credentials r key
      → IsAnswer rs (first_resolved provider more)
      → IsAnswer (r ∷ rs) (first_resolved provider (with_key r key more))
  with_key-IsAnswer r rs more none e h = skip_locked r rs (first_resolved provider more) e h
  with_key-IsAnswer r rs more (some key) e h = elim (Bool-cases (is_wanted provider r.provider)) [
    | inl w ↦
        subst (IsAnswer (r ∷ rs)) (sym (if-true _ _ _ w)) (here e (is_wanted-IsWanted provider r w))
    | inr w ↦
        subst (IsAnswer (r ∷ rs)) (sym (if-false _ _ _ w))
          (skip_unwanted r rs (first_resolved provider more) (is_wanted-IsUnwanted provider r w) h)
  ]

  with_keys-IsAnswer :
      (rs : List ConfiguredRoute)
      → IsAnswer rs (first_resolved provider (with_keys s credentials rs))
  unfolding with_keys
  with_keys-IsAnswer [] = tt
  with_keys-IsAnswer (r ∷ rs) =
      with_key-IsAnswer r rs (with_keys s credentials rs) (key_of s credentials r)
        (key_of-IsKey s credentials r) (with_keys-IsAnswer rs)

  -- What `resolve` returns or raises for the configured routes `rs`.
  pub data IsResolved (application function : String) (rs : List ConfiguredRoute)
      : Result RouteError ResolvedRoute → Type 0 where
    picked : {x : ResolvedRoute} → IsPick rs x → IsResolved application function rs (ok x)
    not_allowed :
        {name : String}
        → provider ≡ some name
        → All (λ r. r.provider ≢ name) rs
        → IsResolved application function rs (
            err (
              unknown_route
                ("route " ⧺ application ⧺ "/" ⧺ function ⧺ " does not allow provider " ⧺ name)))
    unlocked_by :
        (names : List String)
        → IsServed provider rs
        → All IsUseless rs
        → NamesKeys provider rs names
        → IsResolved application function rs (
            err (
              missing_credential (
                "no valid credential for "
                ⧺ application
                ⧺ "/"
                ⧺ function
                ⧺ "; configure one of: "
                ⧺ join ", " names)))

served :
    (name : String) (rs : List ConfiguredRoute)
    → any (λ r. r.provider == name) rs ≡ true
    → IsServed (some name) rs
served name [] h = cc
served name (r ∷ rs) h = elim (Bool-cases (r.provider == name)) [
  | inl e ↦ inl ((eq_iff r.provider name).0 e)
  | inr e ↦ inr (served name rs (rw e at h))
]

not_served :
    (name : String) (rs : List ConfiguredRoute)
    → any (λ r. r.provider == name) rs ≡ false
    → All (λ r. r.provider ≢ name) rs
not_served name [] h = tt
not_served name (r ∷ rs) h =
    let (first, rest) = or_parts (r.provider == name) _ h in
    (unequal r.provider name first, not_served name rs rest)

refuse-IsResolved :
    (s : Setup) (credentials : Dict String) (provider : Option String)
    (application function : String) (rs : List ConfiguredRoute)
    → All (IsUseless s credentials provider) rs
    → IsResolved s credentials provider application function rs
        (refuse application function provider rs)
unfolding refuse
refuse-IsResolved s credentials none application function rs h =
    unlocked_by _ tt h (required-NamesKeys none rs)
refuse-IsResolved s credentials (some name) application function rs h =
    elim (Bool-cases (any (λ r. r.provider == name) rs)) [
      | inl e ↦ rw e (unlocked_by _ (served name rs e) h (required-NamesKeys (some name) rs))
      | inr e ↦ rw e (not_allowed refl (not_served name rs e))
    ]

pick_or-IsResolved :
    (s : Setup) (credentials : Dict String) (provider : Option String)
    (application function : String) (rs : List ConfiguredRoute) (o : Option ResolvedRoute)
    → IsAnswer s credentials provider rs o
    → IsResolved s credentials provider application function rs
        (pick_or (refuse application function provider rs) o)
pick_or-IsResolved s credentials provider application function rs none h =
    refuse-IsResolved s credentials provider application function rs h
pick_or-IsResolved s credentials provider application function rs (some x) h = picked h

resolve-pick_or :
    (s : Setup) (credentials : Dict String) (provider : Option String)
    (application function : String) (rs : List ConfiguredRoute)
    → configured_routes s application function ≡ ok rs
    → resolve s application function provider credentials
      ≡ pick_or
          (refuse application function provider rs)
          (first_resolved provider (with_keys s credentials rs))
unfolding resolve available_routes
resolve-pick_or s credentials provider application function rs h = rw h refl

-- Where the routes of a function can be configured, `resolve` returns the first of them that is of the
-- wanted provider and has a key: nothing for an installed executable or a provider that needs none,
-- otherwise the provider's secret, if it is not blank, holds no part of a placeholder and, for Z.AI, is
-- a pair. Where none is both, it raises: that the provider is not allowed, if no route is of it, and
-- otherwise that a credential is missing, and the message then lists the key name of each route of the
-- wanted provider that reads a key.
pub resolve-IsResolved :
    (s : Setup) (credentials : Dict String) (provider : Option String)
    (application function : String) (rs : List ConfiguredRoute)
    → configured_routes s application function ≡ ok rs
    → IsResolved s credentials provider application function rs
        (resolve s application function provider credentials)
resolve-IsResolved s credentials provider application function rs h =
    subst (IsResolved s credentials provider application function rs)
      (sym (resolve-pick_or s credentials provider application function rs h))
      (pick_or-IsResolved s credentials provider application function rs
        (first_resolved provider (with_keys s credentials rs))
        (with_keys-IsAnswer s credentials provider rs))
