-- ===== src/Json.antt =====
-- JSON documents as `json.loads` returns them. An object holds its members in order, and their
-- names are distinct, as in a `dict`. A float is its value in millionths; `nonfinite` is NaN and
-- the infinities, which `json.loads` accepts.
use subllm.Prelude.{String, Bool, ℤ, List, [], ◌∷◌, ◌&&◌, all, contains}
use subllm.Dict.{Dict}

mutual
  pub data Json : Type 0 where
    null : Json
    boolean : Bool → Json
    int : ℤ → Json
    float : ℤ → Json
    nonfinite : Json
    text : String → Json
    array : Items → Json
    object : Fields → Json

  pub data Items : Type 0 where
    nil : Items
    cons : Json → Items → Items

  pub data Fields : Type 0 where
    end : Fields
    field : String → Json → Fields → Fields

abbrev pub members : Fields → Dict Json
members end = []
members (field k v fs) = (k, v) ∷ members fs

abbrev pub fields : Dict Json → Fields
fields [] = end
fields ((k, v) ∷ d) = field k v (fields d)

abbrev pub keys {ℓ} : {V : Type ℓ} → Dict V → List String
keys [] = []
keys ((k, v) ∷ d) = k ∷ keys d

-- `set(d) == names`
abbrev pub has_keys {ℓ} : {V : Type ℓ} → Dict V → List String → Bool
has_keys d names = all (contains names) (keys d) && all (contains (keys d)) names
