-- ===== src/Routing/Credentials.antt =====
-- src/subllm/credential_env.py: `credential_is_valid`. `upper` is Python's `str.upper`.
use subllm.Prelude.{
  String, Bool, true, false, not, ◌&&◌, ◌||◌, List, [], ◌∷◌, ◌==◌, any, strip, split, is_within,
  if◌then◌else◌,
}

abbrev pub placeholder_parts : List String
placeholder_parts =
    "ADD_SIGNATURE_SECRET" ∷ "SIGNATURE_SECRET" ∷ "CHANGEME" ∷ "PLACEHOLDER" ∷ "<" ∷ ">" ∷ []

-- A key id and a secret with one point between them.
abbrev pub is_pair : List String → Bool
is_pair (key_id ∷ signature_secret ∷ []) = not (key_id == "") && not (signature_secret == "")
is_pair _ = false

unfoldable pub credential_is_valid : (String → String) → String → String → Bool
credential_is_valid upper provider value =
    let candidate = strip value in
    if candidate == "" || any (λ part. is_within part (upper candidate)) placeholder_parts
    then false
    else if provider == "zai"
    then is_pair (split b'.' candidate)
    else true
