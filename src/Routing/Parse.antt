-- ===== src/Routing/Parse.antt =====
-- src/subllm/provider_order.py: `parse_provider_order` reads back what is written with commas.
use subllm.Prelude.{
  String, ◌⧺◌, ◌≡◌, refl, Bool, true, false, not, and_parts, not-true, if-false, List, [], ◌∷◌,
  ◌==◌, eqb, map, any, all, contains, Char, code, codes, strip, split, push_char, ok, >>=-eq-ok,
  require-eq-ok, ok-injective, All, All-map, subst, ap, ◌∙◌,
}
use subllm.Policy.Overlay.{Catalogs, is_orderable}
use subllm.Routing.Order.{parse_parts, check_parts, parse_provider_order}
use subllm.Routing.Resolve.{join}

abbrev pub has_no_comma : String → Bool
has_no_comma name = all (λ c. not (eqb c b',')) (codes name)

-- A name that can stand in the list.
pub record IsPlainName (c : Catalogs) (name : String) : Type 0 where
  pub bare : strip name ≡ name
  pub filled : (name == "") ≡ false
  pub unbroken : has_no_comma name ≡ true
  pub known : is_orderable c name ≡ true

-- No name stands in the list before.
abbrev pub AreNew : List String → List String → Type 0
AreNew seen [] = Unit
AreNew seen (x ∷ xs) = (contains seen x ≡ false) × AreNew (x ∷ seen) xs

first_plain :
    (c : Char) (s : String)
    → has_no_comma (String.◌∷◌ c s) ≡ true
    → (eqb (code c) b',' ≡ false) × (has_no_comma s ≡ true)
first_plain c s h =
    let parts = and_parts (not (eqb (code c) b',')) (has_no_comma s) h in
    (not-true (eqb (code c) b',') parts.0, parts.1)

split-plain : (name : String) → has_no_comma name ≡ true → split b',' name ≡ name ∷ []
unfolding split
split-plain String.[] h = refl
split-plain (String.◌∷◌ c s) h =
    let parts = first_plain c s h in
    if-false _ _ (eqb (code c) b',') parts.0 ∙ ap (push_char c) (split-plain s parts.1)

split-append :
    (name rest : String)
    → has_no_comma name ≡ true
    → split b',' (name ⧺ "," ⧺ rest) ≡ name ∷ split b',' rest
unfolding split
split-append String.[] rest h = refl
split-append (String.◌∷◌ c s) rest h =
    let parts = first_plain c s h in
    if-false _ _ (eqb (code c) b',') parts.0 ∙ ap (push_char c) (split-append s rest parts.1)

split-join :
    (name : String) (names : List String)
    → All (λ x. has_no_comma x ≡ true) (name ∷ names)
    → split b',' (join "," (name ∷ names)) ≡ name ∷ names
split-join name [] h = split-plain name h.0
split-join name (next ∷ names) h =
    split-append name (join "," (next ∷ names)) h.0 ∙ ap (◌∷◌ name) (split-join next names h.1)

map-strip : (names : List String) → All (λ x. strip x ≡ x) names → map strip names ≡ names
map-strip [] h = refl
map-strip (x ∷ xs) h = rw (h.0, map-strip xs h.1) refl

none_empty :
    (names : List String) → All (λ x. (x == "") ≡ false) names → any (λ x. x == "") names ≡ false
none_empty [] h = refl
none_empty (x ∷ xs) h = rw h.0 (none_empty xs h.1)

parse_parts-plain :
    (c : Catalogs) (seen names : List String)
    → All (λ x. is_orderable c x ≡ true) names
    → AreNew seen names
    → parse_parts c seen names ≡ ok names
unfolding parse_parts
parse_parts-plain c seen [] h new = refl
parse_parts-plain c seen (x ∷ xs) h new =
    rw (h.0, new.0, parse_parts-plain c (x ∷ seen) xs h.1 new.1) refl

check_parts-plain :
    (c : Catalogs) (names : List String)
    → All (IsPlainName c) names
    → AreNew [] names
    → check_parts c names ≡ ok names
unfolding check_parts
check_parts-plain c names h new =
    rw (none_empty names (All-map names (λ x p. p.filled) h))
      (parse_parts-plain c [] names (All-map names (λ x p. p.known) h) new)

-- What `parse_provider_order` reads of names joined by commas, each orderable, without a comma and
-- without white space around it, none of them empty and no two the same: the names, in their order.
pub parse_provider_order-join :
    (c : Catalogs) (name : String) (names : List String)
    → All (IsPlainName c) (name ∷ names)
    → AreNew [] (name ∷ names)
    → parse_provider_order c (join "," (name ∷ names)) ≡ ok (name ∷ names)
unfolding parse_provider_order
parse_provider_order-join c name names h new =
    let all_names = name ∷ names in
    let parts : map strip (split b',' (join "," all_names)) ≡ all_names =
      ap (map strip) (split-join name names (All-map all_names (λ x p. p.unbroken) h))
      ∙ map-strip all_names (All-map all_names (λ x p. p.bare) h) in
    ap (check_parts c) parts ∙ check_parts-plain c all_names h new

parse_parts-AreNew :
    (c : Catalogs) (seen parts order : List String)
    → parse_parts c seen parts ≡ ok order
    → All (λ x. is_orderable c x ≡ true) order × AreNew seen order
unfolding parse_parts
parse_parts-AreNew c seen [] order h =
    subst (λ o. All (λ x. is_orderable c x ≡ true) o × AreNew seen o) (ok-injective h) (tt, tt)
parse_parts-AreNew c seen (x ∷ xs) order h =
    let (e0, h0) = require-eq-ok (is_orderable c x) _ _ h in
    let (e1, h1) = require-eq-ok (not (contains seen x)) _ _ h0 in
    let (rest, e2, h2) = >>=-eq-ok (parse_parts c (x ∷ seen) xs) _ h1 in
    let more = parse_parts-AreNew c (x ∷ seen) xs rest e2 in
    subst (λ o. All (λ x. is_orderable c x ≡ true) o × AreNew seen o) (ok-injective h2)
      ((e0, more.0), (not-true (contains seen x) e1, more.1))

-- An order that `parse_provider_order` returns names only orderable providers, and none of them twice.
pub parse_provider_order-AreNew :
    (c : Catalogs) (raw : String) (order : List String)
    → parse_provider_order c raw ≡ ok order
    → All (λ x. is_orderable c x ≡ true) order × AreNew [] order
unfolding parse_provider_order check_parts
parse_provider_order-AreNew c raw order h =
    let parts = map strip (split b',' raw) in
    parse_parts-AreNew c [] parts order
      (require-eq-ok (not (any (λ part. part == "") parts)) _ _ h).1
