-- ===== src/Credential/Paths.antt =====
-- broker.go: the paths that name an instance, and what ParseSPIFFEID makes of them.
use mathlib.Core.Option.{none-ne-some, some-injective}
use typeclaw_operator.Prelude.{
  ◌≡◌, refl, sym, ap, ◌∙◌, subst, Bool, true, false, ◌||◌, not, some, List, [], ◌∷◌, ◌++◌, arith,
  ◌==◌, All,
}
use typeclaw_operator.Prelude.Text.{
  Text, text, ◌==◌ as text_eq, eq_iff as text_eq_iff, eq_refl as text_eq_refl, split,
}
use typeclaw_operator.Prelude.Urls.{Url}
use typeclaw_operator.Prelude.Splits.{
  IsPart, join, split_part, split_onward, join-split, split-IsPart,
}
use typeclaw_operator.Prelude.Guards.{passed}
use typeclaw_operator.Credential.Policy.{slash, is_empty_text}
use typeclaw_operator.Credential.Identity.{
  Identity, trim_left, trim_right, identity_of_parts, parse_spiffe_id,
}

abbrev pub IsName : Text → Type 0
IsName t = IsPart slash t × (is_empty_text t ≡ false)

trim_right_name : (q : Text) → IsPart slash q → trim_right q ≡ q
unfolding trim_right
trim_right_name [] h = refl
trim_right_name (c ∷ q) h =
    let other : (c == slash) ≡ false = ground (arith, h) in
    let rest : IsPart slash q = ground (arith, h) in
    rw (trim_right_name q rest) ground (arith, other)

append-nonempty : (p q : Text) → is_empty_text q ≡ false → is_empty_text (p ++ q) ≡ false
append-nonempty [] q h = h
append-nonempty (c ∷ p) q h = refl

trim_right_after :
    (p q : Text) → is_empty_text q ≡ false → trim_right q ≡ q → trim_right (p ++ q) ≡ p ++ q
unfolding trim_right
trim_right_after [] q some_left e = e
trim_right_after (c ∷ p) q some_left e =
    rw (trim_right_after p q some_left e, append-nonempty p q some_left) refl

-- The names of the grammar, `/typeclaw/ns/<namespace>/instance/<name>`.
abbrev pub instance_parts : Identity → List Text
instance_parts id = text "typeclaw" ∷ text "ns" ∷ id.namespace ∷ text "instance" ∷ id.instance ∷ []

abbrev pub instance_path : Identity → Text
instance_path id = slash ∷ join slash (instance_parts id)

instance_path-trimmed :
    (id : Identity)
    → IsName id.instance
    → trim_right (trim_left (instance_path id)) ≡ join slash (instance_parts id)
unfolding trim_left
instance_path-trimmed id n =
    trim_right_after (text "typeclaw/ns/") _ (append-nonempty id.namespace _ refl) (
      trim_right_after id.namespace _ refl
        (trim_right_after (text "/instance/") id.instance n.1 (trim_right_name id.instance n.0)))

instance_path-split :
    (id : Identity)
    → IsName id.namespace
    → IsName id.instance
    → split slash (join slash (instance_parts id)) ≡ instance_parts id
instance_path-split id space name =
    split_onward slash (text "typeclaw") _ refl
    ∙ ap (λ ps. text "typeclaw" ∷ ps)
        (split_onward slash (text "ns") _ refl
          ∙ ap (λ ps. text "ns" ∷ ps)
              (split_onward slash id.namespace _ space.0
                ∙ ap (λ ps. id.namespace ∷ ps)
                    (split_onward slash (text "instance") _ refl
                      ∙ ap (λ ps. text "instance" ∷ ps) (split_part slash id.instance name.0))))

abbrev pub spiffe_uri : Text → Identity → Url
spiffe_uri trust_domain id = record {
  scheme = text "spiffe";
  has_user = false;
  host = trust_domain;
  hostname = trust_domain;
  path = instance_path id;
  raw_query = [];
  fragment = [];
}

identity_of_instance_parts :
    (id : Identity)
    → IsName id.namespace
    → IsName id.instance
    → identity_of_parts (instance_parts id) ≡ some id
unfolding identity_of_parts text_eq
identity_of_instance_parts id space name = rw (space.1, name.1) refl

-- The URI that names an instance, whose namespace and name are not empty and free of slashes, gives
-- these in its trust domain.
pub parse_spiffe_id-spiffe_uri :
    (trust_domain : Text) (id : Identity)
    → IsName id.namespace
    → IsName id.instance
    → parse_spiffe_id (some (spiffe_uri trust_domain id)) trust_domain ≡ some id
unfolding parse_spiffe_id
parse_spiffe_id-spiffe_uri trust_domain id space name =
    rw (text_eq_refl (text "spiffe"), text_eq_refl trust_domain)
      (ap (λ t. identity_of_parts (split slash t)) (instance_path-trimmed id name)
        ∙ ap identity_of_parts (instance_path-split id space name)
        ∙ identity_of_instance_parts id space name)

five_false :
    (a b c d e : Bool)
    → (not a || not b || not c || d || e) ≡ false
    → (a ≡ true) × (b ≡ true) × (c ≡ true) × (d ≡ false) × (e ≡ false)
five_false a b c d e h = ground arith

abbrev Spells : List Text → Identity → Type 0
Spells ps id =
    (ps ≡ instance_parts id)
    × (is_empty_text id.namespace ≡ false)
    × (is_empty_text id.instance ≡ false)

-- The parts that are accepted are those of the grammar.
identity_of_parts-Spells :
    (ps : List Text) (id : Identity) → identity_of_parts ps ≡ some id → Spells ps id
unfolding identity_of_parts
identity_of_parts-Spells [] id h = absurd (none-ne-some _ h)
identity_of_parts-Spells (a ∷ []) id h = absurd (none-ne-some _ h)
identity_of_parts-Spells (a ∷ b ∷ []) id h = absurd (none-ne-some _ h)
identity_of_parts-Spells (a ∷ b ∷ n ∷ []) id h = absurd (none-ne-some _ h)
identity_of_parts-Spells (a ∷ b ∷ n ∷ c ∷ []) id h = absurd (none-ne-some _ h)
identity_of_parts-Spells (a ∷ b ∷ n ∷ c ∷ i ∷ []) id h =
    let tests =
      not (text_eq a (text "typeclaw"))
      || not (text_eq b (text "ns"))
      || not (text_eq c (text "instance"))
      || is_empty_text n
      || is_empty_text i in
    let g = passed tests h in
    let facts = five_false _ _ _ (is_empty_text n) (is_empty_text i) g.0 in
    let ea = (text_eq_iff a (text "typeclaw")).0 facts.0 in
    let eb = (text_eq_iff b (text "ns")).0 facts.1 in
    let ec = (text_eq_iff c (text "instance")).0 facts.2 in
    subst (λ d. Spells (a ∷ b ∷ n ∷ c ∷ i ∷ []) d) (some-injective _ _ g.1)
      (λ j. ea j ∷ eb j ∷ n ∷ ec j ∷ i ∷ [], facts.3, facts.4)
identity_of_parts-Spells (a ∷ b ∷ n ∷ c ∷ i ∷ d ∷ ps) id h = absurd (none-ne-some _ h)

four_true : (a b c d : Bool) → (not a || not b || not c || not d) ≡ false → (a ≡ true) × (b ≡ true)
four_true a b c d h = ground arith

-- The URI names the instance: but for slashes at the ends of its path, it is that of the grammar.
abbrev pub Names : Text → Url → Identity → Type 0
Names trust_domain uri id =
    (uri.scheme ≡ text "spiffe")
    × (uri.host ≡ trust_domain)
    × (trim_right (trim_left uri.path) ≡ join slash (instance_parts id))
    × IsName id.namespace
    × IsName id.instance

pub parse_spiffe_id-Names :
    (trust_domain : Text) (uri : Url) (id : Identity)
    → parse_spiffe_id (some uri) trust_domain ≡ some id
    → Names trust_domain uri id
unfolding parse_spiffe_id
parse_spiffe_id-Names trust_domain uri id h =
    let tests =
      not (text_eq uri.scheme (text "spiffe"))
      || not (text_eq uri.host trust_domain)
      || not (is_empty_text uri.raw_query)
      || not (is_empty_text uri.fragment) in
    let g = passed tests h in
    let facts = four_true _ _ (is_empty_text uri.raw_query) (is_empty_text uri.fragment) g.0 in
    let path = trim_right (trim_left uri.path) in
    let parts = identity_of_parts-Spells (split slash path) id g.1 in
    let free = subst (All (IsPart slash)) parts.0 (split-IsPart slash path) in
    (
      (text_eq_iff uri.scheme (text "spiffe")).0 facts.0,
      (text_eq_iff uri.host trust_domain).0 facts.1,
      sym (join-split slash path) ∙ ap (join slash) parts.0,
      (free.1.1.0, parts.1),
      (free.1.1.1.1.0, parts.2),
    )
