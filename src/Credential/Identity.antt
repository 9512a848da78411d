-- ===== src/Credential/Identity.antt =====
-- broker.go: the SPIFFE identity of the instance behind a connection.
use typeclaw_operator.Prelude.{
  ◌&&◌, ◌||◌, not, Option, none, some, List, [], ◌∷◌, ◌++◌, ◌==◌, if◌then◌else◌, is_some,
}
use typeclaw_operator.Prelude.Text.{Text, text, ◌==◌ as text_eq, split}
use typeclaw_operator.Prelude.Urls.{Url}
use typeclaw_operator.Credential.Policy.{slash, is_empty_text}

pub record Identity : Type 0 where
  pub namespace : Text
  pub instance : Text

-- `strings.Trim(s, "/")`.
unfoldable pub trim_left : Text → Text
trim_left [] = []
trim_left (c ∷ s) = let rest = trim_left s in if c == slash then rest else c ∷ s

unfoldable pub trim_right : Text → Text
trim_right [] = []
trim_right (c ∷ s) =
    let rest = trim_right s in if is_empty_text rest && c == slash then [] else c ∷ rest

unfoldable pub identity_of_parts : List Text → Option Identity
identity_of_parts (a ∷ b ∷ namespace ∷ c ∷ instance ∷ []) =
    if not (text_eq a (text "typeclaw"))
      || not (text_eq b (text "ns"))
      || not (text_eq c (text "instance"))
      || is_empty_text namespace
      || is_empty_text instance
    then none
    else some record { namespace = namespace; instance = instance }
identity_of_parts _ = none

-- A nil URI is `none`.
unfoldable pub parse_spiffe_id : Option Url → Text → Option Identity
unfolding trim_left trim_right identity_of_parts split
parse_spiffe_id none trust_domain = none
parse_spiffe_id (some uri) trust_domain =
    if not (text_eq uri.scheme (text "spiffe"))
      || not (text_eq uri.host trust_domain)
      || not (is_empty_text uri.raw_query)
      || not (is_empty_text uri.fragment)
    then none
    else identity_of_parts (split slash (trim_right (trim_left uri.path)))

-- The loops of `identityFromRequest`, over the URIs of all peer certificates: the identity found so
-- far goes along, and a second one is refused.
unfoldable pub search_identity : Text → Option Identity → List (Option Url) → Option Identity
unfolding parse_spiffe_id
search_identity trust_domain seen [] = seen
search_identity trust_domain seen (uri ∷ uris) =
    let candidate = parse_spiffe_id uri trust_domain in
    let skipping = search_identity trust_domain seen uris in
    let taking = search_identity trust_domain candidate uris in
    if not (is_some candidate) then skipping else if is_some seen then none else taking

abbrev pub flatten : List (List (Option Url)) → List (Option Url)
flatten [] = []
flatten (uris ∷ certificates) = uris ++ flatten certificates

-- The certificates of the peer, each with its URIs; a connection without TLS has none.
unfoldable pub identity_from_request : List (List (Option Url)) → Text → Option Identity
unfolding search_identity
identity_from_request certificates trust_domain =
    search_identity trust_domain none (flatten certificates)
