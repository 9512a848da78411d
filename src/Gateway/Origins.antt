-- ===== src/Gateway/Origins.antt =====
-- auth.go: the origins of requests that may mutate.
use mathlib.Core.Option.{none-ne-some, some-injective}
use typeclaw_operator.Prelude.{
  ◌≡◌, refl, subst, ◌⊎◌, inl, inr, Bool, true, ◌&&◌, not, Option, none, some, [], arith,
  if◌then◌else◌,
}
use typeclaw_operator.Prelude.Text.{Text, text, ◌==◌ as text_eq, eq_iff as text_eq_iff}
use typeclaw_operator.Gateway.Config.{NetLibrary, dev, loopback_host}
use typeclaw_operator.Gateway.Auth.{
  Request, Identity, Gateway, allow_insecure_origin, matching_url, matching_request_origin,
  secure_origin, same_origin, web_origin, mutation_origin_allowed,
}
use typeclaw_operator.Control.Defs.{ActorKind, human, agent}
use typeclaw_operator.Control.Actions.{is_agent}
use typeclaw_operator.Prelude.Urls.{Url}
use typeclaw_operator.Prelude.Guards.{passed, not-true}

module _ (net : NetLibrary) where
  -- The origin that a browser has named is the host that it asked, over HTTPS, or over HTTP on the
  -- loopback listener of the dev mode.
  pub record SameOrigin (g : Gateway) (r : Request) : Type 0 where
    pub url : Url
    pub named : net.parse_url (r.header "Origin") ≡ some url
    pub same_host : net.equal_fold url.host r.host ≡ true
    pub secure :
        (url.scheme ≡ text "https")
        ⊎ ((url.scheme ≡ text "http")
            × (g.config.console_auth_mode ≡ dev)
            × (g.dev_loopback_listener ≡ true)
            × (loopback_host net url.hostname ≡ true))

  Matched : Option Url → Text → Url → Type 0
  Matched o host url = (o ≡ some url) × (net.equal_fold url.host host ≡ true)

  matching_url-Matched :
      (o : Option Url) (host : Text) (url : Url)
      → matching_url net o host ≡ some url
      → Matched o host url
  unfolding matching_url Matched
  matching_url-Matched none host url h = absurd (none-ne-some _ h)
  matching_url-Matched (some u) host url h =
      let bare = passed _ h in
      let same = passed _ bare.1 in
      (
        same.1,
        subst (λ v. net.equal_fold v.host host ≡ true) (some-injective _ _ same.1)
            (not-true _ same.0),
      )

  allow_insecure_origin-dev :
      (g : Gateway)
      → allow_insecure_origin net g ≡ true
      → (g.config.console_auth_mode ≡ dev) × (g.dev_loopback_listener ≡ true)
  unfolding allow_insecure_origin
  allow_insecure_origin-dev g h = ground (arith, text_eq_iff g.config.console_auth_mode dev)

  scheme_secure :
      (scheme : Text) (insecure local : Bool)
      → (if text_eq scheme (text "https")
          then true
          else text_eq scheme (text "http") && insecure && local)
        ≡ true
      → (scheme ≡ text "https") ⊎ ((scheme ≡ text "http") × (insecure ≡ true) × (local ≡ true))
  scheme_secure scheme insecure local h =
      ground (arith, text_eq_iff scheme (text "https"), text_eq_iff scheme (text "http"))

  secured :
      (g : Gateway) (r : Request) (m : Option Url)
      → matching_request_origin net (r.header "Origin") r.host ≡ m
      → secure_origin net m (allow_insecure_origin net g) ≡ true
      → SameOrigin g r
  unfolding matching_request_origin secure_origin Matched
  secured g r none e h = absurd (ground (arith, h))
  secured g r (some url) e h =
      let m = matching_url-Matched _ r.host url e in
      record {
        url = url;
        named = m.0;
        same_host = m.1;
        secure = elim (scheme_secure url.scheme _ _ h) [
          | inl https ↦ inl https
          | inr (http, insecure, local) ↦
              let mode = allow_insecure_origin-dev g insecure in inr (http, mode.0, mode.1, local)
        ];
      }

  human_branch :
      (a : ActorKind) (x y : Bool) → a ≡ human → (if is_agent a then x else y) ≡ true → y ≡ true
  human_branch a x y e h = subst (λ b. (if is_agent b then x else y) ≡ true) e h

  otherwise : (a b : Bool) → (not a && (if a then true else b)) ≡ true → b ≡ true
  otherwise a b h = ground arith

  pub mutation_origin_allowed-SameOrigin :
      (g : Gateway) (r : Request) (id : Identity)
      → id.actor ≡ human
      → mutation_origin_allowed net g r id ≡ true
      → SameOrigin g r
  unfolding mutation_origin_allowed same_origin
  mutation_origin_allowed-SameOrigin g r id person h =
      secured g r (matching_request_origin net (r.header "Origin") r.host) refl
        (otherwise (text_eq (r.header "Origin") []) _ (human_branch id.actor _ _ person h))

  -- The agent may leave the origin out; one that it names is the host that it asked.
  abbrev pub AgentOrigin : Request → Type 0
  AgentOrigin r =
      (r.header "Origin" ≡ [])
      ⊎ ((url : Url) × (net.parse_url (r.header "Origin") ≡ some url)
          × (net.equal_fold url.host r.host ≡ true))

  web-AgentOrigin :
      (r : Request) (m : Option Url)
      → matching_request_origin net (r.header "Origin") r.host ≡ m
      → web_origin net m ≡ true
      → AgentOrigin r
  unfolding matching_request_origin web_origin Matched
  web-AgentOrigin r none e h = absurd (ground (arith, h))
  web-AgentOrigin r (some url) e h =
      let m = matching_url-Matched _ r.host url e in inr (url, m.0, m.1)

  agent_branch :
      (a : ActorKind) (x y : Bool) → a ≡ agent → (if is_agent a then x else y) ≡ true → x ≡ true
  agent_branch a x y e h = subst (λ b. (if is_agent b then x else y) ≡ true) e h

  absent_or : (a b : Bool) → (if a then true else b) ≡ true → (a ≡ true) ⊎ (b ≡ true)
  absent_or a b h = ground arith

  pub mutation_origin_allowed-AgentOrigin :
      (g : Gateway) (r : Request) (id : Identity)
      → id.actor ≡ agent
      → mutation_origin_allowed net g r id ≡ true
      → AgentOrigin r
  unfolding mutation_origin_allowed
  mutation_origin_allowed-AgentOrigin g r id plugin h =
      elim (absent_or (text_eq (r.header "Origin") []) _ (agent_branch id.actor _ _ plugin h)) [
        | inl absent ↦ inl ((text_eq_iff (r.header "Origin") []).0 absent)
        | inr web ↦
            web-AgentOrigin r (matching_request_origin net (r.header "Origin") r.host) refl web
      ]
