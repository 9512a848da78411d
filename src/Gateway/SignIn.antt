-- ===== src/Gateway/SignIn.antt =====
-- auth.go: what a request that is let through has shown.
use mathlib.Core.Option.{none-ne-some}
use typeclaw_operator.Prelude.{
  ◌≡◌, refl, sym, ap, ◌∙◌, ◌≢◌, inl, inr, Bool, true, false, ◌||◌, not, Option, none, some, List,
  [], ◌∷◌, ◌++◌, arith, In,
}
use typeclaw_operator.Prelude.Text.{Text, text, ◌==◌ as text_eq, eq_iff as text_eq_iff, has_prefix}
use typeclaw_operator.Gateway.Config.{NetLibrary, allowed_login, tailscale, trusted_proxy, dev}
use typeclaw_operator.Gateway.Auth.{
  Request, Identity, Gateway, constant_time_equal, trim_prefix, bearer, authenticate_agent,
  owner_identity, authenticate_tailscale, authenticate_trusted_proxy, authenticate_dev,
  authenticate_human,
}
use typeclaw_operator.Control.Defs.{ActorKind, human, agent}
use typeclaw_operator.Prelude.Guards.{passed, chosen, not-true, or-false}

constant_time_equal-same :
    (got want : Text) → constant_time_equal got want ≡ true → (got ≡ want) × (want ≢ [])
unfolding constant_time_equal
constant_time_equal-same got want h = ground (arith, text_eq_iff got want, text_eq_iff want [])

last_false : (a b c d : Bool) → (a || b || not c || not d) ≡ false → (c ≡ true) × (d ≡ true)
last_false a b c d h = ground arith

abbrev actor_of : Option Identity → ActorKind
actor_of none = agent
actor_of (some id) = id.actor

trim_prefix-back : (s p : Text) → has_prefix s p ≡ true → s ≡ p ++ trim_prefix s p
unfolding trim_prefix has_prefix
trim_prefix-back s [] h = refl
trim_prefix-back [] (c ∷ p) h = ground arith
trim_prefix-back (d ∷ s) (c ∷ p) h = ground (arith, trim_prefix-back s p)

allowed_login-In :
    (logins : List Text) (login : Text) → allowed_login logins login ≡ true → In login logins
unfolding allowed_login
allowed_login-In [] login h = absurd (ground arith)
allowed_login-In (c ∷ logins) login h =
    ground (arith, text_eq_iff c login, allowed_login-In logins login)

abbrev pub AgentCredential : Gateway → Request → Type 0
AgentCredential g r =
    (r.header "Authorization" ≡ bearer ++ g.config.agent_token) × (g.config.agent_token ≢ [])

pub authenticate_agent-AgentCredential :
    (g : Gateway) (r : Request) (id : Identity)
    → authenticate_agent g r ≡ some id
    → AgentCredential g r × (id.actor ≡ agent)
unfolding authenticate_agent
authenticate_agent-AgentCredential g r id h =
    let admitted = passed _ h in
    let shown = or-false _ _ admitted.0 in
    let same_token = constant_time_equal-same _ _ (not-true _ shown.1) in
    (
      (
        trim_prefix-back _ bearer (not-true _ shown.0) ∙ ap (λ t. bearer ++ t) same_token.0,
        same_token.1,
      ),
      sym (ap actor_of admitted.1),
    )

owner_identity_owned :
    (g : Gateway) (issuer subject : Text) (id : Identity)
    → owner_identity g issuer subject ≡ some id
    → (issuer ≡ g.config.owner_issuer) × (subject ≡ g.config.owner_subject) × (id.actor ≡ human)
unfolding owner_identity
owner_identity_owned g issuer subject id h =
    let foreign =
      text_eq issuer []
      || text_eq subject []
      || not (text_eq issuer g.config.owner_issuer)
      || not (text_eq subject g.config.owner_subject) in
    let owned = passed foreign h in
    let both = last_false (text_eq issuer []) (text_eq subject []) _ _ owned.0 in
    (
      (text_eq_iff _ g.config.owner_issuer).0 both.0,
      (text_eq_iff _ g.config.owner_subject).0 both.1,
      sym (ap actor_of owned.1),
    )

module _ (net : NetLibrary) where
  pub data ConsoleCredential (g : Gateway) (r : Request) : Type 0 where
    asserted_login :
        g.config.console_auth_mode ≡ tailscale
        → net.equal_fold (net.trim_space (r.header "X-Forwarded-Proto")) (text "https") ≡ true
        → In (net.trim_space (r.header "Tailscale-User-Login")) g.config.allowed_logins
        → ConsoleCredential g r
    asserted_owner :
        g.config.console_auth_mode ≡ trusted_proxy
        → r.header "X-Personal-Desktop-Proxy-Token" ≡ g.config.auth_proxy_token
        → g.config.auth_proxy_token ≢ []
        → net.trim_space (r.header "X-Personal-Desktop-Issuer") ≡ g.config.owner_issuer
        → net.trim_space (r.header "X-Personal-Desktop-Subject") ≡ g.config.owner_subject
        → ConsoleCredential g r
    local_token :
        g.config.console_auth_mode ≡ dev
        → g.dev_loopback_listener ≡ true
        → r.dev_token ≡ g.config.dev_access_token
        → g.config.dev_access_token ≢ []
        → ConsoleCredential g r

  authenticate_tailscale-ConsoleCredential :
      (g : Gateway) (r : Request) (id : Identity)
      → g.config.console_auth_mode ≡ tailscale
      → authenticate_tailscale net g r ≡ some id
      → ConsoleCredential g r × (id.actor ≡ human)
  unfolding authenticate_tailscale
  authenticate_tailscale-ConsoleCredential g r id mode h =
      let secure = passed _ h in
      let present = passed _ secure.1 in
      let listed = passed _ present.1 in
      (
        asserted_login mode (not-true _ secure.0) (allowed_login-In _ _ (not-true _ listed.0)),
        sym (ap actor_of listed.1),
      )

  authenticate_trusted_proxy-ConsoleCredential :
      (g : Gateway) (r : Request) (id : Identity)
      → g.config.console_auth_mode ≡ trusted_proxy
      → authenticate_trusted_proxy net g r ≡ some id
      → ConsoleCredential g r × (id.actor ≡ human)
  unfolding authenticate_trusted_proxy
  authenticate_trusted_proxy-ConsoleCredential g r id mode h =
      let trusted = passed _ {x = owner_identity g _ _} h in
      let token = constant_time_equal-same _ _ (not-true _ trusted.0) in
      let owned = owner_identity_owned g _ _ id trusted.1 in
      (asserted_owner mode token.0 token.1 owned.0 owned.1, owned.2)

  authenticate_dev-ConsoleCredential :
      (g : Gateway) (r : Request) (id : Identity)
      → g.config.console_auth_mode ≡ dev
      → authenticate_dev net g r ≡ some id
      → ConsoleCredential g r × (id.actor ≡ human)
  unfolding authenticate_dev
  authenticate_dev-ConsoleCredential g r id mode h =
      let local = passed _ h in
      let host = passed _ local.1 in
      let known = passed _ host.1 in
      let token = constant_time_equal-same _ _ (not-true _ known.0) in
      (local_token mode (not-true _ local.0) token.0 token.1, sym (ap actor_of known.1))

  pub authenticate_human-ConsoleCredential :
      (g : Gateway) (r : Request) (id : Identity)
      → authenticate_human net g r ≡ some id
      → ConsoleCredential g r × (id.actor ≡ human)
  unfolding authenticate_human
  authenticate_human-ConsoleCredential g r id h =
      elim (chosen (text_eq g.config.console_auth_mode tailscale)
        {x = authenticate_tailscale net g r} h) [
          | inl (mode, x) ↦
              authenticate_tailscale-ConsoleCredential g r id ((text_eq_iff _ tailscale).0 mode) x
          | inr (other, x) ↦
              elim (chosen (text_eq g.config.console_auth_mode trusted_proxy)
                {x = authenticate_trusted_proxy net g r} x) [
                  | inl (mode, y) ↦
                      authenticate_trusted_proxy-ConsoleCredential g r id
                        ((text_eq_iff _ trusted_proxy).0 mode) y
                  | inr (neither, y) ↦
                      elim (chosen (text_eq g.config.console_auth_mode dev)
                        {x = authenticate_dev net g r} y) [
                          | inl (mode, z) ↦
                              authenticate_dev-ConsoleCredential g r id ((text_eq_iff _ dev).0 mode)
                                z
                          | inr (unknown, z) ↦ absurd (none-ne-some _ z)
                        ]
                ]
        ]
