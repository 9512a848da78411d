-- ===== src/Gateway/Auth.antt =====
-- auth.go: the identity behind a request of either listener, and the origins that may mutate.
-- `header` is `r.Header.Get`, and `dev_token` the value of that name in the query.
use typeclaw_operator.Prelude.{
  String, Bool, true, false, ◌&&◌, ◌||◌, not, Option, none, some, [], ◌∷◌, ◌++◌, leb, ◌==◌,
  if◌then◌else◌, length,
}
use typeclaw_operator.Prelude.Text.{Text, text, ◌==◌ as text_eq, has_prefix}
use typeclaw_operator.Gateway.Config.{
  NetLibrary, Config, allowed_login, tailscale, trusted_proxy, dev, loopback_host,
}
use typeclaw_operator.Control.Defs.{ActorKind, human, agent}
use typeclaw_operator.Control.Actions.{is_agent}
use typeclaw_operator.Prelude.Urls.{Url}

pub record Request : Type 0 where
  pub header : String → Text
  pub host : Text
  pub dev_token : Text

pub data AuthMode : Type 0 where
  agent_bearer by_tailscale by_trusted_proxy by_dev : AuthMode

pub record Identity : Type 0 where
  pub issuer : Text
  pub subject : Text
  pub login : Text
  pub actor : ActorKind
  pub auth_mode : AuthMode

-- What the gateway knows of itself; `dev_loopback_listener` is set when the console is bound.
pub record Gateway : Type 0 where
  pub config : Config
  pub dev_loopback_listener : Bool

-- `subtle.ConstantTimeCompare` on texts of one length.
unfoldable pub constant_time_equal : Text → Text → Bool
constant_time_equal got want =
    if not (length got == length want) || text_eq want [] then false else text_eq got want

unfoldable pub trim_prefix : Text → Text → Text
trim_prefix s [] = s
trim_prefix [] (c ∷ p) = []
trim_prefix (d ∷ s) (c ∷ p) = trim_prefix s p

abbrev pub bearer : Text
bearer = text "Bearer "

unfoldable pub authenticate_agent : Gateway → Request → Option Identity
unfolding constant_time_equal trim_prefix has_prefix
authenticate_agent g r =
    let authorization = r.header "Authorization" in
    if not (has_prefix authorization bearer)
      || not (constant_time_equal (trim_prefix authorization bearer) g.config.agent_token)
    then none
    else some record {
      issuer = g.config.owner_issuer;
      subject = g.config.owner_subject;
      login = [];
      actor = agent;
      auth_mode = agent_bearer;
    }

-- `authenticateTrustedProxy` after its test of the token.
unfoldable pub owner_identity : Gateway → Text → Text → Option Identity
owner_identity g issuer subject =
    if text_eq issuer []
      || text_eq subject []
      || not (text_eq issuer g.config.owner_issuer)
      || not (text_eq subject g.config.owner_subject)
    then none
    else some record {
      issuer = issuer;
      subject = subject;
      login = subject;
      actor = human;
      auth_mode = by_trusted_proxy;
    }

module _ (net : NetLibrary) where
  unfoldable pub authenticate_tailscale : Gateway → Request → Option Identity
  authenticate_tailscale g r =
      let login = net.trim_space (r.header "Tailscale-User-Login") in
      if not (net.equal_fold (net.trim_space (r.header "X-Forwarded-Proto")) (text "https"))
      then none
      else if text_eq login [] || not (leb (length login) 512)
      then none
      else if not (allowed_login g.config.allowed_logins login)
      then none
      else some record {
        issuer = g.config.owner_issuer;
        subject = login;
        login = login;
        actor = human;
        auth_mode = by_tailscale;
      }

  unfoldable pub authenticate_trusted_proxy : Gateway → Request → Option Identity
  unfolding constant_time_equal owner_identity
  authenticate_trusted_proxy g r =
      if not
        (constant_time_equal (r.header "X-Personal-Desktop-Proxy-Token") g.config.auth_proxy_token)
      then none
      else owner_identity g (net.trim_space (r.header "X-Personal-Desktop-Issuer"))
          (net.trim_space (r.header "X-Personal-Desktop-Subject"))

  unfoldable pub loopback_url : Option Url → Bool
  loopback_url none = false
  loopback_url (some url) =
      not url.has_user && not (text_eq url.hostname []) && loopback_host net url.hostname

  unfoldable pub is_loopback_request_host : Text → Bool
  unfolding loopback_url
  is_loopback_request_host host = loopback_url (net.parse_url (text "//" ++ host))

  unfoldable pub authenticate_dev : Gateway → Request → Option Identity
  unfolding constant_time_equal is_loopback_request_host
  authenticate_dev g r =
      if not g.dev_loopback_listener
      then none
      else if not (is_loopback_request_host r.host)
      then none
      else if not (constant_time_equal r.dev_token g.config.dev_access_token)
      then none
      else some record {
        issuer = g.config.owner_issuer;
        subject = g.config.owner_subject;
        login = g.config.owner_subject;
        actor = human;
        auth_mode = by_dev;
      }

  unfoldable pub authenticate_human : Gateway → Request → Option Identity
  unfolding authenticate_tailscale authenticate_trusted_proxy authenticate_dev
  authenticate_human g r =
      if text_eq g.config.console_auth_mode tailscale
      then authenticate_tailscale g r
      else if text_eq g.config.console_auth_mode trusted_proxy
      then authenticate_trusted_proxy g r
      else if text_eq g.config.console_auth_mode dev
      then authenticate_dev g r
      else none

  unfoldable pub allow_insecure_origin : Gateway → Bool
  allow_insecure_origin g = text_eq g.config.console_auth_mode dev && g.dev_loopback_listener

  unfoldable pub matching_url : Option Url → Text → Option Url
  matching_url none host = none
  matching_url (some url) host =
      if url.has_user
        || not (text_eq url.path [])
        || not (text_eq url.raw_query [])
        || not (text_eq url.fragment [])
      then none
      else if not (net.equal_fold url.host host)
      then none
      else some url

  unfoldable pub matching_request_origin : Text → Text → Option Url
  unfolding matching_url
  matching_request_origin origin host = matching_url (net.parse_url origin) host

  unfoldable pub secure_origin : Option Url → Bool → Bool
  secure_origin none allow_insecure = false
  secure_origin (some url) allow_insecure =
      if text_eq url.scheme (text "https")
      then true
      else text_eq url.scheme (text "http") && allow_insecure && loopback_host net url.hostname

  unfoldable pub same_origin : Request → Bool → Bool
  unfolding matching_request_origin secure_origin
  same_origin r allow_insecure =
      let origin = r.header "Origin" in
      if text_eq origin []
      then true
      else secure_origin (matching_request_origin origin r.host) allow_insecure

  unfoldable pub web_origin : Option Url → Bool
  web_origin none = false
  web_origin (some url) = text_eq url.scheme (text "https") || text_eq url.scheme (text "http")

  unfoldable pub mutation_origin_allowed : Gateway → Request → Identity → Bool
  unfolding same_origin allow_insecure_origin web_origin
  mutation_origin_allowed g r id =
      let origin = r.header "Origin" in
      if is_agent id.actor
      then (if text_eq origin [] then true else web_origin (matching_request_origin origin r.host))
      else not (text_eq origin []) && same_origin r (allow_insecure_origin g)
