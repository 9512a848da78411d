-- ===== src/Tests/SignIn.antt =====
-- The configuration of a gateway, and requests at its listeners.
use package.text.Mathlib.Text.{◌==◌ as str_eq}
use typeclaw_operator.Prelude.{
  String, ◌≡◌, refl, ◌⊎◌, inl, Bool, true, false, ◌||◌, none, some, [], ◌∷◌, ◌++◌, if◌then◌else◌,
}
use typeclaw_operator.Prelude.Text.{Text, text, ◌==◌ as text_eq, split, has_prefix}
use typeclaw_operator.Prelude.Maps.{lookup}
use typeclaw_operator.Ints.{pos}
use typeclaw_operator.Gateway.Config.{NetLibrary, Config, loaded, allowed_login, tailscale}
use typeclaw_operator.Gateway.Auth.{Request, bearer, authenticate_human, mutation_origin_allowed}
use typeclaw_operator.Gateway.SignIn.{AgentCredential, ConsoleCredential}
use typeclaw_operator.Gateway.Origins.{SameOrigin, AgentOrigin}
use typeclaw_operator.Gateway.Load.{with_settings, finish_config, load_config}
use typeclaw_operator.Gateway.Configured.{Gives, Guarded, load_config-Guarded}
use typeclaw_operator.Gateway.Owners.{serving, asserted, load_config_admits}
use typeclaw_operator.Gateway.Listeners.{
  console_power, agent_power, agent_acquire, Refused, console_power-SameOrigin,
  agent_power-AgentCredential,
}
use typeclaw_operator.Gateway.Handlers.{PowerAdmission, responded, dispatching}
use typeclaw_operator.Control.Defs.{ControlRegistry, new_control_registry}
use typeclaw_operator.Control.Power.{begin_power}
use typeclaw_operator.Prelude.Urls.{Url}

abbrev origin_url : Url
origin_url = record {
  scheme = text "https";
  has_user = false;
  host = text "desk";
  hostname = text "desk";
  path = [];
  raw_query = [];
  fragment = [];
}

abbrev plain_net : NetLibrary
plain_net = record {
  parse_url = λ t. some origin_url;
  is_loopback_ip = λ t. false;
  split_host = λ t. none;
  equal_fold = text_eq;
  trim_space = λ t. t;
  to_lower = λ t. t;
  parse_duration = λ t. none;
}

abbrev token : Text
token = text "abcdefghijklmnopqrstuvwxyz"

abbrev environment : String → Text
environment name =
    if str_eq name "DESKTOP_NAMESPACE"
    then text "ns"
    else if str_eq name "DESKTOP_NAME"
    then text "desk-1"
    else if str_eq name "OWNER_ISSUER"
    then text "idp"
    else if str_eq name "OWNER_SUBJECT"
    then text "owner"
    else if str_eq name "AGENT_TOKEN" || str_eq name "GUEST_AGENT_TOKEN"
    then token
    else if str_eq name "TAILSCALE_ALLOWED_LOGINS"
    then text "guest,owner"
    else []

abbrev config : Config
config = record {
  agent_listen_address = text ":8080";
  console_listen_address = text ":8081";
  namespace = text "ns";
  name = text "desk-1";
  os = text "linux";
  owner_issuer = text "idp";
  owner_subject = text "owner";
  console_auth_mode = tailscale;
  allowed_logins = text "owner" ∷ text "guest" ∷ [];
  auth_proxy_token = [];
  dev_access_token = [];
  agent_token = token;
  guest_agent_token = token;
  guest_agent_address = text "http://desk-1-agent.ns.svc:9876";
  guest_agent_timeout = pos 0;
  agent_lease_ttl = pos 0;
  console_url = [];
  no_vnc_dir = text "/opt/novnc";
  status_timeout = pos 0;
  screenshot_timeout = pos 0;
  power_timeout = pos 0;
  screenshot_concurrency = pos 0;
}

abbrev is_dispatched : ControlRegistry × PowerAdmission → Bool
is_dispatched (registry, responded response) = false
is_dispatched (registry, dispatching operation) = true

loads : load_config plain_net environment ≡ loaded config
unfolding load_config text_eq split has_prefix with_settings finish_config
loads = refl

abbrev from_owner : Request
from_owner = record {
  header = λ name.
      if str_eq name "X-Forwarded-Proto"
      then text "https"
      else if str_eq name "Tailscale-User-Login"
      then text "owner"
      else if str_eq name "Origin"
      then text "https://desk"
      else [];
  host = text "desk";
  dev_token = [];
}

is_https : text_eq (from_owner.header "X-Forwarded-Proto") (text "https") ≡ true
unfolding text_eq
is_https = refl

load_config_admits_example :
    authenticate_human plain_net (serving config false) from_owner
    ≡ some (asserted (serving config false) (text "owner"))
load_config_admits_example =
    load_config_admits plain_net environment config false from_owner loads refl is_https (inl refl)

load_config-Guarded_example : Gives (Guarded plain_net) (load_config plain_net environment)
load_config-Guarded_example = load_config-Guarded plain_net environment

dispatches :
    is_dispatched (
      console_power plain_net
        (serving config false)
        from_owner
        new_control_registry
        "desk-1"
        "start")
    ≡ true
unfolding console_power mutation_origin_allowed authenticate_human allowed_login begin_power text_eq
    new_control_registry lookup
dispatches = refl

console_power-SameOrigin_example :
    Refused plain_net (serving config false) from_owner new_control_registry (
      console_power plain_net
        (serving config false)
        from_owner
        new_control_registry
        "desk-1"
        "start")
    ⊎ (ConsoleCredential plain_net (serving config false) from_owner
        × SameOrigin plain_net (serving config false) from_owner)
console_power-SameOrigin_example =
    console_power-SameOrigin plain_net (serving config false) from_owner new_control_registry
      "desk-1" "start"

abbrev from_agent : Request
from_agent = record {
  header = λ name. if str_eq name "Authorization" then bearer ++ token else [];
  host = text "desk";
  dev_token = [];
}

agent_power-AgentCredential_example :
    (Refused plain_net (serving config false) from_agent new_control_registry (
        agent_power plain_net
          (serving config false)
          from_agent
          new_control_registry
          "desk-1"
          "start")
      ⊎ (AgentCredential (serving config false) from_agent × AgentOrigin plain_net from_agent))
    × (((agent_acquire plain_net
            (serving config false)
            from_agent
            new_control_registry
            "desk-1"
            9
            1).0
          ≡ new_control_registry)
        ⊎ (AgentCredential (serving config false) from_agent × AgentOrigin plain_net from_agent))
agent_power-AgentCredential_example =
    agent_power-AgentCredential plain_net (serving config false) from_agent new_control_registry
      "desk-1" "start" 9 1
