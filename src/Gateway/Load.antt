-- ===== src/Gateway/Load.antt =====
-- config.go: LoadConfig, over the environment `lookup`.
use typeclaw_operator.Prelude.{
  String, Bool, false, ◌&&◌, Option, none, some, [], ◌++◌, leb, if◌then◌else◌, length,
}
use typeclaw_operator.Prelude.Text.{Text, text, ◌==◌ as text_eq, has_prefix}
use typeclaw_operator.Ints.{ℤ, pos, negsuc, atoi}
use typeclaw_operator.Gateway.Config.{
  NetLibrary, Config, bad_namespace, bad_name, bad_os, bad_identity, short_token, bad_directory,
  bad_concurrency, Loaded, loaded, rejected, check, bind, valid_name, valid_identity_part,
  tailscale, supported_os, or_default, parse_allowed_logins, parse_duration_setting, check_mode,
}

abbrev pub in_range : ℤ → Bool
in_range (pos n) = leb 1 n && leb n 64
in_range (negsuc n) = false

unfoldable pub concurrency_value : Option ℤ → Loaded ℤ
unfolding check
concurrency_value none = rejected bad_concurrency
concurrency_value (some n) = check (in_range n) bad_concurrency (loaded n)

unfoldable pub parse_concurrency : Text → Loaded ℤ
unfolding concurrency_value
parse_concurrency raw = if text_eq raw [] then loaded (pos 0) else concurrency_value (atoi raw)

unfoldable pub default_guest_address : Config → Text
default_guest_address cfg =
    text "http://" ++ cfg.name ++ text "-agent." ++ cfg.namespace ++ text ".svc:9876"

pub record Settings : Type 0 where
  pub guest_agent_timeout : ℤ
  pub agent_lease_ttl : ℤ
  pub status_timeout : ℤ
  pub screenshot_timeout : ℤ
  pub power_timeout : ℤ
  pub screenshot_concurrency : ℤ

unfoldable pub with_settings : Config → Settings → Config
unfolding or_default default_guest_address
with_settings cfg settings = record cfg {
  guest_agent_address = or_default cfg.guest_agent_address (default_guest_address cfg);
  guest_agent_timeout = settings.guest_agent_timeout;
  agent_lease_ttl = settings.agent_lease_ttl;
  status_timeout = settings.status_timeout;
  screenshot_timeout = settings.screenshot_timeout;
  power_timeout = settings.power_timeout;
  screenshot_concurrency = settings.screenshot_concurrency;
}

module _ (net : NetLibrary) (lookup : String → Text) where
  abbrev pub get : String → Text
  get name = net.trim_space (lookup name)

  unfoldable pub draft_config : Config
  unfolding or_default
  draft_config = record {
    agent_listen_address = or_default (get "LISTEN_ADDRESS") (text ":8080");
    console_listen_address = or_default (get "CONSOLE_LISTEN_ADDRESS") (text ":8081");
    namespace = get "DESKTOP_NAMESPACE";
    name = get "DESKTOP_NAME";
    os = net.to_lower (or_default (get "DESKTOP_OS") (text "linux"));
    owner_issuer = get "OWNER_ISSUER";
    owner_subject = get "OWNER_SUBJECT";
    console_auth_mode = or_default (get "CONSOLE_AUTH_MODE") tailscale;
    allowed_logins = [];
    auth_proxy_token = get "AUTH_PROXY_TOKEN";
    dev_access_token = get "DEV_ACCESS_TOKEN";
    agent_token = get "AGENT_TOKEN";
    guest_agent_token = get "GUEST_AGENT_TOKEN";
    guest_agent_address = get "GUEST_AGENT_ADDRESS";
    guest_agent_timeout = pos 0;
    agent_lease_ttl = pos 0;
    console_url = get "CONSOLE_URL";
    no_vnc_dir = or_default (get "NOVNC_DIR") (text "/opt/novnc");
    status_timeout = pos 0;
    screenshot_timeout = pos 0;
    power_timeout = pos 0;
    screenshot_concurrency = pos 0;
  }

  -- The loop over the durations, and the slots of the screenshots.
  unfoldable pub read_settings : Loaded Settings
  unfolding bind parse_duration_setting parse_concurrency
  read_settings = bind (parse_duration_setting net (get "GUEST_AGENT_TIMEOUT")) (λ guest.
      bind (parse_duration_setting net (get "AGENT_LEASE_TTL")) (λ lease.
        bind (parse_duration_setting net (get "STATUS_TIMEOUT")) (λ status.
          bind (parse_duration_setting net (get "SCREENSHOT_TIMEOUT")) (λ screenshot.
            bind (parse_duration_setting net (get "POWER_TIMEOUT")) (λ power.
              bind (parse_concurrency (get "SCREENSHOT_CONCURRENCY")) (λ slots. loaded record {
                guest_agent_timeout = guest;
                agent_lease_ttl = lease;
                status_timeout = status;
                screenshot_timeout = screenshot;
                power_timeout = power;
                screenshot_concurrency = slots;
              }))))))

  -- `LoadConfig` from the default of the address on.
  unfoldable pub finish_config : Config → Loaded Config
  unfolding check bind read_settings
  finish_config cfg =
      check (has_prefix cfg.no_vnc_dir (text "/")) bad_directory
        (bind read_settings (λ settings. loaded (with_settings cfg settings)))

  unfoldable pub load_config : Loaded Config
  unfolding draft_config finish_config parse_allowed_logins check_mode valid_name
      valid_identity_part
  load_config =
      let cfg = draft_config in
      check (valid_name cfg.namespace) bad_namespace (
        check (valid_name cfg.name) bad_name (
          check (supported_os cfg.os) bad_os (
            check (valid_identity_part cfg.owner_issuer) bad_identity (
              check (valid_identity_part cfg.owner_subject) bad_identity (
                check (leb 24 (length cfg.agent_token)) short_token (
                  check (leb 24 (length cfg.guest_agent_token)) short_token (
                    bind
                      (parse_allowed_logins net (get "TAILSCALE_ALLOWED_LOGINS") cfg.owner_subject)
                      (λ logins.
                        check_mode net cfg
                          (finish_config record cfg { allowed_logins = logins })))))))))
