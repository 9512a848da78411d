-- ===== src/Gateway/Config.antt =====
-- config.go: the configuration of the Desktop Gateway, read from its environment. The functions of
-- Go's net, net/url, strings and time that it calls are a record of their own.
use typeclaw_operator.Prelude.{
  ℕ, zero, suc, Bool, true, false, ◌&&◌, ◌||◌, not, Option, none, some, List, [], ◌∷◌, ◌++◌, leb,
  ◌==◌, if◌then◌else◌, length, any,
}
use typeclaw_operator.Prelude.Text.{Text, text, ◌==◌ as text_eq, split}
use typeclaw_operator.Ints.{ℤ, pos, negsuc}
use typeclaw_operator.Prelude.Urls.{Url}

-- `is_loopback_ip` is `net.ParseIP` followed by `IsLoopback`; `split_host` is the host that
-- `net.SplitHostPort` gives; a duration is in nanoseconds.
pub record NetLibrary : Type 0 where
  pub parse_url : Text → Option Url
  pub is_loopback_ip : Text → Bool
  pub split_host : Text → Option Text
  pub equal_fold : Text → Text → Bool
  pub trim_space : Text → Text
  pub to_lower : Text → Text
  pub parse_duration : Text → Option ℤ

pub record Config : Type 0 where
  pub agent_listen_address : Text
  pub console_listen_address : Text
  pub namespace : Text
  pub name : Text
  pub os : Text
  pub owner_issuer : Text
  pub owner_subject : Text
  pub console_auth_mode : Text
  pub allowed_logins : List Text
  pub auth_proxy_token : Text
  pub dev_access_token : Text
  pub agent_token : Text
  pub guest_agent_token : Text
  pub guest_agent_address : Text
  pub guest_agent_timeout : ℤ
  pub agent_lease_ttl : ℤ
  pub console_url : Text
  pub no_vnc_dir : Text
  pub status_timeout : ℤ
  pub screenshot_timeout : ℤ
  pub power_timeout : ℤ
  pub screenshot_concurrency : ℤ

pub data ConfigError : Type 0 where
  bad_namespace bad_name bad_os bad_identity short_token bad_logins bad_mode : ConfigError
  bad_address bad_directory bad_duration bad_concurrency : ConfigError

pub data Loaded {ℓ} (A : Type ℓ) : Type ℓ where
  loaded : A → Loaded A
  rejected : ConfigError → Loaded A

unfoldable pub check {ℓ} : {A : Type ℓ} → Bool → ConfigError → Loaded A → Loaded A
check passed e rest = if passed then rest else rejected e

unfoldable pub bind {ℓ κ} : {A : Type ℓ} {B : Type κ} → Loaded A → (A → Loaded B) → Loaded B
bind (loaded a) f = f a
bind (rejected e) f = rejected e

abbrev pub is_label_end : ℕ → Bool
is_label_end c = leb 97 c && leb c 122 || leb 48 c && leb c 57

-- `dnsLabelPattern`.
unfoldable pub is_label_rest : Text → Bool
is_label_rest [] = false
is_label_rest (c ∷ []) = is_label_end c
is_label_rest (c ∷ d ∷ t) = (is_label_end c || c == 45) && is_label_rest (d ∷ t)

unfoldable pub is_dns_label : Text → Bool
unfolding is_label_rest
is_dns_label [] = false
is_dns_label (c ∷ t) = is_label_end c && is_label_rest (c ∷ t)

abbrev pub fits : ℕ → Text → Bool
fits bound t = leb (length t) bound

unfoldable pub valid_name : Text → Bool
unfolding is_dns_label
valid_name t = not (text_eq t []) && fits 63 t && is_dns_label t

abbrev pub is_line_break : ℕ → Bool
is_line_break c = c == 13 || c == 10

unfoldable pub valid_identity_part : Text → Bool
valid_identity_part t = not (text_eq t []) && (fits 512 t && not (any is_line_break t))

unfoldable pub allowed_login : List Text → Text → Bool
allowed_login [] login = false
allowed_login (candidate ∷ others) login = text_eq candidate login || allowed_login others login

abbrev pub tailscale : Text
tailscale = text "tailscale"

abbrev pub trusted_proxy : Text
trusted_proxy = text "trusted-proxy"

abbrev pub dev : Text
dev = text "dev"

abbrev pub supported_os : Text → Bool
supported_os os =
    text_eq os (text "linux") || text_eq os (text "windows") || text_eq os (text "macos")

unfoldable pub or_default : Text → Text → Text
or_default value fallback = if text_eq value [] then fallback else value

unfoldable pub is_positive : ℤ → Bool
is_positive (pos zero) = false
is_positive (pos (suc n)) = true
is_positive (negsuc n) = false

module _ (net : NetLibrary) where
  -- The loop of `parseAllowedLogins`: the logins so far, and how many entries were listed.
  unfoldable pub collect_logins : List Text → List Text → ℕ → Loaded (List Text × ℕ)
  unfolding allowed_login
  collect_logins [] logins listed = loaded (logins, listed)
  collect_logins (entry ∷ entries) logins listed =
      let login = net.trim_space entry in
      let skipped = collect_logins entries logins listed in
      let known = collect_logins entries logins (suc listed) in
      let added = collect_logins entries (logins ++ (login ∷ [])) (suc listed) in
      if text_eq login []
      then skipped
      else check (valid_identity_part login) bad_identity
          (if allowed_login logins login then known else added)

  unfoldable pub parse_allowed_logins : Text → Text → Loaded (List Text)
  unfolding check bind collect_logins
  parse_allowed_logins raw owner =
      if text_eq raw []
      then loaded (owner ∷ [])
      else bind (collect_logins (split 44 raw) (owner ∷ []) 0)
          (λ result. check (not (result.1 == 0)) bad_logins (loaded result.0))

  unfoldable pub duration_value : Option ℤ → Loaded ℤ
  duration_value none = rejected bad_duration
  duration_value (some value) = check (is_positive value) bad_duration (loaded value)

  unfoldable pub parse_duration_setting : Text → Loaded ℤ
  unfolding duration_value
  parse_duration_setting raw =
      if text_eq raw [] then loaded (pos 0) else duration_value (net.parse_duration raw)

  abbrev pub loopback_host : Text → Bool
  loopback_host host = net.equal_fold host (text "localhost") || net.is_loopback_ip host

  unfoldable pub dev_console_address_allowed : Option Text → Bool
  dev_console_address_allowed none = false
  dev_console_address_allowed (some host) = loopback_host host

  -- The credential that the mode of the console asks for.
  unfoldable pub check_mode {ℓ} : {A : Type ℓ} → Config → Loaded A → Loaded A
  unfolding check dev_console_address_allowed
  check_mode cfg rest =
      if text_eq cfg.console_auth_mode tailscale
      then rest
      else if text_eq cfg.console_auth_mode trusted_proxy
      then check (leb 24 (length cfg.auth_proxy_token)) short_token rest
      else if text_eq cfg.console_auth_mode dev
      then check (leb 32 (length cfg.dev_access_token)) short_token (
          check (dev_console_address_allowed (net.split_host cfg.console_listen_address))
            bad_address rest)
      else rejected bad_mode
