-- ===== src/Gateway/Configured.antt =====
-- config.go: what holds of a configuration that LoadConfig returns.
use typeclaw_operator.Prelude.{
  ℕ, suc, ◌≤◌, String, ◌≡◌, refl, ◌⊎◌, inl, inr, Bool, true, false, not, List, [], ◌∷◌, ◌++◌, leb,
  ◌==◌, leb→le, if_intro, length, All, In,
}
use typeclaw_operator.Prelude.Text.{
  Text, text, ◌==◌ as text_eq, eq_iff as text_eq_iff, split, has_prefix,
}
use typeclaw_operator.Gateway.Config.{
  NetLibrary, Config, ConfigError, bad_namespace, bad_name, bad_os, bad_identity, short_token,
  bad_logins, bad_address, bad_directory, Loaded, loaded, rejected, check, bind, valid_name,
  valid_identity_part, allowed_login, tailscale, trusted_proxy, dev, supported_os, collect_logins,
  parse_allowed_logins, dev_console_address_allowed, check_mode,
}
use typeclaw_operator.Gateway.Load.{
  with_settings, get, draft_config, read_settings, finish_config, load_config,
}

In-append : (x : Text) (xs ys : List Text) → In x xs → In x (xs ++ ys)
In-append x [] ys m = absurd m
In-append x (y ∷ xs) ys (inl here) = inl here
In-append x (y ∷ xs) ys (inr later) = inr (In-append x xs ys later)

abbrev pub IsIdentity : Text → Type 0
IsIdentity t = valid_identity_part t ≡ true

Identities-append :
    (xs : List Text) (y : Text) → All IsIdentity xs → IsIdentity y → All IsIdentity (xs ++ (y ∷ []))
Identities-append [] y a p = (p, tt)
Identities-append (x ∷ xs) y (q, a) p = (q, Identities-append xs y a p)

-- The owner may sign in, and each login is one that the code accepts.
abbrev pub Admits : Text → List Text → Type 0
Admits owner logins = In owner logins × All IsIdentity logins

-- Of a result, if there is one.
abbrev pub Gives {ℓ} : {A : Type ℓ} → (A → Type 0) → Loaded A → Type 0
Gives P (loaded a) = P a
Gives P (rejected e) = Unit

pub check-Gives {ℓ} :
    {A : Type ℓ} (P : A → Type 0) (b : Bool) (e : ConfigError) (rest : Loaded A)
    → (b ≡ true → Gives P rest)
    → Gives P (check b e rest)
unfolding check
check-Gives P true e rest f = f refl
check-Gives P false e rest f = tt

bind-Gives {ℓ κ} :
    {A : Type ℓ} {B : Type κ} (P : A → Type 0) (Q : B → Type 0) (x : Loaded A) (f : A → Loaded B)
    → Gives P x
    → ((a : A) → P a → Gives Q (f a))
    → Gives Q (bind x f)
unfolding bind
bind-Gives P Q (loaded a) f p next = next a p
bind-Gives P Q (rejected e) f p next = tt

module _ (net : NetLibrary) where
  collect_logins-Admits :
      (owner : Text) (entries logins : List Text) (listed : ℕ)
      → Admits owner logins
      → Gives (λ result. Admits owner result.0) (collect_logins net entries logins listed)
  unfolding collect_logins
  collect_logins-Admits owner [] logins listed a = a
  collect_logins-Admits owner (entry ∷ entries) logins listed a =
      let login = net.trim_space entry in
      if_intro (Gives (λ result. Admits owner result.0)) (text_eq login []) _ _
        (λ empty. collect_logins-Admits owner entries logins listed a)
        (λ present. check-Gives _ (valid_identity_part login) bad_identity _ (λ valid.
          if_intro (Gives (λ result. Admits owner result.0)) (allowed_login logins login) _ _
            (λ known. collect_logins-Admits owner entries logins (suc listed) a)
            (λ new.
              collect_logins-Admits owner entries (logins ++ (login ∷ [])) (suc listed) (
                In-append owner logins (login ∷ []) a.0,
                Identities-append logins login a.1 valid,
              ))))

  parse_allowed_logins-Admits :
      (raw owner : Text)
      → IsIdentity owner
      → Gives (Admits owner) (parse_allowed_logins net raw owner)
  unfolding parse_allowed_logins
  parse_allowed_logins-Admits raw owner valid =
      if_intro (Gives (Admits owner)) (text_eq raw []) _ _ (λ empty. (inl refl, (valid, tt)))
        (λ present.
          bind-Gives _ _ (collect_logins net (split 44 raw) (owner ∷ []) 0) _
            (collect_logins-Admits owner (split 44 raw) (owner ∷ []) 0 (inl refl, (valid, tt)))
            (λ result admits.
              check-Gives (Admits owner) (not (result.1 == 0)) bad_logins (loaded result.0)
                (λ listed. admits)))

  abbrev pub ModeGuarded : Config → Type 0
  ModeGuarded cfg =
      (cfg.console_auth_mode ≡ tailscale)
      ⊎ (((cfg.console_auth_mode ≡ trusted_proxy) × (24 ≤ length cfg.auth_proxy_token))
          ⊎ ((cfg.console_auth_mode ≡ dev)
              × (32 ≤ length cfg.dev_access_token)
              × (dev_console_address_allowed net (net.split_host cfg.console_listen_address)
                  ≡ true)))

  abbrev pub Guarded : Config → Type 0
  Guarded cfg =
      (24 ≤ length cfg.agent_token)
      × (24 ≤ length cfg.guest_agent_token)
      × IsIdentity cfg.owner_subject
      × Admits cfg.owner_subject cfg.allowed_logins
      × ModeGuarded cfg

  anything {ℓ} : {A : Type ℓ} (x : Loaded A) → Gives (λ a. Unit) x
  anything (loaded a) = tt
  anything (rejected e) = tt

  then-Guarded {ℓ} :
      {A : Type ℓ} (x : Loaded A) (f : A → Loaded Config)
      → ((a : A) → Gives Guarded (f a))
      → Gives Guarded (bind x f)
  then-Guarded x f next = bind-Gives (λ a. Unit) Guarded x f (anything x) (λ a t. next a)

  module _ (lookup : String → Text) where
    finish_config-Guarded :
        (cfg : Config) → Guarded cfg → Gives Guarded (finish_config net lookup cfg)
    unfolding finish_config with_settings
    finish_config-Guarded cfg g =
        check-Gives Guarded (has_prefix cfg.no_vnc_dir (text "/")) bad_directory _ (λ absolute.
          then-Guarded (read_settings net lookup) (λ settings. loaded (with_settings cfg settings))
            (λ settings. g))

    check_mode-Guarded :
        (cfg : Config) (rest : Loaded Config)
        → (ModeGuarded cfg → Gives Guarded rest)
        → Gives Guarded (check_mode net cfg rest)
    unfolding check_mode
    check_mode-Guarded cfg rest next =
        if_intro (Gives Guarded) (text_eq cfg.console_auth_mode tailscale) rest _
          (λ mode. next (inl ((text_eq_iff cfg.console_auth_mode tailscale).0 mode)))
          (λ other.
            if_intro (Gives Guarded) (text_eq cfg.console_auth_mode trusted_proxy) _ _
              (λ mode.
                check-Gives Guarded (leb 24 (length cfg.auth_proxy_token)) short_token rest (λ long.
                  next (inr (inl ((text_eq_iff _ trusted_proxy).0 mode, leb→le 24 _ long)))))
              (λ third.
                if_intro (Gives Guarded) (text_eq cfg.console_auth_mode dev) _ _
                  (λ mode.
                    check-Gives Guarded (leb 32 (length cfg.dev_access_token)) short_token _
                      (λ long.
                        check-Gives Guarded
                          (dev_console_address_allowed net
                            (net.split_host cfg.console_listen_address))
                          bad_address rest
                          (λ local.
                            next
                              (inr (inr ((text_eq_iff _ dev).0 mode, leb→le 32 _ long, local))))))
                  (λ unknown. tt)))

    logins-Guarded :
        (cfg : Config)
        → 24 ≤ length cfg.agent_token
        → 24 ≤ length cfg.guest_agent_token
        → IsIdentity cfg.owner_subject
        → (raw : Text)
        → Gives Guarded (
            bind (parse_allowed_logins net raw cfg.owner_subject) (λ logins.
              check_mode net cfg (finish_config net lookup record cfg { allowed_logins = logins })))
    logins-Guarded cfg agent_long guest_long owner raw =
        bind-Gives (Admits cfg.owner_subject) Guarded
          (parse_allowed_logins net raw cfg.owner_subject) _
          (parse_allowed_logins-Admits raw cfg.owner_subject owner)
          (λ logins admits. check_mode-Guarded cfg _ (λ mode.
            finish_config-Guarded record cfg { allowed_logins = logins }
              (agent_long, guest_long, owner, admits, mode)))

    -- A configuration that LoadConfig returns has tokens of the agent and of the guest of at least 24
    -- bytes, lets the owner sign in, and only logins that are not empty, of at most 512 bytes and
    -- free of line breaks. Its console asks for a mode of the three: with a trusted proxy, the
    -- token of the proxy has at least 24 bytes, and in the dev mode the token has at least 32 and the
    -- address of the console is a loopback one.
    pub load_config-Guarded : Gives Guarded (load_config net lookup)
    unfolding load_config
    load_config-Guarded =
        let cfg = draft_config net lookup in
        check-Gives Guarded (valid_name cfg.namespace) bad_namespace _ (λ n.
          check-Gives Guarded (valid_name cfg.name) bad_name _ (λ n.
            check-Gives Guarded (supported_os cfg.os) bad_os _ (λ o.
              check-Gives Guarded (valid_identity_part cfg.owner_issuer) bad_identity _ (λ i.
                check-Gives Guarded (valid_identity_part cfg.owner_subject) bad_identity _ (λ owner.
                  check-Gives Guarded (leb 24 (length cfg.agent_token)) short_token _ (λ agent_long.
                    check-Gives Guarded (leb 24 (length cfg.guest_agent_token)) short_token _
                      (λ guest_long.
                        logins-Guarded cfg (leb→le 24 _ agent_long) (leb→le 24 _ guest_long) owner
                          (get net lookup "TAILSCALE_ALLOWED_LOGINS"))))))))
