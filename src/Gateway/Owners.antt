-- ===== src/Gateway/Owners.antt =====
-- config.go with auth.go: who may sign in at a gateway that LoadConfig has configured.
use typeclaw_operator.Prelude.{
  String, ◌≡◌, refl, sym, ◌∙◌, subst, ◌⊎◌, inl, inr, Bool, true, false, some, List, [], ◌∷◌, arith,
  leb, length, All, In,
}
use typeclaw_operator.Prelude.Text.{Text, text, ◌==◌ as text_eq, eq_iff as text_eq_iff}
use typeclaw_operator.Gateway.Config.{
  NetLibrary, Config, loaded, valid_identity_part, allowed_login, tailscale,
}
use typeclaw_operator.Gateway.Auth.{
  Request, by_tailscale, Identity, Gateway, authenticate_tailscale, authenticate_human,
}
use typeclaw_operator.Gateway.Load.{load_config}
use typeclaw_operator.Gateway.Configured.{IsIdentity, Gives, Guarded, load_config-Guarded}
use typeclaw_operator.Control.Defs.{human}

In-allowed_login :
    (logins : List Text) (login : Text) → In login logins → allowed_login logins login ≡ true
unfolding allowed_login
In-allowed_login [] login m = absurd m
In-allowed_login (c ∷ logins) login (inl here) = ground (arith, text_eq_iff c login, here)
In-allowed_login (c ∷ logins) login (inr later) =
    ground (arith, In-allowed_login logins login later)

valid_identity_part-fits :
    (t : Text) → IsIdentity t → (text_eq t [] ≡ false) × (leb (length t) 512 ≡ true)
unfolding valid_identity_part
valid_identity_part-fits t valid = ground arith

tailscale-mode :
    (net : NetLibrary) (g : Gateway) (r : Request)
    → g.config.console_auth_mode ≡ tailscale
    → authenticate_human net g r ≡ authenticate_tailscale net g r
unfolding authenticate_human
tailscale-mode net g r mode = rw ((text_eq_iff _ tailscale).1 mode) refl

abbrev pub serving : Config → Bool → Gateway
serving cfg listener = record { config = cfg; dev_loopback_listener = listener }

abbrev pub asserted_by : NetLibrary → Request → Text
asserted_by net r = net.trim_space (r.header "Tailscale-User-Login")

-- The identity of a login that the Tailscale proxy asserts.
abbrev pub asserted : Gateway → Text → Identity
asserted g login = record {
  issuer = g.config.owner_issuer;
  subject = login;
  login = login;
  actor = human;
  auth_mode = by_tailscale;
}

listed-admitted :
    (net : NetLibrary) (g : Gateway) (r : Request) (login : Text)
    → net.equal_fold (net.trim_space (r.header "X-Forwarded-Proto")) (text "https") ≡ true
    → net.trim_space (r.header "Tailscale-User-Login") ≡ login
    → In login g.config.allowed_logins
    → IsIdentity login
    → authenticate_tailscale net g r ≡ some (asserted g login)
unfolding authenticate_tailscale
listed-admitted net g r login secure says listed valid =
    let sizes = valid_identity_part-fits login valid in
    let known = In-allowed_login g.config.allowed_logins login listed in
    rw (secure, says, sizes.0, sizes.1, known) refl

All-In :
    (logins : List Text) (login : Text) → All IsIdentity logins → In login logins → IsIdentity login
All-In [] login a m = absurd m
All-In (c ∷ logins) login (valid, a) (inl here) = subst IsIdentity here valid
All-In (c ∷ logins) login (valid, a) (inr later) = All-In logins login a later

-- At a gateway whose configuration LoadConfig returned, in the mode of Tailscale, each request over
-- HTTPS whose proxy asserts the owner, or another login of the list, is authenticated as that login.
pub load_config_admits :
    (net : NetLibrary) (lookup : String → Text) (cfg : Config) (listener : Bool) (r : Request)
    → load_config net lookup ≡ loaded cfg
    → cfg.console_auth_mode ≡ tailscale
    → net.equal_fold (net.trim_space (r.header "X-Forwarded-Proto")) (text "https") ≡ true
    → (asserted_by net r ≡ cfg.owner_subject) ⊎ In (asserted_by net r) cfg.allowed_logins
    → authenticate_human net (serving cfg listener) r
      ≡ some (asserted (serving cfg listener) (asserted_by net r))
load_config_admits net lookup cfg listener r h mode secure who =
    let guarded = subst (Gives (Guarded net)) h (load_config-Guarded net lookup) in
    let listed : In (asserted_by net r) cfg.allowed_logins = elim who [
      | inl owner ↦ subst (λ t. In t cfg.allowed_logins) (sym owner) guarded.3.0
      | inr other ↦ other
    ] in
    tailscale-mode net (serving cfg listener) r mode
    ∙ listed-admitted net (serving cfg listener) r (asserted_by net r) secure refl listed
        (All-In cfg.allowed_logins (asserted_by net r) guarded.3.1 listed)
