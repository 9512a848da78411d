-- ===== src/Gateway/Listeners.antt =====
-- The operations of both listeners that mutate: handlePower with the authenticator of its listener
-- (gateway.go, AgentHandler and ConsoleHandler), and handleControlAcquire. `desktop` is the name of
-- the configuration.
use package.text.Mathlib.Text.{◌==◌ as str_eq}
use typeclaw_operator.Prelude.{
  ℕ, String, ◌≡◌, refl, ◌⊎◌, inl, inr, true, false, Option, none, some, if◌then◌else◌, Bool-cases,
}
use typeclaw_operator.Prelude.Text.{Text}
use typeclaw_operator.Gateway.Config.{NetLibrary}
use typeclaw_operator.Gateway.Auth.{
  Request, Identity, Gateway, authenticate_agent, authenticate_human, mutation_origin_allowed,
}
use typeclaw_operator.Gateway.SignIn.{
  AgentCredential, authenticate_agent-AgentCredential, ConsoleCredential,
  authenticate_human-ConsoleCredential,
}
use typeclaw_operator.Gateway.Origins.{
  SameOrigin, mutation_origin_allowed-SameOrigin, AgentOrigin, mutation_origin_allowed-AgentOrigin,
}
use typeclaw_operator.Control.Defs.{ControlRegistry}
use typeclaw_operator.Gateway.Handlers.{
  PowerAdmission, responded, plain, handle_power_begin, handle_control_acquire,
}

module _ (net : NetLibrary) (g : Gateway) (r : Request) where
  unfoldable pub power_as :
      ControlRegistry → String → String → Option Identity → ControlRegistry × PowerAdmission
  unfolding handle_power_begin
  power_as registry desktop action none = handle_power_begin registry false false desktop action
  power_as registry desktop action (some id) =
      handle_power_begin registry true (mutation_origin_allowed net g r id) desktop action

  unfoldable pub console_power :
      ControlRegistry → String → String → ControlRegistry × PowerAdmission
  unfolding power_as
  console_power registry desktop action =
      power_as registry desktop action (authenticate_human net g r)

  unfoldable pub agent_power : ControlRegistry → String → String → ControlRegistry × PowerAdmission
  unfolding power_as
  agent_power registry desktop action = power_as registry desktop action (authenticate_agent g r)

  unfoldable pub acquire_as :
      ControlRegistry → String → ℕ → ℕ → Option Identity → ControlRegistry × ℕ
  unfolding handle_control_acquire
  acquire_as registry desktop ttl now none =
      handle_control_acquire registry false false desktop ttl now
  acquire_as registry desktop ttl now (some id) =
      handle_control_acquire registry true (mutation_origin_allowed net g r id) desktop ttl now

  unfoldable pub agent_acquire : ControlRegistry → String → ℕ → ℕ → ControlRegistry × ℕ
  unfolding acquire_as
  agent_acquire registry desktop ttl now =
      acquire_as registry desktop ttl now (authenticate_agent g r)

  -- The registry stays and the answer is a refusal.
  abbrev pub Refused : ControlRegistry → ControlRegistry × PowerAdmission → Type 0
  Refused registry result =
      (result.0 ≡ registry)
      × ((result.1 ≡ responded (plain 401)) ⊎ (result.1 ≡ responded (plain 403)))

  power_as-Refused :
      (registry : ControlRegistry) (desktop action : String) (o : Option Identity)
      → Refused registry (power_as registry desktop action o)
        ⊎ ((id : Identity) × (o ≡ some id) × (mutation_origin_allowed net g r id ≡ true))
  unfolding power_as handle_power_begin
  power_as-Refused registry desktop action none = inl (refl, inl refl)
  power_as-Refused registry desktop action (some id) =
      elim (Bool-cases (mutation_origin_allowed net g r id)) [
        | inl allowed ↦ inr (id, refl, allowed)
        | inr foreign ↦ inl (rw foreign (refl, inr refl))
      ]

  -- A power request on the listener of the console either is refused with 401 or 403 and leaves the
  -- registry as it was, or shows a credential of the configured mode and an origin that is the host
  -- it asked, over HTTPS unless the listener is the loopback one of the dev mode.
  pub console_power-SameOrigin :
      (registry : ControlRegistry) (desktop action : String)
      → Refused registry (console_power registry desktop action)
        ⊎ (ConsoleCredential net g r × SameOrigin net g r)
  unfolding console_power
  console_power-SameOrigin registry desktop action =
      elim (power_as-Refused registry desktop action (authenticate_human net g r)) [
        | inl refused ↦ inl refused
        | inr (id, known, allowed) ↦
            let shown = authenticate_human-ConsoleCredential net g r id known in
            inr (shown.0, mutation_origin_allowed-SameOrigin net g r id shown.1 allowed)
      ]

  acquire_as_unchanged :
      (registry : ControlRegistry) (desktop : String) (ttl now : ℕ) (o : Option Identity)
      → ((acquire_as registry desktop ttl now o).0 ≡ registry)
        ⊎ ((id : Identity) × (o ≡ some id) × (mutation_origin_allowed net g r id ≡ true))
  unfolding acquire_as handle_control_acquire
  acquire_as_unchanged registry desktop ttl now none = inl refl
  acquire_as_unchanged registry desktop ttl now (some id) =
      elim (Bool-cases (mutation_origin_allowed net g r id)) [
        | inl allowed ↦ inr (id, refl, allowed)
        | inr foreign ↦ inl (rw foreign refl)
      ]

  agent_admitted :
      (id : Identity)
      → authenticate_agent g r ≡ some id
      → mutation_origin_allowed net g r id ≡ true
      → AgentCredential g r × AgentOrigin net r
  agent_admitted id known allowed =
      let shown = authenticate_agent-AgentCredential g r id known in
      (shown.0, mutation_origin_allowed-AgentOrigin net g r id shown.1 allowed)

  -- On the listener of the agent, a power request and a request for control either leave the registry
  -- as it was, or show the configured bearer token, which is not empty, and no origin or one that is
  -- the host they asked.
  pub agent_power-AgentCredential :
      (registry : ControlRegistry) (desktop action : String) (ttl now : ℕ)
      → (Refused registry (agent_power registry desktop action)
          ⊎ (AgentCredential g r × AgentOrigin net r))
        × (((agent_acquire registry desktop ttl now).0 ≡ registry)
            ⊎ (AgentCredential g r × AgentOrigin net r))
  unfolding agent_power agent_acquire
  agent_power-AgentCredential registry desktop action ttl now = (
    elim (power_as-Refused registry desktop action (authenticate_agent g r)) [
      | inl refused ↦ inl refused
      | inr (id, known, allowed) ↦ inr (agent_admitted id known allowed)
    ],
    elim (acquire_as_unchanged registry desktop ttl now (authenticate_agent g r)) [
      | inl same ↦ inl same
      | inr (id, known, allowed) ↦ inr (agent_admitted id known allowed)
    ],
  )

abbrev pub with_header : String → Text → Request → Request
with_header name value r = record r {
  header = λ other. if str_eq other name then value else r.header other;
}

-- The listeners do not read each other's credentials: whatever a request carries as Authorization,
-- the console decides the same, and of two requests that carry the same the agent's listener decides
-- the same.
pub authenticate_human-apart :
    (net : NetLibrary) (g : Gateway) (r other : Request) (value : Text)
    → r.header "Authorization" ≡ other.header "Authorization"
    → (authenticate_human net g (with_header "Authorization" value r) ≡ authenticate_human net g r)
      × (authenticate_agent g r ≡ authenticate_agent g other)
unfolding authenticate_human authenticate_agent
authenticate_human-apart net g r other value same = (refl, rw same refl)
