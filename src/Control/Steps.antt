-- ===== src/Control/Steps.antt =====
-- Interleavings of the registry's callers: an event is one region under the mutex, or a context
-- that ends. Handlers and goroutines are sequences of events with those of others in between.
use typeclaw_operator.Prelude.{ℕ, String, ◌≢◌, Bool, some}
use typeclaw_operator.Control.Defs.{ActorKind, PowerOperation, ControlRegistry, active_of}
use typeclaw_operator.Control.Actions.{
  cancel, acquire_begin, Waited, acquire_finish, acquire_agent, release_locked, close_done,
  touch_agent,
}
use typeclaw_operator.Control.Power.{PowerOutcome, begin_power, finish_power, revoke_all}

pub data Event : Type 0 where
  acquires : Bool → String → ActorKind → Bool → Event
  settles : Waited → Bool → String → ActorKind → Event
  acquires_agent : String → ℕ → ℕ → Event
  unlists : String → ℕ → Event
  closes : ℕ → Event
  touches : String → ℕ → Event
  begins_power : String → String → Event
  finishes_power : String → PowerOperation → PowerOutcome → Event
  revokes : Event
  cancels : ℕ → Event

unfoldable pub step : ControlRegistry → Event → ControlRegistry
step r (acquires ctx_err desktop actor takeover) =
    (acquire_begin r ctx_err desktop actor takeover).0
step r (settles waited ctx_err desktop actor) = (acquire_finish r waited ctx_err desktop actor).0
step r (acquires_agent desktop ttl now) = (acquire_agent r desktop ttl now).0
step r (unlists desktop i) = release_locked r desktop i
step r (closes i) = close_done r i
step r (touches desktop now) = touch_agent r desktop now
step r (begins_power desktop action) = (begin_power r desktop action).0
step r (finishes_power desktop operation outcome) = finish_power r desktop operation outcome
step r revokes = revoke_all r
step r (cancels i) = record r { controllers = cancel i r.controllers }

-- `release` closes `done` only after it has taken the controller off the map.
abbrev pub Enabled : ControlRegistry → Event → Type 0
Enabled r (closes i) = (desktop : String) → active_of r desktop ≢ some i
Enabled r _ = Unit

-- The registries that a process can be in after some events from `r`.
pub data Reach (r : ControlRegistry) : ControlRegistry → Type 0 where
  here : Reach r r
  next : {s : ControlRegistry} → Reach r s → (e : Event) → Enabled s e → Reach r (step s e)
