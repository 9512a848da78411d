-- ===== src/Control/Defs.antt =====
-- control.go: the state, its initial value, and the calls that only read it.
use typeclaw_operator.Prelude.{ℕ, String, Bool, true, false, Option, none, some, List, []}
use typeclaw_operator.Prelude.Maps.{lookup}

pub data ActorKind : Type 0 where
  human agent : ActorKind

pub data ControlError : Type 0 where
  context_cancelled control_busy control_blocked : ControlError
  power_busy power_recovery_required revocation_timed : ControlError

-- `cancelled` says that `ctx` is done, and `done` that the channel `done` is closed. Times are
-- nanoseconds; `ttl` is 0 for a lease of an RFB connection.
pub record Controller : Type 0 where
  pub actor : ActorKind
  pub generation : ℕ
  pub cancelled : Bool
  pub done : Bool
  pub ttl : ℕ
  pub last_touch : ℕ

-- `id` stands for the pointer.
pub record PowerOperation : Type 0 where
  pub id : ℕ
  pub action : String
  pub prior_blocked : Bool

-- The maps keep the source's names. A `*controller` is an index into `controllers`, the objects
-- allocated so far; `next` is the number of the next allocation. A takeover reservation is a
-- pointer to an empty struct, which carries nothing but its presence.
pub record ControlRegistry : Type 0 where
  pub active : List (String × ℕ)
  pub generations : List (String × ℕ)
  pub control_blocked : List (String × Bool)
  pub power_ops : List (String × PowerOperation)
  pub takeovers : List (String × Unit {0})
  pub draining : Bool
  pub controllers : ℕ → Controller
  pub next : ℕ

-- What an index that was never allocated holds.
abbrev pub no_controller : Controller
no_controller = record {
  actor = human;
  generation = 0;
  cancelled = true;
  done = true;
  ttl = 0;
  last_touch = 0;
}

unfoldable pub new_control_registry : ControlRegistry
new_control_registry = record {
  active = [];
  generations = [];
  control_blocked = [];
  power_ops = [];
  takeovers = [];
  draining = false;
  controllers = λ _. no_controller;
  next = 0;
}

-- Reading a map of Go at a missing key gives the zero value.
abbrev pub or_zero : Option ℕ → ℕ
or_zero none = 0
or_zero (some n) = n

abbrev pub or_false : Option Bool → Bool
or_false none = false
or_false (some b) = b

abbrev pub active_of : ControlRegistry → String → Option ℕ
active_of r desktop = lookup desktop r.active

abbrev pub generation_of : ControlRegistry → String → ℕ
generation_of r desktop = or_zero (lookup desktop r.generations)

abbrev pub is_blocked : ControlRegistry → String → Bool
is_blocked r desktop = or_false (lookup desktop r.control_blocked)

abbrev pub power_op_of : ControlRegistry → String → Option PowerOperation
power_op_of r desktop = lookup desktop r.power_ops

abbrev pub takeover_of : ControlRegistry → String → Option (Unit {0})
takeover_of r desktop = lookup desktop r.takeovers

-- The actor is `none` where the source returns the empty string.
unfoldable pub status : ControlRegistry → String → Option ActorKind × ℕ × Bool
status r desktop = elim (active_of r desktop) [
  | none ↦ (none, generation_of r desktop, false)
  | some i ↦ (some (r.controllers i).actor, (r.controllers i).generation, true)
]

unfoldable pub power_status : ControlRegistry → String → Bool × Bool × String
power_status r desktop = elim (power_op_of r desktop) [
  | none ↦ (is_blocked r desktop, false, "")
  | some operation ↦ (is_blocked r desktop, true, operation.action)
]
