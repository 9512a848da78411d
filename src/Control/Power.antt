-- ===== src/Control/Power.antt =====
-- control.go: the reservation of a power operation, and the drain at shutdown.
use text.Mathlib.Text.{◌==◌ as str_eq}
use typeclaw_operator.Prelude.{
  ℕ, ◌+◌, String, Bool, true, false, ◌&&◌, not, Option, none, some, List, [], ◌∷◌, ◌==◌,
  if◌then◌else◌, is_some,
}
use typeclaw_operator.Prelude.Maps.{insert, erase}
use typeclaw_operator.Control.Defs.{
  ControlError, control_busy, control_blocked, power_busy, power_recovery_required, Controller,
  PowerOperation, ControlRegistry, active_of, is_blocked, power_op_of, takeover_of,
}
use typeclaw_operator.Control.Actions.{cancel}

-- power.go: how a dispatched operation ended.
pub data PowerOutcome : Type 0 where
  power_succeeded power_rejected power_unknown : PowerOutcome

pub data Begun : Type 0 where
  reserved : PowerOperation → Begun
  denied : ControlError → Begun

-- The early returns of `beginPower`, in order.
unfoldable pub power_denial : ControlRegistry → String → String → Option ControlError
power_denial r desktop action =
    if r.draining
    then some control_blocked
    else if is_some (active_of r desktop)
    then some control_busy
    else if is_some (takeover_of r desktop)
    then some control_busy
    else if is_some (power_op_of r desktop)
    then some power_busy
    else if is_blocked r desktop && not (str_eq action "start")
    then some power_recovery_required
    else none

unfoldable pub reserve_power :
    ControlRegistry → String → String → Option ControlError → ControlRegistry × Begun
reserve_power r desktop action (some e) = (r, denied e)
reserve_power r desktop action none =
    let operation : PowerOperation = record {
      id = r.next;
      action = action;
      prior_blocked = is_blocked r desktop;
    } in
    (
      record r {
        power_ops = insert desktop operation r.power_ops;
        control_blocked = insert desktop true r.control_blocked;
        next = r.next + 1;
      },
      reserved operation,
    )

unfoldable pub begin_power : ControlRegistry → String → String → ControlRegistry × Begun
unfolding power_denial reserve_power
begin_power r desktop action = reserve_power r desktop action (power_denial r desktop action)

abbrev pub is_reservation : Option PowerOperation → PowerOperation → Bool
is_reservation none operation = false
is_reservation (some current) operation = current.id == operation.id

abbrev pub unblock : ControlRegistry → String → ControlRegistry
unblock r desktop = record r { control_blocked = erase desktop r.control_blocked }

abbrev pub block : ControlRegistry → String → ControlRegistry
block r desktop = record r { control_blocked = insert desktop true r.control_blocked }

unfoldable pub resolve : ControlRegistry → String → PowerOperation → PowerOutcome → ControlRegistry
resolve r desktop operation power_succeeded =
    if str_eq operation.action "start" then unblock r desktop else r
resolve r desktop operation power_unknown = r
resolve r desktop operation power_rejected =
    if operation.prior_blocked then block r desktop else unblock r desktop

unfoldable pub finish_power :
    ControlRegistry → String → PowerOperation → PowerOutcome → ControlRegistry
unfolding resolve
finish_power r desktop operation outcome =
    let r' = record r { power_ops = erase desktop r.power_ops } in
    if not (is_reservation (power_op_of r desktop) operation)
    then r
    else if r.draining
    then block r' desktop
    else resolve r' desktop operation outcome

-- The loops of `revokeAll`, over the entries of a map.
unfoldable pub block_all :
    {V : Type 0} → List (String × V) → List (String × Bool) → List (String × Bool)
block_all [] blocked = blocked
block_all ((desktop, _) ∷ m) blocked = block_all m (insert desktop true blocked)

unfoldable pub cancel_all : List (String × ℕ) → (ℕ → Controller) → ℕ → Controller
cancel_all [] cs = cs
cancel_all ((_, i) ∷ m) cs = cancel_all m (cancel i cs)

-- `revokeAll` up to its unlock; what follows only waits. Every reservation is deleted.
unfoldable pub revoke_all : ControlRegistry → ControlRegistry
unfolding block_all cancel_all
revoke_all r = record r {
  draining = true;
  control_blocked =
      block_all r.power_ops (block_all r.takeovers (block_all r.active r.control_blocked));
  controllers = cancel_all r.active r.controllers;
  takeovers = [];
}
