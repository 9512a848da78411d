-- ===== src/Tests/Gateway.antt =====
-- Power requests through the handlers of internal/desktopgateway.
use typeclaw_operator.Prelude.{◌≡◌, refl, Bool, true, false, some, []}
use typeclaw_operator.Prelude.Maps.{lookup, insert}
use typeclaw_operator.Control.Defs.{
  PowerOperation, ControlRegistry, new_control_registry, is_blocked, power_op_of,
}
use typeclaw_operator.Control.Power.{begin_power, finish_power}
use typeclaw_operator.Control.Steps.{begins_power, step}
use typeclaw_operator.Control.Invariant.{Inv, new-Inv}
use typeclaw_operator.Control.Invariant.Events.{step-Inv}
use typeclaw_operator.Gateway.KubeVirt.{
  StatusReason, not_found, forbidden, conflict, ApiErrors, ok, KubeVirtClient,
}
use typeclaw_operator.Gateway.Power.{succeeded, rejected, outcome_of, dispatch_power}
use typeclaw_operator.Gateway.Outcomes.{Evidence, dispatch_power-Evidence}
use typeclaw_operator.Gateway.Handlers.{dispatching, handle_power_begin, handle_power_end}
use typeclaw_operator.Gateway.Safety.{Tells, handle_power-Tells}

-- API errors that are their own reason.
abbrev is_reason_not_found : StatusReason → Bool
is_reason_not_found not_found = true
is_reason_not_found _ = false

abbrev is_reason_conflict : StatusReason → Bool
is_reason_conflict conflict = true
is_reason_conflict _ = false

abbrev plain_errors : ApiErrors StatusReason
plain_errors = record {
  reason_for_error = λ e. e;
  is_not_found = λ e. is_reason_not_found e;
  is_conflict = λ e. is_reason_conflict e;
  is_bad_request = λ e. false;
  is_invalid = λ e. false;
  is_timeout = λ e. false;
  is_server_timeout = λ e. false;
  is_service_unavailable = λ e. false;
  timeout_reason = λ e h. cc;
  server_timeout_reason = λ e h. cc;
  service_unavailable_reason = λ e h. cc;
}

-- A stop that conflicts because the guest has shut itself down.
abbrev shut_down : KubeVirtClient StatusReason
shut_down = record {
  get_vm = ok (
      some (record {
        uid = "u1";
        deleting = false;
        run_strategy = "Manual";
        printable_status = "Stopped";
        state_change_requests = [];
      }));
  get_vmi = ok (some (record { uid = "i1"; deleting = false; phase = "Succeeded" }));
  start = some forbidden;
  stop = some conflict;
}

stop_is_idempotent : dispatch_power plain_errors shut_down "stop" ≡ succeeded true
unfolding dispatch_power
stop_is_idempotent = refl

start_is_forbidden : dispatch_power plain_errors shut_down "start" ≡ rejected forbidden
unfolding dispatch_power
start_is_forbidden = refl

dispatch_power-Evidence_example :
    Evidence plain_errors shut_down false
      (some conflict)
      (dispatch_power plain_errors shut_down "stop")
dispatch_power-Evidence_example = dispatch_power-Evidence plain_errors shut_down false

abbrev start_operation : PowerOperation
start_operation = record { id = 0; action = "start"; prior_blocked = false }

abbrev starting : ControlRegistry
starting = step new_control_registry (begins_power "desk" "start")

starting-Inv : Inv starting
starting-Inv = step-Inv new_control_registry (begins_power "desk" "start") tt new-Inv

starting_facts :
    ((handle_power_begin new_control_registry true true "desk" "start").1
      ≡ dispatching start_operation)
    × (power_op_of starting "desk" ≡ some start_operation)
    × (starting.draining ≡ false)
unfolding handle_power_begin begin_power step new_control_registry lookup insert
starting_facts = (refl, refl, refl)

-- Another caller stops the desktop before the status is read.
abbrev stopping_meanwhile : ControlRegistry → ControlRegistry
stopping_meanwhile s = (begin_power s "desk" "stop").0

handle_power-Tells_example :
    let result = dispatch_power plain_errors shut_down "start" in
    let ended = finish_power starting "desk" start_operation (outcome_of result) in
    let (t, response) =
      handle_power_end plain_errors starting stopping_meanwhile "desk" start_operation result in
    (t ≡ stopping_meanwhile ended)
    × Tells plain_errors
        (is_blocked new_control_registry "desk")
        true
        (is_blocked ended "desk")
        (is_blocked t "desk")
        response
        result
handle_power-Tells_example =
    handle_power-Tells plain_errors shut_down new_control_registry "desk" true start_operation
      starting stopping_meanwhile starting_facts.0 starting-Inv starting_facts.1 starting_facts.2
