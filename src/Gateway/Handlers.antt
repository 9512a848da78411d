-- ===== src/Gateway/Handlers.antt =====
-- The request handlers: handlePower (power.go), handleControlAcquire, handleControlRelease and
-- handleAgentAction (gateway.go). Whether the request authenticated, and whether its origin may
-- mutate, are arguments (auth.go). Each handler is cut where it leaves the registry to others.
use text.Mathlib.Text.{◌==◌ as str_eq}
use typeclaw_operator.Prelude.{
  ℕ, String, Bool, true, false, ◌||◌, not, Option, none, some, if◌then◌else◌, is_some,
}
use typeclaw_operator.Control.Defs.{
  ActorKind, ControlError, control_busy, power_recovery_required, PowerOperation, ControlRegistry,
  is_blocked, status,
}
use typeclaw_operator.Control.Actions.{
  is_agent, Acquired, granted, refused, acquire_agent, touch_agent, release_agent_owner,
}
use typeclaw_operator.Control.Power.{
  PowerOutcome, power_succeeded, power_rejected, power_unknown, Begun, reserved, denied,
  begin_power, finish_power,
}
use typeclaw_operator.Gateway.KubeVirt.{ApiErrors}
use typeclaw_operator.Gateway.Power.{
  PowerResult, succeeded, rejected, unknown, unknown_action, outcome_of, kube_virt_operation_status,
}

-- The fields of a power response that its callers act on; `none` is a field left out.
pub record PowerResponse : Type 0 where
  pub status_code : ℕ
  pub outcome : Option PowerOutcome
  pub retry_safe : Option Bool
  pub control_blocked : Option Bool
  pub idempotent : Option Bool
  pub recovery_action : Option String

pub data PowerAdmission : Type 0 where
  responded : PowerResponse → PowerAdmission
  dispatching : PowerOperation → PowerAdmission

abbrev pub plain : ℕ → PowerResponse
plain code = record {
  status_code = code;
  outcome = none;
  retry_safe = none;
  control_blocked = none;
  idempotent = none;
  recovery_action = none;
}

abbrev pub denial_response : ControlError → PowerResponse
denial_response power_recovery_required = record {
  status_code = 409;
  outcome = some power_rejected;
  retry_safe = some false;
  control_blocked = some true;
  idempotent = none;
  recovery_action = some "start";
}
denial_response _ = record {
  status_code = 409;
  outcome = some power_rejected;
  retry_safe = some true;
  control_blocked = none;
  idempotent = none;
  recovery_action = none;
}

abbrev pub admission : Begun → PowerAdmission
admission (reserved operation) = dispatching operation
admission (denied e) = responded (denial_response e)

-- `handlePower` up to its dispatch.
unfoldable pub handle_power_begin :
    ControlRegistry → Bool → Bool → String → String → ControlRegistry × PowerAdmission
handle_power_begin r authenticated origin_allowed desktop action =
    if not authenticated
    then (r, responded (plain 401))
    else if not origin_allowed
    then (r, responded (plain 403))
    else if not (str_eq action "start" || str_eq action "stop")
    then (r, responded (plain 404))
    else ((begin_power r desktop action).0, admission (begin_power r desktop action).1)

-- `blocked` is what `powerStatus` reads, which is after others have had the registry again.
module _ {E : Type 0} (api : ApiErrors E) where
  unfoldable pub power_response : Bool → PowerResult E → PowerResponse
  power_response blocked (succeeded idempotent) = record {
    status_code = 202;
    outcome = some power_succeeded;
    retry_safe = none;
    control_blocked = none;
    idempotent = some idempotent;
    recovery_action = none;
  }
  power_response blocked (rejected e) = record {
    status_code = kube_virt_operation_status api e;
    outcome = some power_rejected;
    retry_safe = some true;
    control_blocked = some blocked;
    idempotent = none;
    recovery_action = none;
  }
  power_response blocked unknown_action = record {
    status_code = 502;
    outcome = some power_rejected;
    retry_safe = some true;
    control_blocked = some blocked;
    idempotent = none;
    recovery_action = none;
  }
  power_response blocked (unknown e) = record {
    status_code = 503;
    outcome = some power_unknown;
    retry_safe = some false;
    control_blocked = some true;
    idempotent = none;
    recovery_action = none;
  }

  -- `handlePower` from the end of its dispatch on: `s` is the registry that `finishPower` finds, and
  -- `others` what other callers do before `powerStatus` is read.
  unfoldable pub handle_power_end :
      ControlRegistry
      → (ControlRegistry → ControlRegistry)
      → String
      → PowerOperation
      → PowerResult E
      → ControlRegistry × PowerResponse
  unfolding power_response
  handle_power_end s others desktop operation result =
      let t = others (finish_power s desktop operation (outcome_of result)) in
      (t, power_response (is_blocked t desktop) result)

-- `handleControlAcquire`: the status, and the generation of the lease on success.
abbrev pub acquire_status : Acquired → ℕ
acquire_status (granted i) = 200
acquire_status (refused ControlError.control_blocked) = 409
acquire_status (refused control_busy) = 409
acquire_status _ = 503

unfoldable pub handle_control_acquire :
    ControlRegistry → Bool → Bool → String → ℕ → ℕ → ControlRegistry × ℕ
handle_control_acquire r authenticated origin_allowed desktop ttl now =
    if not authenticated
    then (r, 401)
    else if not origin_allowed
    then (r, 403)
    else ((acquire_agent r desktop ttl now).0, acquire_status (acquire_agent r desktop ttl now).1)

-- `handleControlRelease`: `r` is the registry that `status` reads, `s` the one that
-- `releaseAgentOwner` then finds.
unfoldable pub handle_control_release :
    ControlRegistry → ControlRegistry → Bool → Bool → String → ControlRegistry × ℕ
handle_control_release r s authenticated origin_allowed desktop =
    if not authenticated
    then (s, 401)
    else if not origin_allowed
    then (s, 403)
    else if is_some (status r desktop).0
    then ((release_agent_owner s desktop).0, if (release_agent_owner s desktop).1 then 200 else 409)
    else (s, 200)

-- `handleAgentAction` up to the call of the guest: a status, or the path of the call.
pub data AgentAction : Type 0 where
  answered : ℕ → AgentAction
  proxied : String → AgentAction

abbrev pub agent_owns : Option ActorKind → Bool
agent_owns none = false
agent_owns (some actor) = is_agent actor

-- `r` is the registry that `status` reads, `s` the one that `touchAgent` finds; `body_read` says
-- that the body was read within its limit.
unfoldable pub handle_agent_action :
    ControlRegistry
    → ControlRegistry
    → Bool
    → Bool
    → String
    → String
    → ℕ
    → Bool
    → ControlRegistry × AgentAction
handle_agent_action r s authenticated origin_allowed desktop action now body_read =
    if not (str_eq action "actions" || str_eq action "launch")
    then (s, answered 404)
    else if not authenticated
    then (s, answered 401)
    else if not origin_allowed
    then (s, answered 403)
    else if not (agent_owns (status r desktop).0)
    then (s, answered 409)
    else (touch_agent s desktop now, if body_read then proxied action else answered 400)
