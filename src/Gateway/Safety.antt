-- ===== src/Gateway/Safety.antt =====
-- What the handlers of the gateway guarantee to their callers.
use text.Mathlib.Text.{◌==◌ as str_eq}
use typeclaw_operator.Prelude.{
  ◌≤◌, ◌<◌, String, ◌≡◌, refl, ap, ◌∙◌, Bool, true, false, not, Option, some, arith,
}
use typeclaw_operator.Control.Defs.{PowerOperation, ControlRegistry, is_blocked, power_op_of}
use typeclaw_operator.Control.Power.{
  power_succeeded, power_rejected, power_unknown, Begun, reserved, denied, begin_power,
  finish_power,
}
use typeclaw_operator.Control.Invariant.{Inv}
use typeclaw_operator.Control.Quarantine.{blocked_after, begin-finish}
use typeclaw_operator.Gateway.KubeVirt.{ApiErrors, KubeVirtClient}
use typeclaw_operator.Gateway.Power.{
  PowerResult, succeeded, rejected, unknown, unknown_action, outcome_of, dispatch_power,
}
use typeclaw_operator.Gateway.Outcomes.{
  verb, failure_of, definitive-status, Evidence, dispatch_power-Evidence,
}
use typeclaw_operator.Gateway.Handlers.{
  PowerResponse, dispatching, admission, handle_power_begin, power_response, handle_power_end,
}

module _ {E : Type 0} (api : ApiErrors E) where
  -- What the response and the registry say together. `before` is the quarantine that the operation
  -- found, `blocked` the one that its end leaves, and `read` the one that is read for the response.
  abbrev pub Tells : Bool → Bool → Bool → Bool → PowerResponse → PowerResult E → Type 0
  Tells before is_start blocked read response (succeeded idempotent) =
      (response.status_code ≡ 202)
      × (response.outcome ≡ some power_succeeded)
      × (blocked ≡ not is_start)
  Tells before is_start blocked read response (rejected e) =
      (400 ≤ response.status_code)
      × (response.status_code < 500)
      × (response.outcome ≡ some power_rejected)
      × (response.retry_safe ≡ some true)
      × (blocked ≡ before)
      × (response.control_blocked ≡ some read)
  Tells before is_start blocked read response (unknown e) =
      (response.status_code ≡ 503)
      × (response.outcome ≡ some power_unknown)
      × (response.retry_safe ≡ some false)
      × (blocked ≡ true)
      × (response.control_blocked ≡ some blocked)
  Tells before is_start blocked read response unknown_action = ⊥

  starts :
      (o : PowerOperation) (is_start : Bool)
      → o.action ≡ verb is_start
      → str_eq o.action "start" ≡ is_start
  starts o true a = rw a
  starts o false a = rw a

  power_response-Tells :
      (client : KubeVirtClient E) (before is_start blocked read : Bool) (failure : Option E)
      (o : PowerOperation) (result : PowerResult E)
      → Evidence api client is_start failure result
      → o.action ≡ verb is_start
      → blocked ≡ blocked_after before o (outcome_of result)
      → Tells before is_start blocked read (power_response api read result) result
  unfolding power_response
  power_response-Tells client before is_start blocked read failure o (succeeded i) ev a b =
      (refl, refl, b ∙ ap not (starts o is_start a))
  power_response-Tells client before is_start blocked read failure o (rejected e) ev a b =
      let (lo, hi) = definitive-status api e ev.1 in (lo, hi, refl, refl, b, refl)
  power_response-Tells client before is_start blocked read failure o (unknown e) ev a b =
      (refl, refl, refl, b, rw b)
  power_response-Tells client before is_start blocked read failure o unknown_action ev a b =
      elim ev [ ]

  admission-reserved :
      (begun : ControlRegistry × Begun) (o : PowerOperation)
      → admission begun.1 ≡ dispatching o
      → begun ≡ (begun.0, reserved o)
  admission-reserved (r, reserved p) o h = ground arith
  admission-reserved (r, denied e) o h = cc

  admitted :
      (r : ControlRegistry) (d : String) (is_start : Bool) (o : PowerOperation)
      → (handle_power_begin r true true d (verb is_start)).1 ≡ dispatching o
      → begin_power r d (verb is_start) ≡ ((begin_power r d (verb is_start)).0, reserved o)
  unfolding handle_power_begin
  admitted r d true o h = admission-reserved (begin_power r d "start") o h
  admitted r d false o h = admission-reserved (begin_power r d "stop") o h

  -- A power request from its reservation to its response, whatever others did to the registry in
  -- between short of a drain: success is answered 202, and its end lifts the quarantine exactly for a
  -- start; a rejection is answered with a 4xx status, as safe to retry, and its end leaves the
  -- quarantine as the request found it; an unknown outcome is answered 503, as unsafe to retry, as
  -- blocked, and its end leaves the desktop blocked. The blocked flag of a rejection is that of the
  -- registry when it is read for the response, whatever others did to it since the end.
  pub handle_power-Tells :
      (client : KubeVirtClient E) (r : ControlRegistry) (d : String) (is_start : Bool)
      (o : PowerOperation) (s : ControlRegistry) (others : ControlRegistry → ControlRegistry)
      → (handle_power_begin r true true d (verb is_start)).1 ≡ dispatching o
      → Inv s
      → power_op_of s d ≡ some o
      → s.draining ≡ false
      → let result = dispatch_power api client (verb is_start) in
        let ended = finish_power s d o (outcome_of result) in
        let (t, response) = handle_power_end api s others d o result in
        (t ≡ others ended)
        × Tells (is_blocked r d) is_start (is_blocked ended d) (is_blocked t d) response result
  unfolding handle_power_end
  handle_power-Tells client r d is_start o s others h v p n =
      let begun = admitted r d is_start o h in
      let result : PowerResult E = dispatch_power api client (verb is_start) in
      let (b, _, a) =
        begin-finish r d (verb is_start) (begin_power r d (verb is_start)).0 o s (outcome_of result)
          begun v p n in
      (
        refl,
        power_response-Tells client (is_blocked r d) is_start _ _ (failure_of client is_start) o
            result (dispatch_power-Evidence api client is_start) a b,
      )
