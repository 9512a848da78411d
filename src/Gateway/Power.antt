-- ===== src/Gateway/Power.antt =====
-- power.go: dispatching a power operation, and what its answer means.
use text.Mathlib.Text.{◌==◌ as str_eq}
use typeclaw_operator.Prelude.{
  ℕ, String, Bool, true, false, ◌&&◌, ◌||◌, not, Option, none, some, List, [], ◌∷◌, if◌then◌else◌,
}
use typeclaw_operator.Control.Power.{PowerOutcome, power_succeeded, power_rejected, power_unknown}
use typeclaw_operator.Gateway.KubeVirt.{
  StatusReason, not_found, unauthorized, forbidden, bad_request, invalid, method_not_allowed,
  not_acceptable, request_entity_too_large, unsupported_media_type, ApiErrors, Answer, ok, err,
  VirtualMachine, VirtualMachineInstance, KubeVirtClient, final_instance_phase,
}

abbrev pub is_empty {ℓ} : {A : Type ℓ} → List A → Bool
is_empty [] = true
is_empty (x ∷ xs) = false

unfoldable pub stable_running_after_start_conflict :
    Option VirtualMachine → Option VirtualMachineInstance → Bool
stable_running_after_start_conflict (some vm) (some vmi) =
    not vm.deleting
    && str_eq vm.printable_status "Running"
    && is_empty vm.state_change_requests
    && str_eq vmi.phase "Running"
    && not vmi.deleting
stable_running_after_start_conflict _ _ = false

abbrev pub nothing_runs : Option VirtualMachineInstance → Bool
nothing_runs none = true
nothing_runs (some vmi) = final_instance_phase vmi.phase

unfoldable pub stable_stopped_after_stop_conflict :
    Option VirtualMachine → Option VirtualMachineInstance → Bool
unfolding final_instance_phase
stable_stopped_after_stop_conflict none vmi = false
stable_stopped_after_stop_conflict (some vm) vmi =
    not vm.deleting
    && str_eq vm.run_strategy "Manual"
    && str_eq vm.printable_status "Stopped"
    && is_empty vm.state_change_requests
    && nothing_runs vmi

abbrev pub is_definitive : StatusReason → Bool
is_definitive not_found = true
is_definitive unauthorized = true
is_definitive forbidden = true
is_definitive bad_request = true
is_definitive invalid = true
is_definitive method_not_allowed = true
is_definitive not_acceptable = true
is_definitive request_entity_too_large = true
is_definitive unsupported_media_type = true
is_definitive _ = false

-- `powerResult`, with the error of a failure. The error of an unknown action is not an API error.
pub data PowerResult (E : Type 0) : Type 0 where
  succeeded : (idempotent : Bool) → PowerResult E
  rejected unknown : E → PowerResult E
  unknown_action : PowerResult E

abbrev pub outcome_of : {E : Type 0} → PowerResult E → PowerOutcome
outcome_of (succeeded idempotent) = power_succeeded
outcome_of (rejected e) = power_rejected
outcome_of (unknown e) = power_unknown
outcome_of unknown_action = power_rejected

module _ {E : Type 0} (api : ApiErrors E) where
  unfoldable pub definitive_power_rejection : E → Bool
  definitive_power_rejection e = is_definitive (api.reason_for_error e)

  -- `confirmSettledAfterConflict`, from the two reads.
  unfoldable pub judge :
      Bool
      → Answer E (Option VirtualMachine)
      → Answer E (Option VirtualMachineInstance)
      → Answer E Bool
  unfolding stable_running_after_start_conflict stable_stopped_after_stop_conflict
  judge is_start (err e) _ = err e
  judge true (ok vm) (ok vmi) = ok (stable_running_after_start_conflict vm vmi)
  judge false (ok vm) (ok vmi) = ok (stable_stopped_after_stop_conflict vm vmi)
  judge true (ok vm) (err e) = err e
  judge false (ok vm) (err e) =
      if api.is_not_found e then ok (stable_stopped_after_stop_conflict vm none) else err e

  unfoldable pub confirm_settled_after_conflict : KubeVirtClient E → Bool → Answer E Bool
  unfolding judge
  confirm_settled_after_conflict client is_start = judge is_start client.get_vm client.get_vmi

  -- `dispatchPower` after a verb that failed with `e`.
  unfoldable pub classify : E → PowerResult E
  unfolding definitive_power_rejection
  classify e = if definitive_power_rejection e then rejected e else unknown e

  unfoldable pub settle_conflict : E → Answer E Bool → PowerResult E
  unfolding classify
  settle_conflict e (err confirm_err) = unknown confirm_err
  settle_conflict e (ok true) = succeeded true
  settle_conflict e (ok false) = classify e

  unfoldable pub judge_verb : KubeVirtClient E → Bool → Option E → PowerResult E
  unfolding settle_conflict confirm_settled_after_conflict
  judge_verb client is_start none = succeeded false
  judge_verb client is_start (some e) =
      if api.is_conflict e
      then settle_conflict e (confirm_settled_after_conflict client is_start)
      else classify e

  unfoldable pub dispatch_power : KubeVirtClient E → String → PowerResult E
  unfolding judge_verb
  dispatch_power client action =
      if str_eq action "start"
      then judge_verb client true client.start
      else if str_eq action "stop"
      then judge_verb client false client.stop
      else unknown_action

  -- `kubeVirtOperationStatus`.
  unfoldable pub kube_virt_operation_status : E → ℕ
  unfolding definitive_power_rejection
  kube_virt_operation_status e =
      if api.is_not_found e
      then 404
      else if api.is_bad_request e || api.is_invalid e
      then 400
      else if api.is_timeout e || api.is_server_timeout e || api.is_service_unavailable e
      then 503
      else if api.is_conflict e || definitive_power_rejection e
      then 409
      else 502
