-- ===== src/Gateway/KubeVirt.antt =====
-- kubevirt.go: what the gateway reads of a virtual machine. The errors of the Kubernetes API are a
-- parameter: their type, and the tests and the reason that k8s.io/apimachinery gives for each.
use text.Mathlib.Text.{◌==◌ as str_eq}
use typeclaw_operator.Prelude.{String, ◌≡◌, ◌⊎◌, Bool, true, ◌||◌, Option, List}

-- `metav1.StatusReason`; `other_reason` stands for every reason that the code does not name.
pub data StatusReason : Type 0 where
  not_found unauthorized forbidden conflict bad_request invalid : StatusReason
  method_not_allowed not_acceptable request_entity_too_large : StatusReason
  unsupported_media_type timeout server_timeout service_unavailable other_reason : StatusReason

-- `ReasonForError` and the `Is…` tests. A test holds of an error of its own reason, and besides
-- that at most of an error whose reason is unknown (it then goes by the HTTP code).
pub record ApiErrors (E : Type 0) : Type 0 where
  pub reason_for_error : E → StatusReason
  pub is_not_found : E → Bool
  pub is_conflict : E → Bool
  pub is_bad_request : E → Bool
  pub is_invalid : E → Bool
  pub is_timeout : E → Bool
  pub is_server_timeout : E → Bool
  pub is_service_unavailable : E → Bool
  pub timeout_reason :
      (e : E)
      → is_timeout e ≡ true
      → (reason_for_error e ≡ timeout) ⊎ (reason_for_error e ≡ other_reason)
  pub server_timeout_reason :
      (e : E)
      → is_server_timeout e ≡ true
      → (reason_for_error e ≡ server_timeout) ⊎ (reason_for_error e ≡ other_reason)
  pub service_unavailable_reason :
      (e : E)
      → is_service_unavailable e ≡ true
      → (reason_for_error e ≡ service_unavailable) ⊎ (reason_for_error e ≡ other_reason)

-- What a call of the client returns.
pub data Answer (E A : Type 0) : Type 0 where
  ok : A → Answer E A
  err : E → Answer E A

pub record VirtualMachine : Type 0 where
  pub uid : String
  pub deleting : Bool
  pub run_strategy : String
  pub printable_status : String
  pub state_change_requests : List String

pub record VirtualMachineInstance : Type 0 where
  pub uid : String
  pub deleting : Bool
  pub phase : String

-- The answers that one request gets from `KubeVirtClient`. A `nil` pointer is `none`.
pub record KubeVirtClient (E : Type 0) : Type 0 where
  pub get_vm : Answer E (Option VirtualMachine)
  pub get_vmi : Answer E (Option VirtualMachineInstance)
  pub start : Option E
  pub stop : Option E

unfoldable pub final_instance_phase : String → Bool
final_instance_phase phase = str_eq phase "Succeeded" || str_eq phase "Failed"
