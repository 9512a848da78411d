-- ===== src/Credential/Reconcile.antt =====
-- credential_controller.go: `Reconcile` of a credential request, as the script of its writes.
-- `setStatus` of the fields that the callers' closures change; the rest of the status stays.
use package.text.Mathlib.Text.{◌==◌ as str_eq}
use typeclaw_operator.Prelude.{
  String, Bool, true, false, ◌&&◌, not, Option, none, some, List, [], ◌∷◌, ltb, if◌then◌else◌,
}
use typeclaw_operator.Prelude.Text.{Text}
use typeclaw_operator.Update.Advance.{Read, found, missing, failed as unreadable}
use typeclaw_operator.Credential.Policy.{
  Phase, ticket_consumed, running, succeeded, failed, denied, unknown_outcome, is_terminal,
  IssueResult, RunnerResult, Decoded, decode_runner_result,
}
use typeclaw_operator.Credential.Requests.{
  RequestStatus, Request, Metadata, Job, ContainerStatus, Pod, Reads, remove_finalizer,
  patch_status, delete_network_policy, delete_job, Script, end, attempt,
}

unfoldable pub set_status : Request → RequestStatus → Script → Script
set_status r status next =
    let observed : RequestStatus = record {
      phase = status.phase;
      runner_name = status.runner_name;
      pod_uid = status.pod_uid;
      spec_digest = status.spec_digest;
      secret_uid = status.secret_uid;
      secret_resource_version = status.secret_resource_version;
      ticket_consumed_at = status.ticket_consumed_at;
      result = status.result;
      error_code = status.error_code;
      observed_generation = r.generation;
    } in
    attempt (patch_status observed) next end

abbrev pub in_phase : Phase → String → RequestStatus → RequestStatus
in_phase phase error_code s = record {
  phase = phase;
  runner_name = s.runner_name;
  pod_uid = s.pod_uid;
  spec_digest = s.spec_digest;
  secret_uid = s.secret_uid;
  secret_resource_version = s.secret_resource_version;
  ticket_consumed_at = s.ticket_consumed_at;
  result = s.result;
  error_code = error_code;
  observed_generation = s.observed_generation;
}

abbrev pub with_digest : String → RequestStatus → RequestStatus
with_digest digest s = record {
  phase = s.phase;
  runner_name = s.runner_name;
  pod_uid = s.pod_uid;
  spec_digest = digest;
  secret_uid = s.secret_uid;
  secret_resource_version = s.secret_resource_version;
  ticket_consumed_at = s.ticket_consumed_at;
  result = s.result;
  error_code = s.error_code;
  observed_generation = s.observed_generation;
}

abbrev pub with_pod : String → Option IssueResult → RequestStatus → RequestStatus
with_pod pod_uid result s = record {
  phase = s.phase;
  runner_name = s.runner_name;
  pod_uid = pod_uid;
  spec_digest = s.spec_digest;
  secret_uid = s.secret_uid;
  secret_resource_version = s.secret_resource_version;
  ticket_consumed_at = s.ticket_consumed_at;
  result = result;
  error_code = s.error_code;
  observed_generation = s.observed_generation;
}

unfoldable pub deny_now : Request → String → Script
unfolding set_status
deny_now r code = set_status r (in_phase denied code r.status) end

unfoldable pub deny_with : Request → String → String → Script
unfolding set_status
deny_with r digest code = set_status r (with_digest digest (in_phase denied code r.status)) end

abbrev pub has_runner : Text → Bool
has_runner [] = false
has_runner (c ∷ cs) = true

unfoldable pub unknown : Request → Bool → Script
unfolding set_status
unknown r binding =
    let code : String = if binding then "secret_binding_invalid" else "runner_failed" in
    let settle = set_status r (in_phase unknown_outcome code r.status) end in
    if has_runner r.status.runner_name
    then attempt (delete_job r.status.runner_name) settle end
    else settle

unfoldable pub remove_own_finalizer : Request → Script
remove_own_finalizer r = if r.has_finalizer then attempt remove_finalizer end end else end

unfoldable pub clean_up : Request → Script
unfolding remove_own_finalizer
clean_up r = attempt delete_network_policy (remove_own_finalizer r) end

unfoldable pub revoke_and_remove_finalizer : Request → Script
unfolding clean_up set_status
revoke_and_remove_finalizer r =
    if has_runner r.status.runner_name && not (is_terminal r.status.phase)
    then attempt (delete_job r.status.runner_name)
        (set_status r (in_phase unknown_outcome "runner_failed" r.status) (clean_up r)) end
    else clean_up r

-- The first runner container that has terminated, over the pods.
abbrev pub first_some {ℓ} : {A : Type ℓ} → Option A → Option A → Option A
first_some none o = o
first_some (some a) o = some a

unfoldable pub terminated_runner : List ContainerStatus → Option (Option Decoded)
terminated_runner [] = none
terminated_runner (s ∷ others) =
    let rest = terminated_runner others in
    if str_eq s.name "credential-runner" then first_some s.terminated rest else rest

abbrev pub tag_pod : String → Option (Option Decoded) → Option (String × Option Decoded)
tag_pod uid none = none
tag_pod uid (some message) = some (uid, message)

unfoldable pub find_result : List Pod → Option (String × Option Decoded)
unfolding terminated_runner
find_result [] = none
find_result (pod ∷ others) =
    first_some (tag_pod pod.uid (terminated_runner pod.statuses)) (find_result others)

abbrev pub from_pod : String → Option RunnerResult → Option (RunnerResult × String)
from_pod uid none = none
from_pod uid (some r) = some (r, uid)

unfoldable pub decode_found : Option (String × Option Decoded) → Option (RunnerResult × String)
unfolding decode_runner_result
decode_found none = none
decode_found (some (uid, none)) = none
decode_found (some (uid, some message)) = from_pod uid (decode_runner_result message)

-- `runnerResult`, where the list of the pods may fail.
unfoldable pub runner_result : Option (List Pod) → Option (RunnerResult × String)
unfolding find_result decode_found
runner_result none = none
runner_result (some pods) = decode_found (find_result pods)

unfoldable pub runner_pod_uid : List Pod → String
runner_pod_uid [] = ""
runner_pod_uid (pod ∷ others) =
    let rest = runner_pod_uid others in if str_eq pod.uid "" then rest else pod.uid

unfoldable pub report_result : Request → Option (RunnerResult × String) → Script
unfolding unknown set_status
report_result r none = unknown r false
report_result r (some (result, uid)) =
    if str_eq result.error_code ""
    then set_status r (with_pod uid result.result (in_phase succeeded "" r.status)) end
    else set_status r (with_pod uid r.status.result (in_phase failed result.error_code r.status))
        end

abbrev pub is_running : Phase → Bool
is_running running = true
is_running _ = false

unfoldable pub mark_running : Request → Option (List Pod) → Script
unfolding set_status runner_pod_uid
mark_running r none = end
mark_running r (some pods) =
    let uid = runner_pod_uid pods in
    let kept : String = if str_eq uid "" then r.status.pod_uid else uid in
    set_status r (with_pod kept r.status.result (in_phase running r.status.error_code r.status)) end

unfoldable pub observe_runner : Reads → Request → Read Job → Script
unfolding unknown runner_result report_result mark_running
observe_runner reads r missing = unknown r false
observe_runner reads r unreadable = end
observe_runner reads r (found job) =
    if ltb 0 job.succeeded
    then report_result r (runner_result reads.pods)
    else if ltb 0 job.failed
    then unknown r false
    else if is_running r.status.phase
    then end
    else mark_running r reads.pods

-- `consumeTicket`.
abbrev pub consumed : Reads → String → Metadata → Text → RequestStatus → RequestStatus
consumed reads digest metadata job_name s = record {
  phase = ticket_consumed;
  runner_name = job_name;
  pod_uid = s.pod_uid;
  spec_digest = digest;
  secret_uid = metadata.uid;
  secret_resource_version = metadata.resource_version;
  ticket_consumed_at = some reads.now;
  result = s.result;
  error_code = "";
  observed_generation = s.observed_generation;
}
