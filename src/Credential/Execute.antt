-- ===== src/Credential/Execute.antt =====
-- credential_controller.go: `Reconcile`, from the checks of the request to the runner's Job.
use package.text.Mathlib.Text.{◌==◌ as str_eq}
use typeclaw_operator.Prelude.{
  ℕ, String, Bool, true, false, ◌&&◌, not, Option, none, some, ◌++◌, leb, if◌then◌else◌,
}
use typeclaw_operator.Prelude.Text.{Text, text, ◌==◌ as text_eq}
use typeclaw_operator.Conditions.{same}
use typeclaw_operator.Update.Advance.{Read, found, missing, failed as unreadable}
use typeclaw_operator.Credential.Policy.{
  AccessMode, deny, confirm, pre_authorized, bypass, other_mode, SecretRef, PolicySpec, Decision,
  granted, refused, authorize_policy, request_name, pending, pending_approval, is_terminal,
}
use typeclaw_operator.Credential.Requests.{
  Owner, Request, InstanceRead, ApprovalDecision, approve, deny_request, other_decision, Approval,
  Metadata, Job, Reads, add_finalizer, set_owner, patch_status, apply_network_policy, create_job,
  Script, end, attempt, with_request_status, with_finalizer, with_owner,
}
use typeclaw_operator.Credential.Reconcile.{
  set_status, in_phase, with_digest, deny_now, deny_with, has_runner, unknown, clean_up,
  revoke_and_remove_finalizer, observe_runner, consumed,
}

unfoldable pub render_job : Reads → Request → Text → Script
unfolding unknown
render_job reads r job_name =
    if reads.renders && reads.owns
    then attempt (create_job job_name) end (unknown r false)
    else unknown r false

-- After the network policy has been applied, for a request whose ticket is not consumed.
unfoldable pub consume_ticket : Reads → Request → String → Metadata → Read Job → Script
unfolding render_job
consume_ticket reads r digest metadata unreadable = end
consume_ticket reads r digest metadata (found job) =
    let status = consumed reads digest metadata (r.name ++ text "-runner") r.status in
    attempt (patch_status status) end end
consume_ticket reads r digest metadata missing =
    let job_name = r.name ++ text "-runner" in
    let status = consumed reads digest metadata job_name r.status in
    attempt (patch_status status) (render_job reads (with_request_status status r) job_name) end

unfoldable pub execute : Reads → Request → String → Metadata → Script
unfolding unknown observe_runner consume_ticket
execute reads r digest metadata =
    if has_runner r.status.runner_name
      && not (
          str_eq metadata.uid r.status.secret_uid
          && str_eq metadata.resource_version r.status.secret_resource_version)
    then unknown r false
    else attempt apply_network_policy
        (if has_runner r.status.runner_name
          then observe_runner reads r reads.runner_job
          else consume_ticket reads r digest metadata reads.existing_job)
        end

-- `secretMetadata` and what follows it.
unfoldable pub with_metadata : Reads → Request → String → Option Metadata → Script
unfolding unknown set_status deny_with execute
with_metadata reads r digest none =
    if has_runner r.status.runner_name
    then unknown r false
    else set_status r (with_digest digest (in_phase pending "secret_binding_invalid" r.status)) end
with_metadata reads r digest (some metadata) =
    let binding = r.spec.secret_binding in
    if str_eq metadata.uid binding.uid && str_eq metadata.resource_version binding.resource_version
    then execute reads r digest metadata
    else deny_with r digest "secret_binding_invalid"

unfoldable pub on_decision : Reads → Request → String → ApprovalDecision → Script
unfolding deny_with with_metadata
on_decision reads r digest deny_request = deny_with r digest "approval_denied"
on_decision reads r digest approve = with_metadata reads r digest reads.metadata
on_decision reads r digest other_decision = end

-- `approval` and what follows it.
unfoldable pub decide : Reads → Request → String → Approval → Script
unfolding on_decision
decide reads r digest approval =
    if text_eq approval.request_name r.name
    then on_decision reads r digest approval.decision
    else end

unfoldable pub seek_approval : Reads → Request → String → Read Approval → Script
unfolding set_status decide
seek_approval reads r digest unreadable = end
seek_approval reads r digest missing =
    set_status r (with_digest digest (in_phase pending_approval r.status.error_code r.status)) end
seek_approval reads r digest (found approval) = decide reads r digest approval

unfoldable pub same_binding : SecretRef → SecretRef → Bool
same_binding left right =
    str_eq left.name right.name
    && str_eq left.key right.key
    && str_eq left.uid right.uid
    && str_eq left.resource_version right.resource_version
    && same left.immutable right.immutable

unfoldable pub with_mode : Reads → Request → String → AccessMode → Script
unfolding seek_approval with_metadata
with_mode reads r digest confirm = seek_approval reads r digest reads.approval
with_mode reads r digest deny = with_metadata reads r digest reads.metadata
with_mode reads r digest pre_authorized = with_metadata reads r digest reads.metadata
with_mode reads r digest bypass = with_metadata reads r digest reads.metadata
with_mode reads r digest other_mode = with_metadata reads r digest reads.metadata

unfoldable pub binds_policy : Option PolicySpec → SecretRef → Bool
unfolding same_binding
binds_policy none ref = false
binds_policy (some policy) ref = same_binding policy.secret ref

unfoldable pub with_decision : Reads → Request → InstanceRead → String → Decision → Script
unfolding unknown deny_with with_mode binds_policy
with_decision reads r instance digest (refused error) =
    if has_runner r.status.runner_name then unknown r false else deny_with r digest "policy_denied"
with_decision reads r instance digest (granted mode) =
    if binds_policy instance.credential_policy r.spec.secret_binding
    then with_mode reads r digest mode
    else if has_runner r.status.runner_name
    then unknown r true
    else deny_with r digest "secret_binding_invalid"

abbrev pub expired : ℕ → Option ℕ → Bool
expired now none = true
expired now (some expires_at) = leb expires_at now

unfoldable pub with_spec_digest : Reads → Request → InstanceRead → Option String → Script
unfolding deny_now deny_with authorize_policy with_decision
with_spec_digest reads r instance none = end
with_spec_digest reads r instance (some digest) =
    if not (str_eq r.status.spec_digest "") && not (str_eq r.status.spec_digest digest)
    then deny_now r "policy_denied"
    else if expired reads.now r.spec.expires_at
    then deny_with r digest "ticket_expired"
    else with_decision reads r instance digest (
        authorize_policy instance.credential_policy r.spec.consumer r.spec.operation
          r.spec.repository)

-- `bindRequest` and what follows it.
unfoldable pub bind_request : Reads → Request → InstanceRead → Option Owner → Script
unfolding deny_now with_spec_digest
bind_request reads r instance none =
    let owner : Owner = record { uid = instance.uid; name = instance.name } in
    if reads.binds
    then attempt (set_owner owner)
        (with_spec_digest reads (with_owner owner r) instance reads.digest) end
    else end
bind_request reads r instance (some owner) =
    if str_eq owner.uid instance.uid && str_eq owner.name instance.name
    then with_spec_digest reads r instance reads.digest
    else deny_now r "policy_denied"

unfoldable pub with_instance : Reads → Request → Read InstanceRead → Script
unfolding deny_now request_name bind_request
with_instance reads r unreadable = end
with_instance reads r missing = deny_now r "policy_denied"
with_instance reads r (found instance) =
    if text_eq r.name (request_name r.spec.ticket_digest)
    then bind_request reads r instance r.owner
    else deny_now r "policy_denied"

unfoldable pub reconcile_request : Reads → Request → Script
unfolding revoke_and_remove_finalizer clean_up with_instance
reconcile_request reads r =
    if r.deleting
    then revoke_and_remove_finalizer r
    else if is_terminal r.status.phase
    then clean_up r
    else if r.has_finalizer
    then with_instance reads r reads.instance
    else attempt add_finalizer (with_instance reads (with_finalizer true r) reads.instance) end
