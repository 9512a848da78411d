-- ===== src/Credential/Scripts.antt =====
-- credential_controller.go: the script of `Reconcile` fits the stage of its request.
use package.text.Mathlib.Text.{◌==◌ as str_eq}
use typeclaw_operator.Prelude.{
  String, refl, sym, subst, true, false, ◌&&◌, not, Option, none, some, if◌then◌else◌, if_intro,
}
use typeclaw_operator.Prelude.Text.{◌==◌ as text_eq}
use typeclaw_operator.Update.Advance.{Read, found, missing, failed as unreadable}
use typeclaw_operator.Credential.Policy.{
  AccessMode, deny, confirm, pre_authorized, bypass, other_mode, Decision, granted, refused,
  authorize_policy, request_name, pending, pending_approval, is_terminal,
}
use typeclaw_operator.Credential.Requests.{
  Owner, Request, InstanceRead, ApprovalDecision, approve, deny_request, other_decision, Approval,
  Metadata, Reads, add_finalizer, set_owner, end, attempt, with_finalizer, with_owner,
}
use typeclaw_operator.Credential.Reconcile.{
  set_status, in_phase, with_digest, deny_now, deny_with, has_runner, unknown, clean_up,
  revoke_and_remove_finalizer, observe_runner,
}
use typeclaw_operator.Credential.Execute.{
  consume_ticket, execute, with_metadata, on_decision, decide, seek_approval, with_mode,
  binds_policy, with_decision, expired, with_spec_digest, bind_request, with_instance,
  reconcile_request,
}
use typeclaw_operator.Credential.Stages.{Safe}
use typeclaw_operator.Credential.Quiet.{
  stage_of, clean_up-Quiet, revoke-Quiet, observe_runner-Quiet,
}
use typeclaw_operator.Credential.Fits.{
  Fits, bare-unnamed, consume_ticket-Safe, Quiet-Fits, deny_with-Fits, deny_now-Fits, unknown-Fits,
  set_status-Fits, policy-first, owner-first, finalizer-first,
}

execute-Fits :
    (reads : Reads) (r : Request) (digest : String) (metadata : Metadata)
    → Fits r (execute reads r digest metadata)
unfolding execute
execute-Fits reads r digest metadata =
    if_intro (Fits r)
      (has_runner r.status.runner_name
        && not (
            str_eq metadata.uid r.status.secret_uid
            && str_eq metadata.resource_version r.status.secret_resource_version))
      (unknown r false) _ (λ changed. unknown-Fits r false)
      (λ kept. policy-first (stage_of r.status.runner_name) _ (
        if_intro (Fits r) (has_runner r.status.runner_name)
          (observe_runner reads r reads.runner_job)
          (consume_ticket reads r digest metadata reads.existing_job)
          (λ named. Quiet-Fits r _ (observe_runner-Quiet reads r reads.runner_job))
          (λ bare.
            subst (λ k. Safe k (consume_ticket reads r digest metadata reads.existing_job))
              (sym (bare-unnamed r.status.runner_name bare))
              (consume_ticket-Safe reads r digest metadata reads.existing_job))))

with_metadata-Fits :
    (reads : Reads) (r : Request) (digest : String) (metadata : Option Metadata)
    → Fits r (with_metadata reads r digest metadata)
unfolding with_metadata
with_metadata-Fits reads r digest none =
    if_intro (Fits r) (has_runner r.status.runner_name) (unknown r false)
      (set_status r (with_digest digest (in_phase pending "secret_binding_invalid" r.status)) end)
      (λ named. unknown-Fits r false)
      (λ bare.
        set_status-Fits r (with_digest digest (in_phase pending "secret_binding_invalid" r.status))
          refl)
with_metadata-Fits reads r digest (some metadata) =
    if_intro (Fits r)
      (str_eq metadata.uid r.spec.secret_binding.uid
        && str_eq metadata.resource_version r.spec.secret_binding.resource_version)
      (execute reads r digest metadata) (deny_with r digest "secret_binding_invalid")
      (λ bound. execute-Fits reads r digest metadata)
      (λ unbound. deny_with-Fits r digest "secret_binding_invalid")

on_decision-Fits :
    (reads : Reads) (r : Request) (digest : String) (decision : ApprovalDecision)
    → Fits r (on_decision reads r digest decision)
unfolding on_decision
on_decision-Fits reads r digest deny_request = deny_with-Fits r digest "approval_denied"
on_decision-Fits reads r digest approve = with_metadata-Fits reads r digest reads.metadata
on_decision-Fits reads r digest other_decision = tt

seek_approval-Fits :
    (reads : Reads) (r : Request) (digest : String) (approval : Read Approval)
    → Fits r (seek_approval reads r digest approval)
unfolding seek_approval decide
seek_approval-Fits reads r digest unreadable = tt
seek_approval-Fits reads r digest missing =
    set_status-Fits r (with_digest digest (in_phase pending_approval r.status.error_code r.status))
      refl
seek_approval-Fits reads r digest (found approval) =
    if_intro (Fits r) (text_eq approval.request_name r.name)
      (on_decision reads r digest approval.decision) end
      (λ ours. on_decision-Fits reads r digest approval.decision) (λ other. tt)

with_mode-Fits :
    (reads : Reads) (r : Request) (digest : String) (mode : AccessMode)
    → Fits r (with_mode reads r digest mode)
unfolding with_mode
with_mode-Fits reads r digest confirm = seek_approval-Fits reads r digest reads.approval
with_mode-Fits reads r digest deny = with_metadata-Fits reads r digest reads.metadata
with_mode-Fits reads r digest pre_authorized = with_metadata-Fits reads r digest reads.metadata
with_mode-Fits reads r digest bypass = with_metadata-Fits reads r digest reads.metadata
with_mode-Fits reads r digest other_mode = with_metadata-Fits reads r digest reads.metadata

with_decision-Fits :
    (reads : Reads) (r : Request) (instance : InstanceRead) (digest : String) (decision : Decision)
    → Fits r (with_decision reads r instance digest decision)
unfolding with_decision
with_decision-Fits reads r instance digest (refused error) =
    if_intro (Fits r) (has_runner r.status.runner_name) (unknown r false)
      (deny_with r digest "policy_denied") (λ named. unknown-Fits r false)
      (λ bare. deny_with-Fits r digest "policy_denied")
with_decision-Fits reads r instance digest (granted mode) =
    if_intro (Fits r) (binds_policy instance.credential_policy r.spec.secret_binding)
      (with_mode reads r digest mode)
      (if has_runner r.status.runner_name
        then unknown r true
        else deny_with r digest "secret_binding_invalid")
      (λ bound. with_mode-Fits reads r digest mode)
      (λ unbound.
        if_intro (Fits r) (has_runner r.status.runner_name) (unknown r true)
          (deny_with r digest "secret_binding_invalid") (λ named. unknown-Fits r true)
          (λ bare. deny_with-Fits r digest "secret_binding_invalid"))

with_spec_digest-Fits :
    (reads : Reads) (r : Request) (instance : InstanceRead) (digest : Option String)
    → Fits r (with_spec_digest reads r instance digest)
unfolding with_spec_digest
with_spec_digest-Fits reads r instance none = tt
with_spec_digest-Fits reads r instance (some digest) =
    let decision =
      authorize_policy instance.credential_policy r.spec.consumer r.spec.operation
        r.spec.repository in
    let timely = with_decision reads r instance digest decision in
    let late = deny_with r digest "ticket_expired" in
    if_intro (Fits r)
      (not (str_eq r.status.spec_digest "") && not (str_eq r.status.spec_digest digest))
      (deny_now r "policy_denied") (if expired reads.now r.spec.expires_at then late else timely)
      (λ changed. deny_now-Fits r "policy_denied")
      (λ kept.
        if_intro (Fits r) (expired reads.now r.spec.expires_at) late timely
          (λ over. deny_with-Fits r digest "ticket_expired")
          (λ still. with_decision-Fits reads r instance digest decision))

bind_request-Fits :
    (reads : Reads) (r : Request) (instance : InstanceRead) (owner : Option Owner)
    → Fits r (bind_request reads r instance owner)
unfolding bind_request
bind_request-Fits reads r instance none =
    let owner : Owner = record { uid = instance.uid; name = instance.name } in
    let next = with_spec_digest reads (with_owner owner r) instance reads.digest in
    if_intro (Fits r) reads.binds (attempt (set_owner owner) next end) end
      (λ owns.
        owner-first (stage_of r.status.runner_name) owner next
          (with_spec_digest-Fits reads (with_owner owner r) instance reads.digest))
      (λ fails. tt)
bind_request-Fits reads r instance (some owner) =
    if_intro (Fits r) (str_eq owner.uid instance.uid && str_eq owner.name instance.name)
      (with_spec_digest reads r instance reads.digest) (deny_now r "policy_denied")
      (λ ours. with_spec_digest-Fits reads r instance reads.digest)
      (λ other. deny_now-Fits r "policy_denied")

with_instance-Fits :
    (reads : Reads) (r : Request) (instance : Read InstanceRead)
    → Fits r (with_instance reads r instance)
unfolding with_instance
with_instance-Fits reads r unreadable = tt
with_instance-Fits reads r missing = deny_now-Fits r "policy_denied"
with_instance-Fits reads r (found instance) =
    if_intro (Fits r) (text_eq r.name (request_name r.spec.ticket_digest))
      (bind_request reads r instance r.owner) (deny_now r "policy_denied")
      (λ named. bind_request-Fits reads r instance r.owner)
      (λ other. deny_now-Fits r "policy_denied")

pub reconcile_request-Fits : (reads : Reads) (r : Request) → Fits r (reconcile_request reads r)
unfolding reconcile_request
reconcile_request-Fits reads r =
    let next = with_instance reads (with_finalizer true r) reads.instance in
    let guarded =
      if r.has_finalizer
      then with_instance reads r reads.instance
      else attempt add_finalizer next end in
    if_intro (Fits r) r.deleting (revoke_and_remove_finalizer r)
      (if is_terminal r.status.phase then clean_up r else guarded)
      (λ gone. Quiet-Fits r (revoke_and_remove_finalizer r) (revoke-Quiet r))
      (λ there.
        if_intro (Fits r) (is_terminal r.status.phase) (clean_up r) guarded
          (λ over. Quiet-Fits r (clean_up r) (clean_up-Quiet r))
          (λ live.
            if_intro (Fits r) r.has_finalizer (with_instance reads r reads.instance)
              (attempt add_finalizer next end) (λ has. with_instance-Fits reads r reads.instance)
              (λ has_not.
                finalizer-first (stage_of r.status.runner_name) next
                  (with_instance-Fits reads (with_finalizer true r) reads.instance))))
