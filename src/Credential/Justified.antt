-- ===== src/Credential/Justified.antt =====
-- credential_controller.go: what a reconcile has checked when it creates a runner's Job.
use package.text.Mathlib.TextEquality.{eq_iff as str_eq_iff}
use package.text.Mathlib.Text.{◌==◌ as str_eq}
use typeclaw_operator.Prelude.{
  String, ◌≡◌, refl, ◌⊎◌, inl, inr, Bool, true, false, ◌&&◌, not, Option, none, some, arith,
  if_intro,
}
use typeclaw_operator.Prelude.Text.{Text, ◌==◌ as text_eq, eq_iff as text_eq_iff}
use typeclaw_operator.Update.Advance.{Read, found, missing, failed as unreadable}
use typeclaw_operator.Credential.Policy.{
  AccessMode, deny, confirm, pre_authorized, bypass, other_mode, SecretRef, PolicySpec,
  request_name, is_terminal,
}
use typeclaw_operator.Credential.FailClosed.{Authorized}
use typeclaw_operator.Credential.Requests.{
  Owner, Request, InstanceRead, ApprovalDecision, approve, deny_request, other_decision, Approval,
  Metadata, Reads, Write, add_finalizer, remove_finalizer, set_owner, patch_status,
  apply_network_policy, delete_network_policy, create_job, delete_job, Script, end, attempt,
}
use typeclaw_operator.Credential.Reconcile.{
  set_status, deny_now, deny_with, has_runner, unknown, observe_runner,
}
use typeclaw_operator.Credential.Execute.{
  consume_ticket, execute, with_metadata, on_decision, decide, seek_approval, with_mode, expired,
}
use typeclaw_operator.Credential.Quiet.{
  Keeps, Quiet, deny_now-Quiet, deny_with-Quiet, unknown-Quiet, observe_runner-Quiet,
}

abbrev pub IsCreation : Write → Type 0
IsCreation (create_job name) = Unit
IsCreation _ = ⊥

-- The script has the creation of a Job among its writes.
abbrev pub Creates : Script → Type 0
Creates end = ⊥
Creates (attempt write next failure) = IsCreation write ⊎ Creates next ⊎ Creates failure

Keeps-no_creation : (name : Text) (write : Write) → Keeps name write → IsCreation write → ⊥
Keeps-no_creation name (create_job job) k c = k
Keeps-no_creation name add_finalizer k c = c
Keeps-no_creation name remove_finalizer k c = c
Keeps-no_creation name (set_owner o) k c = c
Keeps-no_creation name (patch_status s) k c = c
Keeps-no_creation name apply_network_policy k c = c
Keeps-no_creation name delete_network_policy k c = c
Keeps-no_creation name (delete_job job) k c = c

pub Quiet-no_Creates : (name : Text) (script : Script) → Quiet name script → Creates script → ⊥
Quiet-no_Creates name end q c = c
Quiet-no_Creates name (attempt write next failure) q (inl c) = Keeps-no_creation name write q.0 c
Quiet-no_Creates name (attempt write next failure) q (inr (inl c)) =
    Quiet-no_Creates name next q.1 c
Quiet-no_Creates name (attempt write next failure) q (inr (inr c)) =
    Quiet-no_Creates name failure q.2 c

-- The Secret that the reconcile has seen is the one that the request is bound to.
pub record Bound (reads : Reads) (r : Request) : Type 0 where
  pub metadata : Metadata
  pub seen : reads.metadata ≡ some metadata
  pub uid_bound : metadata.uid ≡ r.spec.secret_binding.uid
  pub version_bound : metadata.resource_version ≡ r.spec.secret_binding.resource_version

-- An administrator has approved this very request.
pub record Approved (reads : Reads) (r : Request) : Type 0 where
  pub approval : Approval
  pub given : reads.approval ≡ found approval
  pub names_request : approval.request_name ≡ r.name
  pub approves : approval.decision ≡ approve

-- The binding is the secret of the policy, field by field.
abbrev pub SameBinding : Option PolicySpec → SecretRef → Type 0
SameBinding none ref = ⊥
SameBinding (some policy) ref =
    (policy.secret.name ≡ ref.name)
    × (policy.secret.key ≡ ref.key)
    × (policy.secret.uid ≡ ref.uid)
    × (policy.secret.resource_version ≡ ref.resource_version)
    × (policy.secret.immutable ≡ ref.immutable)

-- The specification has the digest that was recorded for it, if one was.
abbrev pub SpecKept : Reads → Request → Type 0
SpecKept reads r =
    (digest : String) × (reads.digest ≡ some digest)
    × ((r.status.spec_digest ≡ "") ⊎ (r.status.spec_digest ≡ digest))

-- The request has no controlling owner yet, and can be given to the instance, or has the instance.
abbrev pub Owned : Reads → InstanceRead → Option Owner → Type 0
Owned reads instance none = reads.binds ≡ true
Owned reads instance (some owner) = (owner.uid ≡ instance.uid) × (owner.name ≡ instance.name)

pub record Justified (reads : Reads) (r : Request) : Type 0 where
  pub instance : InstanceRead
  pub read : reads.instance ≡ found instance
  pub mode : AccessMode
  pub authorized :
      Authorized instance.credential_policy r.spec.consumer r.spec.operation r.spec.repository mode
  pub secured : SameBinding instance.credential_policy r.spec.secret_binding
  pub spec_kept : SpecKept reads r
  pub owned : Owned reads instance r.owner
  pub approved : mode ≡ confirm → Approved reads r
  pub bound : Bound reads r
  pub unexpired : expired reads.now r.spec.expires_at ≡ false
  pub named : r.name ≡ request_name r.spec.ticket_digest
  pub unspent : has_runner r.status.runner_name ≡ false
  pub live : (r.deleting ≡ false) × (is_terminal r.status.phase ≡ false)

pub deny_with-Creates : (r : Request) (digest code : String) → Creates (deny_with r digest code) → ⊥
deny_with-Creates r digest code =
    Quiet-no_Creates r.status.runner_name (deny_with r digest code) (deny_with-Quiet r digest code)

pub deny_now-Creates : (r : Request) (code : String) → Creates (deny_now r code) → ⊥
deny_now-Creates r code =
    Quiet-no_Creates r.status.runner_name (deny_now r code) (deny_now-Quiet r code)

pub unknown-Creates : (r : Request) (binding : Bool) → Creates (unknown r binding) → ⊥
unknown-Creates r binding =
    Quiet-no_Creates r.status.runner_name (unknown r binding) (unknown-Quiet r binding)

execute-Creates :
    (reads : Reads) (r : Request) (digest : String) (metadata : Metadata)
    → Creates (execute reads r digest metadata)
    → has_runner r.status.runner_name ≡ false
unfolding execute
execute-Creates reads r digest metadata =
    if_intro (λ s. Creates s → has_runner r.status.runner_name ≡ false)
      (has_runner r.status.runner_name
        && not (
            str_eq metadata.uid r.status.secret_uid
            && str_eq metadata.resource_version r.status.secret_resource_version))
      _ _ (λ changed c. absurd (unknown-Creates r false c))
      (λ kept c. elim c [
        | inl w ↦ absurd w
        | inr (inl next) ↦
            if_intro (λ s. Creates s → has_runner r.status.runner_name ≡ false)
              (has_runner r.status.runner_name) (observe_runner reads r reads.runner_job)
              (consume_ticket reads r digest metadata reads.existing_job)
              (λ has d. absurd (
                Quiet-no_Creates r.status.runner_name (observe_runner reads r reads.runner_job)
                  (observe_runner-Quiet reads r reads.runner_job) d))
              (λ bare d. bare) next
        | inr (inr w) ↦ absurd w
      ])

pub and_both : (b c : Bool) → (b && c) ≡ true → (b ≡ true) × (c ≡ true)
and_both b c h = ground arith

with_metadata-Creates :
    (reads : Reads) (r : Request) (digest : String) (metadata : Option Metadata)
    → reads.metadata ≡ metadata
    → Creates (with_metadata reads r digest metadata)
    → Bound reads r × (has_runner r.status.runner_name ≡ false)
unfolding with_metadata set_status
with_metadata-Creates reads r digest none p =
    if_intro (λ s. Creates s → Bound reads r × (has_runner r.status.runner_name ≡ false))
      (has_runner r.status.runner_name) _ _ (λ has c. absurd (unknown-Creates r false c))
      (λ bare c. elim c [ inl w ↦ absurd w | inr (inl w) ↦ absurd w | inr (inr w) ↦ absurd w ])
with_metadata-Creates reads r digest (some m) p =
    if_intro (λ s. Creates s → Bound reads r × (has_runner r.status.runner_name ≡ false))
      (str_eq m.uid r.spec.secret_binding.uid
        && str_eq m.resource_version r.spec.secret_binding.resource_version)
      _ _
      (λ same c.
        let both = and_both _ _ same in
        (
          record {
            metadata = m;
            seen = p;
            uid_bound = (str_eq_iff m.uid r.spec.secret_binding.uid).0 both.0;
            version_bound =
                (str_eq_iff m.resource_version r.spec.secret_binding.resource_version).0 both.1;
          },
          execute-Creates reads r digest m c,
        ))
      (λ other c. absurd (deny_with-Creates r digest "secret_binding_invalid" c))

-- What the creation of a Job shows once the mode is known.
abbrev pub Cleared : Reads → Request → AccessMode → Type 0
Cleared reads r mode =
    (mode ≡ confirm → Approved reads r) × Bound reads r × (has_runner r.status.runner_name ≡ false)

on_decision-Creates :
    (reads : Reads) (r : Request) (digest : String) (mode : AccessMode) (approval : Approval)
    (decision : ApprovalDecision)
    → reads.approval ≡ found approval
    → approval.request_name ≡ r.name
    → approval.decision ≡ decision
    → Creates (on_decision reads r digest decision)
    → Cleared reads r mode
unfolding on_decision
on_decision-Creates reads r digest mode a approve p q d c =
    let rest = with_metadata-Creates reads r digest reads.metadata refl c in
    (λ m. record { approval = a; given = p; names_request = q; approves = d }, rest.0, rest.1)
on_decision-Creates reads r digest mode a deny_request p q d c =
    absurd (deny_with-Creates r digest "approval_denied" c)
on_decision-Creates reads r digest mode a other_decision p q d c = absurd c

seek_approval-Creates :
    (reads : Reads) (r : Request) (digest : String) (mode : AccessMode) (approval : Read Approval)
    → reads.approval ≡ approval
    → Creates (seek_approval reads r digest approval)
    → Cleared reads r mode
unfolding seek_approval set_status decide
seek_approval-Creates reads r digest mode unreadable p = λ c. absurd c
seek_approval-Creates reads r digest mode missing p =
    λ c. elim c [ inl w ↦ absurd w | inr (inl w) ↦ absurd w | inr (inr w) ↦ absurd w ]
seek_approval-Creates reads r digest mode (found a) p =
    if_intro (λ s. Creates s → Cleared reads r mode) (text_eq a.request_name r.name) _ _
      (λ ours c.
        on_decision-Creates reads r digest mode a a.decision p
          ((text_eq_iff a.request_name r.name).0 ours) refl c)
      (λ other c. absurd c)

no_approval :
    (reads : Reads) (r : Request) (digest : String) (mode : AccessMode)
    → (mode ≡ confirm → ⊥)
    → Creates (with_metadata reads r digest reads.metadata)
    → Cleared reads r mode
no_approval reads r digest mode other c =
    let rest = with_metadata-Creates reads r digest reads.metadata refl c in
    (λ m. absurd (other m), rest.0, rest.1)

pub with_mode-Creates :
    (reads : Reads) (r : Request) (digest : String) (mode : AccessMode)
    → Creates (with_mode reads r digest mode)
    → Cleared reads r mode
unfolding with_mode
with_mode-Creates reads r digest confirm c =
    seek_approval-Creates reads r digest confirm reads.approval refl c
with_mode-Creates reads r digest deny c = no_approval reads r digest deny (λ m. cc m) c
with_mode-Creates reads r digest pre_authorized c =
    no_approval reads r digest pre_authorized (λ m. cc m) c
with_mode-Creates reads r digest bypass c = no_approval reads r digest bypass (λ m. cc m) c
with_mode-Creates reads r digest other_mode c = no_approval reads r digest other_mode (λ m. cc m) c
