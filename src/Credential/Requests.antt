-- ===== src/Credential/Requests.antt =====
-- credential_controller.go: a credential request, what a reconcile reads, and what it writes. The
-- writes of a reconcile are a script, since each can fail and the next depends on it.
use typeclaw_operator.Prelude.{
  ℕ, String, Bool, true, false, Option, some, List, [], ◌∷◌, if◌then◌else◌,
}
use typeclaw_operator.Prelude.Text.{Text}
use typeclaw_operator.Credential.Policy.{SecretRef, PolicySpec, Phase, IssueResult, Decoded}
use typeclaw_operator.Update.Advance.{Read}

pub record RequestSpec : Type 0 where
  pub instance : Text
  pub consumer : String
  pub operation : String
  pub ticket_digest : Text
  pub expires_at : Option ℕ
  pub secret_binding : SecretRef
  pub repository : Text
  pub title : Text
  pub body : Text

pub record RequestStatus : Type 0 where
  pub phase : Phase
  pub runner_name : Text
  pub pod_uid : String
  pub spec_digest : String
  pub secret_uid : String
  pub secret_resource_version : String
  pub ticket_consumed_at : Option ℕ
  pub result : Option IssueResult
  pub error_code : String
  pub observed_generation : ℕ

pub record Owner : Type 0 where
  pub uid : String
  pub name : String

pub record Request : Type 0 where
  pub name : Text
  pub generation : ℕ
  pub deleting : Bool
  pub has_finalizer : Bool
  pub owner : Option Owner
  pub spec : RequestSpec
  pub status : RequestStatus

pub record InstanceRead : Type 0 where
  pub uid : String
  pub name : String
  pub credential_policy : Option PolicySpec

pub data ApprovalDecision : Type 0 where
  approve : ApprovalDecision
  deny_request : ApprovalDecision
  other_decision : ApprovalDecision

pub record Approval : Type 0 where
  pub request_name : Text
  pub decision : ApprovalDecision

pub record Metadata : Type 0 where
  pub uid : String
  pub resource_version : String

pub record Job : Type 0 where
  pub succeeded : ℕ
  pub failed : ℕ

-- A container's status, with the termination message that it has once terminated, decoded.
pub record ContainerStatus : Type 0 where
  pub name : String
  pub terminated : Option (Option Decoded)

pub record Pod : Type 0 where
  pub uid : String
  pub statuses : List ContainerStatus

-- What the reads of a reconcile return. `renders` and `owns` are whether the Job of the runner can
-- be built and be given its owner, and `binds` whether the request can be given the instance as its
-- controller.
pub record Reads : Type 0 where
  pub now : ℕ
  pub instance : Read InstanceRead
  pub digest : Option String
  pub approval : Read Approval
  pub metadata : Option Metadata
  pub existing_job : Read Job
  pub runner_job : Read Job
  pub pods : Option (List Pod)
  pub renders : Bool
  pub owns : Bool
  pub binds : Bool

pub data Write : Type 0 where
  add_finalizer : Write
  remove_finalizer : Write
  set_owner : Owner → Write
  patch_status : RequestStatus → Write
  apply_network_policy : Write
  delete_network_policy : Write
  create_job : Text → Write
  delete_job : Text → Write

-- The writes of a reconcile: each one with what follows its success and what follows its failure.
pub data Script : Type 0 where
  end : Script
  attempt : Write → Script → Script → Script

-- What the API server answers. `already` is that a Job to be created exists, or that what is to be
-- deleted does not.
pub data Reply : Type 0 where
  accepted : Reply
  already : Reply
  rejected : Reply

abbrev pub tolerates : Write → Bool
tolerates (create_job name) = true
tolerates (delete_job name) = true
tolerates delete_network_policy = true
tolerates _ = false

-- The request and the runner Jobs that have been created for it, in the cluster.
pub record Cluster : Type 0 where
  pub request : Request
  pub created : List Text

abbrev pub with_request_status : RequestStatus → Request → Request
with_request_status status r = record {
  name = r.name;
  generation = r.generation;
  deleting = r.deleting;
  has_finalizer = r.has_finalizer;
  owner = r.owner;
  spec = r.spec;
  status = status;
}

abbrev pub with_finalizer : Bool → Request → Request
with_finalizer present r = record {
  name = r.name;
  generation = r.generation;
  deleting = r.deleting;
  has_finalizer = present;
  owner = r.owner;
  spec = r.spec;
  status = r.status;
}

abbrev pub with_owner : Owner → Request → Request
with_owner owner r = record {
  name = r.name;
  generation = r.generation;
  deleting = r.deleting;
  has_finalizer = r.has_finalizer;
  owner = some owner;
  spec = r.spec;
  status = r.status;
}

unfoldable pub apply_write : Write → Cluster → Cluster
apply_write add_finalizer c = record {
  request = with_finalizer true c.request;
  created = c.created;
}
apply_write remove_finalizer c = record {
  request = with_finalizer false c.request;
  created = c.created;
}
apply_write (set_owner owner) c = record {
  request = with_owner owner c.request;
  created = c.created;
}
apply_write (patch_status status) c = record {
  request = with_request_status status c.request;
  created = c.created;
}
apply_write apply_network_policy c = c
apply_write delete_network_policy c = c
apply_write (create_job name) c = record { request = c.request; created = name ∷ c.created }
apply_write (delete_job name) c = c

-- A run of a script on the replies it gets; it also ends when no further reply comes, as when the
-- manager dies.
unfoldable pub run : Script → List Reply → Cluster → Cluster
unfolding apply_write
run end replies c = c
run (attempt write next failure) [] c = c
run (attempt write next failure) (accepted ∷ replies) c = run next replies (apply_write write c)
run (attempt write next failure) (already ∷ replies) c =
    let onward = run next replies c in
    let back = run failure replies c in if tolerates write then onward else back
run (attempt write next failure) (rejected ∷ replies) c = run failure replies c
