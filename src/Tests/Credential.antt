-- ===== src/Tests/Credential.antt =====
-- Credential requests on a concrete policy.
use typeclaw_operator.Prelude.{◌≡◌, refl, inl, inr, true, false, none, some, List, [], ◌∷◌, arith}
use typeclaw_operator.Prelude.Text.{Text, text, ◌==◌ as text_eq}
use typeclaw_operator.Update.Advance.{found, missing}
use typeclaw_operator.Credential.Policy.{
  pre_authorized, SecretRef, PolicySpec, create_issue, granted, authorize_policy, unset, succeeded,
  is_terminal,
}
use typeclaw_operator.Credential.FailClosed.{Authorized, authorize_policy-Authorized}
use typeclaw_operator.Credential.Requests.{
  RequestStatus, Request, Reads, accepted, Cluster, with_request_status,
}
use typeclaw_operator.Credential.Reconcile.{in_phase}
use typeclaw_operator.Credential.Execute.{reconcile_request}
use typeclaw_operator.Credential.Stages.{Once}
use typeclaw_operator.Credential.Justified.{Creates, Justified}
use typeclaw_operator.Credential.OneRunner.{Event, reconciled, history, history-Once}
use typeclaw_operator.Credential.Creation.{reconcile_request-Justified}
use typeclaw_operator.Credential.Settled.{history-settled}

abbrev secret_ref : SecretRef
secret_ref = record {
  name = "github-token";
  key = "token";
  uid = "uid-1";
  resource_version = "7";
  immutable = true;
}

abbrev policy : PolicySpec
policy = record {
  secret = secret_ref;
  consumers =
      record {
        name = "github";
        operations = create_issue ∷ [];
        access_mode = pre_authorized;
        allowed_repositories = text "fml09/typeclaw" ∷ [];
      }
      ∷ [];
  allow_bypass = false;
}

grants :
    authorize_policy (some policy) "github" create_issue (text "fml09/typeclaw")
    ≡ granted pre_authorized
unfolding authorize_policy text_eq
grants = refl

authorize_policy-Authorized_example :
    Authorized (some policy) "github" create_issue (text "fml09/typeclaw") pre_authorized
authorize_policy-Authorized_example =
    authorize_policy-Authorized (some policy) "github" create_issue (text "fml09/typeclaw")
      pre_authorized grants

abbrev digest_text : Text
digest_text = text "0123456789abcdef0123456789abcdef"

abbrev new_status : RequestStatus
new_status = record {
  phase = unset;
  runner_name = [];
  pod_uid = "";
  spec_digest = "";
  secret_uid = "";
  secret_resource_version = "";
  ticket_consumed_at = none;
  result = none;
  error_code = "";
  observed_generation = 0;
}

abbrev new_request : Request
new_request = record {
  name = text "credential-0123456789abcdef01234567";
  generation = 1;
  deleting = false;
  has_finalizer = true;
  owner = none;
  spec = record {
    instance = text "desk";
    consumer = "github";
    operation = create_issue;
    ticket_digest = digest_text;
    expires_at = some 100;
    secret_binding = secret_ref;
    repository = text "fml09/typeclaw";
    title = text "title";
    body = [];
  };
  status = new_status;
}

abbrev reads : Reads
reads = record {
  now = 7;
  instance = found (record { uid = "i"; name = "desk"; credential_policy = some policy });
  digest = some "d";
  approval = missing;
  metadata = some (record { uid = "uid-1"; resource_version = "7" });
  existing_job = missing;
  runner_job = missing;
  pods = none;
  renders = true;
  owns = true;
  binds = true;
}

abbrev start : Cluster
start = record { request = new_request; created = [] }

abbrev events : List Event
events =
    reconciled reads (accepted ∷ accepted ∷ accepted ∷ accepted ∷ [])
    ∷ reconciled reads (accepted ∷ accepted ∷ accepted ∷ accepted ∷ [])
    ∷ []

creates : (history events start).created ≡ text "credential-0123456789abcdef01234567-runner" ∷ []
unfolding history text_eq is_terminal
creates = refl

history-Once_example : Once (history events start)
history-Once_example = history-Once events start ((omega arith), λ bare. refl)

can_create : Creates (reconcile_request reads new_request)
unfolding reconcile_request text_eq is_terminal
can_create = inr (inl (inr (inl (inr (inl (inl tt))))))

reconcile_request-Justified_example : Justified reads new_request
reconcile_request-Justified_example = reconcile_request-Justified reads new_request can_create

abbrev settled : Cluster
settled = record {
  request = with_request_status (in_phase succeeded "" new_status) new_request;
  created = [];
}

is_settled : is_terminal settled.request.status.phase ≡ true
unfolding is_terminal
is_settled = refl

history-settled_example :
    ((history events settled).request.status ≡ settled.request.status)
    × ((history events settled).created ≡ [])
history-settled_example = history-settled events settled is_settled
