-- ===== src/Credential/Broker.antt =====
-- broker.go: the broker's requests. SHA-256, the check of a ticket's base64 and the random source are
-- arguments, as are the answers of the API server; the requests that it stores are a list.
use package.text.Mathlib.Text.{◌==◌ as str_eq}
use typeclaw_operator.Prelude.{
  ℕ, ◌+◌, ◌*◌, ◌/◌, String, Bool, false, ◌&&◌, not, Option, none, some, List, [], ◌∷◌,
  if◌then◌else◌, is_some,
}
use typeclaw_operator.Prelude.Text.{Text, ◌==◌ as text_eq}
use typeclaw_operator.Prelude.Urls.{Url}
use typeclaw_operator.Credential.Policy.{
  SecretRef, PolicySpec, create_issue, is_empty_text, validate_github_create_issue, Decision,
  granted, refused, authorize_policy, request_name, Phase, unset, pending, succeeded, failed,
  denied, unknown_outcome, IssueResult,
}
use typeclaw_operator.Credential.Requests.{RequestStatus, Request, InstanceRead}
use typeclaw_operator.Credential.Identity.{Identity, identity_from_request}
use typeclaw_operator.Credential.Execute.{expired}
use typeclaw_operator.Update.Advance.{Read, found, missing, failed as unreadable}

pub record Stored : Type 0 where
  pub namespace : Text
  pub request : Request

pub record Input : Type 0 where
  pub repository : Text
  pub title : Text
  pub body : Text
  pub ticket : Text

-- What a call meets. `fresh` is the ticket from the random source, `reached` whether the API server
-- answers a read or write of a request.
pub record Surroundings : Type 0 where
  pub now : ℕ
  pub instance : Read InstanceRead
  pub fresh : Option Text
  pub reached : Bool

pub record Answer : Type 0 where
  pub code : ℕ
  pub state : Option Phase
  pub name : Text
  pub ticket : Text
  pub result : Option IssueResult
  pub error_code : String

unfoldable pub broker_error : ℕ → String → Answer
broker_error code error = record {
  code = code;
  state = none;
  name = [];
  ticket = [];
  result = none;
  error_code = error;
}

unfoldable pub find_request : Text → Text → List Stored → Option Request
find_request namespace name [] = none
find_request namespace name (stored ∷ others) =
    let rest = find_request namespace name others in
    if text_eq stored.namespace namespace && text_eq stored.request.name name
    then some stored.request
    else rest

abbrev pub ticket_ttl : ℕ
ticket_ttl = 300000000000

-- The API server keeps a `metav1.Time` in whole seconds.
abbrev pub whole_seconds : ℕ → ℕ
whole_seconds t = t / 1000000000 * 1000000000

abbrev pub empty_status : RequestStatus
empty_status = record {
  phase = unset;
  runner_name = [];
  pod_uid = "";
  spec_digest = "";
  secret_uid = "";
  secret_resource_version = "";
  ticket_consumed_at = none;
  result = none;
  error_code = "";
  observed_generation = 0;
}

unfoldable pub pending_request : ℕ → Identity → Input → SecretRef → Text → Request
unfolding request_name
pending_request now identity input secret digest = record {
  name = request_name digest;
  generation = 1;
  deleting = false;
  has_finalizer = false;
  owner = none;
  spec = record {
    instance = identity.instance;
    consumer = "github";
    operation = create_issue;
    ticket_digest = digest;
    expires_at = some (whole_seconds (now + ticket_ttl));
    secret_binding = secret;
    repository = input.repository;
    title = input.title;
    body = input.body;
  };
  status = empty_status;
}

unfoldable pub phase_or_pending : Phase → Phase
phase_or_pending unset = pending
phase_or_pending phase = phase

unfoldable pub status_code : Phase → ℕ
status_code succeeded = 200
status_code denied = 403
status_code failed = 409
status_code unknown_outcome = 409
status_code _ = 202

unfoldable pub write_request_status : Request → Text → Answer
unfolding phase_or_pending status_code
write_request_status r ticket =
    let phase = phase_or_pending r.status.phase in
    record {
      code = status_code phase;
      state = some phase;
      name = r.name;
      ticket = ticket;
      result = r.status.result;
      error_code = r.status.error_code;
    }

-- `Writer.Create` and what follows it.
unfoldable pub create_request :
    Surroundings → List Stored → Identity → Request → Text → List Stored × Answer
unfolding broker_error find_request
create_request at store identity r ticket =
    if not at.reached
    then (store, broker_error 503 "broker_unavailable")
    else if is_some (find_request identity.namespace r.name store)
    then (store, broker_error 409 "ticket_collision")
    else (
      record { namespace = identity.namespace; request = r } ∷ store,
      record {
        code = 202;
        state = some pending;
        name = r.name;
        ticket = ticket;
        result = none;
        error_code = "";
      },
    )

module _ (ticket_digest : Text → Text) (valid_ticket : Text → Bool) where
  unfoldable pub with_ticket :
      Surroundings → List Stored → Identity → Input → SecretRef → Option Text → List Stored × Answer
  unfolding create_request pending_request broker_error
  with_ticket at store identity input secret none = (store, broker_error 503 "ticket_unavailable")
  with_ticket at store identity input secret (some ticket) =
      create_request at store identity
        (pending_request at.now identity input secret (ticket_digest ticket)) ticket

  unfoldable pub with_policy :
      Surroundings
      → List Stored
      → Identity
      → Input
      → Option PolicySpec
      → Decision
      → List Stored × Answer
  unfolding with_ticket broker_error
  with_policy at store identity input none decision = (store, broker_error 403 "policy_denied")
  with_policy at store identity input (some policy) (refused error) =
      (store, broker_error 403 "policy_denied")
  with_policy at store identity input (some policy) (granted mode) =
      with_ticket at store identity input policy.secret at.fresh

  unfoldable pub with_read :
      Surroundings → List Stored → Identity → Input → Read InstanceRead → List Stored × Answer
  unfolding with_policy authorize_policy broker_error
  with_read at store identity input unreadable = (store, broker_error 503 "broker_unavailable")
  with_read at store identity input missing = (store, broker_error 403 "policy_denied")
  with_read at store identity input (found instance) =
      with_policy at store identity input instance.credential_policy
        (authorize_policy instance.credential_policy "github" create_issue input.repository)

  unfoldable pub handle_new : Surroundings → List Stored → Identity → Input → List Stored × Answer
  unfolding with_read
  handle_new at store identity input = with_read at store identity input at.instance

  -- Whether a request is the one that the caller asked for before.
  unfoldable pub matches : Request → Identity → Input → Bool
  matches r identity input =
      text_eq r.spec.instance identity.instance
      && str_eq r.spec.consumer "github"
      && str_eq r.spec.operation create_issue
      && text_eq r.spec.repository input.repository
      && text_eq r.spec.title input.title
      && text_eq r.spec.body input.body
      && text_eq r.spec.ticket_digest (ticket_digest input.ticket)

  unfoldable pub with_request : ℕ → Identity → Input → Option Request → Answer
  unfolding matches write_request_status broker_error
  with_request now identity input none = broker_error 404 "UnknownOutcome"
  with_request now identity input (some r) =
      if expired now r.spec.expires_at
      then broker_error 410 "ticket_expired"
      else if not (matches r identity input)
      then broker_error 403 "ticket_mismatch"
      else write_request_status r input.ticket

  unfoldable pub handle_retry : Surroundings → List Stored → Identity → Input → Answer
  unfolding with_request find_request broker_error request_name
  handle_retry at store identity input =
      if not (valid_ticket input.ticket)
      then broker_error 401 "invalid_ticket"
      else if not at.reached
      then broker_error 503 "broker_unavailable"
      else with_request at.now identity input
          (find_request identity.namespace (request_name (ticket_digest input.ticket)) store)

  -- `ServeHTTP` on a call: whether its method and path are those of the operation, the certificates of
  -- the peer, and what the JSON decoder makes of the body, where `none` is also a body that is too
  -- long, has unknown fields or goes on after the object.
  unfoldable pub with_input :
      Surroundings → List Stored → Identity → Option Input → List Stored × Answer
  unfolding handle_new handle_retry validate_github_create_issue broker_error
  with_input at store identity none = (store, broker_error 400 "typed_request_invalid")
  with_input at store identity (some input) =
      if not (validate_github_create_issue input.repository input.title input.body)
      then (store, broker_error 400 "typed_request_invalid")
      else if is_empty_text input.ticket
      then handle_new at store identity input
      else (store, handle_retry at store identity input)

  unfoldable pub with_identity :
      Surroundings → List Stored → Option Identity → Option Input → List Stored × Answer
  unfolding with_input broker_error
  with_identity at store none body = (store, broker_error 401 "spiffe_required")
  with_identity at store (some identity) body = with_input at store identity body

  unfoldable pub serve_http :
      Text
      → Surroundings
      → List Stored
      → Bool
      → List (List (Option Url))
      → Option Input
      → List Stored × Answer
  unfolding identity_from_request with_identity broker_error
  serve_http trust_domain at store routed certificates body =
      if not routed
      then (store, broker_error 404 "not_found")
      else with_identity at store (identity_from_request certificates trust_domain) body
