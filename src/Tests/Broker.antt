-- ===== src/Tests/Broker.antt =====
-- A typed operation through the broker, its retry, and the first reconcile of its request.
use typeclaw_operator.Prelude.{
  ◌≡◌, refl, Bool, true, false, Option, none, some, List, [], ◌∷◌, ◌++◌, arith, ◌==◌, length,
}
use typeclaw_operator.Prelude.Text.{Text, text, ◌==◌ as text_eq, split}
use typeclaw_operator.Prelude.Urls.{Url}
use typeclaw_operator.Credential.Policy.{
  pre_authorized, SecretRef, PolicySpec, create_issue, validate_github_create_issue, granted,
  authorize_policy,
}
use typeclaw_operator.Credential.Identity.{Identity, parse_spiffe_id}
use typeclaw_operator.Credential.Paths.{spiffe_uri, parse_spiffe_id-spiffe_uri}
use typeclaw_operator.Credential.Requests.{InstanceRead, Reads}
use typeclaw_operator.Credential.Served.{Serves, serve_http-Serves}
use typeclaw_operator.Credential.Broker.{
  Input, Surroundings, pending_request, handle_new, handle_retry, serve_http,
}
use typeclaw_operator.Update.Advance.{found, missing}
use typeclaw_operator.Credential.Execute.{reconcile_request}
use typeclaw_operator.Credential.Retries.{asking, handle_new-Repeats}
use typeclaw_operator.Credential.Handover.{Launches, Undisturbed, pending_request-Launches}

abbrev secret_ref : SecretRef
secret_ref = record {
  name = "github-token";
  key = "token";
  uid = "uid-1";
  resource_version = "7";
  immutable = true;
}

abbrev policy : PolicySpec
policy = record {
  secret = secret_ref;
  consumers =
      record {
        name = "github";
        operations = create_issue ∷ [];
        access_mode = pre_authorized;
        allowed_repositories = text "fml09/typeclaw" ∷ [];
      }
      ∷ [];
  allow_bypass = false;
}

abbrev instance_read : InstanceRead
instance_read = record { uid = "i"; name = "desk"; credential_policy = some policy }

abbrev desk : Identity
desk = record { namespace = text "ns"; instance = text "desk" }

abbrev input : Input
input = record { repository = text "fml09/typeclaw"; title = text "title"; body = []; ticket = [] }

abbrev at : Surroundings
at = record { now = 5; instance = found instance_read; fresh = some (text "t1"); reached = true }

abbrev later : Surroundings
later = record { now = 9; instance = missing; fresh = none; reached = true }

abbrev digest_of : Text → Text
digest_of t = t ++ t

abbrev valid_ticket : Text → Bool
valid_ticket t = length t == 2

abbrev certificates : List (List (Option Url))
certificates = (none ∷ some (spiffe_uri (text "td") desk) ∷ []) ∷ []

parses : parse_spiffe_id (some (spiffe_uri (text "td") desk)) (text "td") ≡ some desk
unfolding parse_spiffe_id text_eq split
parses = refl

parse_spiffe_id-spiffe_uri_example :
    parse_spiffe_id (some (spiffe_uri (text "td") desk)) (text "td") ≡ some desk
parse_spiffe_id-spiffe_uri_example =
    parse_spiffe_id-spiffe_uri (text "td") desk (refl, refl) (refl, refl)

stores :
    length (serve_http digest_of valid_ticket (text "td") at [] true certificates (some input)).0
    ≡ 1
unfolding serve_http text_eq split authorize_policy validate_github_create_issue
stores = refl

serve_http-Serves_example :
    Serves digest_of valid_ticket at []
      (text "td")
      certificates
      (some input)
      (serve_http digest_of valid_ticket (text "td") at [] true certificates (some input))
serve_http-Serves_example =
    serve_http-Serves digest_of valid_ticket at [] (text "td") true certificates (some input)

accepts : (handle_new digest_of valid_ticket at [] desk input).1.code ≡ 202
unfolding handle_new text_eq split authorize_policy
accepts = refl

has_ticket : valid_ticket (handle_new digest_of valid_ticket at [] desk input).1.ticket ≡ true
unfolding handle_new text_eq split authorize_policy
has_ticket = refl

handle_new-Repeats_example :
    handle_retry digest_of valid_ticket later
      (handle_new digest_of valid_ticket at [] desk input).0
      desk
      (asking input (handle_new digest_of valid_ticket at [] desk input).1.ticket)
    ≡ (handle_new digest_of valid_ticket at [] desk input).1
handle_new-Repeats_example =
    handle_new-Repeats digest_of valid_ticket at later [] desk input (omega arith) refl accepts
      has_ticket

abbrev reads : Reads
reads = record {
  now = 7;
  instance = found instance_read;
  digest = some "d";
  approval = missing;
  metadata = some (record { uid = "uid-1"; resource_version = "7" });
  existing_job = missing;
  runner_job = missing;
  pods = none;
  renders = true;
  owns = true;
  binds = true;
}

grants :
    authorize_policy (some policy) "github" create_issue (text "fml09/typeclaw")
    ≡ granted pre_authorized
unfolding authorize_policy text_eq
grants = refl

abbrev undisturbed : Undisturbed reads instance_read policy
undisturbed = record {
  read = refl;
  has_policy = refl;
  digest = "d";
  digested = refl;
  metadata = record { uid = "uid-1"; resource_version = "7" };
  seen = refl;
  same_uid = refl;
  same_version = refl;
  no_job = refl;
  binds = refl;
  renders = refl;
  owns = refl;
}

pending_request-Launches_example :
    Launches
      (reconcile_request reads (pending_request 5 desk input secret_ref (digest_of (text "t1"))))
pending_request-Launches_example =
    pending_request-Launches reads instance_read policy undisturbed 5 desk input
      (digest_of (text "t1")) (omega arith) grants
