-- ===== src/Credential/Asked.antt =====
-- broker.go: the request that handleNew stores, field by field.
use typeclaw_operator.Prelude.{ℕ, ◌+◌, ◌*◌, ◌≤◌, ◌<◌, ◌≡◌, refl, false, some, [], arith}
use typeclaw_operator.Prelude.Text.{Text}
use typeclaw_operator.Credential.Policy.{SecretRef, create_issue, request_name, unset}
use typeclaw_operator.Credential.Identity.{Identity}
use typeclaw_operator.Credential.Broker.{Stored, Input, ticket_ttl, whole_seconds, pending_request}

-- The request that is stored is the operation of the input by the instance: pending, bound to the
-- secret, named after the digest of its ticket, and expiring in the whole second in which five
-- minutes from `now` are over.
pub record Asks (now : ℕ) (id : Identity) (input : Input) (secret : SecretRef) (digest : Text)
    (stored : Stored) : Type 0 where
  pub at_home : stored.namespace ≡ id.namespace
  pub of_instance : stored.request.spec.instance ≡ id.instance
  pub of_consumer : stored.request.spec.consumer ≡ "github"
  pub of_operation : stored.request.spec.operation ≡ create_issue
  pub for_repository : stored.request.spec.repository ≡ input.repository
  pub with_title : stored.request.spec.title ≡ input.title
  pub with_body : stored.request.spec.body ≡ input.body
  pub with_secret : stored.request.spec.secret_binding ≡ secret
  pub with_digest : stored.request.spec.ticket_digest ≡ digest
  pub named : stored.request.name ≡ request_name digest
  pub expiry : ℕ
  pub expires : stored.request.spec.expires_at ≡ some expiry
  pub not_late : expiry ≤ now + 5 * 60 * 1000000000
  pub not_early : now + 5 * 60 * 1000000000 < expiry + 1000000000
  pub is_pending : stored.request.status.phase ≡ unset
  pub bare : stored.request.status.runner_name ≡ []
  pub live : stored.request.deleting ≡ false

whole_seconds_near : (t : ℕ) → (whole_seconds t ≤ t) × (t < whole_seconds t + 1000000000)
whole_seconds_near t = (omega arith, omega arith)

pub pending_request-Asks :
    (now : ℕ) (id : Identity) (input : Input) (secret : SecretRef) (digest : Text)
    → Asks now id input secret digest
        record { namespace = id.namespace; request = pending_request now id input secret digest }
unfolding pending_request
pending_request-Asks now id input secret digest =
    let near = whole_seconds_near (now + ticket_ttl) in
    record {
      at_home = refl;
      of_instance = refl;
      of_consumer = refl;
      of_operation = refl;
      for_repository = refl;
      with_title = refl;
      with_body = refl;
      with_secret = refl;
      with_digest = refl;
      named = refl;
      expiry = whole_seconds (now + ticket_ttl);
      expires = refl;
      not_late = near.0;
      not_early = near.1;
      is_pending = refl;
      bare = refl;
      live = refl;
    }
