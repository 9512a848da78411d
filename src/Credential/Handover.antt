-- ===== src/Credential/Handover.antt =====
-- broker.go with credential_controller.go: the first reconcile of a request that the broker stored.
use package.text.Mathlib.TextPositions.{eq_refl as str_eq_refl}
use package.text.Mathlib.TextEquality.{eq_iff as str_eq_iff}
use package.text.Mathlib.Text.{◌==◌ as str_eq}
use typeclaw_operator.Prelude.{
  ℕ, ◌+◌, ◌<◌, String, ◌≡◌, refl, sym, ap, ap₂, ◌∙◌, subst, ◌⊎◌, inl, inr, true, false, ◌&&◌, none,
  some, arith, leb, if_intro,
}
use typeclaw_operator.Prelude.Text.{Text, ◌==◌ as text_eq, eq_refl as text_eq_refl}
use typeclaw_operator.Credential.Policy.{
  pre_authorized, SecretRef, PolicySpec, create_issue, granted, authorize_policy, request_name,
  is_terminal,
}
use typeclaw_operator.Credential.Identity.{Identity}
use typeclaw_operator.Credential.Requests.{
  Owner, Request, InstanceRead, Metadata, Reads, Script, end, attempt, with_finalizer, with_owner,
}
use typeclaw_operator.Credential.Broker.{
  Input, ticket_ttl, whole_seconds, empty_status, pending_request,
}
use typeclaw_operator.Update.Advance.{found, missing}
use typeclaw_operator.Credential.Execute.{
  render_job, consume_ticket, execute, with_metadata, same_binding, with_mode, binds_policy,
  with_decision, expired, with_spec_digest, bind_request, with_instance, reconcile_request,
}
use typeclaw_operator.Credential.Reconcile.{has_runner}
use typeclaw_operator.Credential.Justified.{IsCreation}

unexpired : (now expires_at : ℕ) → now < expires_at → leb expires_at now ≡ false
unexpired now expires_at h = ground arith

same_binding-same : (ref : SecretRef) → same_binding ref ref ≡ true
unfolding same_binding
same_binding-same ref = ground (
  arith,
  str_eq_refl ref.name,
  str_eq_refl ref.key,
  str_eq_refl ref.uid,
  str_eq_refl ref.resource_version,
)

binds_policy-same : (policy : PolicySpec) → binds_policy (some policy) policy.secret ≡ true
unfolding binds_policy
binds_policy-same policy = same_binding-same policy.secret

-- The script creates a Job when each of its writes succeeds.
abbrev pub Launches : Script → Type 0
Launches end = ⊥
Launches (attempt write next failure) = IsCreation write ⊎ Launches next

-- What the controller reads while nothing has changed since the broker's answer: the same instance,
-- the secret that its policy names, no Job, and an API server that lets it bind and render.
pub record Undisturbed (reads : Reads) (instance : InstanceRead) (policy : PolicySpec)
    : Type 0 where
  pub read : reads.instance ≡ found instance
  pub has_policy : instance.credential_policy ≡ some policy
  pub digest : String
  pub digested : reads.digest ≡ some digest
  pub metadata : Metadata
  pub seen : reads.metadata ≡ some metadata
  pub same_uid : metadata.uid ≡ policy.secret.uid
  pub same_version : metadata.resource_version ≡ policy.secret.resource_version
  pub no_job : reads.existing_job ≡ missing
  pub binds : reads.binds ≡ true
  pub renders : reads.renders ≡ true
  pub owns : reads.owns ≡ true

with_metadata-Launches :
    (reads : Reads) (r : Request) (digest : String) (metadata : Metadata)
    → metadata.uid ≡ r.spec.secret_binding.uid
    → metadata.resource_version ≡ r.spec.secret_binding.resource_version
    → has_runner r.status.runner_name ≡ false
    → reads.existing_job ≡ missing
    → (reads.renders && reads.owns) ≡ true
    → Launches (with_metadata reads r digest (some metadata))
unfolding with_metadata execute consume_ticket render_job
with_metadata-Launches reads r digest metadata uid version bare no_job able =
    rw
      (
        (str_eq_iff metadata.uid r.spec.secret_binding.uid).1 uid,
        (str_eq_iff metadata.resource_version r.spec.secret_binding.resource_version).1 version,
        bare,
        no_job,
        able,
      )
      (inr (inr (inl tt)))

module _ (reads : Reads) (instance : InstanceRead) (policy : PolicySpec)
    (u : Undisturbed reads instance policy) where
  with_decision-Launches :
      (r : Request) (digest : String)
      → r.spec.secret_binding ≡ policy.secret
      → has_runner r.status.runner_name ≡ false
      → Launches (with_decision reads r instance digest (granted pre_authorized))
  unfolding with_decision with_mode
  with_decision-Launches r digest bound bare =
      let kept : binds_policy instance.credential_policy r.spec.secret_binding ≡ true =
        ap₂ binds_policy u.has_policy bound ∙ binds_policy-same policy in
      rw kept (
        subst (λ m. Launches (with_metadata reads r digest m)) (sym u.seen)
          (with_metadata-Launches reads r digest u.metadata
            (u.same_uid ∙ ap (λ ref. ref.uid) (sym bound))
            (u.same_version ∙ ap (λ ref. ref.resource_version) (sym bound)) bare u.no_job
            (ap₂ (λ a b. a && b) u.renders u.owns)))

  with_spec_digest-Launches :
      (r : Request)
      → r.spec.secret_binding ≡ policy.secret
      → r.status.spec_digest ≡ ""
      → has_runner r.status.runner_name ≡ false
      → expired reads.now r.spec.expires_at ≡ false
      → authorize_policy (some policy) r.spec.consumer r.spec.operation r.spec.repository
        ≡ granted pre_authorized
      → Launches (with_spec_digest reads r instance reads.digest)
  unfolding with_spec_digest
  with_spec_digest-Launches r bound blank bare early permitted =
      let unbound : str_eq r.status.spec_digest "" ≡ true =
        (str_eq_iff r.status.spec_digest "").1 blank in
      let decided =
        ap (λ p. authorize_policy p r.spec.consumer r.spec.operation r.spec.repository) u.has_policy
        ∙ permitted in
      subst (λ d. Launches (with_spec_digest reads r instance d)) (sym u.digested)
        (rw (unbound, early)
          (subst (λ d. Launches (with_decision reads r instance u.digest d)) (sym decided)
            (with_decision-Launches r u.digest bound bare)))

  -- The request of the broker, with its finalizer.
  bind_request-Launches :
      (r : Request)
      → r.spec.secret_binding ≡ policy.secret
      → r.status ≡ empty_status
      → expired reads.now r.spec.expires_at ≡ false
      → authorize_policy (some policy) r.spec.consumer r.spec.operation r.spec.repository
        ≡ granted pre_authorized
      → Launches (bind_request reads r instance none)
  unfolding bind_request
  bind_request-Launches r bound fresh early permitted =
      let owner : Owner = record { uid = instance.uid; name = instance.name } in
      if_intro Launches reads.binds _ _
        (λ binds. inr (
          with_spec_digest-Launches (with_owner owner r) bound (ap (λ s. s.spec_digest) fresh)
            (ap (λ s. has_runner s.runner_name) fresh) early permitted))
        (λ fails. absurd (ground (arith, u.binds, fails)))

  -- A request that the broker has stored under a policy that authorizes its operation in advance, and
  -- that a controller reconciles for the first time before its ticket expires, which is in the whole
  -- second in which five minutes are over, in an undisturbed cluster, gets its runner's Job from that reconcile if no write of it fails.
  pub pending_request-Launches :
      (at : ℕ) (id : Identity) (input : Input) (digest : Text)
      → reads.now < whole_seconds (at + ticket_ttl)
      → authorize_policy (some policy) "github" create_issue input.repository
        ≡ granted pre_authorized
      → Launches (reconcile_request reads (pending_request at id input policy.secret digest))
  unfolding reconcile_request with_instance bind_request pending_request is_terminal
  pending_request-Launches at id input digest early permitted =
      let r = with_finalizer true (pending_request at id input policy.secret digest) in
      let named : Launches (with_instance reads r (found instance)) =
        if_intro Launches (text_eq r.name (request_name r.spec.ticket_digest)) _ _
          (λ same. bind_request-Launches r refl refl (unexpired reads.now _ early) permitted)
          (λ other. absurd (ground (arith, text_eq_refl r.name, other))) in
      inr (subst (λ read. Launches (with_instance reads r read)) (sym u.read) named)
