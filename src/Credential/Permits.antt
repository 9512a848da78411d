-- ===== src/Credential/Permits.antt =====
-- credential_controller.go: what the creation of a Job shows once the policy of the instance is known.
use package.text.Mathlib.TextEquality.{eq_iff as str_eq_iff}
use package.text.Mathlib.Text.{◌==◌ as str_eq}
use typeclaw_operator.Prelude.{
  String, ◌≡◌, refl, ◌⊎◌, inl, inr, Bool, true, false, ◌&&◌, not, Option, none, some, arith,
  Bool-cases, if_intro,
}
use typeclaw_operator.Credential.Policy.{
  AccessMode, SecretRef, PolicySpec, Decision, granted, refused, authorize_policy,
}
use typeclaw_operator.Credential.FailClosed.{Authorized, authorize_policy-Authorized}
use typeclaw_operator.Credential.Requests.{Owner, Request, InstanceRead, Reads, with_owner}
use typeclaw_operator.Credential.Reconcile.{has_runner}
use typeclaw_operator.Credential.Execute.{
  same_binding, binds_policy, with_decision, expired, with_spec_digest,
}
use typeclaw_operator.Credential.Justified.{
  Creates, SameBinding, SpecKept, deny_with-Creates, deny_now-Creates, unknown-Creates, and_both,
  Cleared, with_mode-Creates,
}
use typeclaw_operator.Conditions.{same}

pub record Permit (reads : Reads) (r : Request) (policy : Option PolicySpec) : Type 0 where
  pub mode : AccessMode
  pub authorized : Authorized policy r.spec.consumer r.spec.operation r.spec.repository mode
  pub secured : SameBinding policy r.spec.secret_binding
  pub spec_kept : SpecKept reads r
  pub cleared : Cleared reads r mode
  pub unexpired : expired reads.now r.spec.expires_at ≡ false

same_flag : (a b : Bool) → same a b ≡ true → a ≡ b
same_flag a b h = ground (arith, h)

binds_policy-SameBinding :
    (policy : Option PolicySpec) (ref : SecretRef)
    → binds_policy policy ref ≡ true
    → SameBinding policy ref
unfolding binds_policy same_binding
binds_policy-SameBinding none ref h = absurd (ground (arith, h))
binds_policy-SameBinding (some policy) ref h =
    let a = and_both _ _ h in
    let b = and_both _ _ a.0 in
    let c = and_both _ _ b.0 in
    let d = and_both _ _ c.0 in
    (
      (str_eq_iff policy.secret.name ref.name).0 d.0,
      (str_eq_iff policy.secret.key ref.key).0 d.1,
      (str_eq_iff policy.secret.uid ref.uid).0 c.1,
      (str_eq_iff policy.secret.resource_version ref.resource_version).0 b.1,
      same_flag policy.secret.immutable ref.immutable a.1,
    )

kept_digest :
    (old new : String)
    → (not (str_eq old "") && not (str_eq old new)) ≡ false
    → (old ≡ "") ⊎ (old ≡ new)
kept_digest old new h = elim (Bool-cases (str_eq old "")) [
  | inl blank ↦ inl ((str_eq_iff old "").0 blank)
  | inr set ↦ inr ((str_eq_iff old new).0 (ground (arith, h, set)))
]

with_decision-Creates :
    (reads : Reads) (r : Request) (instance : InstanceRead) (digest : String) (decision : Decision)
    → authorize_policy instance.credential_policy r.spec.consumer r.spec.operation r.spec.repository
      ≡ decision
    → expired reads.now r.spec.expires_at ≡ false
    → SpecKept reads r
    → Creates (with_decision reads r instance digest decision)
    → Permit reads r instance.credential_policy
unfolding with_decision
with_decision-Creates reads r instance digest (refused error) p timely k =
    if_intro (λ s. Creates s → Permit reads r instance.credential_policy)
      (has_runner r.status.runner_name) _ _ (λ has c. absurd (unknown-Creates r false c))
      (λ bare c. absurd (deny_with-Creates r digest "policy_denied" c))
with_decision-Creates reads r instance digest (granted mode) p timely k =
    if_intro (λ s. Creates s → Permit reads r instance.credential_policy)
      (binds_policy instance.credential_policy r.spec.secret_binding) _ _
      (λ binds c. record {
        mode = mode;
        authorized =
            authorize_policy-Authorized instance.credential_policy r.spec.consumer r.spec.operation
              r.spec.repository mode p;
        secured = binds_policy-SameBinding instance.credential_policy r.spec.secret_binding binds;
        spec_kept = k;
        cleared = with_mode-Creates reads r digest mode c;
        unexpired = timely;
      })
      (λ other.
        if_intro (λ s. Creates s → Permit reads r instance.credential_policy)
          (has_runner r.status.runner_name) _ _ (λ has c. absurd (unknown-Creates r true c))
          (λ bare c. absurd (deny_with-Creates r digest "secret_binding_invalid" c)))

pub with_spec_digest-Creates :
    (reads : Reads) (r : Request) (instance : InstanceRead) (digest : Option String)
    → reads.digest ≡ digest
    → Creates (with_spec_digest reads r instance digest)
    → Permit reads r instance.credential_policy
unfolding with_spec_digest
with_spec_digest-Creates reads r instance none e = λ c. absurd c
with_spec_digest-Creates reads r instance (some digest) e =
    if_intro (λ s. Creates s → Permit reads r instance.credential_policy)
      (not (str_eq r.status.spec_digest "") && not (str_eq r.status.spec_digest digest)) _ _
      (λ changed c. absurd (deny_now-Creates r "policy_denied" c))
      (λ kept.
        if_intro (λ s. Creates s → Permit reads r instance.credential_policy)
          (expired reads.now r.spec.expires_at) _ _
          (λ late c. absurd (deny_with-Creates r digest "ticket_expired" c))
          (λ timely c.
            with_decision-Creates reads r instance digest _ refl timely
              (digest, e, kept_digest r.status.spec_digest digest kept) c))

pub same-Permit :
    (reads : Reads) (r : Request) (owner : Owner) (policy : Option PolicySpec)
    → Permit reads (with_owner owner r) policy
    → Permit reads r policy
same-Permit reads r owner policy p =
    let (approved, bound, bare) = p.cleared in
    record {
      mode = p.mode;
      authorized = p.authorized;
      secured = p.secured;
      spec_kept = p.spec_kept;
      cleared = (
        λ m.
            let a = approved m in
            record {
              approval = a.approval;
              given = a.given;
              names_request = a.names_request;
              approves = a.approves;
            },
        record {
          metadata = bound.metadata;
          seen = bound.seen;
          uid_bound = bound.uid_bound;
          version_bound = bound.version_bound;
        },
        bare,
      );
      unexpired = p.unexpired;
    }
