-- ===== src/Credential/Creation.antt =====
-- credential_controller.go: the creation of a runner's Job, from the start of `Reconcile`.
use package.text.Mathlib.Text.{◌==◌ as str_eq}
use package.text.Mathlib.TextEquality.{eq_iff as str_eq_iff}
use typeclaw_operator.Prelude.{◌≡◌, refl, inl, inr, true, false, ◌&&◌, Option, none, some, if_intro}
use typeclaw_operator.Prelude.Text.{◌==◌ as text_eq, eq_iff as text_eq_iff}
use typeclaw_operator.Update.Advance.{Read, found, missing, failed as unreadable}
use typeclaw_operator.Credential.Policy.{request_name, is_terminal}
use typeclaw_operator.Credential.Requests.{
  Owner, Request, InstanceRead, Reads, add_finalizer, end, attempt, with_finalizer, with_owner,
}
use typeclaw_operator.Credential.Reconcile.{clean_up, revoke_and_remove_finalizer}
use typeclaw_operator.Credential.Execute.{bind_request, with_instance, reconcile_request}
use typeclaw_operator.Credential.Quiet.{clean_up-Quiet, revoke-Quiet}
use typeclaw_operator.Credential.Justified.{
  Creates, Quiet-no_Creates, Owned, Justified, deny_now-Creates, and_both,
}
use typeclaw_operator.Credential.Permits.{Permit, with_spec_digest-Creates, same-Permit}

bind_request-Creates :
    (reads : Reads) (r : Request) (instance : InstanceRead) (owner : Option Owner)
    → Creates (bind_request reads r instance owner)
    → Permit reads r instance.credential_policy × Owned reads instance owner
unfolding bind_request
bind_request-Creates reads r instance none =
    if_intro
      (λ s. Creates s → Permit reads r instance.credential_policy × Owned reads instance none)
      reads.binds _ _
      (λ owns c. elim c [
        | inl w ↦ absurd w
        | inr (inl next) ↦
            let owner : Owner = record { uid = instance.uid; name = instance.name } in
            (
              same-Permit reads r owner instance.credential_policy (
                  with_spec_digest-Creates reads (with_owner owner r) instance reads.digest refl
                    next),
              owns,
            )
        | inr (inr w) ↦ absurd w
      ])
      (λ fails c. absurd c)
bind_request-Creates reads r instance (some owner) =
    if_intro
      (λ s.
        Creates s → Permit reads r instance.credential_policy × Owned reads instance (some owner))
      (str_eq owner.uid instance.uid && str_eq owner.name instance.name) _ _
      (λ ours c.
        let both = and_both _ _ ours in
        let owned : Owned reads instance (some owner) = (
          (str_eq_iff owner.uid instance.uid).0 both.0,
          (str_eq_iff owner.name instance.name).0 both.1,
        ) in
        (with_spec_digest-Creates reads r instance reads.digest refl c, owned))
      (λ other c. absurd (deny_now-Creates r "policy_denied" c))

-- The permit with the instance that it was read from, and the request's name.
abbrev Known : Reads → Request → Type 0
Known reads r =
    (instance : InstanceRead) × (reads.instance ≡ found instance)
    × (r.name ≡ request_name r.spec.ticket_digest)
    × Permit reads r instance.credential_policy
    × Owned reads instance r.owner

with_instance-Creates :
    (reads : Reads) (r : Request) (read : Read InstanceRead)
    → reads.instance ≡ read
    → Creates (with_instance reads r read)
    → Known reads r
unfolding with_instance
with_instance-Creates reads r unreadable p = λ c. absurd c
with_instance-Creates reads r missing p = λ c. absurd (deny_now-Creates r "policy_denied" c)
with_instance-Creates reads r (found instance) p =
    if_intro (λ s. Creates s → Known reads r) (text_eq r.name (request_name r.spec.ticket_digest)) _
      _
      (λ named c. (
        instance,
        p,
        (text_eq_iff r.name (request_name r.spec.ticket_digest)).0 named,
        (bind_request-Creates reads r instance r.owner c).0,
        (bind_request-Creates reads r instance r.owner c).1,
      ))
      (λ other c. absurd (deny_now-Creates r "policy_denied" c))

Known-Justified :
    (reads : Reads) (r : Request)
    → r.deleting ≡ false
    → is_terminal r.status.phase ≡ false
    → Known reads r
    → Justified reads r
Known-Justified reads r there live k =
    let p = k.3 in
    let (approved, bound, bare) = p.cleared in
    record {
      instance = k.0;
      read = k.1;
      mode = p.mode;
      authorized = p.authorized;
      secured = p.secured;
      spec_kept = p.spec_kept;
      owned = k.4;
      approved = approved;
      bound = bound;
      unexpired = p.unexpired;
      named = k.2;
      unspent = bare;
      live = (there, live);
    }

finalizer-Known :
    (reads : Reads) (r : Request) → Known reads (with_finalizer true r) → Known reads r
finalizer-Known reads r k =
    let p = k.3 in
    let (approved, bound, bare) = p.cleared in
    (
      k.0,
      k.1,
      k.2,
      record {
        mode = p.mode;
        authorized = p.authorized;
        secured = p.secured;
        spec_kept = p.spec_kept;
        cleared = (
          λ m.
              let a = approved m in
              record {
                approval = a.approval;
                given = a.given;
                names_request = a.names_request;
                approves = a.approves;
              },
          record {
            metadata = bound.metadata;
            seen = bound.seen;
            uid_bound = bound.uid_bound;
            version_bound = bound.version_bound;
          },
          bare,
        );
        unexpired = p.unexpired;
      },
      k.4,
    )

-- A reconcile that can create a runner's Job has read an instance whose policy authorizes the
-- request's consumer, operation and repository and names the very secret that the request is bound
-- to; has found the request to be unowned, and then owned it, or owned by that instance, and its
-- specification to have the digest recorded for it, if any; has seen the approval of this request
-- where the policy's mode is `Confirm`; has seen the Secret that the request is bound to; and has
-- found the ticket unexpired and unspent, the request's name to be that of the ticket, and the
-- request neither deleted nor settled.
pub reconcile_request-Justified :
    (reads : Reads) (r : Request) → Creates (reconcile_request reads r) → Justified reads r
unfolding reconcile_request
reconcile_request-Justified reads r =
    if_intro (λ s. Creates s → Justified reads r) r.deleting _ _
      (λ gone c.
        absurd (
          Quiet-no_Creates r.status.runner_name (revoke_and_remove_finalizer r) (revoke-Quiet r) c))
      (λ there.
        if_intro (λ s. Creates s → Justified reads r) (is_terminal r.status.phase) _ _
          (λ over c.
            absurd (Quiet-no_Creates r.status.runner_name (clean_up r) (clean_up-Quiet r) c))
          (λ live c. Known-Justified reads r there live (
            if_intro (λ s. Creates s → Known reads r) r.has_finalizer
              (with_instance reads r reads.instance)
              (attempt add_finalizer (with_instance reads (with_finalizer true r) reads.instance)
                end)
              (λ has d. with_instance-Creates reads r reads.instance refl d)
              (λ has_not d. elim d [
                | inl w ↦ absurd w
                | inr (inl next) ↦
                    finalizer-Known reads r
                      (with_instance-Creates reads (with_finalizer true r) reads.instance refl next)
                | inr (inr w) ↦ absurd w
              ])
              c)))
