-- ===== src/Credential/Fits.antt =====
-- credential_controller.go: every script of a reconcile creates a Job at most once.
use typeclaw_operator.Prelude.{
  String, ◌≡◌, refl, sym, ap, subst, Bool, true, false, ◌&&◌, [], ◌∷◌, ◌++◌, if◌then◌else◌,
  if_intro,
}
use typeclaw_operator.Prelude.Text.{Text, text}
use typeclaw_operator.Update.Advance.{Read, found, missing, failed as unreadable}
use typeclaw_operator.Credential.Requests.{
  RequestStatus, Owner, Request, Metadata, Job, Reads, add_finalizer, remove_finalizer, set_owner,
  patch_status, apply_network_policy, delete_network_policy, create_job, delete_job, Script, end,
  attempt, with_request_status,
}
use typeclaw_operator.Credential.Reconcile.{
  set_status, deny_now, deny_with, has_runner, unknown, consumed,
}
use typeclaw_operator.Credential.Execute.{render_job, consume_ticket}
use typeclaw_operator.Credential.Stages.{Stage, unnamed, fresh, spent, Safe}
use typeclaw_operator.Credential.Quiet.{
  Quiet, stage_of, Quiet-Safe, deny_now-Quiet, deny_with-Quiet, unknown-Quiet,
}

abbrev pub Fits : Request → Script → Type 0
Fits r script = Safe (stage_of r.status.runner_name) script

spent-fresh : (script : Script) → Safe spent script → Safe fresh script
spent-fresh end s = tt
spent-fresh (attempt (create_job name) next failure) s = absurd s.0
spent-fresh (attempt (patch_status t) next failure) s =
    (s.0, spent-fresh next s.1, spent-fresh failure s.2)
spent-fresh (attempt add_finalizer next failure) s =
    (tt, spent-fresh next s.1, spent-fresh failure s.2)
spent-fresh (attempt remove_finalizer next failure) s =
    (tt, spent-fresh next s.1, spent-fresh failure s.2)
spent-fresh (attempt (set_owner o) next failure) s =
    (tt, spent-fresh next s.1, spent-fresh failure s.2)
spent-fresh (attempt apply_network_policy next failure) s =
    (tt, spent-fresh next s.1, spent-fresh failure s.2)
spent-fresh (attempt delete_network_policy next failure) s =
    (tt, spent-fresh next s.1, spent-fresh failure s.2)
spent-fresh (attempt (delete_job name) next failure) s =
    (tt, spent-fresh next s.1, spent-fresh failure s.2)

named-spent : (name : Text) → has_runner name ≡ true → stage_of name ≡ spent
named-spent [] h = absurd (cc)
named-spent (c ∷ cs) h = refl

pub bare-unnamed : (name : Text) → has_runner name ≡ false → stage_of name ≡ unnamed
bare-unnamed [] h = refl
bare-unnamed (c ∷ cs) h = absurd (cc)

unknown-fresh :
    (r : Request) → has_runner r.status.runner_name ≡ true → Safe fresh (unknown r false)
unknown-fresh r h = spent-fresh (unknown r false) (
    subst (λ k. Safe k (unknown r false)) (named-spent r.status.runner_name h)
      (Quiet-Safe r.status.runner_name (unknown r false) (unknown-Quiet r false)))

render_job-Safe :
    (reads : Reads) (r : Request) (name : Text)
    → has_runner r.status.runner_name ≡ true
    → Safe fresh (render_job reads r name)
unfolding render_job
render_job-Safe reads r name h =
    if_intro (Safe fresh) (reads.renders && reads.owns) _ (unknown r false)
      (λ ready. (tt, tt, unknown-fresh r h)) (λ not_ready. unknown-fresh r h)

job_name-named : (name : Text) → has_runner (name ++ text "-runner") ≡ true
job_name-named [] = refl
job_name-named (c ∷ cs) = refl

pub consume_ticket-Safe :
    (reads : Reads) (r : Request) (digest : String) (metadata : Metadata) (job : Read Job)
    → Safe unnamed (consume_ticket reads r digest metadata job)
unfolding consume_ticket
consume_ticket-Safe reads r digest metadata unreadable = tt
consume_ticket-Safe reads r digest metadata (found job) = (tt, tt, tt)
consume_ticket-Safe reads r digest metadata missing =
    let name = r.name ++ text "-runner" in
    let next = with_request_status (consumed reads digest metadata name r.status) r in
    (
      tt,
      subst (λ k. Safe k (render_job reads next name))
          (sym (ap (λ b. if b then fresh else unnamed) (job_name-named r.name)))
          (render_job-Safe reads next name (job_name-named r.name)),
      tt,
    )

pub Quiet-Fits : (r : Request) (script : Script) → Quiet r.status.runner_name script → Fits r script
Quiet-Fits r script q = Quiet-Safe r.status.runner_name script q

pub deny_with-Fits : (r : Request) (digest code : String) → Fits r (deny_with r digest code)
deny_with-Fits r digest code =
    Quiet-Fits r (deny_with r digest code) (deny_with-Quiet r digest code)

pub deny_now-Fits : (r : Request) (code : String) → Fits r (deny_now r code)
deny_now-Fits r code = Quiet-Fits r (deny_now r code) (deny_now-Quiet r code)

pub unknown-Fits : (r : Request) (binding : Bool) → Fits r (unknown r binding)
unknown-Fits r binding = Quiet-Fits r (unknown r binding) (unknown-Quiet r binding)

pub set_status-Fits :
    (r : Request) (s : RequestStatus)
    → s.runner_name ≡ r.status.runner_name
    → Fits r (set_status r s end)
unfolding set_status
set_status-Fits r s h = Quiet-Fits r (set_status r s end) (h, tt, tt)

-- A write that keeps every stage, before a script that fits.
pub policy-first :
    (k : Stage) (next : Script) → Safe k next → Safe k (attempt apply_network_policy next end)
policy-first unnamed next s = (tt, s, tt)
policy-first fresh next s = (tt, s, tt)
policy-first spent next s = (tt, s, tt)

pub owner-first :
    (k : Stage) (owner : Owner) (next : Script)
    → Safe k next
    → Safe k (attempt (set_owner owner) next end)
owner-first unnamed owner next s = (tt, s, tt)
owner-first fresh owner next s = (tt, s, tt)
owner-first spent owner next s = (tt, s, tt)

pub finalizer-first :
    (k : Stage) (next : Script) → Safe k next → Safe k (attempt add_finalizer next end)
finalizer-first unnamed next s = (tt, s, tt)
finalizer-first fresh next s = (tt, s, tt)
finalizer-first spent next s = (tt, s, tt)
