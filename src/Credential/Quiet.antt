-- ===== src/Credential/Quiet.antt =====
-- credential_controller.go: the scripts that keep the runner's name and create no Job.
use package.text.Mathlib.Text.{◌==◌ as str_eq}
use typeclaw_operator.Prelude.{
  String, ◌≡◌, refl, sym, ap, subst, Bool, false, ◌&&◌, not, Option, none, some, List, [], ◌∷◌, ltb,
  if◌then◌else◌, if_intro,
}
use typeclaw_operator.Prelude.Text.{Text}
use typeclaw_operator.Update.Advance.{Read, found, missing, failed as unreadable}
use typeclaw_operator.Credential.Policy.{is_terminal, RunnerResult}
use typeclaw_operator.Credential.Requests.{
  RequestStatus, Request, Job, Pod, Reads, Write, add_finalizer, remove_finalizer, set_owner,
  patch_status, apply_network_policy, delete_network_policy, create_job, delete_job, Script, end,
  attempt,
}
use typeclaw_operator.Credential.Reconcile.{
  set_status, deny_now, deny_with, has_runner, unknown, remove_own_finalizer, clean_up,
  revoke_and_remove_finalizer, runner_result, report_result, is_running, mark_running,
  observe_runner,
}
use typeclaw_operator.Credential.Stages.{Stage, unnamed, fresh, spent, Allowed, next_stage, Safe}

abbrev pub Keeps : Text → Write → Type 0
Keeps name (create_job job) = ⊥
Keeps name (patch_status s) = s.runner_name ≡ name
Keeps name _ = Unit

abbrev pub Quiet : Text → Script → Type 0
Quiet name end = Unit
Quiet name (attempt write next failure) = Keeps name write × Quiet name next × Quiet name failure

abbrev pub stage_of : Text → Stage
stage_of [] = unnamed
stage_of (c ∷ cs) = spent

stage-kept :
    (name : Text) (s : RequestStatus)
    → s.runner_name ≡ name
    → (Allowed (stage_of name) (patch_status s))
      × (next_stage (stage_of name) (patch_status s) ≡ stage_of name)
stage-kept [] s h = (tt, ap (λ n. if has_runner n then fresh else unnamed) h)
stage-kept (c ∷ cs) s h = (ap has_runner h, refl)

pub Quiet-Safe : (name : Text) (script : Script) → Quiet name script → Safe (stage_of name) script
Quiet-Safe name end q = tt
Quiet-Safe name (attempt (patch_status s) next failure) q =
    let kept = stage-kept name s q.0 in
    (
      kept.0,
      subst (λ k. Safe k next) (sym kept.1) (Quiet-Safe name next q.1),
      Quiet-Safe name failure q.2,
    )
Quiet-Safe name (attempt (create_job job) next failure) q = absurd q.0
Quiet-Safe [] (attempt add_finalizer next failure) q =
    (tt, Quiet-Safe [] next q.1, Quiet-Safe [] failure q.2)
Quiet-Safe (c ∷ cs) (attempt add_finalizer next failure) q =
    (tt, Quiet-Safe (c ∷ cs) next q.1, Quiet-Safe (c ∷ cs) failure q.2)
Quiet-Safe [] (attempt remove_finalizer next failure) q =
    (tt, Quiet-Safe [] next q.1, Quiet-Safe [] failure q.2)
Quiet-Safe (c ∷ cs) (attempt remove_finalizer next failure) q =
    (tt, Quiet-Safe (c ∷ cs) next q.1, Quiet-Safe (c ∷ cs) failure q.2)
Quiet-Safe [] (attempt (set_owner o) next failure) q =
    (tt, Quiet-Safe [] next q.1, Quiet-Safe [] failure q.2)
Quiet-Safe (c ∷ cs) (attempt (set_owner o) next failure) q =
    (tt, Quiet-Safe (c ∷ cs) next q.1, Quiet-Safe (c ∷ cs) failure q.2)
Quiet-Safe [] (attempt apply_network_policy next failure) q =
    (tt, Quiet-Safe [] next q.1, Quiet-Safe [] failure q.2)
Quiet-Safe (c ∷ cs) (attempt apply_network_policy next failure) q =
    (tt, Quiet-Safe (c ∷ cs) next q.1, Quiet-Safe (c ∷ cs) failure q.2)
Quiet-Safe [] (attempt delete_network_policy next failure) q =
    (tt, Quiet-Safe [] next q.1, Quiet-Safe [] failure q.2)
Quiet-Safe (c ∷ cs) (attempt delete_network_policy next failure) q =
    (tt, Quiet-Safe (c ∷ cs) next q.1, Quiet-Safe (c ∷ cs) failure q.2)
Quiet-Safe [] (attempt (delete_job job) next failure) q =
    (tt, Quiet-Safe [] next q.1, Quiet-Safe [] failure q.2)
Quiet-Safe (c ∷ cs) (attempt (delete_job job) next failure) q =
    (tt, Quiet-Safe (c ∷ cs) next q.1, Quiet-Safe (c ∷ cs) failure q.2)

pub deny_now-Quiet : (r : Request) (code : String) → Quiet r.status.runner_name (deny_now r code)
unfolding deny_now set_status
deny_now-Quiet r code = (refl, tt, tt)

pub deny_with-Quiet :
    (r : Request) (digest code : String) → Quiet r.status.runner_name (deny_with r digest code)
unfolding deny_with set_status
deny_with-Quiet r digest code = (refl, tt, tt)

pub unknown-Quiet : (r : Request) (binding : Bool) → Quiet r.status.runner_name (unknown r binding)
unfolding unknown set_status
unknown-Quiet r binding =
    if_intro (Quiet r.status.runner_name) (has_runner r.status.runner_name) _ _
      (λ named. (tt, (refl, tt, tt), tt)) (λ bare. (refl, tt, tt))

pub clean_up-Quiet : (r : Request) → Quiet r.status.runner_name (clean_up r)
unfolding clean_up remove_own_finalizer
clean_up-Quiet r = (
  tt,
  if_intro (Quiet r.status.runner_name) r.has_finalizer (attempt remove_finalizer end end) end
      (λ has. (tt, tt, tt)) (λ has_not. tt),
  tt,
)

pub revoke-Quiet : (r : Request) → Quiet r.status.runner_name (revoke_and_remove_finalizer r)
unfolding revoke_and_remove_finalizer set_status
revoke-Quiet r =
    if_intro (Quiet r.status.runner_name)
      (has_runner r.status.runner_name && not (is_terminal r.status.phase)) _ (clean_up r)
      (λ live. (tt, (refl, clean_up-Quiet r, tt), tt)) (λ over. clean_up-Quiet r)

report_result-Quiet :
    (r : Request) (result : Option (RunnerResult × String))
    → Quiet r.status.runner_name (report_result r result)
unfolding report_result set_status
report_result-Quiet r none = unknown-Quiet r false
report_result-Quiet r (some seen) =
    if_intro (Quiet r.status.runner_name) (str_eq seen.0.error_code "") _ _ (λ fine. (refl, tt, tt))
      (λ bad. (refl, tt, tt))

mark_running-Quiet :
    (r : Request) (pods : Option (List Pod)) → Quiet r.status.runner_name (mark_running r pods)
unfolding mark_running set_status
mark_running-Quiet r none = tt
mark_running-Quiet r (some pods) = (refl, tt, tt)

pub observe_runner-Quiet :
    (reads : Reads) (r : Request) (job : Read Job)
    → Quiet r.status.runner_name (observe_runner reads r job)
unfolding observe_runner
observe_runner-Quiet reads r missing = unknown-Quiet r false
observe_runner-Quiet reads r unreadable = tt
observe_runner-Quiet reads r (found job) =
    if_intro (Quiet r.status.runner_name) (ltb 0 job.succeeded) _ _
      (λ done. report_result-Quiet r (runner_result reads.pods))
      (λ undone.
        if_intro (Quiet r.status.runner_name) (ltb 0 job.failed) _ _ (λ bad. unknown-Quiet r false)
          (λ fine.
            if_intro (Quiet r.status.runner_name) (is_running r.status.phase) end _ (λ going. tt)
              (λ starting. mark_running-Quiet r reads.pods)))
