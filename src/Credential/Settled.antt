-- ===== src/Credential/Settled.antt =====
-- credential_controller.go: a settled request stays as it is.
use typeclaw_operator.Prelude.{
  ◌≡◌, refl, sym, ap, ◌∙◌, Bool, true, false, ◌&&◌, not, List, [], ◌∷◌, if_intro,
}
use typeclaw_operator.Credential.Policy.{is_terminal}
use typeclaw_operator.Credential.Requests.{
  RequestStatus, Request, Reads, Write, add_finalizer, remove_finalizer, set_owner, patch_status,
  apply_network_policy, delete_network_policy, create_job, delete_job, Script, end, attempt, Reply,
  accepted, already, rejected, tolerates, Cluster, apply_write, run,
}
use typeclaw_operator.Credential.Reconcile.{
  has_runner, remove_own_finalizer, clean_up, revoke_and_remove_finalizer,
}
use typeclaw_operator.Credential.Execute.{reconcile_request}
use typeclaw_operator.Credential.OneRunner.{Event, reconciled, deletion_asked, happen, history}

abbrev IsSilent : Write → Type 0
IsSilent (create_job name) = ⊥
IsSilent (patch_status s) = ⊥
IsSilent _ = Unit

abbrev Silent : Script → Type 0
Silent end = Unit
Silent (attempt write next failure) = IsSilent write × Silent next × Silent failure

abbrev Same : Cluster → Cluster → Type 0
Same c c' = (c'.request.status ≡ c.request.status) × (c'.created ≡ c.created)

apply-Same : (write : Write) (c : Cluster) → IsSilent write → Same c (apply_write write c)
unfolding apply_write
apply-Same (create_job name) c s = absurd s
apply-Same (patch_status t) c s = absurd s
apply-Same add_finalizer c s = (refl, refl)
apply-Same remove_finalizer c s = (refl, refl)
apply-Same (set_owner o) c s = (refl, refl)
apply-Same apply_network_policy c s = (refl, refl)
apply-Same delete_network_policy c s = (refl, refl)
apply-Same (delete_job name) c s = (refl, refl)

Same-after : (a b c : Cluster) → Same a b → Same b c → Same a c
Same-after a b c p q = (q.0 ∙ p.0, q.1 ∙ p.1)

run-Same :
    (script : Script) (replies : List Reply) (c : Cluster)
    → Silent script
    → Same c (run script replies c)
unfolding run
run-Same end replies c s = (refl, refl)
run-Same (attempt write next failure) [] c s = (refl, refl)
run-Same (attempt write next failure) (accepted ∷ replies) c s =
    Same-after c (apply_write write c) (run next replies (apply_write write c))
      (apply-Same write c s.0) (run-Same next replies (apply_write write c) s.1)
run-Same (attempt write next failure) (already ∷ replies) c s =
    if_intro (Same c) (tolerates write) (run next replies c) (run failure replies c)
      (λ t. run-Same next replies c s.1) (λ t. run-Same failure replies c s.2)
run-Same (attempt write next failure) (rejected ∷ replies) c s = run-Same failure replies c s.2

clean_up-Silent : (r : Request) → Silent (clean_up r)
unfolding clean_up remove_own_finalizer
clean_up-Silent r = (
  tt,
  if_intro Silent r.has_finalizer (attempt remove_finalizer end end) end (λ has. (tt, tt, tt))
      (λ has_not. tt),
  tt,
)

and-false : (b : Bool) → (b && false) ≡ false
and-false true = refl
and-false false = refl

not-live : (b c : Bool) → c ≡ true → (b && not c) ≡ true → ⊥
not-live b c h k = cc (sym k ∙ ap (λ x. b && not x) h ∙ and-false b)

terminal-Silent :
    (reads : Reads) (r : Request)
    → is_terminal r.status.phase ≡ true
    → Silent (reconcile_request reads r)
unfolding reconcile_request revoke_and_remove_finalizer
terminal-Silent reads r h =
    if_intro Silent r.deleting (revoke_and_remove_finalizer r) _
      (λ gone.
        if_intro Silent (has_runner r.status.runner_name && not (is_terminal r.status.phase)) _
          (clean_up r)
          (λ running.
            absurd
              (not-live (has_runner r.status.runner_name) (is_terminal r.status.phase) h running))
          (λ over. clean_up-Silent r))
      (λ there.
        if_intro Silent (is_terminal r.status.phase) (clean_up r) _ (λ over. clean_up-Silent r)
          (λ live. absurd (cc (sym h ∙ live))))

happen-Same :
    (e : Event) (c : Cluster) → is_terminal c.request.status.phase ≡ true → Same c (happen e c)
unfolding happen
happen-Same (reconciled reads replies) c h =
    run-Same (reconcile_request reads c.request) replies c (terminal-Silent reads c.request h)
happen-Same deletion_asked c h = (refl, refl)

-- A recorded outcome is final: once the phase of a request is `Succeeded`, `Failed`, `Denied` or
-- `UnknownOutcome`, no reconcile and no deletion changes its status or creates a Job for it.
pub history-settled :
    (es : List Event) (c : Cluster)
    → is_terminal c.request.status.phase ≡ true
    → ((history es c).request.status ≡ c.request.status) × ((history es c).created ≡ c.created)
unfolding history
history-settled [] c h = (refl, refl)
history-settled (e ∷ es) c h =
    let first = happen-Same e c h in
    let rest =
      history-settled es (happen e c) (ap (λ s. is_terminal (RequestStatus.phase s)) first.0 ∙ h) in
    (rest.0 ∙ first.0, rest.1 ∙ first.1)
