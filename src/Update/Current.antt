-- ===== src/Update/Current.antt =====
-- autoupdate_controller.go: which reconciles change the version that the status calls current.
-- What a reconcile may do to the version that the status calls current.
use typeclaw_operator.Prelude.{
  ℕ, ◌<◌, ◌≡◌, refl, sym, ap, ◌∙◌, subst, true, ◌&&◌, not, Option, none, some, List, [], ltb,
  if◌then◌else◌, ltb→lt, if_intro,
}
use typeclaw_operator.Prelude.Text.{Text, ◌==◌ as text_eq, before}
use typeclaw_operator.Ints.{ℤ}
use typeclaw_operator.Update.Rollout.{
  ready, UpdateStatus, AutoUpdateSpec, Status, Instance, resolve_runtime_image, shows_promotion,
  effective_runtime_image, duration, minute,
}
use typeclaw_operator.Update.Advance.{
  Container, Answers, Outcome, finished, report, set_idle, passed, roll_back, advance_rollout,
}
use typeclaw_operator.Update.Reconcile.{promote, await_backup, reconcile, with_status}
use typeclaw_operator.Update.Courses.{
  in_flight, Observed, advance, unread, idled, advanced, polled, reconcile-Course, Polled,
  unchanged, deferred, chosen, poll-Polled,
}
use typeclaw_operator.Update.Safety.{update_of}
use typeclaw_operator.Update.Confirmation.{
  Advanced, as_before, window_opened, now_confirmed, advance_ready-Advanced,
}

pub data Current (answers : Answers) (instance : Instance) (status : Status) : Type 0 where
  version_kept :
      status.update.current_version ≡ instance.status.update.current_version
      → Current answers instance status
  version_confirmed :
      (replicas : ℕ)
      → Observed answers.ready_replicas replicas
      → 0 < replicas
      → in_flight instance.status.update.phase ≡ true
      → status.update.current_version ≡ instance.status.update.target_version
      → status.update.phase ≡ ready
      → effective_runtime_image (with_status status instance)
        ≡ resolve_runtime_image instance.runtime
      → Current answers instance status

advance-Current :
    (answers : Answers) (instance : Instance) (status : Status) (replicas : ℕ) (timeout : ℤ)
    → Observed answers.ready_replicas replicas
    → 0 < replicas
    → in_flight instance.status.update.phase ≡ true
    → Advanced answers timeout instance.status.update status.update
    → Current answers instance status
unfolding effective_runtime_image text_eq
advance-Current answers instance status replicas timeout seen some_ready flying (as_before e f p) =
    version_kept (sym (ap UpdateStatus.current_version p))
advance-Current answers instance status replicas timeout seen some_ready flying
      (window_opened p due q r s t w) =
    version_kept t
advance-Current answers instance status replicas timeout seen some_ready flying
      (now_confirmed either due p q r s) =
    version_confirmed replicas seen some_ready flying q p (
      ap
        (λ image.
          if not (text_eq image []) && shows_promotion status.update.phase
          then image
          else resolve_runtime_image instance.runtime)
        r)

finished-same :
    (answers : Answers) (instance : Instance) (s status : Status)
    (before containers : Option (List Container))
    → finished s before ≡ finished status containers
    → s.update.current_version ≡ instance.status.update.current_version
    → Current answers instance status
finished-same answers instance s status before containers h kept =
    version_kept (ap UpdateStatus.current_version (sym (ap update_of h)) ∙ kept)

roll_back-Current :
    (answers : Answers) (instance : Instance) (fallback : Text) (status : Status)
    (containers patched : Option (List Container))
    → roll_back answers instance.generation fallback instance.status patched
      ≡ finished status containers
    → Current answers instance status
unfolding roll_back report
roll_back-Current answers instance fallback status containers none h = absurd (cc)
roll_back-Current answers instance fallback status containers (some cs) h =
    finished-same answers instance _ status (some cs) containers h refl

promote-Current :
    (answers : Answers) (instance : Instance) (candidate : Text) (status : Status)
    (containers patched : Option (List Container))
    → promote answers instance.generation candidate instance.status patched
      ≡ finished status containers
    → Current answers instance status
unfolding promote report
promote-Current answers instance candidate status containers none h = absurd (cc)
promote-Current answers instance candidate status containers (some cs) h =
    finished-same answers instance _ status (some cs) containers h refl

poll-Current :
    (answers : Answers) (instance : Instance) (au : AutoUpdateSpec) (status : Status)
    (containers : Option (List Container)) (outcome : Outcome)
    → Polled answers instance au outcome
    → outcome ≡ finished status containers
    → Current answers instance status
unfolding await_backup report
poll-Current answers instance au status containers _ (unchanged s kept) h =
    finished-same answers instance s status none containers h (ap UpdateStatus.current_version kept)
poll-Current answers instance au status containers _ (deferred candidate new blocked) h =
    finished-same answers instance _ status none containers h refl
poll-Current answers instance au status containers _ (chosen candidate new clear) h =
    promote-Current answers instance candidate status containers _ h

flight-Current :
    (answers : Answers) (instance : Instance) (au : AutoUpdateSpec) (replicas : ℕ) (status : Status)
    (containers : Option (List Container))
    → Observed answers.ready_replicas replicas
    → in_flight instance.status.update.phase ≡ true
    → advance answers instance au replicas ≡ finished status containers
    → Current answers instance status
unfolding advance_rollout
flight-Current answers instance au replicas status containers seen flying =
    if_intro (λ o. o ≡ finished status containers → Current answers instance status)
      (ltb 0 replicas) _ _
      (λ some_ready h.
        advance-Current answers instance status replicas
          (duration minute 15 au.confirmation_timeout_minutes) seen (ltb→lt 0 replicas some_ready)
          flying
          (subst (Advanced answers _ instance.status.update) (ap update_of h)
            (advance_ready-Advanced answers instance.generation _ instance.status)))
      (λ unready.
        if_intro (λ o. o ≡ finished status containers → Current answers instance status)
          (passed answers.now instance.status.update.confirmation_deadline) _ _
          (λ p h.
            roll_back-Current answers instance (resolve_runtime_image instance.runtime) status
              containers _ h)
          (λ p h. finished-same answers instance instance.status status none containers h refl))

-- A reconcile changes the version that the status calls current only by confirming the target of a
-- rollout in flight, with a ready workload; the image that the instance's workload is then rendered
-- with is that of the spec, and not the confirmed one.
pub reconcile-Current :
    (answers : Answers) (instance : Instance) (status : Status)
    (containers : Option (List Container))
    → reconcile answers instance ≡ finished status containers
    → Current answers instance status
unfolding set_idle
reconcile-Current answers instance status containers h = elim (reconcile-Course answers instance) [
  | unread p ↦ absurd (cc)
  | idled off p ↦ finished-same answers instance _ status none containers (sym p ∙ h) refl
  | advanced au replicas on seen flying p ↦
      flight-Current answers instance au replicas status containers seen flying (sym p ∙ h)
  | polled au on quiet p ↦
      poll-Current answers instance au status containers _
        (poll-Polled answers instance au answers.poll refl) (sym p ∙ h)
]
