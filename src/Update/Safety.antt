-- ===== src/Update/Safety.antt =====
-- autoupdate_controller.go: when the image of the workload changes, and when a rollout is confirmed.
use typeclaw_operator.Prelude.{
  ℕ, ◌<◌, ◌≡◌, refl, sym, ap, ◌∙◌, subst, ◌⊎◌, inl, inr, Bool, true, false, Option, none, some,
  List, arith, ltb, ltb→lt, if_intro,
}
use typeclaw_operator.Prelude.Text.{Text}
use typeclaw_operator.Update.Order.{IsBest, pick_version-IsBest}
use typeclaw_operator.Update.Rollout.{
  updating, rolled_back, UpdateStatus, AutoUpdateSpec, Status, Instance, no_update, image_of,
  resolve_runtime_image, track_or_default, backup_gate_blocked,
}
use typeclaw_operator.Update.Advance.{
  Read, found, missing, failed, Container, Answers, Outcome, stopped, finished, report, set_image,
  patch_runtime_image, passed, roll_back, advance_rollout,
}
use typeclaw_operator.Update.Reconcile.{promote, reconcile}
use typeclaw_operator.Update.Courses.{
  in_flight, Observed, advance, Enabled, unread, idled, advanced, polled, reconcile-Course, Untried,
  Polled, unchanged, deferred, chosen, poll-Polled,
}

abbrev pub update_of : Outcome → UpdateStatus
update_of stopped = no_update
update_of (finished status containers) = status.update

abbrev pub containers_of : Outcome → Option (List Container)
containers_of stopped = none
containers_of (finished status containers) = containers

none-some : (cs : List Container) → none ≡ some cs → ⊥
none-some cs h = cc

patch-found :
    (image : Text) (read : Read (List Container)) (accepted : Bool) (containers : List Container)
    → patch_runtime_image image read accepted ≡ some containers
    → (old : List Container) × (read ≡ found old) × (set_image image old ≡ some containers)
unfolding patch_runtime_image
patch-found image (found old) true containers h = (old, refl, h)
patch-found image (found old) false containers h = absurd (cc)
patch-found image missing accepted containers h = absurd (cc)
patch-found image failed accepted containers h = absurd (cc)

-- A promotion: what it had to find, and the status that records it.
pub record Promotion (answers : Answers) (instance : Instance) (status : Status)
    (containers : List Container) : Type 0 where
  pub au : AutoUpdateSpec
  pub on : Enabled instance au
  pub quiet : in_flight instance.status.update.phase ≡ false
  pub candidate : Text
  pub target : Untried answers instance au candidate
  pub best : IsBest target.tags (track_or_default au.track) (some candidate)
  pub backed_up : backup_gate_blocked instance.status au answers.now ≡ false
  pub old : List Container
  pub read : answers.containers ≡ found old
  pub written : set_image (image_of candidate) old ≡ some containers
  pub recorded :
      (status.update.phase ≡ updating)
      × (status.update.target_version ≡ candidate)
      × (status.update.promoted_image ≡ image_of candidate)
      × (status.update.confirmation_deadline ≡ none)

-- A rollback: what it had to find, and the status that records it.
pub record Rollback (answers : Answers) (instance : Instance) (status : Status)
    (containers : List Container) : Type 0 where
  pub flying : in_flight instance.status.update.phase ≡ true
  pub unready : Observed answers.ready_replicas 0
  pub deadline : ℕ
  pub had_deadline : instance.status.update.confirmation_deadline ≡ some deadline
  pub late : deadline < answers.now
  pub old : List Container
  pub read : answers.containers ≡ found old
  pub written : set_image (resolve_runtime_image instance.runtime) old ≡ some containers
  pub recorded :
      (status.update.phase ≡ rolled_back)
      × (status.update.target_version ≡ instance.status.update.target_version)

promote-inv :
    (answers : Answers) (generation : ℕ) (candidate : Text) (before after : Status)
    (patched : Option (List Container)) (containers : List Container)
    → promote answers generation candidate before patched ≡ finished after (some containers)
    → (patched ≡ some containers)
      × (after.update.phase ≡ updating)
      × (after.update.target_version ≡ candidate)
      × (after.update.promoted_image ≡ image_of candidate)
      × (after.update.confirmation_deadline ≡ none)
unfolding promote report
promote-inv answers generation candidate before after none containers h = absurd (cc)
promote-inv answers generation candidate before after (some cs) containers h =
    let same = sym (ap update_of h) in
    (
      cc,
      ap UpdateStatus.phase same,
      ap UpdateStatus.target_version same,
      ap UpdateStatus.promoted_image same,
      ap UpdateStatus.confirmation_deadline same,
    )

roll_back-inv :
    (answers : Answers) (generation : ℕ) (fallback : Text) (before after : Status)
    (patched : Option (List Container)) (containers : List Container)
    → roll_back answers generation fallback before patched ≡ finished after (some containers)
    → (patched ≡ some containers)
      × (after.update.phase ≡ rolled_back)
      × (after.update.target_version ≡ before.update.target_version)
unfolding roll_back report
roll_back-inv answers generation fallback before after none containers h = absurd (cc)
roll_back-inv answers generation fallback before after (some cs) containers h =
    let same = sym (ap update_of h) in
    (cc, ap UpdateStatus.phase same, ap UpdateStatus.target_version same)

poll-Promotion :
    (answers : Answers) (instance : Instance) (au : AutoUpdateSpec) (status : Status)
    (containers : List Container) (outcome : Outcome)
    → Enabled instance au
    → in_flight instance.status.update.phase ≡ false
    → Polled answers instance au outcome
    → outcome ≡ finished status (some containers)
    → Promotion answers instance status containers
poll-Promotion answers instance au status containers _ on quiet (unchanged s kept) h = absurd (cc)
poll-Promotion answers instance au status containers _ on quiet (deferred candidate new b) h =
    absurd (cc)
poll-Promotion answers instance au status containers _ on quiet (chosen candidate new clear) h =
    let shape = promote-inv answers _ candidate _ status _ containers h in
    let patch = patch-found _ answers.containers answers.accepted containers shape.0 in
    record {
      au = au;
      on = on;
      quiet = quiet;
      candidate = candidate;
      target = new;
      best =
          subst (IsBest new.tags (track_or_default au.track)) new.picked
            (pick_version-IsBest new.tags (track_or_default au.track));
      backed_up = clear;
      old = patch.0;
      read = patch.1;
      written = patch.2;
      recorded = (shape.1, shape.2, shape.3, shape.4);
    }

passed-late :
    (now : ℕ) (deadline : Option ℕ)
    → passed now deadline ≡ true
    → (d : ℕ) × (deadline ≡ some d) × (d < now)
passed-late now none h = absurd (cc)
passed-late now (some d) h = (d, refl, ltb→lt d now h)

none-ready : (n : ℕ) → ltb 0 n ≡ false → n ≡ 0
none-ready n h = ground arith

late-Rollback :
    (answers : Answers) (instance : Instance) (status : Status) (containers : List Container)
    → in_flight instance.status.update.phase ≡ true
    → Observed answers.ready_replicas 0
    → (d : ℕ) × (instance.status.update.confirmation_deadline ≡ some d) × (d < answers.now)
    → roll_back answers instance.generation
        (resolve_runtime_image instance.runtime)
        instance.status
        (patch_runtime_image
          (resolve_runtime_image instance.runtime)
          answers.containers
          answers.accepted)
      ≡ finished status (some containers)
    → Rollback answers instance status containers
late-Rollback answers instance status containers flying unready time h =
    let shape = roll_back-inv answers _ _ _ status _ containers h in
    let patch = patch-found _ answers.containers answers.accepted containers shape.0 in
    record {
      flying = flying;
      unready = unready;
      deadline = time.0;
      had_deadline = time.1;
      late = time.2;
      old = patch.0;
      read = patch.1;
      written = patch.2;
      recorded = (shape.1, shape.2);
    }

advance-Rollback :
    (answers : Answers) (instance : Instance) (au : AutoUpdateSpec) (replicas : ℕ) (status : Status)
    (containers : List Container)
    → in_flight instance.status.update.phase ≡ true
    → Observed answers.ready_replicas replicas
    → advance answers instance au replicas ≡ finished status (some containers)
    → Rollback answers instance status containers
unfolding advance_rollout
advance-Rollback answers instance au replicas status containers flying seen =
    if_intro
      (λ o. o ≡ finished status (some containers) → Rollback answers instance status containers)
      (ltb 0 replicas) _ _ (λ ready h. absurd (none-some containers (ap containers_of h)))
      (λ unready.
        if_intro
          (λ o. o ≡ finished status (some containers) → Rollback answers instance status containers)
          (passed answers.now instance.status.update.confirmation_deadline) _ _
          (λ p h.
            late-Rollback answers instance status containers flying
              (subst (Observed answers.ready_replicas) (none-ready replicas unready) seen)
              (passed-late answers.now _ p) h)
          (λ p h. absurd (none-some containers (ap containers_of h))))

-- A reconcile changes the image of the workload in two cases only. It promotes, with no rollout in
-- flight, the newest release tag of the track when that is newer than the running version and is not
-- the target that was tried last, and the backup gate is open. Or it rolls back, to the image of the
-- spec, a rollout whose deadline has passed without a ready replica.
pub image_changes :
    (answers : Answers) (instance : Instance) (status : Status) (containers : List Container)
    → reconcile answers instance ≡ finished status (some containers)
    → Promotion answers instance status containers ⊎ Rollback answers instance status containers
image_changes answers instance status containers h = elim (reconcile-Course answers instance) [
  | unread p ↦ absurd (cc)
  | idled off p ↦ absurd (cc)
  | advanced au replicas on seen flying p ↦
      inr (advance-Rollback answers instance au replicas status containers flying seen (sym p ∙ h))
  | polled au on quiet p ↦ inl (
      poll-Promotion answers instance au status containers _ on quiet
        (poll-Polled answers instance au answers.poll refl) (sym p ∙ h))
]
