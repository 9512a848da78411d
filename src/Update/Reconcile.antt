-- ===== src/Update/Reconcile.antt =====
-- autoupdate_controller.go: one reconcile of the auto-update controller.
-- The end of `Reconcile`, when the candidate is to be promoted.
use typeclaw_operator.Prelude.{
  ℕ, Bool, true, false, ◌||◌, not, Option, none, some, List, [], ◌∷◌, ◌++◌, if◌then◌else◌,
}
use typeclaw_operator.Prelude.Text.{Text, text, ◌==◌ as text_eq}
use typeclaw_operator.Update.Versions.{newer, pick_version}
use typeclaw_operator.Update.Rollout.{
  awaiting_backup, updating, UpdateStatus, AutoUpdateSpec, Status, Instance, image_of, or_else,
  resolve_runtime_image, track_or_default, version_tag, backup_gate_blocked,
}
use typeclaw_operator.Update.Advance.{
  Read, found, missing, failed, Poll, listed, poll_failed, Container, Answers, Outcome, stopped,
  finished, with_update, report, set_idle, patch_runtime_image, is_updating, is_confirming,
  is_rolled_back, advance_rollout,
}

unfoldable pub promote : Answers → ℕ → Text → Status → Option (List Container) → Outcome
unfolding report
promote answers generation candidate status none = stopped
promote answers generation candidate status (some containers) =
    let promoted : UpdateStatus = record {
      phase = updating;
      current_version = status.update.current_version;
      target_version = candidate;
      promoted_image = image_of candidate;
      confirmation_deadline = none;
      message = text "promoted";
    } in
    finished
      (report answers.clock generation false "RolloutInProgress"
        (text "promoted "
          ++ candidate
          ++ text "; awaiting readiness before confirmation window opens")
        (with_update promoted status))
      (some containers)

unfoldable pub await_backup : Answers → ℕ → Text → Status → Status
unfolding report
await_backup answers generation candidate status =
    let u = status.update in
    let message : Text =
      text "rollout of " ++ candidate ++ text " deferred: no snapshot within MaxBackupAgeHours" in
    let waiting : UpdateStatus = record {
      phase = awaiting_backup;
      current_version = u.current_version;
      target_version = u.target_version;
      promoted_image = u.promoted_image;
      confirmation_deadline = u.confirmation_deadline;
      message = message;
    } in
    report answers.clock generation false "AwaitingFreshBackup" message (with_update waiting status)

-- `current`: the confirmed version, or the tag of the spec's image before any is confirmed.
unfoldable pub running_version : Instance → Text
unfolding version_tag resolve_runtime_image
running_version instance =
    or_else instance.status.update.current_version
      (version_tag (resolve_runtime_image instance.runtime))

unfoldable pub tracks : Answers → Instance → Status
unfolding report running_version
tracks answers instance =
    report answers.clock instance.generation true "TrackingCurrent"
      (text "managed runtime tracks " ++ running_version instance) instance.status

-- `Reconcile` from the check of the candidate against the target on.
unfoldable pub follow : Answers → Instance → AutoUpdateSpec → Text → Outcome
unfolding tracks newer backup_gate_blocked await_backup patch_runtime_image promote
follow answers instance au candidate =
    let status = instance.status in
    let generation = instance.generation in
    if text_eq candidate status.update.target_version
    then if is_rolled_back status.update.phase
      then finished
          (report answers.clock generation false "RolledBack" status.update.message status) none
      else finished (tracks answers instance) none
    else if not (newer candidate (running_version instance))
    then finished (tracks answers instance) none
    else if backup_gate_blocked status au answers.now
    then finished (await_backup answers generation candidate status) none
    else promote answers generation candidate status
        (patch_runtime_image (image_of candidate) answers.containers answers.accepted)

unfoldable pub pick : Answers → Instance → AutoUpdateSpec → Option Text → Outcome
unfolding follow track_or_default
pick answers instance au none =
    finished
      (report answers.clock instance.generation false "RegistryError"
        (text "no qualifying release tag on track \"" ++ track_or_default au.track ++ text "\"")
        instance.status)
      none
pick answers instance au (some candidate) = follow answers instance au candidate

unfoldable pub poll_registry : Answers → Instance → AutoUpdateSpec → Poll → Outcome
unfolding pick pick_version
poll_registry answers instance au (poll_failed err) =
    finished
      (report answers.clock instance.generation false "RegistryError"
        (text "registry poll failed: " ++ err) instance.status)
      none
poll_registry answers instance au (listed tags) =
    pick answers instance au (pick_version tags (track_or_default au.track))

-- `Reconcile` of an enabled auto-update, from the readiness that was read.
unfoldable pub reconcile_enabled : Answers → Instance → AutoUpdateSpec → Read ℕ → Outcome
unfolding advance_rollout poll_registry
reconcile_enabled answers instance au failed = stopped
reconcile_enabled answers instance au missing =
    if is_updating instance.status.update.phase || is_confirming instance.status.update.phase
    then advance_rollout answers au instance.generation instance.runtime 0 instance.status
    else poll_registry answers instance au answers.poll
reconcile_enabled answers instance au (found replicas) =
    if is_updating instance.status.update.phase || is_confirming instance.status.update.phase
    then advance_rollout answers au instance.generation instance.runtime replicas instance.status
    else poll_registry answers instance au answers.poll

unfoldable pub reconcile_spec : Answers → Instance → Option AutoUpdateSpec → Outcome
unfolding set_idle reconcile_enabled
reconcile_spec answers instance none = finished (set_idle instance.status) none
reconcile_spec answers instance (some au) =
    if au.enabled
    then reconcile_enabled answers instance au answers.ready_replicas
    else finished (set_idle instance.status) none

unfoldable pub reconcile : Answers → Instance → Outcome
unfolding reconcile_spec
reconcile answers instance = reconcile_spec answers instance instance.auto_update

abbrev pub with_status : Status → Instance → Instance
with_status status instance = record {
  generation = instance.generation;
  auto_update = instance.auto_update;
  runtime = instance.runtime;
  status = status;
}

-- The end of `Reconcile`: an error leaves the stored status, and so does a patch of the status that
-- meets a conflict.
unfoldable pub finish : Bool → Instance → Outcome → Instance
finish accepted instance stopped = instance
finish true instance (finished status containers) = with_status status instance
finish false instance (finished status containers) = instance

-- Successive reconciles, each with whether the patch of the status is accepted. Between them the
-- instance's spec stays.
unfoldable pub rounds : List (Answers × Bool) → Instance → Instance
unfolding finish reconcile
rounds [] instance = instance
rounds (r ∷ rs) instance = rounds rs (finish r.1 instance (reconcile r.0 instance))
