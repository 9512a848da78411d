-- ===== src/Backup/Reconcile.antt =====
-- backup_controller.go: observeSnapshots, processRestore and Reconcile.
use package.text.Mathlib.Text.{◌==◌ as str_eq}
use typeclaw_operator.Prelude.{
  ℕ, String, Bool, true, false, ◌||◌, not, Option, none, some, List, [], ◌∷◌, ◌++◌, if◌then◌else◌,
}
use typeclaw_operator.Prelude.Text.{Text, text, ◌==◌ as text_eq}
use typeclaw_operator.Backup.Jobs.{
  Job, condition_true, backup_job_condition_true, failed_with, latest_from, latest_succeeded_from,
}
use typeclaw_operator.Conditions.{Condition, set_condition}
use typeclaw_operator.Update.Advance.{Read, found, missing, failed as unreadable}

pub record BackupStatus : Type 0 where
  pub latest_snapshot : Text
  pub last_snapshot_time : Option ℕ

pub record Status : Type 0 where
  pub conditions : List Condition
  pub backup : Option BackupStatus
  pub restore_last_processed : Text
  pub observed_generation : ℕ

-- The part of an instance that the controller reads; `restore` is the annotation, empty when absent.
pub record Instance : Type 0 where
  pub generation : ℕ
  pub has_backup : Bool
  pub suspend : Bool
  pub restore : Text

-- What a reconcile meets: whether the resources are removed, the error of applying them, the snapshot
-- Jobs, whether the restore Job can be given its owner and be created, that Job as it is read, and
-- whether the patch of the status is accepted.
pub record Meets : Type 0 where
  pub now : ℕ
  pub deletes : Bool
  pub apply_error : Option Text
  pub listed : Option (List Job)
  pub owns : Bool
  pub creates : Bool
  pub restore_job : Read Job
  pub patches : Bool

-- The stored status, and the restore Jobs that were created.
pub record Cluster : Type 0 where
  pub status : Status
  pub dispatched : List Text

abbrev pub backup_ready : String
backup_ready = "BackupReady"

unfoldable pub set_backup_ready : ℕ → ℕ → Bool → String → String → Text → Status → Status
unfolding set_condition
set_backup_ready now generation ready true_reason false_reason message status = record status {
  conditions =
      set_condition now status.conditions generation backup_ready ready true_reason false_reason
        message;
}

unfoldable pub is_dispatched : Text → List Text → Bool
is_dispatched name [] = false
is_dispatched name (other ∷ others) = text_eq other name || is_dispatched name others

-- `removeBackupCondition`: every entry of the type goes.
unfoldable pub remove_backup_condition : List Condition → List Condition
remove_backup_condition [] = []
remove_backup_condition (c ∷ others) =
    let kept = remove_backup_condition others in
    if str_eq c.type backup_ready then kept else c ∷ kept

abbrev pub backup_status : Option Job → Option BackupStatus
backup_status none = none
backup_status (some job) =
    some (record { latest_snapshot = job.name; last_snapshot_time = job.completion })

abbrev pub with_backup : Option (Option Job) → Status → Option Status
with_backup none status = none
with_backup (some job) status = some (record status { backup = backup_status job })

abbrev pub without_backup : Status → Status
without_backup status = record status {
  conditions = remove_backup_condition status.conditions;
  backup = none;
}

abbrev pub patch : Bool → Option Status → Status → Status
patch accepted none stored = stored
patch true (some status) stored = status
patch false (some status) stored = stored

-- `quote` is `strconv.Quote`, which `%q` prints, and `restore_job_name` the name for a value of the
-- annotation, which has its SHA-256.
module _ (quote restore_job_name : Text → Text) where
  unfoldable pub snapshot_message : Job → Text → Text
  snapshot_message job outcome = text "snapshot " ++ quote job.name ++ outcome

  unfoldable pub judge_latest : ℕ → ℕ → Option Job → Status → Status
  unfolding set_backup_ready condition_true snapshot_message
  judge_latest now generation none status =
      set_backup_ready now generation false "BackupPending" "BackupPending"
        (text "waiting for the first scheduled snapshot Job") status
  judge_latest now generation (some job) status =
      if backup_job_condition_true job "Complete"
      then set_backup_ready now generation true "BackupsHealthy" "BackupFailed"
          (snapshot_message job (text " completed")) status
      else if backup_job_condition_true job "Failed"
      then set_backup_ready now generation false "BackupFailed" "BackupFailed"
          (snapshot_message job (text " failed")) status
      else set_backup_ready now generation false "BackupPending" "BackupPending"
          (snapshot_message job (text " still running")) status

  -- `none` is an error of the list, or the panic.
  unfoldable pub observe_snapshots : ℕ → ℕ → Option (List Job) → Status → Option Status
  unfolding judge_latest latest_from latest_succeeded_from
  observe_snapshots now generation none status = none
  observe_snapshots now generation (some jobs) status =
      with_backup (latest_succeeded_from none jobs)
        (judge_latest now generation (latest_from none jobs) status)

  unfoldable pub observe_restore : ℕ → ℕ → Text → Read Job → Status → Option Status
  unfolding set_backup_ready failed_with
  observe_restore now generation value missing status = some status
  observe_restore now generation value unreadable status = none
  observe_restore now generation value (found job) status =
      if failed_with (text "exit code 78") job.conditions
      then some (
          set_backup_ready now generation false "RestoreTargetNotEmpty" "RestoreTargetNotEmpty"
            (text "restore of "
              ++ quote value
              ++ text " aborted: public workspace target not empty (exit code 78)")
            status)
      else some status

  unfoldable pub blocked : ℕ → Instance → Status → Status
  unfolding set_backup_ready
  blocked now i status =
      set_backup_ready now i.generation false "RestoreBlockedSuspended" "RestoreBlockedSuspended"
        (text "restore of "
          ++ quote i.restore
          ++ text " refused: suspend the TypeClaw Instance before restoring")
        status

  -- `processRestore`: the restore Jobs after it, and the status, or an error.
  unfoldable pub dispatch : Meets → Instance → List Text → Status → List Text × Option Status
  unfolding observe_restore is_dispatched
  dispatch m i dispatched status =
      let name = restore_job_name i.restore in
      let recorded = record status { restore_last_processed = i.restore } in
      let observed = observe_restore m.now i.generation i.restore m.restore_job recorded in
      if not m.owns
      then (dispatched, none)
      else if is_dispatched name dispatched
      then (dispatched, observed)
      else if not m.creates
      then (dispatched, none)
      else (name ∷ dispatched, observed)

  unfoldable pub process_restore : Meets → Instance → List Text → Status → List Text × Option Status
  unfolding dispatch blocked
  process_restore m i dispatched status =
      if text_eq i.restore []
      then (dispatched, some status)
      else if text_eq i.restore status.restore_last_processed
      then (dispatched, observe_restore m.now i.generation i.restore m.restore_job status)
      else if not i.suspend
      then (dispatched, some (blocked m.now i status))
      else dispatch m i dispatched status

  -- After the snapshots: an error ends the reconcile before its patch.
  unfoldable pub restore_after :
      Meets → Instance → List Text → Option Status → List Text × Option Status
  unfolding process_restore
  restore_after m i dispatched none = (dispatched, none)
  restore_after m i dispatched (some status) = process_restore m i dispatched status

  unfoldable pub snapshots : Meets → Instance → Option Text → Status → Option Status
  unfolding observe_snapshots set_backup_ready
  snapshots m i none status = observe_snapshots m.now i.generation m.listed status
  snapshots m i (some error) status =
      some (set_backup_ready m.now i.generation false "BackupPending" "ResourceError" error status)

  unfoldable pub reconciled_status :
      Meets → Instance → List Text → Status → List Text × Option Status
  unfolding snapshots restore_after remove_backup_condition
  reconciled_status m i dispatched status =
      let seen = record status { observed_generation = i.generation } in
      if not i.has_backup
      then (dispatched, if m.deletes then some (without_backup seen) else none)
      else restore_after m i dispatched (snapshots m i m.apply_error seen)

  unfoldable pub reconcile_backup : Meets → Instance → Cluster → Cluster
  unfolding reconciled_status
  reconcile_backup m i c =
      let result = reconciled_status m i c.dispatched c.status in
      record { status = patch m.patches result.1 c.status; dispatched = result.0 }
