-- ===== src/Backup/Restless.antt =====
-- backup_controller.go: the condition of an instance whose last restore met a target that is not empty.
use typeclaw_operator.Prelude.{
  String, ◌≡◌, refl, sym, ap, ap₂, ◌∙◌, subst, true, false, not, Option, none, some, List, [],
  if◌then◌else◌,
}
use typeclaw_operator.Prelude.Text.{Text, text, ◌==◌ as text_eq}
use typeclaw_operator.Backup.Jobs.{
  Job, backup_job_condition_true, failed_with, latest_from, latest_succeeded_from,
}
use typeclaw_operator.Backup.Reconcile.{
  BackupStatus, Status, Instance, Meets, Cluster, backup_ready, set_backup_ready, backup_status,
  with_backup, without_backup, patch, snapshot_message, judge_latest, observe_snapshots,
  observe_restore, process_restore, restore_after, snapshots, reconciled_status, reconcile_backup,
}
use typeclaw_operator.Conditions.{Condition, same, put, set_condition, condition_of}
use typeclaw_operator.Conditions.Updates.{Updated, put-Updated}
use typeclaw_operator.Update.Advance.{found}

held :
    (cond : Condition) (before after : Option Condition)
    → Updated cond before after
    → (c : Condition) × (after ≡ some c) × (c.positive ≡ cond.positive)
held cond none none u = absurd u
held cond (some b) none u = absurd u
held cond none (some after) u = (after, refl, ap (λ c. c.positive) u)
held cond (some b) (some after) u = (after, refl, u.1)

moved_now :
    (cond c : Condition) (after : Option Condition)
    → same c.positive cond.positive ≡ false
    → Updated cond (some c) after
    → (a : Condition) × (after ≡ some a)
      × (a.positive ≡ cond.positive)
      × (a.last_transition_time ≡ cond.last_transition_time)
moved_now cond c none other u = absurd u
moved_now cond c (some a) other u = (
  a,
  refl,
  u.1,
  u.5 ∙ ap (λ b. if b then c.last_transition_time else cond.last_transition_time) other,
)

-- Two updates of one type that disagree.
put-toggled :
    (first second : Condition) (conditions : List Condition)
    → first.type ≡ second.type
    → same first.positive second.positive ≡ false
    → (a : Condition) × (condition_of second.type (put second (put first conditions)) ≡ some a)
      × (a.positive ≡ second.positive)
      × (a.last_transition_time ≡ second.last_transition_time)
put-toggled first second conditions named other =
    let h = held first _ _ (put-Updated first conditions) in
    let read = ap (λ t. condition_of t (put first conditions)) (sym named) ∙ h.1 in
    moved_now second h.0 _ (ap (λ b. same b second.positive) h.2 ∙ other) (
      subst (λ b. Updated second b (condition_of second.type (put second (put first conditions))))
        read (put-Updated second (put first conditions)))

-- The newest snapshot is complete, the annotation has been processed, and its restore Job has failed
-- on a target that is not empty.
pub record Refused (m : Meets) (i : Instance) (status : Status) : Type 0 where
  pub enabled : i.has_backup ≡ true
  pub applied : m.apply_error ≡ none
  pub jobs : List Job
  pub listed : m.listed ≡ some jobs
  pub latest : Job
  pub is_latest : latest_from none jobs ≡ some latest
  pub complete : backup_job_condition_true latest "Complete" ≡ true
  pub succeeded : Option Job
  pub compared : latest_succeeded_from none jobs ≡ some succeeded
  pub asked : text_eq i.restore [] ≡ false
  pub processed : text_eq i.restore status.restore_last_processed ≡ true
  pub job : Job
  pub read : m.restore_job ≡ found job
  pub not_empty : failed_with (text "exit code 78") job.conditions ≡ true
  pub patched : m.patches ≡ true

module _ (quote restore_job_name : Text → Text) where
  abbrev Fresh : Meets → Option Status → Type 0
  Fresh m none = ⊥
  Fresh m (some status) =
      (a : Condition) × (condition_of backup_ready status.conditions ≡ some a)
      × (a.positive ≡ false)
      × (a.last_transition_time ≡ some m.now)

  judged :
      (m : Meets) (i : Instance) (latest : Job) (status : Status)
      → backup_job_condition_true latest "Complete" ≡ true
      → judge_latest quote restore_job_name m.now i.generation (some latest) status
        ≡ set_backup_ready m.now i.generation true "BackupsHealthy" "BackupFailed"
            (snapshot_message quote restore_job_name latest (text " completed"))
            status
  unfolding judge_latest
  judged m i latest status complete = rw complete refl

  observe_restore-Fresh :
      (m : Meets) (i : Instance) (job : Job) (status : Status) (reason : String) (message : Text)
      (backup : Option BackupStatus)
      → failed_with (text "exit code 78") job.conditions ≡ true
      → Fresh m (
          observe_restore quote restore_job_name m.now i.generation i.restore
            (found job)
            record (set_backup_ready m.now i.generation true reason "BackupFailed" message status) {
              backup = backup;
            })
  unfolding observe_restore set_backup_ready set_condition
  observe_restore-Fresh m i job status reason message backup not_empty =
      rw not_empty (put-toggled _ _ status.conditions refl refl)

  -- The status that the snapshots leave.
  abbrev healthy : Meets → Instance → Job → Option Job → Status → Status
  healthy m i latest succeeded status =
      record (set_backup_ready m.now i.generation true "BackupsHealthy" "BackupFailed"
        (snapshot_message quote restore_job_name latest (text " completed")) status) {
          backup = backup_status succeeded;
        }

  observed :
      (m : Meets) (i : Instance) (seen stored : Status) (r : Refused m i stored)
      → snapshots quote restore_job_name m i m.apply_error seen
        ≡ some (healthy m i r.latest r.succeeded seen)
  unfolding snapshots observe_snapshots
  observed m i seen stored r =
      ap (λ e. snapshots quote restore_job_name m i e seen) r.applied
      ∙ ap (λ l. observe_snapshots quote restore_job_name m.now i.generation l seen) r.listed
      ∙ ap₂ with_backup r.compared (
          ap (λ l. judge_latest quote restore_job_name m.now i.generation l seen) r.is_latest
          ∙ judged m i r.latest seen r.complete)

  processed :
      (m : Meets) (i : Instance) (old : List Text) (status : Status)
      → text_eq i.restore [] ≡ false
      → text_eq i.restore status.restore_last_processed ≡ true
      → process_restore quote restore_job_name m i old status ≡ (
        old,
        observe_restore quote restore_job_name m.now i.generation i.restore m.restore_job status,
      )
  unfolding process_restore
  processed m i old status asked known = rw (asked, known) refl

  healthy-Fresh :
      (m : Meets) (i : Instance) (old : List Text) (seen stored : Status) (r : Refused m i stored)
      → seen.restore_last_processed ≡ stored.restore_last_processed
      → Fresh m
          (process_restore quote restore_job_name m i old (healthy m i r.latest r.succeeded seen)).1
  unfolding set_backup_ready
  healthy-Fresh m i old seen stored r kept =
      let known = ap (λ t. text_eq i.restore t) kept ∙ r.processed in
      let result =
        ap (λ x. x.1) (processed m i old (healthy m i r.latest r.succeeded seen) r.asked known)
        ∙ ap
            (λ j.
              observe_restore quote restore_job_name m.now i.generation i.restore j
                (healthy m i r.latest r.succeeded seen))
            r.read in
      subst (Fresh m) (sym result) (
        observe_restore-Fresh m i r.job seen "BackupsHealthy" _ (backup_status r.succeeded)
          r.not_empty)

  patched-Fresh :
      (m : Meets) (o : Option Status) (stored : Status)
      → Fresh m o
      → Fresh m (some (patch true o stored))
  patched-Fresh m none stored f = absurd f
  patched-Fresh m (some status) stored f = f

  -- After a reconcile of an instance whose newest snapshot is complete and whose last restore has
  -- failed on a target that is not empty, the stored condition is false since that very reconcile,
  -- although it may have been the same before.
  pub reconcile_backup-restless :
      (m : Meets) (i : Instance) (c : Cluster)
      → Refused m i c.status
      → (a : Condition) × (condition_of backup_ready
            (reconcile_backup quote restore_job_name m i c).status.conditions
          ≡ some a)
        × (a.positive ≡ false)
        × (a.last_transition_time ≡ some m.now)
  unfolding reconcile_backup reconciled_status restore_after
  reconcile_backup-restless m i c r =
      let seen : Status = record c.status { observed_generation = i.generation } in
      let after =
        ap
          (λ b.
            if not b
            then (c.dispatched, if m.deletes then some (without_backup seen) else none)
            else restore_after quote restore_job_name m i c.dispatched
                (snapshots quote restore_job_name m i m.apply_error seen))
          r.enabled
        ∙ ap (restore_after quote restore_job_name m i c.dispatched)
            (observed m i seen c.status r) in
      let done =
        (process_restore quote restore_job_name m i c.dispatched
          (healthy m i r.latest r.succeeded seen)).1 in
      subst (λ o. Fresh m (some (patch m.patches o c.status))) (sym (ap (λ x. x.1) after))
        (subst (λ b. Fresh m (some (patch b done c.status))) (sym r.patched)
          (patched-Fresh m done c.status (healthy-Fresh m i c.dispatched seen c.status r refl)))
