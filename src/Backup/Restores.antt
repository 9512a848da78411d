-- ===== src/Backup/Restores.antt =====
-- backup_controller.go: what one reconcile makes of the restore Jobs and of the value
-- that is recorded as processed.
use typeclaw_operator.Prelude.{
  ℕ, ◌≡◌, refl, subst, ◌⊎◌, inl, inr, Bool, true, false, not, Option, none, some, List, [], ◌∷◌,
  if◌then◌else◌, if_intro,
}
use typeclaw_operator.Prelude.Text.{Text, text, ◌==◌ as text_eq}
use typeclaw_operator.Prelude.Guards.{not-true}
use typeclaw_operator.Backup.Jobs.{
  Job, backup_job_condition_true, failed_with, latest_from, latest_succeeded_from,
}
use typeclaw_operator.Backup.Reconcile.{
  Status, Instance, Meets, Cluster, is_dispatched, with_backup, without_backup, patch, judge_latest,
  observe_snapshots, observe_restore, blocked, dispatch, process_restore, restore_after, snapshots,
  reconciled_status, reconcile_backup,
}
use typeclaw_operator.Update.Advance.{Read, found, missing, failed as unreadable}

-- The value that the status has as processed.
abbrev Says : Text → Option Status → Type 0
Says value none = Unit
Says value (some status) = status.restore_last_processed ≡ value

module _ (quote restore_job_name : Text → Text) where
  judge_latest-Says :
      (now generation : ℕ) (job : Option Job) (status : Status)
      → (judge_latest quote restore_job_name now generation job status).restore_last_processed
        ≡ status.restore_last_processed
  unfolding judge_latest
  judge_latest-Says now generation none status = refl
  judge_latest-Says now generation (some job) status =
      let P = λ (s : Status). s.restore_last_processed ≡ status.restore_last_processed in
      if_intro P (backup_job_condition_true job "Complete") _ _ (λ h. refl)
        (λ h. if_intro P (backup_job_condition_true job "Failed") _ _ (λ k. refl) (λ k. refl))

  with_backup-Says :
      (value : Text) (job : Option (Option Job)) (status : Status)
      → status.restore_last_processed ≡ value
      → Says value (with_backup job status)
  with_backup-Says value none status h = tt
  with_backup-Says value (some job) status h = h

  observe_snapshots-Says :
      (now generation : ℕ) (listed : Option (List Job)) (status : Status)
      → Says status.restore_last_processed
          (observe_snapshots quote restore_job_name now generation listed status)
  unfolding observe_snapshots
  observe_snapshots-Says now generation none status = tt
  observe_snapshots-Says now generation (some jobs) status =
      with_backup-Says status.restore_last_processed (latest_succeeded_from none jobs)
        (judge_latest quote restore_job_name now generation (latest_from none jobs) status)
        (judge_latest-Says now generation (latest_from none jobs) status)

  snapshots-Says :
      (m : Meets) (i : Instance) (error : Option Text) (status : Status)
      → Says status.restore_last_processed (snapshots quote restore_job_name m i error status)
  unfolding snapshots
  snapshots-Says m i (some error) status = refl
  snapshots-Says m i none status = observe_snapshots-Says m.now i.generation m.listed status

  observe_restore-Says :
      (now generation : ℕ) (value : Text) (read : Read Job) (status : Status)
      → Says status.restore_last_processed
          (observe_restore quote restore_job_name now generation value read status)
  unfolding observe_restore
  observe_restore-Says now generation value missing status = refl
  observe_restore-Says now generation value unreadable status = tt
  observe_restore-Says now generation value (found job) status =
      if_intro (Says status.restore_last_processed)
        (failed_with (text "exit code 78") job.conditions) _ _ (λ h. refl) (λ h. refl)

  -- What one reconcile adds, where the stored status has `last` as processed.
  abbrev pub Step : Instance → Text → List Text → List Text → Type 0
  Step i last old new =
      (new ≡ old)
      ⊎ ((new ≡ restore_job_name i.restore ∷ old)
          × (text_eq i.restore last ≡ false)
          × (is_dispatched (restore_job_name i.restore) old ≡ false)
          × (i.suspend ≡ true)
          × (i.has_backup ≡ true))

  -- The jobs, and the status: it has `last` as processed, or the annotation's value.
  abbrev Adds : Instance → Text → List Text → List Text × Option Status → Type 0
  Adds i last old result = Step i last old result.0 × (Says last result.1 ⊎ Says i.restore result.1)

  dispatch-Adds :
      (m : Meets) (i : Instance) (last : Text) (old : List Text) (status : Status)
      → i.suspend ≡ true
      → i.has_backup ≡ true
      → text_eq i.restore last ≡ false
      → Adds i last old (dispatch quote restore_job_name m i old status)
  unfolding dispatch
  dispatch-Adds m i last old status suspended enabled fresh =
      let recorded = record status { restore_last_processed = i.restore } in
      let observed = observe_restore-Says m.now i.generation i.restore m.restore_job recorded in
      if_intro (Adds i last old) (not m.owns) _ _ (λ foreign. (inl refl, inl tt))
        (λ ours.
          if_intro (Adds i last old) (is_dispatched (restore_job_name i.restore) old) _ _
            (λ known. (inl refl, inr observed))
            (λ new.
              if_intro (Adds i last old) (not m.creates) _ _ (λ fails. (inl refl, inl tt))
                (λ works. (inr (refl, fresh, new, suspended, enabled), inr observed))))

  process_restore-Adds :
      (m : Meets) (i : Instance) (last : Text) (old : List Text) (status : Status)
      → i.has_backup ≡ true
      → status.restore_last_processed ≡ last
      → Adds i last old (process_restore quote restore_job_name m i old status)
  unfolding process_restore blocked
  process_restore-Adds m i last old status enabled says =
      if_intro (Adds i last old) (text_eq i.restore []) _ _ (λ absent. (inl refl, inl says))
        (λ given.
          if_intro (Adds i last old) (text_eq i.restore status.restore_last_processed) _ _
            (λ processed.
              let kept : Says last (
                  observe_restore quote restore_job_name m.now i.generation i.restore m.restore_job
                    status) =
                subst
                  (λ v. Says v (
                    observe_restore quote restore_job_name m.now i.generation i.restore
                      m.restore_job status))
                  says (observe_restore-Says m.now i.generation i.restore m.restore_job status) in
              (inl refl, inl kept))
            (λ new.
              if_intro (Adds i last old) (not i.suspend) _ _ (λ live. (inl refl, inl says))
                (λ stopped.
                  dispatch-Adds m i last old status (not-true i.suspend stopped) enabled
                    (subst (λ v. text_eq i.restore v ≡ false) says new))))

  restore_after-Adds :
      (m : Meets) (i : Instance) (last : Text) (old : List Text) (status : Option Status)
      → i.has_backup ≡ true
      → Says last status
      → Adds i last old (restore_after quote restore_job_name m i old status)
  unfolding restore_after
  restore_after-Adds m i last old none enabled says = (inl refl, inl tt)
  restore_after-Adds m i last old (some status) enabled says =
      process_restore-Adds m i last old status enabled says

  deleted-Says :
      (m : Meets) (status : Status)
      → Says status.restore_last_processed
          (if m.deletes then some (without_backup status) else none)
  deleted-Says m status =
      if_intro (Says status.restore_last_processed) m.deletes _ _ (λ h. refl) (λ h. tt)

  reconciled_status-Adds :
      (m : Meets) (i : Instance) (old : List Text) (status : Status)
      → Adds i status.restore_last_processed old
          (reconciled_status quote restore_job_name m i old status)
  unfolding reconciled_status
  reconciled_status-Adds m i old status =
      let seen = record status { observed_generation = i.generation } in
      if_intro (Adds i status.restore_last_processed old) (not i.has_backup) _ _
        (λ off. (inl refl, inl (deleted-Says m seen)))
        (λ on.
          restore_after-Adds m i status.restore_last_processed old _ (not-true i.has_backup on)
            (snapshots-Says m i m.apply_error seen))

  pub reconcile_backup-Step :
      (m : Meets) (i : Instance) (c : Cluster)
      → Step i c.status.restore_last_processed c.dispatched
          (reconcile_backup quote restore_job_name m i c).dispatched
  unfolding reconcile_backup
  reconcile_backup-Step m i c = (reconciled_status-Adds m i c.dispatched c.status).0

  patch-Says :
      (accepted : Bool) (value : Text) (o : Option Status) (stored : Status)
      → Says value o
      → ((patch accepted o stored).restore_last_processed ≡ value)
        ⊎ ((patch accepted o stored).restore_last_processed ≡ stored.restore_last_processed)
  patch-Says accepted value none stored h = inr refl
  patch-Says true value (some status) stored h = inl h
  patch-Says false value (some status) stored h = inr refl

  -- What is recorded as processed stays, or becomes the annotation's value.
  pub reconcile_backup-recorded :
      (m : Meets) (i : Instance) (c : Cluster)
      → let after = (reconcile_backup quote restore_job_name m i c).status.restore_last_processed in
        (after ≡ i.restore) ⊎ (after ≡ c.status.restore_last_processed)
  unfolding reconcile_backup
  reconcile_backup-recorded m i c =
      let result = (reconciled_status quote restore_job_name m i c.dispatched c.status).1 in
      elim (reconciled_status-Adds m i c.dispatched c.status).1 [
        | inl kept ↦
            elim (patch-Says m.patches c.status.restore_last_processed result c.status kept) [
              | inl a ↦ inr a
              | inr b ↦ inr b
            ]
        | inr value ↦ patch-Says m.patches i.restore result c.status value
      ]
