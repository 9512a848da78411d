-- ===== src/Tests/Backup.antt =====
-- Snapshots and restores of one instance.
use typeclaw_operator.Backup.Once.{
  Round, after, creations, Patient, IsStopped, AtMostOne, creations-Once,
}
use typeclaw_operator.Backup.Restless.{Refused, reconcile_backup-restless}
use typeclaw_operator.Backup.Latest.{latest_from-SameJobs}
use typeclaw_operator.Backup.Reconcile.{
  Status, Instance, Meets, Cluster, backup_ready, reconcile_backup,
}
use typeclaw_operator.Backup.Jobs.{
  JobCondition, Job, condition_true, backup_job_condition_true, failed_with, latest_from,
  latest_succeeded_from,
}
use typeclaw_operator.Conditions.{Condition, condition_of}
use typeclaw_operator.Prelude.{
  ℕ, String, ◌≡◌, refl, sym, ap, ◌∙◌, ◌≢◌, inl, inr, true, false, none, some, List, [], ◌∷◌, arith,
  ◌==◌, All, In,
}
use typeclaw_operator.Prelude.Text.{Text, text, ◌==◌ as text_eq, has_prefix}
use typeclaw_operator.Update.Advance.{found}

abbrev job_condition : String → JobCondition
job_condition type = record { type = type; is_true = true; message = text "failed: exit code 78" }

abbrev snapshot : Text → ℕ → Job
snapshot name creation = record {
  name = name;
  creation = creation;
  completion = some creation;
  conditions = job_condition "Complete" ∷ [];
}

abbrev first_job : Job
first_job = snapshot (text "a") 1

abbrev second_job : Job
second_job = snapshot (text "b") 2

picks : latest_from none (first_job ∷ second_job ∷ []) ≡ some second_job
unfolding latest_from
picks = refl

either_order :
    (job : Job) → In job (first_job ∷ second_job ∷ []) → In job (second_job ∷ first_job ∷ [])
either_order job (inl a) = inr (inl a)
either_order job (inr (inl b)) = inl b
either_order job (inr (inr c)) = absurd c

other_order :
    (job : Job) → In job (second_job ∷ first_job ∷ []) → In job (first_job ∷ second_job ∷ [])
other_order job (inl a) = inr (inl a)
other_order job (inr (inl b)) = inl b
other_order job (inr (inr c)) = absurd c

abbrev initial : Text → ℕ
initial [] = 0
initial (c ∷ s) = c

distinct : (m n : ℕ) → (m == n) ≡ false → m ≢ n
distinct m n h e = ground (arith, h, e)

one_name :
    (a b : Job)
    → In a (first_job ∷ second_job ∷ [])
    → In b (first_job ∷ second_job ∷ [])
    → a.name ≡ b.name
    → a ≡ b
one_name a b (inl p) (inl q) e = sym p ∙ q
one_name a b (inl p) (inr (inl q)) e = absurd (
    distinct 97 98 refl
      (ap (λ j. initial j.name) p ∙ ap initial e ∙ sym (ap (λ j. initial j.name) q)))
one_name a b (inr (inl p)) (inl q) e = absurd (
    distinct 98 97 refl
      (ap (λ j. initial j.name) p ∙ ap initial e ∙ sym (ap (λ j. initial j.name) q)))
one_name a b (inr (inl p)) (inr (inl q)) e = sym p ∙ q
one_name a b (inr (inr p)) m e = absurd p
one_name a b (inl p) (inr (inr q)) e = absurd q
one_name a b (inr (inl p)) (inr (inr q)) e = absurd q

latest_from-SameJobs_example :
    latest_from none (first_job ∷ second_job ∷ []) ≡ latest_from none (second_job ∷ first_job ∷ [])
latest_from-SameJobs_example =
    latest_from-SameJobs (first_job ∷ second_job ∷ []) (second_job ∷ first_job ∷ [])
      (either_order, other_order, one_name)

abbrev wants : Instance
wants = record { generation = 1; has_backup = true; suspend = true; restore = text "s.tar.gz" }

abbrev failed_restore : Job
failed_restore = record {
  name = text "r";
  creation = 3;
  completion = none;
  conditions = job_condition "Failed" ∷ [];
}

abbrev meets : Meets
meets = record {
  now = 9;
  deletes = true;
  apply_error = none;
  listed = some (first_job ∷ second_job ∷ []);
  owns = true;
  creates = true;
  restore_job = found failed_restore;
  patches = true;
}

abbrev fresh : Status
fresh = record {
  conditions = [];
  backup = none;
  restore_last_processed = [];
  observed_generation = 0;
}

abbrev quote : Text → Text
quote t = t

-- In the second round the Job of the first has been deleted.
abbrev round_without_jobs : Round
round_without_jobs = record { meets = meets; instance = wants; jobs = [] }

abbrev two_rounds : List Round
two_rounds = round_without_jobs ∷ round_without_jobs ∷ []

abbrev no_jobs : Cluster
no_jobs = record { status = fresh; dispatched = [] }

restores_once : creations quote quote two_rounds no_jobs ≡ round_without_jobs ∷ []
unfolding creations text_eq latest_succeeded_from latest_from has_prefix
restores_once = refl

recorded :
    (after quote quote round_without_jobs no_jobs).status.restore_last_processed ≡ text "s.tar.gz"
unfolding reconcile_backup text_eq latest_succeeded_from latest_from has_prefix
recorded = refl

two_rounds-Patient : Patient quote quote (text "s.tar.gz") two_rounds no_jobs
unfolding Patient
two_rounds-Patient = (λ h. inl h, (λ h. inr recorded, tt))

creations-Once_example :
    AtMostOne quote quote (creations quote quote two_rounds no_jobs)
    × All (IsStopped quote quote) (creations quote quote two_rounds no_jobs)
creations-Once_example =
    creations-Once quote quote (text "s.tar.gz") two_rounds no_jobs (refl, (refl, tt))
      two_rounds-Patient

abbrev done : Cluster
done = record {
  status = record fresh { restore_last_processed = text "s.tar.gz" };
  dispatched = text "s.tar.gz" ∷ [];
}

is_complete : backup_job_condition_true second_job "Complete" ≡ true
unfolding condition_true
is_complete = refl

compares : latest_succeeded_from none (first_job ∷ second_job ∷ []) ≡ some (some second_job)
unfolding latest_succeeded_from
compares = refl

asks : text_eq wants.restore [] ≡ false
unfolding text_eq
asks = refl

has_processed : text_eq wants.restore done.status.restore_last_processed ≡ true
unfolding text_eq
has_processed = refl

is_refused : failed_with (text "exit code 78") failed_restore.conditions ≡ true
unfolding failed_with has_prefix
is_refused = refl

abbrev refused : Refused meets wants done.status
refused = record {
  enabled = refl;
  applied = refl;
  jobs = first_job ∷ second_job ∷ [];
  listed = refl;
  latest = second_job;
  is_latest = picks;
  complete = is_complete;
  succeeded = some second_job;
  compared = compares;
  asked = asks;
  processed = has_processed;
  job = failed_restore;
  read = refl;
  not_empty = is_refused;
  patched = refl;
}

reconcile_backup-restless_example :
    (a : Condition) × (condition_of backup_ready
        (reconcile_backup quote quote meets wants done).status.conditions
      ≡ some a)
    × (a.positive ≡ false)
    × (a.last_transition_time ≡ some 9)
reconcile_backup-restless_example = reconcile_backup-restless quote quote meets wants done refused
