-- ===== src/Backup/Jobs.antt =====
-- backup_controller.go: snapshot Jobs, and which of them is the latest.
use package.text.Mathlib.Text.{◌==◌ as str_eq}
use typeclaw_operator.Prelude.{
  ℕ, String, Bool, true, false, ◌&&◌, ◌||◌, not, Option, none, some, List, [], ◌∷◌, ltb, ◌==◌,
  if◌then◌else◌,
}
use typeclaw_operator.Prelude.Text.{Text, has_prefix, before}

pub record JobCondition : Type 0 where
  pub type : String
  pub is_true : Bool
  pub message : Text

-- Times are in seconds, as in the JSON of a Job.
pub record Job : Type 0 where
  pub name : Text
  pub creation : ℕ
  pub completion : Option ℕ
  pub conditions : List JobCondition

unfoldable pub condition_true : String → List JobCondition → Bool
condition_true wanted [] = false
condition_true wanted (c ∷ others) =
    let rest = condition_true wanted others in
    if str_eq c.type wanted && c.is_true then true else rest

abbrev pub backup_job_condition_true : Job → String → Bool
backup_job_condition_true job wanted = condition_true wanted job.conditions

-- `strings.Contains(s, needle)`.
unfoldable pub contains_text : Text → Text → Bool
contains_text [] needle = has_prefix [] needle
contains_text (c ∷ s) needle = has_prefix (c ∷ s) needle || contains_text s needle

unfoldable pub failed_with : Text → List JobCondition → Bool
unfolding contains_text
failed_with needle [] = false
failed_with needle (c ∷ others) =
    let rest = failed_with needle others in
    if str_eq c.type "Failed" && c.is_true && contains_text c.message needle then true else rest

unfoldable pub backup_newer : Job → Job → Bool
unfolding before
backup_newer a b =
    if not (a.creation == b.creation) then ltb b.creation a.creation else before b.name a.name

-- `backupCompletedAfter`: `none` is the panic on a completion time that only one of them has.
unfoldable pub completed_after : Option ℕ → Option ℕ → Text → Text → Option Bool
unfolding before
completed_after none none a b = some (before b a)
completed_after (some t) none a b = none
completed_after none (some u) a b = none
completed_after (some t) (some u) a b = some (if not (t == u) then ltb u t else before b a)

abbrev pub backup_completed_after : Job → Job → Option Bool
backup_completed_after a b = completed_after a.completion b.completion a.name b.name

abbrev pub newer_than : Job → Option Job → Bool
newer_than job none = true
newer_than job (some best) = backup_newer job best

-- The loop over the Jobs, for `latest`.
unfoldable pub latest_from : Option Job → List Job → Option Job
unfolding backup_newer
latest_from best [] = best
latest_from best (job ∷ jobs) =
    let replaced = latest_from (some job) jobs in
    let kept = latest_from best jobs in if newer_than job best then replaced else kept

abbrev pub supersedes : Job → Option Job → Option Bool
supersedes job none = some true
supersedes job (some best) = backup_completed_after job best

abbrev pub on_test {ℓ} : {A : Type ℓ} → Option Bool → Option A → Option A → Option A
on_test none x y = none
on_test (some true) x y = x
on_test (some false) x y = y

-- The same loop, for `latestSucceeded`; `none` is a panic.
unfoldable pub latest_succeeded_from : Option Job → List Job → Option (Option Job)
unfolding condition_true completed_after
latest_succeeded_from best [] = some best
latest_succeeded_from best (job ∷ jobs) =
    let replaced = latest_succeeded_from (some job) jobs in
    let kept = latest_succeeded_from best jobs in
    if backup_job_condition_true job "Complete"
    then on_test (supersedes job best) replaced kept
    else kept
