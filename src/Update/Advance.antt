-- ===== src/Update/Advance.antt =====
-- autoupdate_controller.go: the answers that a reconcile gets from the cluster and the registry, the
-- patch of the workload's image, and `advanceRollout`.
use package.text.Mathlib.Text.{◌==◌ as str_eq}
use typeclaw_operator.Prelude.{
  ℕ, String, Bool, true, false, ◌&&◌, Option, none, some, List, [], ◌∷◌, ◌++◌, ltb, leb,
  if◌then◌else◌,
}
use typeclaw_operator.Prelude.Text.{Text, text}
use typeclaw_operator.Ints.{ℤ, positive}
use typeclaw_operator.Conditions.{set_condition, remove_condition}
use typeclaw_operator.Update.Rollout.{
  UpdatePhase, idle, updating, confirming, ready, rolled_back, UpdateStatus, AutoUpdateSpec,
  RuntimeSpec, Status, ready_condition, resolve_runtime_image, version_tag, duration, minute,
  add_time,
}

pub data Read (A : Type 0) : Type 0 where
  found : A → Read A
  missing : Read A
  failed : Read A

pub data Poll : Type 0 where
  listed : List Text → Poll
  poll_failed : (err : Text) → Poll

pub record Container : Type 0 where
  pub name : String
  pub image : Text

-- `now` is what `time.Now` returns and `clock` what `metav1.Now` does in `setCondition`; `containers`
-- are those of the StatefulSet that `patchRuntimeImage` reads, and `accepted` is whether the API
-- server takes its patch.
pub record Answers : Type 0 where
  pub now : ℕ
  pub clock : ℕ
  pub ready_replicas : Read ℕ
  pub poll : Poll
  pub containers : Read (List Container)
  pub accepted : Bool

-- The end of a reconcile: an error, with the status left as it is, or `finish` with a status to be
-- patched and the containers that the reconcile has put on the workload.
pub data Outcome : Type 0 where
  stopped : Outcome
  finished : Status → Option (List Container) → Outcome

abbrev pub with_update : UpdateStatus → Status → Status
with_update update status = record {
  conditions = status.conditions;
  last_snapshot_time = status.last_snapshot_time;
  update = update;
}

-- `setCondition` of the condition `AutoUpdateReady`, with one reason for both values.
unfoldable pub report : ℕ → ℕ → Bool → String → Text → Status → Status
unfolding set_condition
report clock generation positive reason message status = record {
  conditions =
      set_condition clock status.conditions generation ready_condition positive reason reason
        message;
  last_snapshot_time = status.last_snapshot_time;
  update = status.update;
}

unfoldable pub set_idle : Status → Status
unfolding remove_condition
set_idle status = record {
  conditions = remove_condition status.conditions ready_condition;
  last_snapshot_time = status.last_snapshot_time;
  update = record {
    phase = idle;
    current_version = status.update.current_version;
    target_version = [];
    promoted_image = [];
    confirmation_deadline = none;
    message = [];
  };
}

abbrev pub put_first : {A : Type 0} → A → Option (List A) → Option (List A)
put_first a none = none
put_first a (some rest) = some (a ∷ rest)

-- The loop of `patchRuntimeImage`, on the containers of the StatefulSet.
unfoldable pub set_image : Text → List Container → Option (List Container)
set_image image [] = none
set_image image (c ∷ cs) =
    let rest = set_image image cs in
    if str_eq c.name "runtime"
    then some (record { name = c.name; image = image } ∷ cs)
    else put_first c rest

unfoldable pub patch_runtime_image : Text → Read (List Container) → Bool → Option (List Container)
unfolding set_image
patch_runtime_image image (found containers) true = set_image image containers
patch_runtime_image image (found containers) false = none
patch_runtime_image image missing accepted = none
patch_runtime_image image failed accepted = none

-- The deadline is set when the first readiness is seen, and never again.
abbrev pub keep_deadline : Option ℕ → ℕ → Option ℕ
keep_deadline none deadline = some deadline
keep_deadline (some old) deadline = some old

unfoldable pub start_confirming : Answers → ℕ → ℤ → Status → Status
unfolding add_time report
start_confirming answers generation timeout status =
    let u = status.update in
    let message : Text = u.target_version ++ text " reported ready; confirming" in
    let confirmed : UpdateStatus = record {
      phase = confirming;
      current_version = u.current_version;
      target_version = u.target_version;
      promoted_image = u.promoted_image;
      confirmation_deadline = keep_deadline u.confirmation_deadline (add_time answers.now timeout);
      message = message;
    } in
    report answers.clock generation false "RolloutInProgress" message (with_update confirmed status)

unfoldable pub confirm : Answers → ℕ → Status → Status
unfolding report
confirm answers generation status =
    let u = status.update in
    let promoted : UpdateStatus = record {
      phase = ready;
      current_version = u.target_version;
      target_version = [];
      promoted_image = [];
      confirmation_deadline = none;
      message = [];
    } in
    report answers.clock generation true "RolloutConfirmed"
      (text "confirmed " ++ u.target_version ++ text " as current version")
      (with_update promoted status)

abbrev pub is_updating : UpdatePhase → Bool
is_updating updating = true
is_updating _ = false

abbrev pub is_confirming : UpdatePhase → Bool
is_confirming confirming = true
is_confirming _ = false

abbrev pub is_rolled_back : UpdatePhase → Bool
is_rolled_back rolled_back = true
is_rolled_back _ = false

-- `!now.Before(deadline)` and `now.After(deadline)`, both false without a deadline.
abbrev pub reached : ℕ → Option ℕ → Bool
reached now none = false
reached now (some deadline) = leb deadline now

abbrev pub passed : ℕ → Option ℕ → Bool
passed now none = false
passed now (some deadline) = ltb deadline now

unfoldable pub confirm_if_due : Answers → ℕ → Status → Status
unfolding confirm
confirm_if_due answers generation status =
    if is_confirming status.update.phase && reached answers.now status.update.confirmation_deadline
    then confirm answers generation status
    else status

-- `advanceRollout` with a ready workload.
unfoldable pub advance_ready : Answers → ℕ → ℤ → Status → Status
unfolding start_confirming confirm_if_due
advance_ready answers generation timeout status = confirm_if_due answers generation (
    if is_updating status.update.phase
    then start_confirming answers generation timeout status
    else status)

unfoldable pub roll_back : Answers → ℕ → Text → Status → Option (List Container) → Outcome
unfolding version_tag report
roll_back answers generation fallback status none = stopped
roll_back answers generation fallback status (some containers) =
    let u = status.update in
    let message : Text =
      text "rollout of "
      ++ u.target_version
      ++ text " rolled back to "
      ++ version_tag fallback
      ++ text " after confirmation timeout" in
    let rolled : UpdateStatus = record {
      phase = rolled_back;
      current_version = u.current_version;
      target_version = u.target_version;
      promoted_image = [];
      confirmation_deadline = none;
      message = message;
    } in
    finished
      (report answers.clock generation false "RolledBack" message (with_update rolled status))
      (some containers)

unfoldable pub advance_rollout : Answers → AutoUpdateSpec → ℕ → RuntimeSpec → ℕ → Status → Outcome
unfolding duration advance_ready resolve_runtime_image patch_runtime_image roll_back
advance_rollout answers au generation spec replicas status =
    let fallback = resolve_runtime_image spec in
    if ltb 0 replicas
    then finished
        (advance_ready answers generation (duration minute 15 au.confirmation_timeout_minutes)
          status)
        none
    else if passed answers.now status.update.confirmation_deadline
    then roll_back answers generation fallback status
        (patch_runtime_image fallback answers.containers answers.accepted)
    else finished status none
