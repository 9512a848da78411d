-- ===== src/Update/Rollout.antt =====
-- autoupdate_controller.go, effective.go and the image rule of workload.go: the state machine of a
-- rollout. Times and durations are in nanoseconds. Reads and patches of the cluster are answers that
-- a reconcile is given: what the model returns is the status to be patched and the image, if any,
-- that the reconcile has put on the workload.
use typeclaw_operator.Prelude.{
  ℕ, zero, suc, ◌+◌, ◌-◌, ◌*◌, String, Bool, true, false, ◌&&◌, not, Option, none, some, List, [],
  ◌∷◌, ◌++◌, ltb, ◌==◌, if◌then◌else◌, is_some,
}
use typeclaw_operator.Prelude.Text.{Text, text, ◌==◌ as text_eq}
use typeclaw_operator.Ints.{ℤ, pos, negsuc, int64}
use typeclaw_operator.Conditions.{Condition, since}

pub data UpdatePhase : Type 0 where
  none_yet : UpdatePhase
  idle : UpdatePhase
  awaiting_backup : UpdatePhase
  updating : UpdatePhase
  confirming : UpdatePhase
  ready : UpdatePhase
  rolled_back : UpdatePhase

pub record UpdateStatus : Type 0 where
  pub phase : UpdatePhase
  pub current_version : Text
  pub target_version : Text
  pub promoted_image : Text
  pub confirmation_deadline : Option ℕ
  pub message : Text

pub record AutoUpdateSpec : Type 0 where
  pub enabled : Bool
  pub track : Text
  pub require_fresh_backup : Bool
  pub max_backup_age_hours : ℤ
  pub confirmation_timeout_minutes : ℤ

pub record RuntimeSpec : Type 0 where
  pub image : Text
  pub version : Text

-- The parts of an instance's status that the auto-update controller reads and writes. Its
-- `last_snapshot_time` is `none` too where `Backup` is nil.
pub record Status : Type 0 where
  pub conditions : List Condition
  pub last_snapshot_time : Option ℕ
  pub update : UpdateStatus

pub record Instance : Type 0 where
  pub generation : ℕ
  pub auto_update : Option AutoUpdateSpec
  pub runtime : RuntimeSpec
  pub status : Status

-- What `ensureUpdate` stores where the status has no `Update` yet.
abbrev pub no_update : UpdateStatus
no_update = record {
  phase = none_yet;
  current_version = [];
  target_version = [];
  promoted_image = [];
  confirmation_deadline = none;
  message = [];
}

abbrev pub ready_condition : String
ready_condition = "AutoUpdateReady"

abbrev pub repository : Text
repository = text "ghcr.io/fml09/typeclaw-runtime"

abbrev pub image_of : Text → Text
image_of version = repository ++ text ":" ++ version

abbrev pub or_else : Text → Text → Text
or_else [] t = t
or_else (c ∷ cs) t = c ∷ cs

unfoldable pub resolve_runtime_image : RuntimeSpec → Text
resolve_runtime_image spec = or_else spec.image (image_of (or_else spec.version (text "0.48.9")))

abbrev pub shows_promotion : UpdatePhase → Bool
shows_promotion updating = true
shows_promotion confirming = true
shows_promotion ready = true
shows_promotion _ = false

unfoldable pub effective_runtime_image : Instance → Text
unfolding resolve_runtime_image
effective_runtime_image instance =
    let u = instance.status.update in
    if not (text_eq u.promoted_image []) && shows_promotion u.phase
    then u.promoted_image
    else resolve_runtime_image instance.runtime

unfoldable pub track_or_default : Text → Text
track_or_default track = or_else track (text "latest")

-- `versionTag`: what follows the last colon, or the whole reference.
abbrev pub default_to {ℓ} : {A : Type ℓ} → A → Option A → A
default_to a none = a
default_to a (some b) = b

unfoldable pub after_last_colon : Text → Option Text
after_last_colon [] = none
after_last_colon (c ∷ cs) =
    let rest = after_last_colon cs in
    if is_some rest then rest else if c == 58 then some cs else none

unfoldable pub version_tag : Text → Text
unfolding after_last_colon
version_tag image = default_to image (after_last_colon image)

-- `x` units of time as a `time.Duration`, or the default where `x` is not positive.
unfoldable pub duration : ℕ → ℕ → ℤ → ℤ
unfolding int64
duration unit default (pos zero) = int64 (default * unit)
duration unit default (pos (suc n)) = int64 (suc n * unit)
duration unit default (negsuc n) = int64 (default * unit)

abbrev pub minute : ℕ
minute = 60000000000

abbrev pub hour : ℕ
hour = 3600000000000

-- `now.Add(d)`.
unfoldable pub add_time : ℕ → ℤ → ℕ
add_time now (pos d) = now + d
add_time now (negsuc d) = now - suc d

-- `now.Sub(since) > d`.
unfoldable pub lasts_longer : ℕ → ℕ → ℤ → Bool
lasts_longer now since (pos d) = ltb (since + d) now
lasts_longer now since (negsuc d) = ltb since (now + suc d)

-- `backupGateBlocked`.
unfoldable pub too_old : ℕ → ℤ → Option ℕ → Bool
unfolding lasts_longer
too_old now max_age none = true
too_old now max_age (some time) = lasts_longer now time max_age

unfoldable pub backup_gate_blocked : Status → AutoUpdateSpec → ℕ → Bool
unfolding duration too_old
backup_gate_blocked status au now =
    au.require_fresh_backup
    && too_old now (duration hour 24 au.max_backup_age_hours) status.last_snapshot_time
