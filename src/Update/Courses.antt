-- ===== src/Update/Courses.antt =====
-- autoupdate_controller.go: the courses that a reconcile can take, with what each one has tested.
use typeclaw_operator.Prelude.{
  ℕ, ◌≡◌, refl, sym, ap, ◌∙◌, subst, inl, inr, Bool, true, false, ◌||◌, not, Option, none, some,
  List, arith, Bool-cases, if_intro,
}
use typeclaw_operator.Prelude.Text.{Text, ◌==◌ as text_eq}
use typeclaw_operator.Update.Versions.{newer, pick_version}
use typeclaw_operator.Update.Rollout.{
  UpdatePhase, AutoUpdateSpec, Status, Instance, image_of, track_or_default, backup_gate_blocked,
}
use typeclaw_operator.Update.Advance.{
  Read, found, missing, failed, Poll, listed, poll_failed, Answers, Outcome, stopped, finished,
  report, set_idle, patch_runtime_image, is_updating, is_confirming, is_rolled_back,
  advance_rollout,
}
use typeclaw_operator.Update.Reconcile.{
  promote, await_backup, running_version, tracks, follow, pick, poll_registry, reconcile_enabled,
  reconcile_spec, reconcile,
}

abbrev pub in_flight : UpdatePhase → Bool
in_flight phase = is_updating phase || is_confirming phase

-- The readiness that `Reconcile` goes on with: a missing workload counts no ready replica.
pub data Observed : Read ℕ → ℕ → Type 0 where
  replicas_found : (n : ℕ) → Observed (found n) n
  workload_missing : Observed missing 0

abbrev pub advance : Answers → Instance → AutoUpdateSpec → ℕ → Outcome
advance answers instance au replicas =
    advance_rollout answers au instance.generation instance.runtime replicas instance.status

pub record Enabled (instance : Instance) (au : AutoUpdateSpec) : Type 0 where
  pub asked : instance.auto_update ≡ some au
  pub turned_on : au.enabled ≡ true

pub data Course (answers : Answers) (instance : Instance) : Type 0 where
  unread : reconcile answers instance ≡ stopped → Course answers instance
  idled :
      ((au : AutoUpdateSpec) → Enabled instance au → ⊥)
      → reconcile answers instance ≡ finished (set_idle instance.status) none
      → Course answers instance
  advanced :
      (au : AutoUpdateSpec) (replicas : ℕ)
      → Enabled instance au
      → Observed answers.ready_replicas replicas
      → in_flight instance.status.update.phase ≡ true
      → reconcile answers instance ≡ advance answers instance au replicas
      → Course answers instance
  polled :
      (au : AutoUpdateSpec)
      → Enabled instance au
      → in_flight instance.status.update.phase ≡ false
      → reconcile answers instance ≡ poll_registry answers instance au answers.poll
      → Course answers instance

read-Course :
    (answers : Answers) (instance : Instance) (au : AutoUpdateSpec) (read : Read ℕ)
    → Enabled instance au
    → answers.ready_replicas ≡ read
    → reconcile answers instance ≡ reconcile_enabled answers instance au read
    → Course answers instance
unfolding reconcile_enabled
read-Course answers instance au failed on p q = unread q
read-Course answers instance au missing on p q =
    elim (Bool-cases (in_flight instance.status.update.phase)) [
      | inl flying ↦
          advanced au 0 on (subst (λ r. Observed r 0) (sym p) workload_missing) flying
            (q ∙ (rw flying))
      | inr quiet ↦ polled au on quiet (q ∙ (rw quiet))
    ]
read-Course answers instance au (found n) on p q =
    elim (Bool-cases (in_flight instance.status.update.phase)) [
      | inl flying ↦
          advanced au n on (subst (λ r. Observed r n) (sym p) (replicas_found n)) flying
            (q ∙ (rw flying))
      | inr quiet ↦ polled au on quiet (q ∙ (rw quiet))
    ]

some-some : (a b : AutoUpdateSpec) → some a ≡ some b → a ≡ b
some-some a b h = cc

disabled :
    (au other : AutoUpdateSpec) (instance : Instance)
    → Enabled instance other
    → instance.auto_update ≡ some au
    → au.enabled ≡ false
    → ⊥
disabled au other instance on p off =
    let equal = some-some au other (sym p ∙ on.asked) in
    cc (sym (on.turned_on) ∙ ap AutoUpdateSpec.enabled (sym equal) ∙ off)

spec-Course :
    (answers : Answers) (instance : Instance) (spec : Option AutoUpdateSpec)
    → instance.auto_update ≡ spec
    → reconcile answers instance ≡ reconcile_spec answers instance spec
    → Course answers instance
unfolding reconcile_spec
spec-Course answers instance none p q = idled (λ au on. cc (on.asked, p)) q
spec-Course answers instance (some au) p q = elim (Bool-cases au.enabled) [
  | inl on ↦
      read-Course answers instance au answers.ready_replicas (record { asked = p; turned_on = on })
        refl (q ∙ (rw on))
  | inr off ↦ idled (λ other on. disabled au other instance on p off) (q ∙ (rw off))
]

pub reconcile-Course : (answers : Answers) (instance : Instance) → Course answers instance
unfolding reconcile
reconcile-Course answers instance = spec-Course answers instance instance.auto_update refl refl

-- A candidate that is neither the target that was tried last nor older than what runs.
pub record Untried (answers : Answers) (instance : Instance) (au : AutoUpdateSpec)
    (candidate : Text) : Type 0 where
  pub tags : List Text
  pub listing : answers.poll ≡ listed tags
  pub picked : pick_version tags (track_or_default au.track) ≡ some candidate
  pub untried : text_eq candidate instance.status.update.target_version ≡ false
  pub ahead : newer candidate (running_version instance) ≡ true

-- What a poll of the registry can come to.
pub data Polled (answers : Answers) (instance : Instance) (au : AutoUpdateSpec)
    : Outcome → Type 0 where
  unchanged :
      (status : Status)
      → status.update ≡ instance.status.update
      → Polled answers instance au (finished status none)
  deferred :
      (candidate : Text)
      → Untried answers instance au candidate
      → backup_gate_blocked instance.status au answers.now ≡ true
      → Polled answers instance au
          (finished (await_backup answers instance.generation candidate instance.status) none)
  chosen :
      (candidate : Text)
      → Untried answers instance au candidate
      → backup_gate_blocked instance.status au answers.now ≡ false
      → Polled answers instance au (
          promote answers instance.generation candidate instance.status
            (patch_runtime_image (image_of candidate) answers.containers answers.accepted))

not-false : (b : Bool) → not b ≡ false → b ≡ true
not-false b h = ground arith

new_target :
    (answers : Answers) (instance : Instance) (au : AutoUpdateSpec) (tags : List Text)
    (candidate : Text)
    → answers.poll ≡ listed tags
    → pick_version tags (track_or_default au.track) ≡ some candidate
    → text_eq candidate instance.status.update.target_version ≡ false
    → not (newer candidate (running_version instance)) ≡ false
    → Untried answers instance au candidate
new_target answers instance au tags candidate p picked other new = record {
  tags = tags;
  listing = p;
  picked = picked;
  untried = other;
  ahead = not-false _ new;
}

follow-Polled :
    (answers : Answers) (instance : Instance) (au : AutoUpdateSpec) (tags : List Text)
    (candidate : Text)
    → answers.poll ≡ listed tags
    → pick_version tags (track_or_default au.track) ≡ some candidate
    → Polled answers instance au (follow answers instance au candidate)
unfolding follow tracks report
follow-Polled answers instance au tags candidate p picked =
    if_intro (Polled answers instance au) (text_eq candidate instance.status.update.target_version)
      _ _
      (λ tried.
        if_intro (Polled answers instance au) (is_rolled_back instance.status.update.phase) _ _
          (λ r. unchanged _ refl) (λ r. unchanged _ refl))
      (λ other.
        if_intro (Polled answers instance au) (not (newer candidate (running_version instance))) _ _
          (λ old. unchanged _ refl)
          (λ new.
            if_intro (Polled answers instance au)
              (backup_gate_blocked instance.status au answers.now) _ _
              (deferred candidate
                (new_target answers instance au tags candidate p picked other new))
              (chosen candidate
                (new_target answers instance au tags candidate p picked other new))))

pick-Polled :
    (answers : Answers) (instance : Instance) (au : AutoUpdateSpec) (tags : List Text)
    (picked : Option Text)
    → answers.poll ≡ listed tags
    → pick_version tags (track_or_default au.track) ≡ picked
    → Polled answers instance au (pick answers instance au picked)
unfolding pick report
pick-Polled answers instance au tags none p q = unchanged _ refl
pick-Polled answers instance au tags (some candidate) p q =
    follow-Polled answers instance au tags candidate p q

pub poll-Polled :
    (answers : Answers) (instance : Instance) (au : AutoUpdateSpec) (poll : Poll)
    → answers.poll ≡ poll
    → Polled answers instance au (poll_registry answers instance au poll)
unfolding poll_registry report
poll-Polled answers instance au (poll_failed err) p = unchanged _ refl
poll-Polled answers instance au (listed tags) p = pick-Polled answers instance au tags _ p refl
