-- ===== src/Tests/Update.antt =====
-- Rollouts of the auto-update controller on concrete releases.
use typeclaw_operator.Prelude.{ℕ, ◌≡◌, refl, ◌⊎◌, inr, Bool, true, false, none, some, List, [], ◌∷◌}
use typeclaw_operator.Prelude.Text.{Text, text, ◌==◌ as text_eq}
use typeclaw_operator.Ints.{pos}
use typeclaw_operator.Conditions.{Condition, new_condition, put, condition_of}
use typeclaw_operator.Conditions.Updates.{Updated, put-Updated}
use typeclaw_operator.Update.Versions.{pick_version}
use typeclaw_operator.Update.Order.{IsBest, pick_version-IsBest}
use typeclaw_operator.Update.Rollout.{
  updating, confirming, rolled_back, UpdateStatus, AutoUpdateSpec, RuntimeSpec, Status, Instance,
  no_update, image_of, track_or_default,
}
use typeclaw_operator.Update.Advance.{
  found, listed, Container, Answers, Outcome, stopped, finished, advance_ready,
}
use typeclaw_operator.Update.Reconcile.{reconcile, rounds}
use typeclaw_operator.Update.Safety.{Promotion, Rollback, image_changes}
use typeclaw_operator.Update.Confirmation.{Advanced, advance_ready-Advanced}
use typeclaw_operator.Update.Current.{Current, reconcile-Current}
use typeclaw_operator.Update.Rounds.{unready_rollout_stays, rolled_back-stays}

abbrev releases : List Text
releases = text "0.9.0" ∷ text "0.10.0" ∷ text "0.11.0-rc1" ∷ text "0.10.0-next" ∷ []

abbrev every_hour : AutoUpdateSpec
every_hour = record {
  enabled = true;
  track = [];
  require_fresh_backup = false;
  max_backup_age_hours = pos 0;
  confirmation_timeout_minutes = pos 5;
}

abbrev spec_runtime : RuntimeSpec
spec_runtime = record { image = []; version = text "0.9.0" }

abbrev with_update_of : UpdateStatus → Instance
with_update_of u = record {
  generation = 1;
  auto_update = some every_hour;
  runtime = spec_runtime;
  status = record { conditions = []; last_snapshot_time = none; update = u };
}

abbrev promoted_update : UpdateStatus
promoted_update = record {
  phase = updating;
  current_version = [];
  target_version = text "0.10.0";
  promoted_image = image_of (text "0.10.0");
  confirmation_deadline = none;
  message = text "promoted";
}

abbrev confirming_update : UpdateStatus
confirming_update = record {
  phase = confirming;
  current_version = [];
  target_version = text "0.10.0";
  promoted_image = image_of (text "0.10.0");
  confirmation_deadline = some 100;
  message = [];
}

abbrev rolled_back_update : UpdateStatus
rolled_back_update = record {
  phase = rolled_back;
  current_version = [];
  target_version = text "0.10.0";
  promoted_image = [];
  confirmation_deadline = none;
  message = [];
}

abbrev runtime_container : Text → List Container
runtime_container image = record { name = "runtime"; image = image } ∷ []

abbrev seeing : ℕ → ℕ → Answers
seeing now replicas = record {
  now = now;
  clock = now;
  ready_replicas = found replicas;
  poll = listed releases;
  containers = found (runtime_container (text "old"));
  accepted = true;
}

abbrev status_of : Outcome → Status
status_of stopped = record { conditions = []; last_snapshot_time = none; update = no_update }
status_of (finished status containers) = status

pick_version-IsBest_example :
    IsBest releases (text "latest") (pick_version releases (text "latest"))
pick_version-IsBest_example = pick_version-IsBest releases (text "latest")

picks : pick_version releases (track_or_default []) ≡ some (text "0.10.0")
unfolding pick_version track_or_default text_eq
picks = refl

promotes :
    reconcile (seeing 7 1) (with_update_of no_update)
    ≡ finished
        (status_of (reconcile (seeing 7 1) (with_update_of no_update)))
        (some (runtime_container (image_of (text "0.10.0"))))
unfolding reconcile text_eq
promotes = refl

image_changes_example :
    Promotion
      (seeing 7 1)
      (with_update_of no_update)
      (status_of (reconcile (seeing 7 1) (with_update_of no_update)))
      (runtime_container (image_of (text "0.10.0")))
    ⊎ Rollback
        (seeing 7 1)
        (with_update_of no_update)
        (status_of (reconcile (seeing 7 1) (with_update_of no_update)))
        (runtime_container (image_of (text "0.10.0")))
image_changes_example =
    image_changes (seeing 7 1) (with_update_of no_update)
      (status_of (reconcile (seeing 7 1) (with_update_of no_update)))
      (runtime_container (image_of (text "0.10.0"))) promotes

confirms :
    reconcile (seeing 100 1) (with_update_of confirming_update)
    ≡ finished (status_of (reconcile (seeing 100 1) (with_update_of confirming_update))) none
unfolding reconcile
confirms = refl

reconcile-Current_example :
    Current
      (seeing 100 1)
      (with_update_of confirming_update)
      (status_of (reconcile (seeing 100 1) (with_update_of confirming_update)))
reconcile-Current_example =
    reconcile-Current (seeing 100 1) (with_update_of confirming_update)
      (status_of (reconcile (seeing 100 1) (with_update_of confirming_update))) none confirms

advance_ready-Advanced_example :
    Advanced
      (seeing 100 1)
      (pos 300)
      confirming_update
      (advance_ready (seeing 100 1) 1 (pos 300) (with_update_of confirming_update).status).update
advance_ready-Advanced_example =
    advance_ready-Advanced (seeing 100 1) 1 (pos 300) (with_update_of confirming_update).status

abbrev unready_rounds : List (Answers × Bool)
unready_rounds = (seeing 7 0, true) ∷ (seeing 1000000000000000 0, true) ∷ []

unready_rollout_stays_example :
    rounds unready_rounds (with_update_of promoted_update) ≡ with_update_of promoted_update
unready_rollout_stays_example =
    unready_rollout_stays unready_rounds (with_update_of promoted_update) every_hour
      (record { asked = refl; turned_on = refl }) refl refl (refl, (refl, tt))

rolled_back-stays_example :
    (rounds unready_rounds (with_update_of rolled_back_update)).status.update ≡ rolled_back_update
rolled_back-stays_example =
    rolled_back-stays unready_rounds (with_update_of rolled_back_update) every_hour
      (record { asked = refl; turned_on = refl }) refl (inr picks, (inr picks, tt))

abbrev old_conditions : List Condition
old_conditions =
    new_condition 5 1 "Ready" true "Up" "Down" []
    ∷ new_condition 5 1 "AutoUpdateReady" true "A" "A" []
    ∷ []

abbrev newer_condition : Condition
newer_condition = new_condition 9 2 "AutoUpdateReady" true "B" "B" []

put-Updated_example :
    Updated newer_condition
      (condition_of "AutoUpdateReady" old_conditions)
      (condition_of "AutoUpdateReady" (put newer_condition old_conditions))
put-Updated_example = put-Updated newer_condition old_conditions
