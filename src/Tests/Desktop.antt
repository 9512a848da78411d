-- ===== src/Tests/Desktop.antt =====
-- The reconciles of one Personal Desktop.
use typeclaw_operator.Desktop.Cleanup.{Gone, reconcile_desktop-Gone}
use typeclaw_operator.Prelude.{
  ◌≡◌, refl, ◌⊎◌, Bool, true, false, none, some, List, [], ◌∷◌, ◌++◌, All,
}
use typeclaw_operator.Prelude.Text.{text, ◌==◌ as text_eq}
use typeclaw_operator.Desktop.Spec.{DesktopSpec, DesktopInstance}
use typeclaw_operator.Desktop.Objects.{
  Object, same_object, desktop_retains_disk, cleanup_objects, credential_calls, desktop_calls,
}
use typeclaw_operator.Desktop.Reconcile.{ready, is_ready, World, Cluster, reconcile_desktop}
use typeclaw_operator.Desktop.Disks.{disk, Disposes}
use typeclaw_operator.Desktop.Keeping.{Keeps, reconcile_desktop-Keeps}
use typeclaw_operator.Desktop.Coverage.{Removed, desktop_calls-Removed}

abbrev desktop_spec : DesktopSpec
desktop_spec = record {
  enabled = true;
  namespace = text "desks";
  owner_subject = text "owner";
  golden_data_volume = text "golden";
  import = none;
  os = text "Linux";
  existing_data_volume = [];
  on_instance_deletion = text "Delete";
  access = none;
}

abbrev an_instance : Bool → DesktopInstance
an_instance deleting = record {
  name = text "a";
  namespace = text "agents";
  deleting = deleting;
  runtime_image = [];
  runtime_version = text "v0.53.1-rc.2";
  spec = some desktop_spec;
}

abbrev world : List Bool → World
world answers = record {
  kube_virt = true;
  kube_virt_again = true;
  answers = answers;
  gateway_ready = true;
  root_succeeded = true;
  publishes = true;
  updates = true;
}

abbrev root_disk : Object
root_disk = disk (text "desks") (text "a-desktop-root")

abbrev with_disk : Bool → Cluster
with_disk finalizer = record {
  objects = record { object = root_disk; terminating = false } ∷ [];
  finalizer = finalizer;
  outcome = none;
}

abbrev yes : List Bool
yes =
    true ∷ true ∷ true ∷ true ∷ true ∷ true ∷ true ∷ true ∷ true ∷ true ∷ true ∷ true ∷ true ∷ true
    ∷ true ∷ true ∷ true ∷ true ∷ true ∷ true ∷ []

ready_now :
    (reconcile_desktop (world yes) (an_instance false) (with_disk false)).outcome
    ≡ some (record { phase = ready; reason = is_ready })
unfolding reconcile_desktop text_eq
ready_now = refl

disposed :
    (reconcile_desktop (world yes) (an_instance true) (with_disk true)).objects
    ≡ record { object = root_disk; terminating = true } ∷ []
unfolding reconcile_desktop text_eq
disposed = refl

stopped_before_the_disk :
    (reconcile_desktop
      (world (true ∷ true ∷ false ∷ []))
      (an_instance true)
      (with_disk true)).finalizer
    ≡ true
unfolding reconcile_desktop text_eq
stopped_before_the_disk = refl

root_disk_there : Keeps (text "desks") (text "a-desktop-root") (with_disk true)
unfolding Keeps same_object text_eq
root_disk_there = refl

reconcile_desktop-Keeps_example :
    Keeps
      (text "desks")
      (text "a-desktop-root")
      (reconcile_desktop (world yes) (an_instance true) (with_disk true))
    ⊎ (true ≡ true)
      × Disposes
          (text "desks")
          (text "a-desktop-root")
          (an_instance true)
          (desktop_retains_disk (some desktop_spec))
reconcile_desktop-Keeps_example =
    reconcile_desktop-Keeps (text "desks") (text "a-desktop-root") (world yes) (an_instance true)
      (with_disk true) root_disk_there

dropped_now : (reconcile_desktop (world yes) (an_instance true) (with_disk true)).finalizer ≡ false
unfolding reconcile_desktop text_eq
dropped_now = refl

reconcile_desktop-Gone_example :
    Gone
      (cleanup_objects true true (an_instance true) (desktop_retains_disk (some desktop_spec)))
      (reconcile_desktop (world yes) (an_instance true) (with_disk true)).objects
reconcile_desktop-Gone_example =
    reconcile_desktop-Gone (world yes) (an_instance true) (with_disk true) refl dropped_now

desktop_calls-Removed_example :
    All
      (Removed (an_instance false))
      (credential_calls (an_instance false) ++ desktop_calls (an_instance false) desktop_spec)
desktop_calls-Removed_example = desktop_calls-Removed (an_instance false) desktop_spec refl
