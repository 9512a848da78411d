-- ===== src/Desktop/Keeping.antt =====
-- personaldesktop_controller.go: what a reconcile leaves of a disk.
use typeclaw_operator.Prelude.{
  ◌≡◌, ◌⊎◌, inl, inr, Bool, true, ◌&&◌, ◌||◌, not, Option, none, some, arith, if_intro,
}
use typeclaw_operator.Prelude.Text.{Text}
use typeclaw_operator.Desktop.Spec.{
  DesktopSpec, DesktopInstance, ValidationError, validate, runtime_supports_extensions,
}
use typeclaw_operator.Desktop.Objects.{
  desktop_retains_disk, cleanup_objects, removals, credential_calls, desktop_calls,
}
use typeclaw_operator.Desktop.Reconcile.{
  pending, deleting_phase, is_disabled, runtime_too_old, kube_virt_unavailable, Outcome, World,
  Cluster, Ran, run_calls, publish, with_objects, drop_finalizer, clean_desktop, after_cleanup,
  delete_desktop, disable_desktop, observed, failed_desktop, provision, ensure_finalizer,
  provision_from, if_valid, converge_desktop, reconcile_desktop,
}
use typeclaw_operator.Desktop.Disks.{
  disk, present, run_calls-present, either, SparesAll, credential_calls-Spares,
  desktop_calls-Spares, Disposes, spared-removals, cleanup_objects-spared,
}

module _ (namespace name : Text) where
  unfoldable pub Keeps : Cluster → Type 0
  Keeps c = present (disk namespace name) c.objects ≡ true

  publish-Keeps :
      (w : World) (outcome : Outcome) (c : Cluster) → Keeps c → Keeps (publish w outcome c)
  unfolding Keeps
  publish-Keeps w outcome c k = either Keeps w.publishes _ _ k k

  drop_finalizer-Keeps : (w : World) (c : Cluster) → Keeps c → Keeps (drop_finalizer w c)
  unfolding Keeps
  drop_finalizer-Keeps w c k = either Keeps c.finalizer _ _ (either Keeps w.updates _ _ k k) k

  after_cleanup-Keeps :
      (w : World) (ran : Ran) (c : Cluster)
      → Keeps (with_objects ran.objects c)
      → Keeps (after_cleanup w ran c)
  after_cleanup-Keeps w ran c k =
      either Keeps ran.complete _ _ (drop_finalizer-Keeps w (with_objects ran.objects c) k) k

  clean_desktop-Keeps :
      (w : World) (i : DesktopInstance) (retain_disk : Bool) (c : Cluster)
      → Keeps c
      → Keeps (with_objects (clean_desktop w i retain_disk c.objects).objects c)
        ⊎ Disposes namespace name i retain_disk
  unfolding Keeps SparesAll
  clean_desktop-Keeps w i retain_disk c k =
      let calls = removals (cleanup_objects w.kube_virt w.kube_virt_again i retain_disk) in
      elim (cleanup_objects-spared namespace name i w.kube_virt w.kube_virt_again retain_disk) [
        | inr disposes ↦ inr disposes
        | inl spared ↦
            let spares =
              spared-removals namespace name
                (cleanup_objects w.kube_virt w.kube_virt_again i retain_disk) spared in
            inl (run_calls-present (disk namespace name) calls w.answers c.objects spares k)
      ]

  delete_desktop-Keeps :
      (w : World) (i : DesktopInstance) (c : Cluster)
      → Keeps c
      → Keeps (delete_desktop w i c) ⊎ Disposes namespace name i (desktop_retains_disk i.spec)
  unfolding delete_desktop Keeps
  delete_desktop-Keeps w i c k =
      let retain = desktop_retains_disk i.spec in
      let announced = publish w (record { phase = deleting_phase; reason = is_disabled }) c in
      let ran = clean_desktop w i retain c.objects in
      elim (clean_desktop-Keeps w i retain c k) [
        | inr disposes ↦ inr disposes
        | inl kept ↦
            inl (either Keeps (not c.finalizer) _ _ k (after_cleanup-Keeps w ran announced kept))
      ]

  disable_desktop-Keeps :
      (w : World) (i : DesktopInstance) (c : Cluster) → Keeps c → Keeps (disable_desktop w i c)
  unfolding disable_desktop
  disable_desktop-Keeps w i c k =
      let ran = clean_desktop w i true c.objects in
      elim (clean_desktop-Keeps w i true c k) [
        | inr disposes ↦ absurd (ground (arith, disposes.0))
        | inl kept ↦
            let cleaned = after_cleanup-Keeps w ran c kept in
            either Keeps (ran.complete && (not c.finalizer || w.updates)) _ _
              (publish-Keeps w _ _ cleaned) cleaned
      ]

  provision-Keeps :
      (w : World) (i : DesktopInstance) (spec : DesktopSpec) (c : Cluster)
      → Keeps c
      → Keeps (provision w i spec c)
  unfolding provision Keeps SparesAll
  provision-Keeps w i spec c k =
      let d = disk namespace name in
      let credentials = run_calls (credential_calls i) w.answers c.objects in
      let applied = run_calls (desktop_calls i spec) credentials.answers credentials.objects in
      let first =
        run_calls-present d (credential_calls i) w.answers c.objects
          (credential_calls-Spares namespace name i) k in
      let second =
        run_calls-present d (desktop_calls i spec) credentials.answers credentials.objects
          (desktop_calls-Spares namespace name i spec) first in
      let after = with_objects credentials.objects c in
      let done = with_objects applied.objects c in
      either Keeps (not credentials.complete) _ _ (publish-Keeps w failed_desktop after first) (
        either Keeps (not w.kube_virt) _ _
          (publish-Keeps w (record { phase = pending; reason = kube_virt_unavailable }) after first)
          (either Keeps (not applied.complete) _ _ (publish-Keeps w failed_desktop done second)
            (publish-Keeps w (observed w) done second)))

  provision_from-Keeps :
      (w : World) (i : DesktopInstance) (spec : DesktopSpec) (c : Cluster)
      → Keeps c
      → Keeps (provision_from w i spec (ensure_finalizer w c) c)
  unfolding Keeps
  provision_from-Keeps w i spec c k =
      let P = λ (held : Option Cluster). Keeps (provision_from w i spec held c) in
      either P c.finalizer _ _ (provision-Keeps w i spec c k)
        (either P w.updates _ _ (provision-Keeps w i spec (record c { finalizer = true }) k) k)

  if_valid-Keeps :
      (w : World) (i : DesktopInstance) (spec : DesktopSpec) (error : Option ValidationError)
      (c : Cluster)
      → Keeps c
      → Keeps (if_valid w i spec error c)
  if_valid-Keeps w i spec (some error) c k = publish-Keeps w failed_desktop c k
  if_valid-Keeps w i spec none c k =
      either Keeps (not (runtime_supports_extensions i)) _ _
        (publish-Keeps w (record { phase = pending; reason = runtime_too_old }) c k)
        (provision_from-Keeps w i spec c k)

  converge_desktop-Keeps :
      (w : World) (i : DesktopInstance) (spec : Option DesktopSpec) (c : Cluster)
      → Keeps c
      → Keeps (converge_desktop w i spec c)
  unfolding converge_desktop
  converge_desktop-Keeps w i none c k = disable_desktop-Keeps w i c k
  converge_desktop-Keeps w i (some spec) c k =
      either Keeps (not spec.enabled) _ _ (disable_desktop-Keeps w i c k)
        (if_valid-Keeps w i spec (validate i) c k)

  -- Whatever fails on the way, a disk that is in the cluster before a reconcile, with no delete of it
  -- accepted, is so after it, except that the reconcile of a deleted Instance whose desktop says
  -- Delete, and brings no disk of its own, may delete the disk that the desktop's names give in the
  -- desktop's namespace. The reconciles of a disabled desktop, an invalid one and one that changes
  -- delete no disk.
  pub reconcile_desktop-Keeps :
      (w : World) (i : DesktopInstance) (c : Cluster)
      → Keeps c
      → Keeps (reconcile_desktop w i c)
        ⊎ (i.deleting ≡ true) × Disposes namespace name i (desktop_retains_disk i.spec)
  unfolding reconcile_desktop
  reconcile_desktop-Keeps w i c k =
      let disposing =
        (i.deleting ≡ true) × Disposes namespace name i (desktop_retains_disk i.spec) in
      let P = λ (d : Cluster). Keeps d ⊎ disposing in
      if_intro P i.deleting (delete_desktop w i c) (converge_desktop w i i.spec c)
        (λ h. elim (delete_desktop-Keeps w i c k) [
          | inl kept ↦ inl kept
          | inr disposes ↦ inr (h, disposes)
        ])
        (λ h. inl (converge_desktop-Keeps w i i.spec c k))
