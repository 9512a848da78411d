-- ===== src/Desktop/Cleanup.antt =====
-- personaldesktop_controller.go: what has been deleted when a desktop's finalizer is dropped.
use typeclaw_operator.Prelude.{
  ◌≡◌, refl, sym, ◌∙◌, ◌⊎◌, inl, inr, Bool, true, false, ◌&&◌, ◌||◌, not, Option, none, some, List,
  [], ◌∷◌, arith, if◌then◌else◌, if_intro, All,
}
use typeclaw_operator.Desktop.Spec.{
  DesktopSpec, DesktopInstance, ValidationError, validate, runtime_supports_extensions,
}
use typeclaw_operator.Desktop.Objects.{
  Object, same_object, desktop_retains_disk, cleanup_objects, removals, credential_calls,
  desktop_calls,
}
use typeclaw_operator.Desktop.Reconcile.{
  disabled, pending, deleting_phase, is_disabled, runtime_too_old, kube_virt_unavailable, Outcome,
  Held, World, Cluster, mark, run_calls, publish, with_objects, clean_desktop, after_cleanup,
  delete_desktop, disable_desktop, observed, failed_desktop, provision, provision_from, if_valid,
  converge_desktop, reconcile_desktop,
}
use typeclaw_operator.Desktop.Disks.{stays, present, either}

-- Each of the objects is not in the cluster, or a delete of it has been accepted.
abbrev pub Gone : List Object → List Held → Type 0
Gone os objects = All (λ o. present o objects ≡ false) os

neither : (a b : Bool) → a ≡ false → b ≡ false → (a || b) ≡ false
neither false false p q = refl
neither false true p q = q
neither true b p q = p

first_gone : (a b : Bool) → (a || b) ≡ false → a ≡ false
first_gone true b h = h
first_gone false b h = refl

rest_gone : (a b : Bool) → (a || b) ≡ false → b ≡ false
rest_gone true b h = absurd (ground (arith, h))
rest_gone false b h = h

gone_with_mark : (o : Object) (os : List Held) → present o (mark o os) ≡ false
unfolding mark
gone_with_mark o [] = refl
gone_with_mark o (h ∷ os) =
    let P = λ (left : List Held). present o left ≡ false in
    if_intro P (same_object h.object o)
      (record { object = h.object; terminating = true } ∷ mark o os) (h ∷ mark o os)
      (λ same. neither (same_object h.object o && false) _ (ground arith) (gone_with_mark o os))
      (λ apart. neither (stays o h) _ (ground (arith, apart)) (gone_with_mark o os))

still_gone : (d x : Object) (os : List Held) → present d os ≡ false → present d (mark x os) ≡ false
unfolding mark
still_gone d x [] h = refl
still_gone d x (o ∷ os) h =
    let P = λ (left : List Held). present d left ≡ false in
    let rest = still_gone d x os (rest_gone (stays d o) (present d os) h) in
    let here = first_gone (stays d o) (present d os) h in
    if_intro P (same_object o.object x)
      (record { object = o.object; terminating = true } ∷ mark x os) (o ∷ mark x os)
      (λ e. neither (same_object o.object d && false) _ (ground arith) rest)
      (λ e. neither (stays d o) _ here rest)

removals_gone :
    (d : Object) (os : List Object) (answers : List Bool) (objects : List Held)
    → present d objects ≡ false
    → present d (run_calls (removals os) answers objects).objects ≡ false
unfolding run_calls
removals_gone d [] answers objects h = h
removals_gone d (o ∷ os) [] objects h = h
removals_gone d (o ∷ os) (false ∷ answers) objects h = h
removals_gone d (o ∷ os) (true ∷ answers) objects h =
    removals_gone d os answers (mark o objects) (still_gone d o objects h)

removals-Gone :
    (os : List Object) (answers : List Bool) (objects : List Held)
    → (run_calls (removals os) answers objects).complete ≡ true
    → Gone os (run_calls (removals os) answers objects).objects
unfolding run_calls
removals-Gone [] answers objects h = tt
removals-Gone (o ∷ os) [] objects h = absurd (ground (arith, h))
removals-Gone (o ∷ os) (false ∷ answers) objects h = absurd (ground (arith, h))
removals-Gone (o ∷ os) (true ∷ answers) objects h = (
  removals_gone o os answers (mark o objects) (gone_with_mark o objects),
  removals-Gone os answers (mark o objects) h,
)

-- The cluster has the finalizer, or a delete of each object of the cleanup has been accepted.
abbrev pub Cleaned : World → DesktopInstance → Bool → Cluster → Type 0
Cleaned w i retain_disk c =
    (c.finalizer ≡ true)
    ⊎ Gone (cleanup_objects w.kube_virt w.kube_virt_again i retain_disk) c.objects

module _ (w : World) (i : DesktopInstance) where
  publish-Cleaned :
      (retain_disk : Bool) (outcome : Outcome) (c : Cluster)
      → Cleaned w i retain_disk c
      → Cleaned w i retain_disk (publish w outcome c)
  publish-Cleaned retain_disk outcome c k = either (Cleaned w i retain_disk) w.publishes _ _ k k

  after_cleanup-Cleaned :
      (retain_disk : Bool) (objects : List Held) (c : Cluster)
      → c.finalizer ≡ true
      → Cleaned w i retain_disk (after_cleanup w (clean_desktop w i retain_disk objects) c)
  after_cleanup-Cleaned retain_disk objects c held =
      let ran = clean_desktop w i retain_disk objects in
      let P = λ (d : Cluster). Cleaned w i retain_disk d in
      if_intro P ran.complete _ (with_objects ran.objects c)
        (λ complete.
          let gone =
            removals-Gone (cleanup_objects w.kube_virt w.kube_virt_again i retain_disk) w.answers
              objects complete in
          if_intro P c.finalizer _ (with_objects ran.objects c)
            (λ h. either P w.updates _ _ (inr gone) (inl held)) (λ h. inl held))
        (λ h. inl held)

  Holds : Cluster → Type 0
  Holds c = c.finalizer ≡ true

  publish-Holds : (outcome : Outcome) (c : Cluster) → Holds c → Holds (publish w outcome c)
  unfolding Holds
  publish-Holds outcome c held = either Holds w.publishes _ _ held held

  delete_desktop-Cleaned :
      (c : Cluster) → Holds c → Cleaned w i (desktop_retains_disk i.spec) (delete_desktop w i c)
  unfolding delete_desktop Holds
  delete_desktop-Cleaned c held =
      let retain = desktop_retains_disk i.spec in
      let outcome : Outcome = record { phase = deleting_phase; reason = is_disabled } in
      let announced = publish w outcome c in
      either (Cleaned w i retain) (not c.finalizer) _ _ (inl held)
        (after_cleanup-Cleaned retain c.objects announced (publish-Holds outcome c held))

  disable_desktop-Cleaned : (c : Cluster) → Holds c → Cleaned w i true (disable_desktop w i c)
  unfolding disable_desktop Holds
  disable_desktop-Cleaned c held =
      let ran = clean_desktop w i true c.objects in
      let cleaned = after_cleanup-Cleaned true c.objects c held in
      either (Cleaned w i true) (ran.complete && (not c.finalizer || w.updates)) _ _
        (publish-Cleaned true (record { phase = disabled; reason = is_disabled })
          (after_cleanup w ran c) cleaned)
        cleaned

  provision-Holds : (spec : DesktopSpec) (c : Cluster) → Holds c → Holds (provision w i spec c)
  unfolding provision Holds
  provision-Holds spec c held =
      let credentials = run_calls (credential_calls i) w.answers c.objects in
      let applied = run_calls (desktop_calls i spec) credentials.answers credentials.objects in
      let after = with_objects credentials.objects c in
      let done = with_objects applied.objects c in
      let late : Outcome = record { phase = pending; reason = kube_virt_unavailable } in
      either Holds (not credentials.complete) _ _ (publish-Holds failed_desktop after held) (
        either Holds (not w.kube_virt) _ _ (publish-Holds late after held) (
          either Holds (not applied.complete) _ _ (publish-Holds failed_desktop done held)
            (publish-Holds (observed w) done held)))

  if_valid-Holds :
      (spec : DesktopSpec) (error : Option ValidationError) (c : Cluster)
      → Holds c
      → Holds (if_valid w i spec error c)
  unfolding Holds
  if_valid-Holds spec (some error) c held = publish-Holds failed_desktop c held
  if_valid-Holds spec none c held =
      let P = λ (held : Option Cluster). Holds (provision_from w i spec held c) in
      let kept = provision-Holds spec c held in
      let old : Outcome = record { phase = pending; reason = runtime_too_old } in
      either Holds (not (runtime_supports_extensions i)) _ _ (publish-Holds old c held) (
        either P c.finalizer _ _ kept
          (either P w.updates _ _ (provision-Holds spec (record c { finalizer = true }) refl) held))

  converge_desktop-Cleaned :
      (spec : Option DesktopSpec) (c : Cluster)
      → Holds c
      → Cleaned w i true (converge_desktop w i spec c)
  unfolding converge_desktop
  converge_desktop-Cleaned none c held = disable_desktop-Cleaned c held
  converge_desktop-Cleaned (some spec) c held =
      either (Cleaned w i true) (not spec.enabled) _ _ (disable_desktop-Cleaned c held)
        (inl (unfold Holds in if_valid-Holds spec (validate i) c held))

  either_course :
      (deleting : Bool) (c : Cluster)
      → Holds c
      → Cleaned w i
          (if deleting then desktop_retains_disk i.spec else true)
          (if deleting then delete_desktop w i c else converge_desktop w i i.spec c)
  either_course true c held = delete_desktop-Cleaned c held
  either_course false c held = converge_desktop-Cleaned i.spec c held

dropped_clean :
    (w : World) (i : DesktopInstance) (retain_disk : Bool) (c : Cluster)
    → Cleaned w i retain_disk c
    → c.finalizer ≡ false
    → Gone (cleanup_objects w.kube_virt w.kube_virt_again i retain_disk) c.objects
dropped_clean w i retain_disk c (inl held) dropped = absurd (ground (arith, sym held ∙ dropped))
dropped_clean w i retain_disk c (inr gone) dropped = gone

-- When a reconcile takes the desktop's finalizer off, each of the objects that its cleanup lists is
-- either not in the cluster or has had its deletion accepted, whatever calls failed before; one with
-- finalizers of its own may still be there. The list of a deleted Instance has the tokens, and the
-- disk that was rendered, where the desktop says Delete; the list of a disabled desktop has neither;
-- and both have the VM, and the first the disk, only where the cluster shows KubeVirt when it is asked
-- for that object.
pub reconcile_desktop-Gone :
    (w : World) (i : DesktopInstance) (c : Cluster)
    → c.finalizer ≡ true
    → (reconcile_desktop w i c).finalizer ≡ false
    → Gone
        (cleanup_objects w.kube_virt w.kube_virt_again i
          (if i.deleting then desktop_retains_disk i.spec else true))
        (reconcile_desktop w i c).objects
unfolding reconcile_desktop Holds
reconcile_desktop-Gone w i c held dropped =
    dropped_clean w i (if i.deleting then desktop_retains_disk i.spec else true)
      (reconcile_desktop w i c) (either_course w i i.deleting c held) dropped
