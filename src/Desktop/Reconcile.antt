-- ===== src/Desktop/Reconcile.antt =====
-- personaldesktop_controller.go: convergeDesktop and Reconcile.
use typeclaw_operator.Prelude.{
  Bool, true, false, ◌&&◌, ◌||◌, not, Option, none, some, List, [], ◌∷◌, if◌then◌else◌, any,
}
use typeclaw_operator.Desktop.Spec.{
  DesktopSpec, DesktopInstance, ValidationError, validate_spec, validate,
  runtime_supports_extensions,
}
use typeclaw_operator.Desktop.Objects.{
  Object, same_object, desktop_retains_disk, cleanup_objects, Call, look, apply, remove, removals,
  credential_calls, desktop_calls,
}

pub data DesktopPhase : Type 0 where
  disabled pending provisioning ready degraded deleting_phase : DesktopPhase

pub data Reason : Type 0 where
  is_disabled is_ready is_provisioning has_error runtime_too_old kube_virt_unavailable : Reason

pub record Outcome : Type 0 where
  pub phase : DesktopPhase
  pub reason : Reason

-- An object in the cluster, and whether its deletion has been accepted: it stays until it is
-- finalized.
pub record Held : Type 0 where
  pub object : Object
  pub terminating : Bool

-- What a reconcile meets: whether the cluster has KubeVirt, as each of two looks in turn finds,
-- whether each call in turn is accepted
-- (when there are no more answers, the manager has died), the gateway and the root disk as they are
-- observed, and whether the status and the finalizer can be written.
pub record World : Type 0 where
  pub kube_virt : Bool
  pub kube_virt_again : Bool
  pub answers : List Bool
  pub gateway_ready : Bool
  pub root_succeeded : Bool
  pub publishes : Bool
  pub updates : Bool

pub record Cluster : Type 0 where
  pub objects : List Held
  pub finalizer : Bool
  pub outcome : Option Outcome

-- An accepted delete of the object, there or not.
unfoldable pub mark : Object → List Held → List Held
unfolding same_object
mark o [] = []
mark o (other ∷ others) =
    let marked = mark o others in
    if same_object other.object o
    then record { object = other.object; terminating = true } ∷ marked
    else other ∷ marked

-- An apply writes into an object that is there, and creates another.
unfoldable pub put_object : Object → List Held → List Held
unfolding same_object
put_object o objects =
    if any (λ h. same_object h.object o) objects
    then objects
    else record { object = o; terminating = false } ∷ objects

abbrev pub apply_call : Call → List Held → List Held
apply_call (look o) objects = objects
apply_call (apply o) objects = put_object o objects
apply_call (remove o) objects = mark o objects

-- The calls in turn, up to the first that fails: the objects, whether all were accepted, and the
-- answers that are left.
pub record Ran : Type 0 where
  pub objects : List Held
  pub complete : Bool
  pub answers : List Bool

unfoldable pub run_calls : List Call → List Bool → List Held → Ran
unfolding mark put_object
run_calls [] answers objects = record { objects = objects; complete = true; answers = answers }
run_calls (call ∷ calls) [] objects = record { objects = objects; complete = false; answers = [] }
run_calls (call ∷ calls) (false ∷ answers) objects = record {
  objects = objects;
  complete = false;
  answers = answers;
}
run_calls (call ∷ calls) (true ∷ answers) objects =
    run_calls calls answers (apply_call call objects)

abbrev pub publish : World → Outcome → Cluster → Cluster
publish w outcome c = if w.publishes then record c { outcome = some outcome } else c

abbrev pub with_objects : List Held → Cluster → Cluster
with_objects objects c = record c { objects = objects }

-- `dropDesktopFinalizer`, once the cleanup is complete.
abbrev pub drop_finalizer : World → Cluster → Cluster
drop_finalizer w c =
    if c.finalizer then (if w.updates then record c { finalizer = false } else c) else c

abbrev pub clean_desktop : World → DesktopInstance → Bool → List Held → Ran
clean_desktop w i retain_disk objects =
    run_calls (removals (cleanup_objects w.kube_virt w.kube_virt_again i retain_disk)) w.answers
      objects

abbrev pub after_cleanup : World → Ran → Cluster → Cluster
after_cleanup w ran c =
    let cleaned = with_objects ran.objects c in
    if ran.complete then drop_finalizer w cleaned else cleaned

-- `Reconcile` of an instance that is being deleted.
unfoldable pub delete_desktop : World → DesktopInstance → Cluster → Cluster
unfolding run_calls cleanup_objects
delete_desktop w i c =
    let announced = publish w (record { phase = deleting_phase; reason = is_disabled }) c in
    let ran = clean_desktop w i (desktop_retains_disk i.spec) c.objects in
    if not c.finalizer then c else after_cleanup w ran announced

unfoldable pub disable_desktop : World → DesktopInstance → Cluster → Cluster
unfolding run_calls cleanup_objects
disable_desktop w i c =
    let ran = clean_desktop w i true c.objects in
    let cleaned = after_cleanup w ran c in
    let dropped = not c.finalizer || w.updates in
    if ran.complete && dropped
    then publish w (record { phase = disabled; reason = is_disabled }) cleaned
    else cleaned

abbrev pub observed : World → Outcome
observed w =
    if w.gateway_ready && w.root_succeeded
    then record { phase = ready; reason = is_ready }
    else record { phase = provisioning; reason = is_provisioning }

abbrev pub failed_desktop : Outcome
failed_desktop = record { phase = degraded; reason = has_error }

-- From the finalizer on.
unfoldable pub provision : World → DesktopInstance → DesktopSpec → Cluster → Cluster
unfolding run_calls credential_calls desktop_calls
provision w i spec c =
    let credentials = run_calls (credential_calls i) w.answers c.objects in
    let applied = run_calls (desktop_calls i spec) credentials.answers credentials.objects in
    if not credentials.complete
    then publish w failed_desktop (with_objects credentials.objects c)
    else if not w.kube_virt
    then publish w (record { phase = pending; reason = kube_virt_unavailable })
        (with_objects credentials.objects c)
    else if not applied.complete
    then publish w failed_desktop (with_objects applied.objects c)
    else publish w (observed w) (with_objects applied.objects c)

abbrev pub ensure_finalizer : World → Cluster → Option Cluster
ensure_finalizer w c =
    if c.finalizer then some c else if w.updates then some (record c { finalizer = true }) else none

abbrev pub provision_from :
    World → DesktopInstance → DesktopSpec → Option Cluster → Cluster → Cluster
provision_from w i spec none c = c
provision_from w i spec (some held) c = provision w i spec held

abbrev pub if_valid :
    World → DesktopInstance → DesktopSpec → Option ValidationError → Cluster → Cluster
if_valid w i spec (some error) c = publish w failed_desktop c
if_valid w i spec none c =
    if not (runtime_supports_extensions i)
    then publish w (record { phase = pending; reason = runtime_too_old }) c
    else provision_from w i spec (ensure_finalizer w c) c

-- `convergeDesktop`, and the publishing of what it observed.
unfoldable pub converge_desktop : World → DesktopInstance → Option DesktopSpec → Cluster → Cluster
unfolding disable_desktop provision validate_spec runtime_supports_extensions
converge_desktop w i none c = disable_desktop w i c
converge_desktop w i (some spec) c =
    if not spec.enabled then disable_desktop w i c else if_valid w i spec (validate i) c

unfoldable pub reconcile_desktop : World → DesktopInstance → Cluster → Cluster
unfolding delete_desktop converge_desktop
reconcile_desktop w i c = if i.deleting then delete_desktop w i c else converge_desktop w i i.spec c
