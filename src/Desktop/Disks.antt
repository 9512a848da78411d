-- ===== src/Desktop/Disks.antt =====
-- personaldesktop_controller.go: no reconcile removes a disk but the one that the Instance disposes of.
use typeclaw_operator.Prelude.{
  ◌≡◌, refl, sym, ap, ◌∙◌, subst, ◌⊎◌, inl, inr, Bool, true, false, ◌&&◌, ◌||◌, not, List, [], ◌∷◌,
  ◌++◌, arith, if◌then◌else◌, Bool-cases, is_some, if_intro, any, All,
}
use typeclaw_operator.Prelude.Text.{Text, eq_iff as text_eq_iff}
use typeclaw_operator.Desktop.Spec.{
  DesktopSpec, DesktopInstance, is_blank, desktop_namespace, cross_namespace, is_windows,
  tailscale_access, published, console_sidecar,
}
use typeclaw_operator.Desktop.Objects.{
  secret, virtual_machine, data_volume, Object, object, same_object, NameSet, names, renders_root,
  when, always_removed, cleanup_objects, Call, look, apply, remove, removals, credential_calls,
  payload_calls, volume_call, volume_calls, console_call, state_calls, desktop_calls,
}
use typeclaw_operator.Desktop.Reconcile.{Held, mark, put_object, run_calls}

abbrev pub disk : Text → Text → Object
disk namespace name = object data_volume namespace name

abbrev pub stays : Object → Held → Bool
stays d h = same_object h.object d && not h.terminating

-- The object is in the cluster, and no delete of it has been accepted.
abbrev pub present : Object → List Held → Bool
present d = any (stays d)

same_object-exchange :
    (a b d : Object) → same_object a d ≡ true → same_object a b ≡ true → same_object d b ≡ true
unfolding same_object
same_object-exchange a b d h k = ground (
  arith,
  text_eq_iff a.namespace d.namespace,
  text_eq_iff a.namespace b.namespace,
  text_eq_iff a.name d.name,
  text_eq_iff a.name b.name,
  text_eq_iff d.namespace b.namespace,
  text_eq_iff d.name b.name,
)

-- What stays of one object when another is marked.
marked_other :
    (d x : Object) (h : Held) (rest : Bool)
    → same_object d x ≡ false
    → same_object h.object x ≡ true
    → (stays d (record { object = h.object; terminating = true }) || rest) ≡ (stays d h || rest)
marked_other d x h rest other same = ground (arith, same_object-exchange h.object x d, other, same)

present-mark :
    (d x : Object) (os : List Held) → same_object d x ≡ false → present d (mark x os) ≡ present d os
unfolding mark
present-mark d x [] other = refl
present-mark d x (h ∷ os) other =
    let P = λ (left : List Held). present d left ≡ (stays d h || present d os) in
    let rest = present-mark d x os other in
    if_intro P (same_object h.object x)
      (record { object = h.object; terminating = true } ∷ mark x os) (h ∷ mark x os)
      (λ same.
        marked_other d x h (present d (mark x os)) other same ∙ ap (λ b. stays d h || b) rest)
      (λ apart. ap (λ b. stays d h || b) rest)

or_last : (a b : Bool) → b ≡ true → (a || b) ≡ true
or_last a b h = ground (arith, h)

present-put_object :
    (d x : Object) (os : List Held) → present d os ≡ true → present d (put_object x os) ≡ true
unfolding put_object
present-put_object d x os here =
    if_intro (λ (left : List Held). present d left ≡ true) (any (λ h. same_object h.object x) os) _
      _ (λ there. here)
      (λ new. or_last (stays d (record { object = x; terminating = false })) (present d os) here)

-- The call leaves the object where it is.
abbrev pub Spares : Object → Call → Type 0
Spares d (look x) = Unit
Spares d (apply x) = Unit
Spares d (remove x) = same_object d x ≡ false

pub run_calls-present :
    (d : Object) (calls : List Call) (answers : List Bool) (os : List Held)
    → All (Spares d) calls
    → present d os ≡ true
    → present d (run_calls calls answers os).objects ≡ true
unfolding run_calls
run_calls-present d [] answers os a here = here
run_calls-present d (call ∷ calls) [] os a here = here
run_calls-present d (call ∷ calls) (false ∷ answers) os a here = here
run_calls-present d (look x ∷ calls) (true ∷ answers) os (s, a) here =
    run_calls-present d calls answers os a here
run_calls-present d (apply x ∷ calls) (true ∷ answers) os (s, a) here =
    run_calls-present d calls answers (put_object x os) a (present-put_object d x os here)
run_calls-present d (remove x ∷ calls) (true ∷ answers) os (s, a) here =
    run_calls-present d calls answers (mark x os) a (present-mark d x os s ∙ here)

pub All-append : (P : Call → Type 0) (xs ys : List Call) → All P xs → All P ys → All P (xs ++ ys)
All-append P [] ys a b = b
All-append P (x ∷ xs) ys (p, a) b = (p, All-append P xs ys a b)

pub either {ℓ} :
    {A : Type ℓ} (P : A → Type 0) (b : Bool) (x y : A) → P x → P y → P (if b then x else y)
either P true x y p q = p
either P false x y p q = q

all_three :
    (retain kube_virt renders : Bool)
    → (not retain && (kube_virt && renders)) ≡ true
    → (retain ≡ false) × (renders ≡ true)
all_three retain kube_virt renders h = ground arith

same_place :
    (a b : Object) → same_object a b ≡ true → (a.namespace ≡ b.namespace) × (a.name ≡ b.name)
unfolding same_object
same_place a b h = ground (arith, text_eq_iff a.namespace b.namespace, text_eq_iff a.name b.name)

module _ (namespace name : Text) where
  unfoldable pub SparesAll : List Call → Type 0
  SparesAll = All (Spares (disk namespace name))

  pub credential_calls-Spares : (i : DesktopInstance) → SparesAll (credential_calls i)
  unfolding SparesAll credential_calls same_object
  credential_calls-Spares i = (tt, (tt, either SparesAll (cross_namespace i) _ [] (tt, tt) tt))

  volume_call-Spares : (renders : Bool) (volume : Object) → SparesAll (volume_call renders volume)
  unfolding SparesAll
  volume_call-Spares renders volume = either SparesAll (is_blank volume.name) [] _ tt (
      either SparesAll renders (look volume ∷ apply volume ∷ []) (look volume ∷ []) (tt, (tt, tt))
        (tt, tt))

  volume_calls-Spares : (n : NameSet) (spec : DesktopSpec) → SparesAll (volume_calls n spec)
  unfolding SparesAll
  volume_calls-Spares n spec =
      let golden = object data_volume n.namespace n.golden_volume in
      let root = object data_volume n.namespace n.root_volume in
      All-append (Spares (disk namespace name)) _ _
        (volume_call-Spares (is_some spec.import) golden)
        (volume_call-Spares (is_blank spec.existing_data_volume) root)

  payload_calls-Spares : (n : NameSet) (windows : Bool) → SparesAll (payload_calls n windows)
  unfolding SparesAll same_object
  payload_calls-Spares n true = (tt, (refl, tt))
  payload_calls-Spares n false = (tt, (refl, tt))

  console_call-Spares :
      (n : NameSet) (spec : DesktopSpec) → Spares (disk namespace name) (console_call n spec)
  unfolding same_object
  console_call-Spares n spec =
      either (Spares (disk namespace name))
        (published (tailscale_access spec) && not (console_sidecar spec)) _ _ tt refl

  state_calls-Spares : (n : NameSet) (sidecar : Bool) → SparesAll (state_calls n sidecar)
  unfolding SparesAll same_object
  state_calls-Spares n true = (tt, (tt, tt))
  state_calls-Spares n false = (refl, tt)

  pub desktop_calls-Spares :
      (i : DesktopInstance) (spec : DesktopSpec) → SparesAll (desktop_calls i spec)
  unfolding SparesAll desktop_calls
  desktop_calls-Spares i spec =
      let n = names i in
      let P = Spares (disk namespace name) in
      let gateway = All-append P _ _ (state_calls-Spares n (console_sidecar spec)) (tt, (tt, tt)) in
      let console = console_call-Spares n spec in
      All-append P _ _ (volume_calls-Spares n spec) (
        All-append P _ _ (payload_calls-Spares n (is_windows spec))
          (tt, (tt, (console, (tt, (tt, (tt, (tt, gateway))))))))

  -- The cleanup removes the disk.
  abbrev pub Disposes : DesktopInstance → Bool → Type 0
  Disposes i retain_disk =
      (retain_disk ≡ false)
      × (renders_root i.spec ≡ true)
      × (namespace ≡ desktop_namespace i)
      × (name ≡ (names i).root_volume)

  unfoldable pub SparedAll : List Object → Type 0
  SparedAll = All (λ o. same_object (disk namespace name) o ≡ false)

  pub spared-removals : (os : List Object) → SparedAll os → SparesAll (removals os)
  unfolding SparedAll SparesAll
  spared-removals [] a = tt
  spared-removals (o ∷ os) (s, a) = (s, spared-removals os a)

  when-spared : (b : Bool) (os : List Object) → SparedAll os → SparedAll (when b os)
  unfolding SparedAll
  when-spared true os a = a
  when-spared false os a = tt

  spared-append : (xs ys : List Object) → SparedAll xs → SparedAll ys → SparedAll (xs ++ ys)
  unfolding SparedAll
  spared-append [] ys a b = b
  spared-append (x ∷ xs) ys (s, a) b = (s, spared-append xs ys a b)

  disk_removed :
      (i : DesktopInstance) (kube_virt retain_disk : Bool)
      → SparedAll (
          when
            (not retain_disk && (kube_virt && renders_root i.spec))
            (object data_volume (names i).namespace (names i).root_volume ∷ []))
        ⊎ Disposes i retain_disk
  unfolding SparedAll
  disk_removed i kube_virt retain_disk =
      let root = object data_volume (names i).namespace (names i).root_volume in
      let disposing = not retain_disk && (kube_virt && renders_root i.spec) in
      elim (Bool-cases disposing) [
        | inr keeps ↦ inl (subst (λ b. SparedAll (when b (root ∷ []))) (sym keeps) tt)
        | inl disposes ↦
            let both = all_three retain_disk kube_virt (renders_root i.spec) disposes in
            elim (Bool-cases (same_object (disk namespace name) root)) [
              | inr other ↦ inl (when-spared disposing (root ∷ []) (other, tt))
              | inl same ↦
                  let place = same_place (disk namespace name) root same in
                  inr (both.0, both.1, place.0, place.1)
            ]
      ]

  always_removed-spared : (n : NameSet) → SparedAll (always_removed n)
  unfolding SparedAll same_object
  always_removed-spared n = (
    refl,
    (
      refl,
      (refl, (refl, (refl, (refl, (refl, (refl, (refl, (refl, (refl, (refl, (refl, tt))))))))))),
    ),
  )

  pub cleanup_objects-spared :
      (i : DesktopInstance) (kube_virt kube_virt_again retain_disk : Bool)
      → SparedAll (cleanup_objects kube_virt kube_virt_again i retain_disk) ⊎ Disposes i retain_disk
  unfolding cleanup_objects SparedAll same_object
  cleanup_objects-spared i kube_virt kube_virt_again retain_disk =
      let n = names i in
      let mirror = object secret n.instance_namespace n.tokens ∷ [] in
      let machine = object virtual_machine n.namespace n.desktop ∷ [] in
      let tokens = object secret n.namespace n.tokens ∷ [] in
      elim (disk_removed i kube_virt_again retain_disk) [
        | inr disposes ↦ inr disposes
        | inl kept ↦ inl (
            spared-append (always_removed n) _ (always_removed-spared n) (
              spared-append _ _ (when-spared (cross_namespace i) mirror (refl, tt)) (
                spared-append _ _ (when-spared kube_virt machine (refl, tt))
                  (spared-append _ _ (when-spared (not retain_disk) tokens (refl, tt)) kept))))
      ]
