-- ===== src/Desktop/Coverage.antt =====
-- personaldesktop_controller.go: desktopCleanup against the calls that create a desktop's objects.
use typeclaw_operator.Prelude.{
  ◌≡◌, refl, sym, ap, ◌∙◌, subst, ◌⊎◌, inl, inr, Bool, true, false, ◌&&◌, not, some, List, [], ◌∷◌,
  ◌++◌, is_some, if_intro, All, In,
}
use typeclaw_operator.Desktop.Spec.{
  DesktopSpec, DesktopInstance, is_blank, cross_namespace, is_windows, tailscale_access, published,
  console_sidecar,
}
use typeclaw_operator.Desktop.Objects.{
  Kind, ingress, network_policy, deployment, service, role_binding, role, service_account, secret,
  config_map, volume_claim, virtual_machine, data_volume, Object, object, names, renders_root, when,
  always_removed, cleanup_objects, Call, look, apply, remove, credential_calls, payload_calls,
  volume_call, volume_calls, console_call, state_calls, desktop_calls,
}
use typeclaw_operator.Desktop.Disks.{All-append}

In-left : (o : Object) (xs ys : List Object) → In o xs → In o (xs ++ ys)
In-left o [] ys m = absurd m
In-left o (x ∷ xs) ys (inl e) = inl e
In-left o (x ∷ xs) ys (inr m) = inr (In-left o xs ys m)

In-right : (o : Object) (xs ys : List Object) → In o ys → In o (xs ++ ys)
In-right o [] ys m = m
In-right o (x ∷ xs) ys m = inr (In-right o xs ys m)

-- An object that the call writes is on the list of the cleanup that disposes of the desktop, or is
-- the golden image, which other desktops clone.
abbrev pub Removed : DesktopInstance → Call → Type 0
Removed i (look o) = Unit
Removed i (remove o) = Unit
Removed i (apply o) =
    In o (cleanup_objects true true i false)
    ⊎ (o ≡ object data_volume (names i).namespace (names i).golden_volume)

module _ (i : DesktopInstance) where
  RemovedAll : List Call → Type 0
  RemovedAll = All (Removed i)

  always : (o : Object) → In o (always_removed (names i)) → Removed i (apply o)
  unfolding cleanup_objects
  always o m = inl (In-left o (always_removed (names i)) _ m)

  machine-Removed : Removed i (apply (object virtual_machine (names i).namespace (names i).desktop))
  unfolding cleanup_objects
  machine-Removed =
      let n = names i in
      let mirror = when (cross_namespace i) (object secret n.instance_namespace n.tokens ∷ []) in
      inl (In-right _ (always_removed n) _ (In-right _ mirror _ (inl refl)))

  tokens-Removed : Removed i (apply (object secret (names i).namespace (names i).tokens))
  unfolding cleanup_objects
  tokens-Removed =
      let n = names i in
      let mirror = when (cross_namespace i) (object secret n.instance_namespace n.tokens ∷ []) in
      inl (In-right _ (always_removed n) _ (In-right _ mirror _ (inr (inl refl))))

  mirror-Removed :
      cross_namespace i ≡ true
      → Removed i (apply (object secret (names i).instance_namespace (names i).tokens))
  unfolding cleanup_objects
  mirror-Removed crosses =
      let n = names i in
      let tokens = object secret n.instance_namespace n.tokens in
      let there : In tokens (when (cross_namespace i) (tokens ∷ [])) =
        subst (λ b. In tokens (when b (tokens ∷ []))) (sym crosses) (inl refl) in
      inl (
        In-right _ (always_removed n) _
          (In-left tokens (when (cross_namespace i) (tokens ∷ [])) _ there))

  root-Removed :
      renders_root i.spec ≡ true
      → Removed i (apply (object data_volume (names i).namespace (names i).root_volume))
  unfolding cleanup_objects
  root-Removed renders =
      let n = names i in
      let root = object data_volume n.namespace n.root_volume in
      let mirror = when (cross_namespace i) (object secret n.instance_namespace n.tokens ∷ []) in
      let there : In root (when (renders_root i.spec) (root ∷ [])) =
        subst (λ b. In root (when b (root ∷ []))) (sym renders) (inl refl) in
      inl (In-right _ (always_removed n) _ (In-right _ mirror _ (inr (inr there))))

  credential_calls-Removed : RemovedAll (credential_calls i)
  unfolding RemovedAll credential_calls
  credential_calls-Removed =
      let n = names i in
      let mirror = apply (object secret n.instance_namespace n.tokens) ∷ [] in
      (
        always (object config_map n.instance_namespace n.extension)
            (inr (inr (inr (inr (inr (inr (inr (inr (inr (inr (inl refl))))))))))),
        (
          tokens-Removed,
          if_intro (All (Removed i)) (cross_namespace i) mirror []
              (λ crosses. (mirror-Removed crosses, tt)) (λ h. tt),
        ),
      )

  volume_call-Removed :
      (renders : Bool) (volume : Object)
      → (renders ≡ true → Removed i (apply volume))
      → RemovedAll (volume_call renders volume)
  unfolding RemovedAll
  volume_call-Removed renders volume removed =
      if_intro (All (Removed i)) (is_blank volume.name) [] _ (λ h. tt)
        (λ named.
          if_intro (All (Removed i)) renders (look volume ∷ apply volume ∷ []) (look volume ∷ [])
            (λ h. (tt, (removed h, tt))) (λ h. (tt, tt)))

  payload_calls-Removed : (windows : Bool) → RemovedAll (payload_calls (names i) windows)
  unfolding RemovedAll
  payload_calls-Removed true = (
    always (object secret (names i).namespace (names i).sysprep)
        (inr (inr (inr (inr (inr (inr (inr (inr (inr (inl refl)))))))))),
    (tt, tt),
  )
  payload_calls-Removed false = (
    always (object secret (names i).namespace (names i).cloud_init)
        (inr (inr (inr (inr (inr (inr (inr (inr (inl refl))))))))),
    (tt, tt),
  )

  console_call-Removed : (spec : DesktopSpec) → Removed i (console_call (names i) spec)
  console_call-Removed spec =
      if_intro (Removed i) (published (tailscale_access spec) && not (console_sidecar spec)) _ _
        (λ h. always (object ingress (names i).namespace (names i).console_ingress) (inl refl))
        (λ h. tt)

  state_calls-Removed : (sidecar : Bool) → RemovedAll (state_calls (names i) sidecar)
  unfolding RemovedAll
  state_calls-Removed true =
      let n = names i in
      (
        always (object volume_claim n.namespace n.gateway_state)
            (inr (inr (inr (inr (inr (inr (inr (inr (inr (inr (inr (inr (inl refl))))))))))))),
        (
          always (object config_map n.namespace n.serve_config)
              (inr (inr (inr (inr (inr (inr (inr (inr (inr (inr (inr (inl refl)))))))))))),
          tt,
        ),
      )
  state_calls-Removed false = (tt, tt)

  gateway-Removed :
      (sidecar : Bool)
      → RemovedAll (
          apply (object service_account (names i).namespace (names i).gateway)
          ∷ apply (object role (names i).namespace (names i).gateway)
          ∷ apply (object role_binding (names i).namespace (names i).gateway)
          ∷ apply (object service (names i).namespace (names i).gateway)
          ∷ (state_calls (names i) sidecar
              ++ (apply (object deployment (names i).namespace (names i).gateway)
                  ∷ apply (object network_policy (names i).namespace (names i).gateway)
                  ∷ [])))
  unfolding RemovedAll
  gateway-Removed sidecar =
      let at = λ (kind : Kind). object kind (names i).namespace (names i).gateway in
      (
        always (at service_account) (inr (inr (inr (inr (inr (inr (inl refl))))))),
        (
          always (at role) (inr (inr (inr (inr (inr (inl refl)))))),
          (
            always (at role_binding) (inr (inr (inr (inr (inl refl))))),
            (
              always (at service) (inr (inr (inr (inl refl)))),
              All-append (Removed i) (state_calls (names i) sidecar) _ (state_calls-Removed sidecar)
                  (
                    always (at deployment) (inr (inr (inl refl))),
                    (always (at network_policy) (inr (inl refl)), tt),
                  ),
            ),
          ),
        ),
      )

  -- Each object that an enabled desktop's reconcile writes, except for the golden image, is on the
  -- list by which the cleanup of a deleted Instance, in a cluster that shows KubeVirt and where the
  -- desktop says Delete, deletes the desktop.
  pub desktop_calls-Removed :
      (spec : DesktopSpec)
      → i.spec ≡ some spec
      → All (Removed i) (credential_calls i ++ desktop_calls i spec)
  unfolding desktop_calls RemovedAll
  desktop_calls-Removed spec declared =
      let n = names i in
      let root = λ (h : is_blank spec.existing_data_volume ≡ true).
        root-Removed (ap renders_root declared ∙ h) in
      All-append (Removed i) (credential_calls i) _ credential_calls-Removed (
        All-append (Removed i) (volume_calls n spec) _
          (All-append (Removed i)
            (volume_call (is_some spec.import) (object data_volume n.namespace n.golden_volume)) _
            (volume_call-Removed (is_some spec.import)
              (object data_volume n.namespace n.golden_volume) (λ h. inr refl))
            (volume_call-Removed (is_blank spec.existing_data_volume)
              (object data_volume n.namespace n.root_volume) root))
          (All-append (Removed i) (payload_calls n (is_windows spec)) _
            (payload_calls-Removed (is_windows spec))
            (
              machine-Removed,
              (
                always (object service n.namespace n.agent_service)
                    (inr (inr (inr (inr (inr (inr (inr (inl refl)))))))),
                (console_call-Removed spec, gateway-Removed (console_sidecar spec)),
              ),
            )))
