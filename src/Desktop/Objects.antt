-- ===== src/Desktop/Objects.antt =====
-- names.go and personaldesktop_controller.go: the objects of one desktop, those that are applied and
-- those that desktopCleanup removes. An object is its kind and its place; what is rendered into it is
-- left out.
use typeclaw_operator.Prelude.{
  ℕ, Bool, true, false, ◌&&◌, not, Option, none, some, List, [], ◌∷◌, ◌++◌, ◌==◌, if◌then◌else◌,
  is_some,
}
use typeclaw_operator.Prelude.Text.{Text, text, ◌==◌ as text_eq}
use typeclaw_operator.Desktop.Spec.{
  DesktopSpec, DesktopInstance, is_blank, desktop_namespace, cross_namespace, is_windows,
  tailscale_access, published, console_sidecar,
}

pub data Kind : Type 0 where
  ingress network_policy deployment service role_binding role service_account : Kind
  secret config_map volume_claim virtual_machine data_volume : Kind

pub record Object : Type 0 where
  pub kind : Kind
  pub namespace : Text
  pub name : Text

abbrev pub object : Kind → Text → Text → Object
object kind namespace name = record { kind = kind; namespace = namespace; name = name }

abbrev pub kind_number : Kind → ℕ
kind_number ingress = 0
kind_number network_policy = 1
kind_number deployment = 2
kind_number service = 3
kind_number role_binding = 4
kind_number role = 5
kind_number service_account = 6
kind_number secret = 7
kind_number config_map = 8
kind_number volume_claim = 9
kind_number virtual_machine = 10
kind_number data_volume = 11

unfoldable pub same_object : Object → Object → Bool
same_object a b =
    kind_number a.kind == kind_number b.kind
    && (text_eq a.namespace b.namespace && text_eq a.name b.name)

-- `NameSet`.
pub record NameSet : Type 0 where
  pub instance_namespace : Text
  pub namespace : Text
  pub desktop : Text
  pub tokens : Text
  pub root_volume : Text
  pub golden_volume : Text
  pub cloud_init : Text
  pub sysprep : Text
  pub agent_service : Text
  pub gateway : Text
  pub console_ingress : Text
  pub extension : Text
  pub serve_config : Text
  pub gateway_state : Text

abbrev pub root_name : Option DesktopSpec → Text → Text
root_name none derived = derived
root_name (some spec) derived =
    if is_blank spec.existing_data_volume then derived else spec.existing_data_volume

abbrev pub golden_name : Option DesktopSpec → Text
golden_name none = []
golden_name (some spec) = spec.golden_data_volume

abbrev pub names : DesktopInstance → NameSet
names i =
    let desktop = i.name ++ text "-desktop" in
    record {
      instance_namespace = i.namespace;
      namespace = desktop_namespace i;
      desktop = desktop;
      tokens = desktop ++ text "-tokens";
      root_volume = root_name i.spec (desktop ++ text "-root");
      golden_volume = golden_name i.spec;
      cloud_init = desktop ++ text "-cloudinit";
      sysprep = desktop ++ text "-sysprep";
      agent_service = desktop ++ text "-agent";
      gateway = desktop ++ text "-gateway";
      console_ingress = desktop ++ text "-console";
      extension = desktop ++ text "-extension";
      serve_config = desktop ++ text "-serve-config";
      gateway_state = desktop ++ text "-gateway-state";
    }

-- `RootDataVolume` renders a disk.
abbrev pub renders_root : Option DesktopSpec → Bool
renders_root none = false
renders_root (some spec) = is_blank spec.existing_data_volume

abbrev pub when : Bool → List Object → List Object
when true objects = objects
when false objects = []

abbrev pub desktop_retains_disk : Option DesktopSpec → Bool
desktop_retains_disk none = true
desktop_retains_disk (some spec) = not (text_eq spec.on_instance_deletion (text "Delete"))

-- What every cleanup removes.
abbrev pub always_removed : NameSet → List Object
always_removed n =
    object ingress n.namespace n.console_ingress
    ∷ object network_policy n.namespace n.gateway
    ∷ object deployment n.namespace n.gateway
    ∷ object service n.namespace n.gateway
    ∷ object role_binding n.namespace n.gateway
    ∷ object role n.namespace n.gateway
    ∷ object service_account n.namespace n.gateway
    ∷ object service n.namespace n.agent_service
    ∷ object secret n.namespace n.cloud_init
    ∷ object secret n.namespace n.sysprep
    ∷ object config_map n.instance_namespace n.extension
    ∷ object config_map n.namespace n.serve_config
    ∷ object volume_claim n.namespace n.gateway_state
    ∷ []

-- The list that `desktopCleanup` builds; `kube_virt` and `kube_virt_again` are the answers of its two
-- calls of `kubeVirtAvailable`.
unfoldable pub cleanup_objects : Bool → Bool → DesktopInstance → Bool → List Object
unfolding cross_namespace
cleanup_objects kube_virt kube_virt_again i retain_disk =
    let n = names i in
    always_removed n
    ++ (when (cross_namespace i) (object secret n.instance_namespace n.tokens ∷ [])
        ++ (when kube_virt (object virtual_machine n.namespace n.desktop ∷ [])
            ++ (when (not retain_disk) (object secret n.namespace n.tokens ∷ [])
                ++ when (not retain_disk && (kube_virt_again && renders_root i.spec))
                    (object data_volume n.namespace n.root_volume ∷ []))))

-- A call to the API server: a read, an apply that leaves the object there, or a delete.
pub data Call : Type 0 where
  look : Object → Call
  apply : Object → Call
  remove : Object → Call

abbrev pub removals : List Object → List Call
removals [] = []
removals (o ∷ os) = remove o ∷ removals os

-- The calls of `applyDesktopCredentials`.
unfoldable pub credential_calls : DesktopInstance → List Call
unfolding cross_namespace
credential_calls i =
    let n = names i in
    let mirror = apply (object secret n.instance_namespace n.tokens) ∷ [] in
    apply (object config_map n.instance_namespace n.extension)
    ∷ apply (object secret n.namespace n.tokens)
    ∷ (if cross_namespace i then mirror else [])

abbrev pub payload_calls : NameSet → Bool → List Call
payload_calls n true =
    apply (object secret n.namespace n.sysprep)
    ∷ remove (object secret n.namespace n.cloud_init)
    ∷ []
payload_calls n false =
    apply (object secret n.namespace n.cloud_init)
    ∷ remove (object secret n.namespace n.sysprep)
    ∷ []

-- `ensureDataVolume`: the read of a disk that has a name, and the creation of one that is rendered,
-- which leaves a disk that is there as it is.
abbrev pub volume_call : Bool → Object → List Call
volume_call renders volume =
    if is_blank volume.name
    then []
    else if renders
    then look volume ∷ apply volume ∷ []
    else look volume ∷ []

abbrev pub volume_calls : NameSet → DesktopSpec → List Call
volume_calls n spec =
    volume_call (is_some spec.import) (object data_volume n.namespace n.golden_volume)
    ++ volume_call (is_blank spec.existing_data_volume)
        (object data_volume n.namespace n.root_volume)

abbrev pub console_call : NameSet → DesktopSpec → Call
console_call n spec =
    if published (tailscale_access spec) && not (console_sidecar spec)
    then apply (object ingress n.namespace n.console_ingress)
    else remove (object ingress n.namespace n.console_ingress)

abbrev pub state_calls : NameSet → Bool → List Call
state_calls n true =
    apply (object volume_claim n.namespace n.gateway_state)
    ∷ apply (object config_map n.namespace n.serve_config)
    ∷ []
state_calls n false = remove (object config_map n.namespace n.serve_config) ∷ []

-- The calls of `applyDesktop`.
unfoldable pub desktop_calls : DesktopInstance → DesktopSpec → List Call
unfolding console_sidecar
desktop_calls i spec =
    let n = names i in
    volume_calls n spec
    ++ (payload_calls n (is_windows spec)
        ++ (apply (object virtual_machine n.namespace n.desktop)
            ∷ apply (object service n.namespace n.agent_service)
            ∷ console_call n spec
            ∷ apply (object service_account n.namespace n.gateway)
            ∷ apply (object role n.namespace n.gateway)
            ∷ apply (object role_binding n.namespace n.gateway)
            ∷ apply (object service n.namespace n.gateway)
            ∷ (state_calls n (console_sidecar spec)
                ++ (apply (object deployment n.namespace n.gateway)
                    ∷ apply (object network_policy n.namespace n.gateway)
                    ∷ []))))
