-- ===== src/Desktop/Spec.antt =====
-- names.go, defaults.go and preconditions.go: a declared Personal Desktop, its names and whether it
-- can be provisioned.
use typeclaw_operator.Prelude.{
  ℕ, Bool, true, false, ◌&&◌, ◌||◌, not, Option, none, some, List, [], ◌∷◌, leb, ◌==◌,
  if◌then◌else◌, is_some,
}
use typeclaw_operator.Prelude.Text.{Text, text, ◌==◌ as text_eq, split}
use typeclaw_operator.Ints.{ℤ, pos, negsuc, atoi}

pub record ImportSpec : Type 0 where
  pub url : Text
  pub checksum : Text

pub record TailscaleSpec : Type 0 where
  pub hostname : Text
  pub mode : Text
  pub auth_secret : Text
  pub tailnet : Text

-- `access` is `spec.access` with its `tailscale`.
pub record DesktopSpec : Type 0 where
  pub enabled : Bool
  pub namespace : Text
  pub owner_subject : Text
  pub golden_data_volume : Text
  pub import : Option ImportSpec
  pub os : Text
  pub existing_data_volume : Text
  pub on_instance_deletion : Text
  pub access : Option (Option TailscaleSpec)

pub record DesktopInstance : Type 0 where
  pub name : Text
  pub namespace : Text
  pub deleting : Bool
  pub runtime_image : Text
  pub runtime_version : Text
  pub spec : Option DesktopSpec

abbrev pub is_blank : Text → Bool
is_blank [] = true
is_blank (c ∷ s) = false

abbrev pub spec_enabled : Option DesktopSpec → Bool
spec_enabled none = false
spec_enabled (some spec) = spec.enabled

abbrev pub enabled : DesktopInstance → Bool
enabled i = spec_enabled i.spec

abbrev pub spec_namespace : Option DesktopSpec → Text → Text
spec_namespace none own = own
spec_namespace (some spec) own = if is_blank spec.namespace then own else spec.namespace

abbrev pub desktop_namespace : DesktopInstance → Text
desktop_namespace i = spec_namespace i.spec i.namespace

unfoldable pub cross_namespace : DesktopInstance → Bool
cross_namespace i = not (text_eq (desktop_namespace i) i.namespace)

abbrev pub is_windows : DesktopSpec → Bool
is_windows spec = text_eq spec.os (text "Windows")

abbrev pub tailscale_access : DesktopSpec → Option TailscaleSpec
tailscale_access spec = elim spec.access [ none ↦ none | some access ↦ access ]

abbrev pub access_mode : Option TailscaleSpec → Text
access_mode none = text "Ingress"
access_mode (some access) = if is_blank access.mode then text "Ingress" else access.mode

abbrev pub console_mode : DesktopSpec → Text
console_mode spec = access_mode (tailscale_access spec)

abbrev pub published : Option TailscaleSpec → Bool
published none = false
published (some access) = not (is_blank access.hostname)

unfoldable pub console_sidecar : DesktopSpec → Bool
console_sidecar spec =
    published (tailscale_access spec) && text_eq (console_mode spec) (text "Sidecar")

pub data ValidationError : Type 0 where
  subject_required golden_required windows_import url_required checksum_required : ValidationError
  hostname_required auth_secret_required tailnet_required : ValidationError

abbrev pub require : Bool → ValidationError → Option ValidationError → Option ValidationError
require met error rest = if met then rest else some error

unfoldable pub validate_import : Option ImportSpec → Option ValidationError → Option ValidationError
validate_import none rest = rest
validate_import (some i) rest =
    require (not (is_blank i.url)) url_required
      (require (not (is_blank i.checksum)) checksum_required rest)

unfoldable pub validate_access :
    DesktopSpec → Option (Option TailscaleSpec) → Option ValidationError
validate_access spec none = none
validate_access spec (some none) = some hostname_required
validate_access spec (some (some access)) =
    require (not (is_blank access.hostname)) hostname_required (
      if text_eq (console_mode spec) (text "Sidecar")
      then require (not (is_blank access.auth_secret)) auth_secret_required
          (require (not (is_blank access.tailnet)) tailnet_required none)
      else none)

unfoldable pub validate_spec : Option DesktopSpec → Option ValidationError
unfolding validate_import validate_access
validate_spec none = none
validate_spec (some spec) = require (not (is_blank spec.owner_subject)) subject_required (
    require (not (is_blank spec.golden_data_volume)) golden_required (
      require (not (is_windows spec && is_some spec.import)) windows_import
        (validate_import spec.import (validate_access spec spec.access))))

abbrev pub validate : DesktopInstance → Option ValidationError
validate i = validate_spec i.spec

-- `semverParts`: up to the first `-` or `+`, without a `v`, three numbers.
unfoldable pub core_of : Text → Text
core_of [] = []
core_of (c ∷ s) = let rest = core_of s in if c == 45 || c == 43 then [] else c ∷ rest

unfoldable pub trim_v : Text → Text
trim_v [] = []
trim_v (c ∷ s) = if c == 118 then s else c ∷ s

abbrev pub field_value : Option ℤ → Option ℕ
field_value none = none
field_value (some (pos n)) = some n
field_value (some (negsuc n)) = none

abbrev pub three : Option ℕ → Option ℕ → Option ℕ → Option (ℕ × ℕ × ℕ)
three (some a) (some b) (some c) = some (a, b, c)
three _ _ _ = none

unfoldable pub fields_parts : List Text → Option (ℕ × ℕ × ℕ)
unfolding atoi
fields_parts (a ∷ b ∷ c ∷ []) =
    three (field_value (atoi a)) (field_value (atoi b)) (field_value (atoi c))
fields_parts _ = none

unfoldable pub semver_parts : Text → Option (ℕ × ℕ × ℕ)
unfolding core_of trim_v split fields_parts
semver_parts version = fields_parts (split 46 (trim_v (core_of version)))

abbrev pub at_least : ℕ × ℕ × ℕ → ℕ × ℕ × ℕ → Bool
at_least (a, b, c) (d, e, f) = if a == d then (if b == e then leb f c else leb e b) else leb d a

-- `compareSemver(left, right) >= 0`.
unfoldable pub semver_at_least : Option (ℕ × ℕ × ℕ) → Option (ℕ × ℕ × ℕ) → Bool
semver_at_least none none = true
semver_at_least none (some right) = false
semver_at_least (some left) none = true
semver_at_least (some left) (some right) = at_least left right

abbrev pub effective_version : DesktopInstance → Text
effective_version i = if is_blank i.runtime_version then text "0.48.9" else i.runtime_version

unfoldable pub runtime_supports_extensions : DesktopInstance → Bool
unfolding semver_at_least semver_parts
runtime_supports_extensions i =
    if not (is_blank i.runtime_image)
    then true
    else semver_at_least (semver_parts (effective_version i)) (semver_parts (text "0.52.0"))
