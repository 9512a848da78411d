-- ===== src/Control/Invariant.antt =====
-- What holds of the registry between any two regions under the mutex.
pub mod Grants
pub mod Regions
pub mod Leases
pub mod Events
use text.Mathlib.TextEquality.{eq_iff}
use typeclaw_operator.Prelude.{ℕ, ◌<◌, String, ◌≡◌, refl, true, false, none, some, is_some}
use typeclaw_operator.Prelude.Maps.{lookup}
use typeclaw_operator.Control.Defs.{
  PowerOperation, ControlRegistry, new_control_registry, active_of, generation_of, is_blocked,
  power_op_of, takeover_of,
}

pub record Inv (r : ControlRegistry) : Type 0 where
  pub fresh : (d : String) (i : ℕ) → active_of r d ≡ some i → i < r.next
  pub current :
      (d : String) (i : ℕ)
      → active_of r d ≡ some i
      → (r.controllers i).generation ≡ generation_of r d
  pub open_done : (d : String) (i : ℕ) → active_of r d ≡ some i → (r.controllers i).done ≡ false
  pub unique : (d e : String) (i : ℕ) → active_of r d ≡ some i → active_of r e ≡ some i → d ≡ e
  pub quarantined :
      (d : String) (o : PowerOperation) → power_op_of r d ≡ some o → is_blocked r d ≡ true
  pub power_idle :
      (d : String) (o : PowerOperation) → power_op_of r d ≡ some o → active_of r d ≡ none
  pub exclusive : (d : String) → is_blocked r d ≡ true → r.draining ≡ false → active_of r d ≡ none
  pub undisturbed :
      (d : String)
      → is_some (takeover_of r d) ≡ true
      → (is_blocked r d ≡ false) × (r.draining ≡ false)

pub new-Inv : Inv new_control_registry
unfolding new_control_registry lookup
new-Inv = record {
  fresh = λ d i h. cc;
  current = λ d i h. cc;
  open_done = λ d i h. cc;
  unique = λ d e i h. cc;
  quarantined = λ d o h. cc;
  power_idle = λ d o h. cc;
  exclusive = λ d h k. refl;
  undisturbed = λ d h. cc;
}
