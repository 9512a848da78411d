-- ===== src/Control/Invariant/Grants.antt =====
-- `grantLocked` keeps the invariant.
use text.Mathlib.TextEquality.{eq_iff}
use typeclaw_operator.Prelude.{
  ℕ, ◌+◌, ◌%◌, ◌^◌, ◌<◌, String, ◌≡◌, true, false, none, some, arith, is_some,
}
use typeclaw_operator.Prelude.Maps.{lookup-insert}
use typeclaw_operator.Control.Defs.{
  ActorKind, PowerOperation, ControlRegistry, active_of, generation_of, is_blocked, power_op_of,
  takeover_of,
}
use typeclaw_operator.Control.Actions.{grant_locked}
use typeclaw_operator.Control.Invariant.{Inv}

-- A grant at a desktop that nobody holds and nothing blocks.
module _ (r : ControlRegistry) (v : Inv r) (d : String) (actor : ActorKind) (ttl now : ℕ)
    (idle : active_of r d ≡ none) (unblocked : is_blocked r d ≡ false) where
  abbrev after : ControlRegistry
  after = (grant_locked r d actor ttl now).0

  grant-fresh : (e : String) (i : ℕ) → active_of after e ≡ some i → i < after.next
  unfolding grant_locked
  grant-fresh e i h = ground (arith, eq_iff d e, lookup-insert d e r.next r.active, v.fresh e i)

  grant-current :
      (e : String) (i : ℕ)
      → active_of after e ≡ some i
      → (after.controllers i).generation ≡ generation_of after e
  unfolding grant_locked
  grant-current e i h = ground (
    arith,
    eq_iff d e,
    lookup-insert d e r.next r.active,
    lookup-insert d e ((generation_of r d + 1) % 2 ^ 64) r.generations,
    v.fresh e i,
    v.current e i,
  )

  grant-quarantined :
      (e : String) (o : PowerOperation) → power_op_of after e ≡ some o → is_blocked after e ≡ true
  unfolding grant_locked
  grant-quarantined e o h = v.quarantined e o h

  grant-power_idle :
      (e : String) (o : PowerOperation) → power_op_of after e ≡ some o → active_of after e ≡ none
  unfolding grant_locked
  grant-power_idle e o h =
      ground
        (arith, eq_iff d e, lookup-insert d e r.next r.active, v.quarantined e o, v.power_idle e o)

  grant-exclusive :
      (e : String) → is_blocked after e ≡ true → after.draining ≡ false → active_of after e ≡ none
  unfolding grant_locked
  grant-exclusive e h k =
      ground (arith, eq_iff d e, lookup-insert d e r.next r.active, v.exclusive e)

  grant_unique :
      (e f : String) (i : ℕ) → active_of after e ≡ some i → active_of after f ≡ some i → e ≡ f
  unfolding grant_locked
  grant_unique e f i h k = ground (
    arith,
    eq_iff d e,
    eq_iff d f,
    lookup-insert d e r.next r.active,
    lookup-insert d f r.next r.active,
    v.fresh e i,
    v.fresh f i,
    v.unique e f i,
  )

  grant-open_done :
      (e : String) (i : ℕ) → active_of after e ≡ some i → (after.controllers i).done ≡ false
  unfolding grant_locked
  grant-open_done e i h =
      ground (arith, eq_iff d e, lookup-insert d e r.next r.active, v.fresh e i, v.open_done e i)

  grant-undisturbed :
      (e : String)
      → is_some (takeover_of after e) ≡ true
      → (is_blocked after e ≡ false) × (after.draining ≡ false)
  unfolding grant_locked
  grant-undisturbed e h = v.undisturbed e h

  pub grant_locked-Inv : Inv after
  grant_locked-Inv = record {
    fresh = grant-fresh;
    current = grant-current;
    open_done = grant-open_done;
    unique = grant_unique;
    quarantined = grant-quarantined;
    power_idle = grant-power_idle;
    exclusive = grant-exclusive;
    undisturbed = grant-undisturbed;
  }
