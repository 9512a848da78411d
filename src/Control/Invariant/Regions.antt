-- ===== src/Control/Invariant/Regions.antt =====
-- The regions of control.go that grant nothing keep the invariant.
use text.Mathlib.TextEquality.{eq_iff}
use typeclaw_operator.Prelude.{
  ℕ, ◌+◌, String, ◌≡◌, ◌≢◌, ◌⊎◌, true, false, none, some, arith, is_some,
}
use typeclaw_operator.Prelude.Maps.{insert, erase, lookup-insert, lookup-erase}
use typeclaw_operator.Control.Defs.{
  Controller, PowerOperation, ControlRegistry, active_of, is_blocked, power_op_of, takeover_of,
}
use typeclaw_operator.Control.Actions.{write, close_done}
use typeclaw_operator.Control.Invariant.{Inv}

module _ (r : ControlRegistry) (v : Inv r) (d : String) where
  -- A write to a controller that leaves its generation and `done` alone.
  pub write-Inv :
      (i : ℕ) (c : Controller)
      → c.generation ≡ (r.controllers i).generation
      → c.done ≡ (r.controllers i).done
      → Inv (record r { controllers = write r.controllers i c })
  write-Inv i c g o = record {
    fresh = v.fresh;
    current = λ e j h. ground (arith, v.current e j h);
    open_done = λ e j h. ground (arith, v.open_done e j h);
    unique = v.unique;
    quarantined = v.quarantined;
    power_idle = v.power_idle;
    exclusive = v.exclusive;
    undisturbed = v.undisturbed;
  }

  pub close_done-Inv : (i : ℕ) → ((e : String) → active_of r e ≢ some i) → Inv (close_done r i)
  unfolding close_done
  close_done-Inv i unlisted = record {
    fresh = v.fresh;
    current = λ e j h. ground (arith, v.current e j h);
    open_done = λ e j h. ground (arith, v.open_done e j h, unlisted e);
    unique = v.unique;
    quarantined = v.quarantined;
    power_idle = v.power_idle;
    exclusive = v.exclusive;
    undisturbed = v.undisturbed;
  }

  -- A reservation of a desktop that is neither blocked nor draining.
  pub reserve-Inv :
      is_blocked r d ≡ false
      → r.draining ≡ false
      → Inv (record r { takeovers = insert d tt r.takeovers })
  reserve-Inv b n = record {
    fresh = v.fresh;
    current = v.current;
    open_done = v.open_done;
    unique = v.unique;
    quarantined = v.quarantined;
    power_idle = v.power_idle;
    exclusive = v.exclusive;
    undisturbed =
        λ e h. ground (arith, eq_iff d e, lookup-insert d e tt r.takeovers, v.undisturbed e);
  }

  pub unreserve-Inv : Inv (record r { takeovers = erase d r.takeovers })
  unreserve-Inv = record {
    fresh = v.fresh;
    current = v.current;
    open_done = v.open_done;
    unique = v.unique;
    quarantined = v.quarantined;
    power_idle = v.power_idle;
    exclusive = v.exclusive;
    undisturbed = λ e h. ground (arith, eq_iff d e, lookup-erase d e r.takeovers, v.undisturbed e);
  }

  pub unlist-Inv : Inv (record r { active = erase d r.active })
  unlist-Inv = record {
    fresh = λ e i h. ground (arith, lookup-erase d e r.active, v.fresh e i);
    current = λ e i h. ground (arith, lookup-erase d e r.active, v.current e i);
    open_done = λ e i h. ground (arith, lookup-erase d e r.active, v.open_done e i);
    unique = λ e f i h k.
        ground (arith, lookup-erase d e r.active, lookup-erase d f r.active, v.unique e f i);
    quarantined = v.quarantined;
    power_idle = λ e o h. ground (arith, lookup-erase d e r.active, v.power_idle e o);
    exclusive = λ e h k. ground (arith, lookup-erase d e r.active, v.exclusive e);
    undisturbed = v.undisturbed;
  }

  -- The reservation of a power operation, at a desktop with no lease and no takeover.
  pub begin-Inv :
      (o : PowerOperation)
      → active_of r d ≡ none
      → is_some (takeover_of r d) ≡ false
      → Inv (record r {
        power_ops = insert d o r.power_ops;
        control_blocked = insert d true r.control_blocked;
        next = r.next + 1;
      })
  begin-Inv o idle still = record {
    fresh = λ e i h. omega (arith, v.fresh e i h);
    current = v.current;
    open_done = v.open_done;
    unique = v.unique;
    quarantined = λ e p h. ground (
      arith,
      lookup-insert d e o r.power_ops,
      lookup-insert d e true r.control_blocked,
      v.quarantined e p,
    );
    power_idle =
        λ e p h. ground (arith, eq_iff d e, lookup-insert d e o r.power_ops, v.power_idle e p);
    exclusive = λ e h k.
        ground (arith, eq_iff d e, lookup-insert d e true r.control_blocked, v.exclusive e);
    undisturbed = λ e h.
        ground (arith, eq_iff d e, lookup-insert d e true r.control_blocked, v.undisturbed e);
  }

  -- The end of a power operation that leaves its desktop's quarantine alone.
  pub finish-Inv : Inv (record r { power_ops = erase d r.power_ops })
  finish-Inv = record {
    fresh = v.fresh;
    current = v.current;
    open_done = v.open_done;
    unique = v.unique;
    quarantined = λ e p h. ground (arith, lookup-erase d e r.power_ops, v.quarantined e p);
    power_idle = λ e p h. ground (arith, lookup-erase d e r.power_ops, v.power_idle e p);
    exclusive = v.exclusive;
    undisturbed = v.undisturbed;
  }

  pub unblock-Inv :
      power_op_of r d ≡ none → Inv (record r { control_blocked = erase d r.control_blocked })
  unblock-Inv idle = record {
    fresh = v.fresh;
    current = v.current;
    open_done = v.open_done;
    unique = v.unique;
    quarantined =
        λ e p h. ground (arith, eq_iff d e, lookup-erase d e r.control_blocked, v.quarantined e p);
    power_idle = v.power_idle;
    exclusive = λ e h k. ground (arith, lookup-erase d e r.control_blocked, v.exclusive e);
    undisturbed = λ e h. ground (arith, lookup-erase d e r.control_blocked, v.undisturbed e);
  }

  -- A block of a desktop with no reservation, and with no lease unless the registry drains.
  pub block-Inv :
      (r.draining ≡ false → active_of r d ≡ none)
      → (r.draining ≡ true) ⊎ (is_some (takeover_of r d) ≡ false)
      → Inv (record r { control_blocked = insert d true r.control_blocked })
  block-Inv idle still = record {
    fresh = v.fresh;
    current = v.current;
    open_done = v.open_done;
    unique = v.unique;
    quarantined =
        λ e p h. ground (arith, lookup-insert d e true r.control_blocked, v.quarantined e p);
    power_idle = v.power_idle;
    exclusive = λ e h k.
        ground (arith, eq_iff d e, lookup-insert d e true r.control_blocked, v.exclusive e);
    undisturbed = λ e h.
        ground (arith, eq_iff d e, lookup-insert d e true r.control_blocked, v.undisturbed e);
  }
