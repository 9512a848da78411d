-- ===== src/Control/Quarantine.antt =====
-- control.go: when the power quarantine of a desktop is set and lifted.
use text.Mathlib.Text.{◌==◌ as str_eq}
use text.Mathlib.TextEquality.{eq_iff}
use typeclaw_operator.Prelude.{
  ℕ, String, ◌≡◌, refl, ap, subst, Bool, true, false, not, Option, none, some, arith,
}
use typeclaw_operator.Prelude.Maps.{erase, lookup-insert, lookup-erase}
use typeclaw_operator.Control.Defs.{
  ActorKind, ControlError, PowerOperation, ControlRegistry, is_blocked, power_op_of,
}
use typeclaw_operator.Control.Actions.{
  grant_locked, acquire_begin, Waited, acquire_finish, acquire_agent, release_locked, close_done,
  touch_agent,
}
use typeclaw_operator.Control.Power.{
  PowerOutcome, power_succeeded, power_rejected, power_unknown, reserved, power_denial,
  reserve_power, begin_power, is_reservation, resolve, finish_power, revoke_all,
}
use typeclaw_operator.Control.Steps.{
  Event, acquires, settles, acquires_agent, unlists, closes, touches, begins_power, finishes_power,
  revokes, cancels, step,
}
use typeclaw_operator.Control.Invariant.{Inv}
use typeclaw_operator.Control.Invariant.Leases.{block_all-keeps}

-- How a power operation may lift the quarantine of its desktop.
abbrev pub Lifts : PowerOperation → PowerOutcome → Type 0
Lifts o power_succeeded = str_eq o.action "start" ≡ true
Lifts o power_rejected = o.prior_blocked ≡ false
Lifts o power_unknown = ⊥

grant_locked-blocked :
    (r : ControlRegistry) (d : String) (actor : ActorKind) (ttl now : ℕ)
    → (grant_locked r d actor ttl now).0.control_blocked ≡ r.control_blocked
unfolding grant_locked
grant_locked-blocked r d actor ttl now = refl

-- The regions that handle leases write nothing about blocks.
acquire_begin-blocked :
    (r : ControlRegistry) (c : Bool) (d : String) (actor : ActorKind) (takeover : Bool)
    → (acquire_begin r c d actor takeover).0.control_blocked ≡ r.control_blocked
unfolding acquire_begin
acquire_begin-blocked r c d actor takeover = ground arith

acquire_finish-blocked :
    (r : ControlRegistry) (w : Waited) (c : Bool) (d : String) (actor : ActorKind)
    → (acquire_finish r w c d actor).0.control_blocked ≡ r.control_blocked
unfolding acquire_finish
acquire_finish-blocked r w c d actor = ground arith

acquire_agent-blocked :
    (r : ControlRegistry) (d : String) (ttl now : ℕ)
    → (acquire_agent r d ttl now).0.control_blocked ≡ r.control_blocked
unfolding acquire_agent
acquire_agent-blocked r d ttl now = ground arith

release_locked-blocked :
    (r : ControlRegistry) (d : String) (i : ℕ)
    → (release_locked r d i).control_blocked ≡ r.control_blocked
unfolding release_locked
release_locked-blocked r d i = ground arith

touch_agent-blocked :
    (r : ControlRegistry) (d : String) (now : ℕ)
    → (touch_agent r d now).control_blocked ≡ r.control_blocked
unfolding touch_agent
touch_agent-blocked r d now = ground arith

begin_power-keeps :
    (r : ControlRegistry) (d a e : String)
    → is_blocked r e ≡ true
    → is_blocked (begin_power r d a).0 e ≡ true
unfolding begin_power
begin_power-keeps r d a e h = ground (arith, lookup-insert d e true r.control_blocked)

finish_power-Lifts :
    (r : ControlRegistry) (d : String) (o : PowerOperation) (outcome : PowerOutcome) (e : String)
    → is_blocked r e ≡ true
    → is_blocked (finish_power r d o outcome) e ≡ false
    → (d ≡ e) × (is_reservation (power_op_of r d) o ≡ true) × (r.draining ≡ false) × Lifts o outcome
unfolding finish_power
finish_power-Lifts r d o power_succeeded e h k = ground (
  arith,
  eq_iff d e,
  lookup-insert d e true r.control_blocked,
  lookup-erase d e r.control_blocked,
)
finish_power-Lifts r d o power_rejected e h k = ground (
  arith,
  eq_iff d e,
  lookup-insert d e true r.control_blocked,
  lookup-erase d e r.control_blocked,
)
finish_power-Lifts r d o power_unknown e h k =
    ground (arith, eq_iff d e, lookup-insert d e true r.control_blocked)

-- A blocked desktop becomes unblocked only by the end of the power operation that holds its
-- reservation, while the registry does not drain, and only by a start that succeeded or by an
-- operation that was rejected and had found the desktop unblocked.
pub quarantine_lifted :
    (r : ControlRegistry) (e : Event) (d : String)
    → is_blocked r d ≡ true
    → is_blocked (step r e) d ≡ false
    → (o : PowerOperation) × (outcome : PowerOutcome) × (e ≡ finishes_power d o outcome)
      × (is_reservation (power_op_of r d) o ≡ true)
      × (r.draining ≡ false)
      × Lifts o outcome
unfolding step close_done revoke_all
quarantine_lifted r (acquires c d' actor takeover) d h k =
    cc (acquire_begin-blocked r c d' actor takeover)
quarantine_lifted r (settles w c d' actor) d h k = cc (acquire_finish-blocked r w c d' actor)
quarantine_lifted r (acquires_agent d' ttl now) d h k = cc (acquire_agent-blocked r d' ttl now)
quarantine_lifted r (unlists d' i) d h k = cc (release_locked-blocked r d' i)
quarantine_lifted r (closes i) d h k = cc
quarantine_lifted r (touches d' now) d h k = cc (touch_agent-blocked r d' now)
quarantine_lifted r (begins_power d' action) d h k = cc (begin_power-keeps r d' action d h)
quarantine_lifted r (finishes_power d' o outcome) d h k =
    let (same, mine, live, lifts) = finish_power-Lifts r d' o outcome d h k in
    (
      o,
      outcome,
      ap (λ (x : String). finishes_power x o outcome) same,
      subst (λ x. is_reservation (power_op_of r x) o ≡ true) same mine,
      live,
      lifts,
    )
quarantine_lifted r revokes d h k = cc (
    block_all-keeps r.power_ops _ d
      (block_all-keeps r.takeovers _ d (block_all-keeps r.active r.control_blocked d h)))
quarantine_lifted r (cancels i) d h k = cc

-- The quarantine after an operation that found `before`.
abbrev pub blocked_after : Bool → PowerOperation → PowerOutcome → Bool
blocked_after before o power_succeeded = not (str_eq o.action "start")
blocked_after before o power_rejected = before
blocked_after before o power_unknown = true

reserve_power-reserved :
    (r : ControlRegistry) (d action : String) (denial : Option ControlError) {r₁ : ControlRegistry}
    {o : PowerOperation}
    → reserve_power r d action denial ≡ (r₁, reserved o)
    → (o.prior_blocked ≡ is_blocked r d) × (o.action ≡ action)
unfolding reserve_power
reserve_power-reserved r d action none h = (ground arith, ground arith)
reserve_power-reserved r d action (some e) h = cc

finish_power-live :
    (s : ControlRegistry) (d : String) (o : PowerOperation) (outcome : PowerOutcome)
    → power_op_of s d ≡ some o
    → s.draining ≡ false
    → finish_power s d o outcome
      ≡ resolve (record s { power_ops = erase d s.power_ops }) d o outcome
unfolding finish_power
finish_power-live s d o outcome p n = ground arith

resolve-blocked :
    (s : ControlRegistry) (d : String) (o : PowerOperation) (outcome : PowerOutcome)
    → is_blocked s d ≡ true
    → is_blocked (resolve s d o outcome) d ≡ blocked_after o.prior_blocked o outcome
unfolding resolve
resolve-blocked s d o power_succeeded h =
    ground (arith, eq_iff d d, lookup-erase d d s.control_blocked)
resolve-blocked s d o power_rejected h = ground (
  arith,
  eq_iff d d,
  lookup-erase d d s.control_blocked,
  lookup-insert d d true s.control_blocked,
)
resolve-blocked s d o power_unknown h = h

resolve-power_ops :
    (s : ControlRegistry) (d : String) (o : PowerOperation) (outcome : PowerOutcome)
    → (resolve s d o outcome).power_ops ≡ s.power_ops
unfolding resolve
resolve-power_ops s d o power_succeeded = ground arith
resolve-power_ops s d o power_rejected = ground arith
resolve-power_ops s d o power_unknown = refl

-- What the end of a power operation makes of the quarantine: a start that succeeded lifts it, any
-- other operation that succeeded keeps it, an unknown outcome keeps it, and a rejection puts back
-- what `begin_power` found, whatever happened to the registry in between.
pub begin-finish :
    (r : ControlRegistry) (d action : String) (r₁ : ControlRegistry) (o : PowerOperation)
    (s : ControlRegistry) (outcome : PowerOutcome)
    → begin_power r d action ≡ (r₁, reserved o)
    → Inv s
    → power_op_of s d ≡ some o
    → s.draining ≡ false
    → (is_blocked (finish_power s d o outcome) d ≡ blocked_after (is_blocked r d) o outcome)
      × (power_op_of (finish_power s d o outcome) d ≡ none)
      × (o.action ≡ action)
unfolding begin_power
begin-finish r d action r₁ o s outcome h v p n =
    let (prior, same) = reserve_power-reserved r d action (power_denial r d action) h in
    let s' : ControlRegistry = record s { power_ops = erase d s.power_ops } in
    rw (finish_power-live s d o outcome p n) (
      rw (← prior) (resolve-blocked s' d o outcome (v.quarantined d o p)),
      rw (resolve-power_ops s' d o outcome)
          (ground (arith, eq_iff d d, lookup-erase d d s.power_ops)),
      same,
    )
