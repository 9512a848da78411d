-- ===== src/Control/Invariant/Events.antt =====
-- Every event keeps the invariant, and so every reachable registry satisfies it.
use text.Mathlib.TextEquality.{eq_iff}
use text.Mathlib.Text.{◌==◌ as str_eq}
use typeclaw_operator.Prelude.{
  String, ◌≡◌, refl, ◌⊎◌, inl, inr, true, false, Option, none, some, arith, Bool-cases, is_some,
  Option-cases, if_intro,
}
use typeclaw_operator.Prelude.Maps.{lookup-erase}
use typeclaw_operator.Control.Defs.{
  ControlError, PowerOperation, ControlRegistry, active_of, is_blocked, power_op_of, takeover_of,
}
use typeclaw_operator.Control.Actions.{touch_agent}
use typeclaw_operator.Control.Power.{
  PowerOutcome, power_succeeded, power_rejected, power_unknown, power_denial, reserve_power,
  begin_power, is_reservation, resolve, finish_power,
}
use typeclaw_operator.Control.Steps.{
  Event, acquires, settles, acquires_agent, unlists, closes, touches, begins_power, finishes_power,
  revokes, cancels, step, Enabled, Reach, here, next,
}
use typeclaw_operator.Control.Invariant.{Inv}
use typeclaw_operator.Control.Invariant.Regions.{
  write-Inv, close_done-Inv, begin-Inv, finish-Inv, unblock-Inv, block-Inv,
}
use typeclaw_operator.Control.Invariant.Leases.{
  revoke_all-Inv, acquire_begin-Inv, acquire_finish-Inv, acquire_agent-Inv, release_locked-Inv,
  touch_held-Inv,
}

pub power_denial-none :
    (r : ControlRegistry) (d action : String)
    → power_denial r d action ≡ none
    → (r.draining ≡ false)
      × (active_of r d ≡ none)
      × (is_some (takeover_of r d) ≡ false)
      × (power_op_of r d ≡ none)
      × ((is_blocked r d ≡ false) ⊎ (str_eq action "start" ≡ true))
unfolding power_denial
power_denial-none r d action h = ground arith

reserve_power-Inv :
    (r : ControlRegistry) (d action : String) (denial : Option ControlError)
    → Inv r
    → power_denial r d action ≡ denial
    → Inv (reserve_power r d action denial).0
unfolding reserve_power
reserve_power-Inv r d action (some e) v h = v
reserve_power-Inv r d action none v h =
    let (_, idle, still, _, _) = power_denial-none r d action h in begin-Inv r v d _ idle still

resolve-Inv :
    (r : ControlRegistry) (d : String) (o : PowerOperation) (outcome : PowerOutcome)
    → Inv r
    → power_op_of r d ≡ none
    → active_of r d ≡ none
    → is_some (takeover_of r d) ≡ false
    → Inv (resolve r d o outcome)
unfolding resolve
resolve-Inv r d o power_succeeded v idle unheld still =
    elim (Bool-cases (str_eq o.action "start")) [
      | inl start ↦ rw start (unblock-Inv r v d idle)
      | inr other ↦ rw other v
    ]
resolve-Inv r d o power_unknown v idle unheld still = v
resolve-Inv r d o power_rejected v idle unheld still = elim (Bool-cases o.prior_blocked) [
  | inl prior ↦ rw prior (block-Inv r v d (λ _. unheld) (inr still))
  | inr prior ↦ rw prior (unblock-Inv r v d idle)
]

-- A desktop with a power operation has no takeover waiting.
power_op-no_takeover :
    {r : ControlRegistry}
    → Inv r
    → (d : String) (p : PowerOperation) → power_op_of r d ≡ some p
    → is_some (takeover_of r d) ≡ false
power_op-no_takeover v d p h = ground (arith, v.quarantined d p h, v.undisturbed d)

finish_power-Inv :
    (r : ControlRegistry) (d : String) (o : PowerOperation) (outcome : PowerOutcome)
    → Inv r
    → Inv (finish_power r d o outcome)
unfolding finish_power
finish_power-Inv r d o outcome v = elim (Option-cases (power_op_of r d)) [
  | inl idle ↦ rw idle v
  | inr (p, busy) ↦ rw busy (elim (Bool-cases (is_reservation (some p) o)) [
    | inr other ↦ rw other v
    | inl mine ↦ rw mine (
        if_intro Inv r.draining _ _ (λ n. block-Inv _ (finish-Inv r v d) d (λ h. cc) (inl n))
          (λ n.
            resolve-Inv _ d o outcome (finish-Inv r v d)
              (ground (arith, lookup-erase d d r.power_ops, eq_iff d d)) (v.power_idle d p busy)
              (power_op-no_takeover v d p busy)))
  ])
]

pub step-Inv : (r : ControlRegistry) (e : Event) → Enabled r e → Inv r → Inv (step r e)
unfolding step touch_agent begin_power
step-Inv r (acquires ctx_err d actor takeover) _ v = acquire_begin-Inv r ctx_err d actor takeover v
step-Inv r (settles waited ctx_err d actor) _ v = acquire_finish-Inv r waited ctx_err d actor v
step-Inv r (acquires_agent d ttl now) _ v = acquire_agent-Inv r d ttl now v
step-Inv r (unlists d i) _ v = release_locked-Inv r d i v
step-Inv r (closes i) unlisted v = close_done-Inv r v "" i unlisted
step-Inv r (touches d now) _ v = touch_held-Inv r d now (active_of r d) v
step-Inv r (begins_power d action) _ v =
    reserve_power-Inv r d action (power_denial r d action) v refl
step-Inv r (finishes_power d o outcome) _ v = finish_power-Inv r d o outcome v
step-Inv r revokes _ v = revoke_all-Inv v
step-Inv r (cancels i) _ v =
    write-Inv r v "" i (record (r.controllers i) { cancelled = true }) refl refl

-- Whatever order the callers' regions take, from a registry that satisfies `Inv`: the lease of a
-- desktop is an allocated one, carries the desktop's generation, has its `done` open and belongs to
-- no other desktop; a desktop with a power operation is blocked and has no lease; a blocked desktop
-- has no lease unless the registry drains; and a desktop with a waiting takeover is not blocked, and
-- the registry does not drain.
pub Reach-Inv : {r s : ControlRegistry} → Inv r → Reach r s → Inv s
Reach-Inv v here = v
Reach-Inv v (next {s = s} reach e enabled) = step-Inv s e enabled (Reach-Inv v reach)
