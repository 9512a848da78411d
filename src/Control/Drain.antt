-- ===== src/Control/Drain.antt =====
-- control.go: what `revokeAll` leaves to those that come after it.
use text.Mathlib.Text.{◌==◌ as str_eq}
use typeclaw_operator.Prelude.{
  ℕ, String, ◌≡◌, refl, inl, inr, Bool, true, ◌&&◌, not, none, some, List, [], ◌∷◌, arith, ltb,
  Bool-cases, Option-cases, if_intro,
}
use typeclaw_operator.Prelude.Maps.{lookup, lookup-erase}
use typeclaw_operator.Control.Defs.{
  ActorKind, Controller, PowerOperation, ControlRegistry, active_of, power_op_of, takeover_of,
}
use typeclaw_operator.Control.Actions.{
  write, cancel, is_agent, acquire_begin, Waited, acquire_finish, acquire_agent, owns,
  release_locked, close_done, touch_held, touch_agent,
}
use typeclaw_operator.Control.Power.{
  PowerOutcome, begin_power, is_reservation, finish_power, cancel_all, revoke_all,
}
use typeclaw_operator.Control.Steps.{
  Event, acquires, settles, acquires_agent, unlists, closes, touches, begins_power, finishes_power,
  revokes, cancels, step, Reach, here, next,
}

-- No event after the drain grants a lease, admits a power operation or stops the draining.
pub record IsDrained (base r : ControlRegistry) : Type 0 where
  pub draining : r.draining ≡ true
  pub leases :
      (d : String) (i : ℕ)
      → active_of r d ≡ some i
      → (active_of base d ≡ some i) × ((r.controllers i).cancelled ≡ true)
  pub power :
      (d : String) (o : PowerOperation) → power_op_of r d ≡ some o → power_op_of base d ≡ some o
  pub takeovers : (d : String) → takeover_of r d ≡ none

cancel_all-keeps_cancelled :
    (m : List (String × ℕ)) (cs : ℕ → Controller) (i : ℕ)
    → (cs i).cancelled ≡ true
    → (cancel_all m cs i).cancelled ≡ true
unfolding cancel_all
cancel_all-keeps_cancelled [] cs i h = h
cancel_all-keeps_cancelled ((_, j) ∷ m) cs i h =
    cancel_all-keeps_cancelled m (cancel j cs) i (ground arith)

cancel_all-reaches :
    (m : List (String × ℕ)) (cs : ℕ → Controller) (d : String) (i : ℕ)
    → lookup d m ≡ some i
    → (cancel_all m cs i).cancelled ≡ true
unfolding cancel_all lookup
cancel_all-reaches [] cs d i h = cc
cancel_all-reaches ((e, j) ∷ m) cs d i h = elim (Bool-cases (str_eq e d)) [
  | inl same ↦ cancel_all-keeps_cancelled m (cancel j cs) i (ground arith)
  | inr other ↦ cancel_all-reaches m (cancel j cs) d i (ground arith)
]

pub revoke_all-IsDrained : (r : ControlRegistry) → IsDrained r (revoke_all r)
unfolding revoke_all lookup
revoke_all-IsDrained r = record {
  draining = refl;
  leases = λ d i h. (h, cancel_all-reaches r.active r.controllers d i h);
  power = λ d o h. h;
  takeovers = λ d. refl;
}

module _ (base r : ControlRegistry) (x : IsDrained base r) where
  acquire_begin-drained :
      (c : Bool) (d : String) (actor : ActorKind) (takeover : Bool)
      → (acquire_begin r c d actor takeover).0 ≡ r
  unfolding acquire_begin
  acquire_begin-drained c d actor takeover = ground (arith, x.draining)

  acquire_finish-drained :
      (w : Waited) (c : Bool) (d : String) (actor : ActorKind)
      → (acquire_finish r w c d actor).0 ≡ r
  unfolding acquire_finish
  acquire_finish-drained w c d actor = ground (arith, x.takeovers d)

  acquire_agent-drained : (d : String) (ttl now : ℕ) → (acquire_agent r d ttl now).0 ≡ r
  unfolding acquire_agent
  acquire_agent-drained d ttl now = ground (arith, x.draining)

  begin_power-drained : (d a : String) → (begin_power r d a).0 ≡ r
  unfolding begin_power
  begin_power-drained d a = ground (arith, x.draining)

  write-IsDrained :
      (i : ℕ) (c : Controller)
      → ((r.controllers i).cancelled ≡ true → c.cancelled ≡ true)
      → IsDrained base (record r { controllers = write r.controllers i c })
  write-IsDrained i c h = record {
    draining = x.draining;
    leases = λ d j k. ground (arith, x.leases d j k, h);
    power = x.power;
    takeovers = x.takeovers;
  }

  unlist-IsDrained : (d : String) (i : ℕ) → IsDrained base (release_locked r d i)
  unfolding release_locked
  unlist-IsDrained d i =
      if_intro (IsDrained base) (owns (active_of r d) i) _ _
        (λ _. record {
          draining = x.draining;
          leases = λ e j k. ground (arith, lookup-erase d e r.active, x.leases e j);
          power = x.power;
          takeovers = x.takeovers;
        })
        (λ _. x)

  finish-IsDrained :
      (d : String) (o : PowerOperation) (outcome : PowerOutcome)
      → IsDrained base (finish_power r d o outcome)
  unfolding finish_power
  finish-IsDrained d o outcome =
      if_intro (IsDrained base) (not (is_reservation (power_op_of r d) o)) _ _ (λ _. x)
        (λ _.
          if_intro (IsDrained base) r.draining _ _
            (λ _. record {
              draining = x.draining;
              leases = x.leases;
              power = λ e p k. ground (arith, lookup-erase d e r.power_ops, x.power e p);
              takeovers = x.takeovers;
            })
            (λ n. absurd (cc (x.draining))))

  touch-IsDrained : (d : String) (now : ℕ) → IsDrained base (touch_agent r d now)
  unfolding touch_agent
  touch-IsDrained d now = elim (Option-cases (active_of r d)) [
    | inl idle ↦ rw (idle, touch_held) x
    | inr (i, held) ↦
        rw (held, touch_held)
          (if_intro (IsDrained base)
            (is_agent (r.controllers i).actor && ltb 0 (r.controllers i).ttl) _ _
            (λ _. write-IsDrained i (record (r.controllers i) { last_touch = now }) (λ h. h))
            (λ _. x))
  ]

  revoke-IsDrained : IsDrained base (revoke_all r)
  unfolding revoke_all lookup
  revoke-IsDrained = record {
    draining = refl;
    leases = λ d i h. ((x.leases d i h).0, cancel_all-reaches r.active r.controllers d i h);
    power = x.power;
    takeovers = λ d. refl;
  }

  pub step-IsDrained : (e : Event) → IsDrained base (step r e)
  unfolding step close_done
  step-IsDrained (acquires c d actor takeover) = rw (acquire_begin-drained c d actor takeover) x
  step-IsDrained (settles w c d actor) = rw (acquire_finish-drained w c d actor) x
  step-IsDrained (acquires_agent d ttl now) = rw (acquire_agent-drained d ttl now) x
  step-IsDrained (unlists d i) = unlist-IsDrained d i
  step-IsDrained (closes i) = write-IsDrained i (record (r.controllers i) { done = true }) (λ h. h)
  step-IsDrained (touches d now) = touch-IsDrained d now
  step-IsDrained (begins_power d a) = rw (begin_power-drained d a) x
  step-IsDrained (finishes_power d o outcome) = finish-IsDrained d o outcome
  step-IsDrained revokes = revoke-IsDrained
  step-IsDrained (cancels i) =
      write-IsDrained i (record (r.controllers i) { cancelled = true }) (λ _. refl)

-- After the drain, whatever the callers do: every lease still registered is one that the drain
-- found, with its context ended; every power operation in progress is one that the drain found; no
-- takeover is waiting; and the registry goes on draining.
pub IsDrained-for_good : {r s : ControlRegistry} → Reach (revoke_all r) s → IsDrained r s
IsDrained-for_good {r} here = revoke_all-IsDrained r
IsDrained-for_good {r} (next {s = s} reach e enabled) =
    step-IsDrained r s (IsDrained-for_good reach) e
