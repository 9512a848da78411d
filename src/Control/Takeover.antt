-- ===== src/Control/Takeover.antt =====
-- control.go: the wait of a human who takes a desktop over from the agent.
use text.Mathlib.TextEquality.{eq_iff}
use text.Mathlib.Text.{◌==◌ as str_eq}
use typeclaw_operator.Prelude.{
  ℕ, ◌+◌, ◌%◌, ◌^◌, String, ◌≡◌, ◌⊎◌, inl, inr, Bool, true, false, Option, none, some, arith,
  is_some,
}
use typeclaw_operator.Prelude.Maps.{lookup-erase, lookup-insert}
use typeclaw_operator.Control.Defs.{
  ActorKind, human, PowerOperation, ControlRegistry, active_of, generation_of, is_blocked,
  takeover_of, status,
}
use typeclaw_operator.Control.Actions.{
  granted, waiting, contend, acquire_begin, Waited, previous_done, acquire_finish, acquire_agent,
  release_locked, close_done, touch_agent,
}
use typeclaw_operator.Control.Power.{
  PowerOutcome, power_succeeded, power_rejected, power_unknown, begin_power, finish_power,
}
use typeclaw_operator.Control.Steps.{
  Event, acquires, settles, acquires_agent, unlists, closes, touches, begins_power, finishes_power,
  revokes, cancels, step, Enabled,
}
use typeclaw_operator.Control.Invariant.{Inv}
use typeclaw_operator.Control.Invariant.Leases.{acquire_begin-Inv}
use typeclaw_operator.Control.Invariant.Events.{step-Inv}

-- An event of another caller: not the end of the wait at `d`, and not the drain.
abbrev pub IsOther : String → Event → Type 0
IsOther d (settles w c e actor) = str_eq e d ≡ false
IsOther d revokes = ⊥
IsOther d _ = Unit

-- What others do while the caller waits at `d`.
pub data Meanwhile (d : String) (r : ControlRegistry) : ControlRegistry → Type 0 where
  at_once : Meanwhile d r r
  and_then :
      {s : ControlRegistry}
      → Meanwhile d r s
      → (e : Event) → Enabled s e
      → IsOther d e
      → Meanwhile d r (step s e)

-- The desktop is reserved, and nobody but the cancelled controller `i` holds it.
pub record Pending (d : String) (i : ℕ) (r : ControlRegistry) : Type 0 where
  pub reserved_for : is_some (takeover_of r d) ≡ true
  pub nobody_else : (active_of r d ≡ none) ⊎ (active_of r d ≡ some i)

module _ (d : String) (i : ℕ) (r : ControlRegistry) (p : Pending d i r) where
  acquire_begin-Pending :
      (c : Bool) (e : String) (actor : ActorKind) (takeover : Bool)
      → Pending d i (acquire_begin r c e actor takeover).0
  unfolding acquire_begin
  acquire_begin-Pending c e actor takeover =
      ground
        (arith, p, eq_iff e d, lookup-insert e d r.next r.active, lookup-insert e d tt r.takeovers)

  acquire_finish-Pending :
      (w : Waited) (c : Bool) (e : String) (actor : ActorKind)
      → str_eq e d ≡ false
      → Pending d i (acquire_finish r w c e actor).0
  unfolding acquire_finish
  acquire_finish-Pending w c e actor other =
      ground (arith, p, lookup-insert e d r.next r.active, lookup-erase e d r.takeovers)

  acquire_agent-Pending : (e : String) (ttl now : ℕ) → Pending d i (acquire_agent r e ttl now).0
  unfolding acquire_agent
  acquire_agent-Pending e ttl now = ground (arith, p, eq_iff e d, lookup-insert e d r.next r.active)

  release_locked-Pending : (e : String) (j : ℕ) → Pending d i (release_locked r e j)
  unfolding release_locked
  release_locked-Pending e j = ground (arith, p, eq_iff e d, lookup-erase e d r.active)

  touch_agent-Pending : (e : String) (now : ℕ) → Pending d i (touch_agent r e now)
  unfolding touch_agent
  touch_agent-Pending e now = ground (arith, p)

  begin_power-Pending : (e a : String) → Pending d i (begin_power r e a).0
  unfolding begin_power
  begin_power-Pending e a = ground (arith, p)

  finish_power-Pending :
      (e : String) (o : PowerOperation) (outcome : PowerOutcome)
      → Pending d i (finish_power r e o outcome)
  unfolding finish_power
  finish_power-Pending e o power_succeeded = ground (arith, p)
  finish_power-Pending e o power_rejected = ground (arith, p)
  finish_power-Pending e o power_unknown = ground (arith, p)

  step-Pending : (e : Event) → IsOther d e → Pending d i (step r e)
  unfolding step close_done
  step-Pending (acquires c e actor takeover) _ = acquire_begin-Pending c e actor takeover
  step-Pending (settles w c e actor) other = acquire_finish-Pending w c e actor other
  step-Pending (acquires_agent e ttl now) _ = acquire_agent-Pending e ttl now
  step-Pending (unlists e j) _ = release_locked-Pending e j
  step-Pending (closes j) _ = ground (arith, p)
  step-Pending (touches e now) _ = touch_agent-Pending e now
  step-Pending (begins_power e a) _ = begin_power-Pending e a
  step-Pending (finishes_power e o outcome) _ = finish_power-Pending e o outcome
  step-Pending revokes other = elim other [ ]
  step-Pending (cancels j) _ = ground (arith, p)

Meanwhile-Inv :
    {d : String} {i : ℕ} {r s : ControlRegistry}
    → Inv r × Pending d i r
    → Meanwhile d r s
    → Inv s × Pending d i s
Meanwhile-Inv vp at_once = vp
Meanwhile-Inv {d} {i} vp (and_then {s = s} m e enabled other) =
    let (v, p) = Meanwhile-Inv vp m in (step-Inv s e enabled v, step-Pending d i s p e other)

contend-Pending :
    (r : ControlRegistry) (d : String) (actor : ActorKind) (takeover : Bool) (held : Option ℕ)
    (i : ℕ)
    → active_of r d ≡ held
    → (contend r d actor takeover held).1 ≡ waiting i
    → Pending d i (contend r d actor takeover held).0
      × (((contend r d actor takeover held).0.controllers i).cancelled ≡ true)
unfolding contend
contend-Pending r d actor takeover none i h k = absurd (ground arith)
contend-Pending r d actor takeover (some j) i h k =
    ground (arith, eq_iff d d, lookup-insert d d tt r.takeovers)

acquire_begin-Pending_of_waiting :
    (r : ControlRegistry) (c : Bool) (d : String) (actor : ActorKind) (takeover : Bool) (i : ℕ)
    → (acquire_begin r c d actor takeover).1 ≡ waiting i
    → Pending d i (acquire_begin r c d actor takeover).0
      × (((acquire_begin r c d actor takeover).0.controllers i).cancelled ≡ true)
unfolding acquire_begin
acquire_begin-Pending_of_waiting r c d actor takeover i h =
    ground (arith, contend-Pending r d actor takeover (active_of r d) i)

acquire_finish-granted :
    (s : ControlRegistry) (d : String)
    → is_some (takeover_of s d) ≡ true
    → is_blocked s d ≡ false
    → active_of s d ≡ none
    → ((acquire_finish s previous_done false d human).1 ≡ granted s.next)
      × (status (acquire_finish s previous_done false d human).0 d
          ≡ (some human, (generation_of s d + 1) % 2 ^ 64, true))
      × (takeover_of (acquire_finish s previous_done false d human).0 d ≡ none)
unfolding acquire_finish status
acquire_finish-granted s d p b idle =
    ground (arith, eq_iff d d, lookup-insert d d s.next s.active, lookup-erase d d s.takeovers)

-- A takeover whose caller has begun to wait has ended the incumbent's context. When its wait ends
-- because the incumbent has closed `done`, and neither by the timer of three seconds nor by the
-- caller's own context, which is still open then, the end of the wait gives the human the lease under
-- the next generation and drops the reservation, whatever other callers do meanwhile short of a drain.
pub takeover_granted :
    (r : ControlRegistry) (c : Bool) (d : String) (actor : ActorKind) (takeover : Bool) (i : ℕ)
    (s : ControlRegistry)
    → Inv r
    → (acquire_begin r c d actor takeover).1 ≡ waiting i
    → Meanwhile d (acquire_begin r c d actor takeover).0 s
    → (s.controllers i).done ≡ true
    → (((acquire_begin r c d actor takeover).0.controllers i).cancelled ≡ true)
      × ((acquire_finish s previous_done false d human).1 ≡ granted s.next)
      × (status (acquire_finish s previous_done false d human).0 d
          ≡ (some human, (generation_of s d + 1) % 2 ^ 64, true))
      × (takeover_of (acquire_finish s previous_done false d human).0 d ≡ none)
takeover_granted r c d actor takeover i s v begun m done =
    let (p₀, cancelled) = acquire_begin-Pending_of_waiting r c d actor takeover i begun in
    let (v', p) = Meanwhile-Inv (acquire_begin-Inv r c d actor takeover v, p₀) m in
    let idle : active_of s d ≡ none = elim p.nobody_else [
      | inl h ↦ h
      | inr h ↦ absurd (cc (v'.open_done d i h))
    ] in
    let (g, st, t) =
      acquire_finish-granted s d p.reserved_for (v'.undisturbed d p.reserved_for).0 idle in
    (cancelled, g, st, t)
