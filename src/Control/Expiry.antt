-- ===== src/Control/Expiry.antt =====
-- control.go: the idle deadline of an agent's lease, and the releases that the agent asks for.
use text.Mathlib.TextEquality.{eq_iff}
use typeclaw_operator.Prelude.{
  ℕ, ◌+◌, ◌≤◌, ◌<◌, String, ◌≡◌, refl, ◌∙◌, Bool, true, false, none, some, arith,
}
use typeclaw_operator.Prelude.Maps.{lookup-erase}
use typeclaw_operator.Control.Defs.{
  ActorKind, human, agent, PowerOperation, ControlRegistry, active_of,
}
use typeclaw_operator.Control.Actions.{
  acquire_begin, Waited, acquire_finish, acquire_agent, release_locked, close_done, release,
  expire_round, touch_agent, agent_owner,
}
use typeclaw_operator.Control.Power.{
  PowerOutcome, power_succeeded, power_rejected, power_unknown, begin_power, finish_power,
  revoke_all,
}
use typeclaw_operator.Control.Steps.{
  Event, acquires, settles, acquires_agent, unlists, closes, touches, begins_power, finishes_power,
  revokes, cancels, step, Reach, here, next,
}
use typeclaw_operator.Control.Invariant.{Inv}
use typeclaw_operator.Control.Invariant.Leases.{cancel_all-keeps}

-- An agent's lease that is touched at `t` outlives every tick up to `t + ttl`, which changes
-- nothing, and no tick later than that: the loop then takes the lease off its desktop, closes its
-- `done`, and returns.
pub touch-expire :
    (r : ControlRegistry) (d : String) (i t now : ℕ)
    → active_of r d ≡ some i
    → (r.controllers i).actor ≡ agent
    → 0 < (r.controllers i).ttl
    → let s = touch_agent r d t in
      (now ≤ t + (r.controllers i).ttl → expire_round s d i (some now) ≡ (s, false))
      × (t + (r.controllers i).ttl < now
          → ((expire_round s d i (some now)).1 ≡ true)
            × (active_of (expire_round s d i (some now)).0 d ≡ none)
            × (((expire_round s d i (some now)).0.controllers i).done ≡ true))
unfolding touch_agent expire_round
touch-expire r d i t now h a l = (
  λ k. ground (arith),
  λ k. (ground arith, ground (arith, eq_iff d d, lookup-erase d d r.active), ground arith),
)

-- The actor of an allocated lease never changes, and allocations only grow.
abbrev SameActor : ControlRegistry → ℕ → ControlRegistry → Type 0
SameActor r i s = ((s.controllers i).actor ≡ (r.controllers i).actor) × (i < s.next)

module _ (r : ControlRegistry) (i : ℕ) (h : i < r.next) where
  acquire_begin-SameActor :
      (c : Bool) (d : String) (actor : ActorKind) (takeover : Bool)
      → SameActor r i (acquire_begin r c d actor takeover).0
  unfolding acquire_begin
  acquire_begin-SameActor c d actor takeover = (ground arith, ground arith)

  acquire_finish-SameActor :
      (w : Waited) (c : Bool) (d : String) (actor : ActorKind)
      → SameActor r i (acquire_finish r w c d actor).0
  unfolding acquire_finish
  acquire_finish-SameActor w c d actor = (ground arith, ground arith)

  acquire_agent-SameActor : (d : String) (ttl now : ℕ) → SameActor r i (acquire_agent r d ttl now).0
  unfolding acquire_agent
  acquire_agent-SameActor d ttl now = (ground arith, ground arith)

  finish_power-SameActor :
      (d : String) (o : PowerOperation) (outcome : PowerOutcome)
      → SameActor r i (finish_power r d o outcome)
  unfolding finish_power
  finish_power-SameActor d o power_succeeded = (ground arith, ground arith)
  finish_power-SameActor d o power_rejected = (ground arith, ground arith)
  finish_power-SameActor d o power_unknown = (ground arith, ground arith)

  step-SameActor : (e : Event) → SameActor r i (step r e)
  unfolding step close_done revoke_all release_locked begin_power touch_agent
  step-SameActor (acquires c d actor takeover) = acquire_begin-SameActor c d actor takeover
  step-SameActor (settles w c d actor) = acquire_finish-SameActor w c d actor
  step-SameActor (acquires_agent d ttl now) = acquire_agent-SameActor d ttl now
  step-SameActor (unlists d j) = (ground arith, ground arith)
  step-SameActor (closes j) = (ground arith, h)
  step-SameActor (touches d now) = (ground arith, ground arith)
  step-SameActor (begins_power d a) = (ground arith, ground arith)
  step-SameActor (finishes_power d o outcome) = finish_power-SameActor d o outcome
  step-SameActor revokes = ((cancel_all-keeps r.active r.controllers i).2, h)
  step-SameActor (cancels j) = (ground arith, h)

Reach-SameActor : {r s : ControlRegistry} (i : ℕ) → i < r.next → Reach r s → SameActor r i s
Reach-SameActor i h here = (refl, h)
Reach-SameActor i h (next {s = s} reach e enabled) =
    let (same, lt) = Reach-SameActor i h reach in
    let (same', lt') = step-SameActor s i lt e in (same' ∙ same, lt')

-- The agent's release reads the holder under one lock and releases it under a second. Whatever
-- happens in between, a lease that a human holds by then stays; and if the agent's lease is still
-- there, the desktop is free afterwards.
pub agent_release_spares_human :
    (r : ControlRegistry) (d : String) (i : ℕ) (s : ControlRegistry)
    → Inv r
    → agent_owner r d ≡ some i
    → Reach r s
    → ((s.controllers i).actor ≡ agent)
      × ((j : ℕ)
          → active_of s d ≡ some j
          → (s.controllers j).actor ≡ human
          → active_of (release s d i) d ≡ some j)
      × (active_of s d ≡ some i → active_of (release s d i) d ≡ none)
unfolding agent_owner release
agent_release_spares_human r d i s v owner reach =
    let (same, _) = Reach-SameActor i (v.fresh d i (ground arith)) reach in
    let is_agents : (s.controllers i).actor ≡ agent = same ∙ ground arith in
    (
      is_agents,
      λ j held human_holds. ground (arith, eq_iff d d, lookup-erase d d s.active),
      λ held. ground (arith, eq_iff d d, lookup-erase d d s.active),
    )
