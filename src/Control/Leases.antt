-- ===== src/Control/Leases.antt =====
-- control.go: who can take a lease away, who can revoke it, and how generations number the leases.
use text.Mathlib.TextEquality.{eq_iff}
use text.Mathlib.Text.{◌==◌ as str_eq}
use typeclaw_operator.Prelude.{
  ℕ, ◌<◌, String, ◌≡◌, ap₂, ◌≢◌, inl, inr, Bool, true, false, some, List, [], ◌∷◌, map, arith, ◌==◌,
  if◌then◌else◌, Bool-cases, In,
}
use typeclaw_operator.Prelude.Maps.{lookup-insert, lookup-erase}
use typeclaw_operator.Control.Defs.{
  ActorKind, human, agent, Controller, PowerOperation, ControlRegistry, active_of,
}
use typeclaw_operator.Control.Actions.{
  cancel, grant_locked, acquire_begin, Waited, acquire_finish, acquire_agent, release_locked,
  close_done, touch_agent,
}
use typeclaw_operator.Control.Power.{
  PowerOutcome, power_succeeded, power_rejected, power_unknown, begin_power, finish_power,
  cancel_all, revoke_all,
}
use typeclaw_operator.Control.Steps.{
  Event, acquires, settles, acquires_agent, unlists, closes, touches, begins_power, finishes_power,
  revokes, cancels, step,
}

grant_locked-active :
    (r : ControlRegistry) (d : String) (actor : ActorKind) (ttl now : ℕ) (e : String)
    → active_of (grant_locked r d actor ttl now).0 e
      ≡ (if str_eq d e then some r.next else active_of r e)
unfolding grant_locked
grant_locked-active r d actor ttl now e = lookup-insert d e r.next r.active

acquire_begin-keeps :
    (r : ControlRegistry) (c : Bool) (d : String) (actor : ActorKind) (takeover : Bool) (e : String)
    (i : ℕ)
    → active_of r e ≡ some i
    → active_of (acquire_begin r c d actor takeover).0 e ≡ some i
unfolding acquire_begin
acquire_begin-keeps r c d actor takeover e i h =
    ground (arith, eq_iff d e, lookup-insert d e r.next r.active)

acquire_finish-keeps :
    (r : ControlRegistry) (w : Waited) (c : Bool) (d : String) (actor : ActorKind) (e : String)
    (i : ℕ)
    → active_of r e ≡ some i
    → active_of (acquire_finish r w c d actor).0 e ≡ some i
unfolding acquire_finish
acquire_finish-keeps r w c d actor e i h =
    ground (arith, eq_iff d e, lookup-insert d e r.next r.active)

acquire_agent-keeps :
    (r : ControlRegistry) (d : String) (ttl now : ℕ) (e : String) (i : ℕ)
    → active_of r e ≡ some i
    → active_of (acquire_agent r d ttl now).0 e ≡ some i
unfolding acquire_agent
acquire_agent-keeps r d ttl now e i h =
    ground (arith, eq_iff d e, lookup-insert d e r.next r.active)

release_locked-takes :
    (r : ControlRegistry) (d : String) (j : ℕ) (e : String) (i : ℕ)
    → active_of r e ≡ some i
    → active_of (release_locked r d j) e ≢ some i
    → (d ≡ e) × (j ≡ i)
unfolding release_locked
release_locked-takes r d j e i h k = ground (arith, eq_iff d e, lookup-erase d e r.active)

touch_agent-active :
    (r : ControlRegistry) (d : String) (now : ℕ) → (touch_agent r d now).active ≡ r.active
unfolding touch_agent
touch_agent-active r d now = ground arith

begin_power-active : (r : ControlRegistry) (d a : String) → (begin_power r d a).0.active ≡ r.active
unfolding begin_power
begin_power-active r d a = ground arith

finish_power-active :
    (r : ControlRegistry) (d : String) (o : PowerOperation) (outcome : PowerOutcome)
    → (finish_power r d o outcome).active ≡ r.active
unfolding finish_power
finish_power-active r d o power_succeeded = ground arith
finish_power-active r d o power_rejected = ground arith
finish_power-active r d o power_unknown = ground arith

-- A lease leaves its desktop only by the release of that very lease: no acquire, takeover, power
-- operation, touch or drain displaces it or puts another lease in its place.
pub lease_removed :
    (r : ControlRegistry) (e : Event) (d : String) (i : ℕ)
    → active_of r d ≡ some i
    → active_of (step r e) d ≢ some i
    → e ≡ unlists d i
unfolding step close_done revoke_all
lease_removed r (acquires c d' actor takeover) d i h k =
    absurd (k (acquire_begin-keeps r c d' actor takeover d i h))
lease_removed r (settles w c d' actor) d i h k =
    absurd (k (acquire_finish-keeps r w c d' actor d i h))
lease_removed r (acquires_agent d' ttl now) d i h k =
    absurd (k (acquire_agent-keeps r d' ttl now d i h))
lease_removed r (unlists d' j) d i h k =
    let (p, q) = release_locked-takes r d' j d i h k in ap₂ unlists p q
lease_removed r (closes j) d i h k = absurd (k h)
lease_removed r (touches d' now) d i h k = absurd (k (rw (touch_agent-active r d' now) h))
lease_removed r (begins_power d' a) d i h k = absurd (k (rw (begin_power-active r d' a) h))
lease_removed r (finishes_power d' o outcome) d i h k =
    absurd (k (rw (finish_power-active r d' o outcome) h))
lease_removed r revokes d i h k = absurd (k h)
lease_removed r (cancels j) d i h k = absurd (k h)

-- How an event may end the context of the lease `i`.
abbrev pub Revokes : ControlRegistry → ℕ → Event → Type 0
Revokes r i (acquires c d actor takeover) =
    (c ≡ false)
    × (actor ≡ human)
    × (takeover ≡ true)
    × (active_of r d ≡ some i)
    × ((r.controllers i).actor ≡ agent)
Revokes r i revokes = In i (map (λ entry. entry.1) r.active)
Revokes r i (cancels j) = j ≡ i
Revokes r i _ = ⊥

acquire_begin-Revokes :
    (r : ControlRegistry) (c : Bool) (d : String) (actor : ActorKind) (takeover : Bool) (i : ℕ)
    → i < r.next
    → (r.controllers i).cancelled ≡ false
    → ((acquire_begin r c d actor takeover).0.controllers i).cancelled ≡ true
    → Revokes r i (acquires c d actor takeover)
unfolding acquire_begin
acquire_begin-Revokes r c d human takeover i h k l = ground arith
acquire_begin-Revokes r c d agent takeover i h k l = absurd (ground arith)

acquire_finish-cancelled :
    (r : ControlRegistry) (w : Waited) (c : Bool) (d : String) (actor : ActorKind) (i : ℕ)
    → (r.controllers i).cancelled ≡ false
    → ((acquire_finish r w c d actor).0.controllers i).cancelled ≡ false
unfolding acquire_finish
acquire_finish-cancelled r w c d actor i k = ground arith

acquire_agent-cancelled :
    (r : ControlRegistry) (d : String) (ttl now i : ℕ)
    → (r.controllers i).cancelled ≡ false
    → ((acquire_agent r d ttl now).0.controllers i).cancelled ≡ false
unfolding acquire_agent
acquire_agent-cancelled r d ttl now i k = ground arith

touch_agent-cancelled :
    (r : ControlRegistry) (d : String) (now i : ℕ)
    → ((touch_agent r d now).controllers i).cancelled ≡ (r.controllers i).cancelled
unfolding touch_agent
touch_agent-cancelled r d now i = ground arith

cancel_all-Revokes :
    (m : List (String × ℕ)) (cs : ℕ → Controller) (i : ℕ)
    → (cs i).cancelled ≡ false
    → (cancel_all m cs i).cancelled ≡ true
    → In i (map (λ entry. entry.1) m)
unfolding cancel_all
cancel_all-Revokes [] cs i h k = cc
cancel_all-Revokes ((_, j) ∷ m) cs i h k = elim (Bool-cases (j == i)) [
  | inl same ↦ inl (ground arith)
  | inr other ↦ inr (cancel_all-Revokes m (cancel j cs) i (ground arith) k)
]

-- The context of an allocated lease ends only by a human's takeover of that very lease from the
-- agent, by the drain that finds it registered, or by its own caller's context.
pub lease_revoked :
    (r : ControlRegistry) (e : Event) (i : ℕ)
    → i < r.next
    → (r.controllers i).cancelled ≡ false
    → ((step r e).controllers i).cancelled ≡ true
    → Revokes r i e
unfolding step close_done revoke_all release_locked begin_power finish_power
lease_revoked r (acquires c d actor takeover) i h k l =
    acquire_begin-Revokes r c d actor takeover i h k l
lease_revoked r (settles w c d actor) i h k l = cc (acquire_finish-cancelled r w c d actor i k)
lease_revoked r (acquires_agent d ttl now) i h k l = cc (acquire_agent-cancelled r d ttl now i k)
lease_revoked r (unlists d j) i h k l = ground arith
lease_revoked r (closes j) i h k l = ground arith
lease_revoked r (touches d now) i h k l = cc (touch_agent-cancelled r d now i)
lease_revoked r (begins_power d a) i h k l = ground arith
lease_revoked r (finishes_power d o power_succeeded) i h k l = ground arith
lease_revoked r (finishes_power d o power_rejected) i h k l = ground arith
lease_revoked r (finishes_power d o power_unknown) i h k l = ground arith
lease_revoked r revokes i h k l = cancel_all-Revokes r.active r.controllers i k l
lease_revoked r (cancels j) i h k l = ground arith
