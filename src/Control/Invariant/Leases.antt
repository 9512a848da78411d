-- ===== src/Control/Invariant/Leases.antt =====
-- The regions of control.go that handle leases, and the drain, keep the invariant.
use typeclaw_operator.Prelude.{
  ℕ, String, ◌≡◌, refl, inl, inr, Bool, true, false, ◌&&◌, ◌||◌, Option, none, some, List, [], ◌∷◌,
  arith, ltb, Bool-cases, is_some, Option-cases,
}
use typeclaw_operator.Prelude.Maps.{lookup, insert, lookup-insert}
use typeclaw_operator.Control.Defs.{
  ActorKind, ControlError, Controller, ControlRegistry, or_false, active_of, is_blocked,
  takeover_of,
}
use typeclaw_operator.Control.Actions.{
  cancel, is_human, is_agent, contend, acquire_begin, Waited, wait_err, settle, acquire_finish,
  acquire_agent, owns, release_locked, touch_held,
}
use typeclaw_operator.Control.Power.{block_all, cancel_all, revoke_all}
use typeclaw_operator.Control.Invariant.{Inv}
use typeclaw_operator.Control.Invariant.Grants.{grant_locked-Inv}
use typeclaw_operator.Control.Invariant.Regions.{write-Inv, reserve-Inv, unreserve-Inv, unlist-Inv}

-- The loops of `revokeAll` only add blocks, and only end contexts.
pub block_all-keeps :
    {V : Type 0} (m : List (String × V)) (blocked : List (String × Bool)) (e : String)
    → or_false (lookup e blocked) ≡ true
    → or_false (lookup e (block_all m blocked)) ≡ true
unfolding block_all
block_all-keeps [] blocked e h = h
block_all-keeps ((d, _) ∷ m) blocked e h =
    block_all-keeps m (insert d true blocked) e (ground (arith, lookup-insert d e true blocked))

pub cancel_all-keeps :
    (m : List (String × ℕ)) (cs : ℕ → Controller) (j : ℕ)
    → ((cancel_all m cs j).generation ≡ (cs j).generation)
      × ((cancel_all m cs j).done ≡ (cs j).done)
      × ((cancel_all m cs j).actor ≡ (cs j).actor)
unfolding cancel_all
cancel_all-keeps [] cs j = (refl, refl, refl)
cancel_all-keeps ((_, i) ∷ m) cs j = ground (arith, cancel_all-keeps m (cancel i cs) j)

pub revoke_all-Inv : {r : ControlRegistry} → Inv r → Inv (revoke_all r)
unfolding revoke_all lookup
revoke_all-Inv {r} v = record {
  fresh = v.fresh;
  current = λ e i h. ground (arith, v.current e i h, cancel_all-keeps r.active r.controllers i);
  open_done = λ e i h. ground (arith, v.open_done e i h, cancel_all-keeps r.active r.controllers i);
  unique = v.unique;
  quarantined = λ e o h.
      block_all-keeps r.power_ops _ e
        (block_all-keeps r.takeovers _ e (block_all-keeps r.active _ e (v.quarantined e o h)));
  power_idle = v.power_idle;
  exclusive = λ e h k. cc;
  undisturbed = λ e h. cc;
}

contend-Inv :
    (r : ControlRegistry) (d : String) (actor : ActorKind) (takeover : Bool) (held : Option ℕ)
    → Inv r
    → is_blocked r d ≡ false
    → r.draining ≡ false
    → active_of r d ≡ held
    → Inv (contend r d actor takeover held).0
unfolding contend
contend-Inv r d actor takeover none v b n idle = grant_locked-Inv r v d actor 0 0 idle b
contend-Inv r d actor takeover (some i) v b n held =
    elim (Bool-cases (takeover && is_human actor && is_agent (r.controllers i).actor)) [
      | inl can ↦ rw can (
          write-Inv _ (reserve-Inv r v d b n) d i (record (r.controllers i) { cancelled = true })
            refl refl)
      | inr cannot ↦ rw cannot v
    ]

pub acquire_begin-Inv :
    (r : ControlRegistry) (ctx_err : Bool) (d : String) (actor : ActorKind) (takeover : Bool)
    → Inv r
    → Inv (acquire_begin r ctx_err d actor takeover).0
unfolding acquire_begin
acquire_begin-Inv r true d actor takeover v = v
acquire_begin-Inv r false d actor takeover v = elim (Bool-cases (r.draining || is_blocked r d)) [
  | inl shut ↦ rw shut v
  | inr free ↦ rw free (elim (Bool-cases (is_some (takeover_of r d))) [
    | inl busy ↦ rw busy v
    | inr still ↦
        rw still
          (contend-Inv r d actor takeover (active_of r d) v (ground arith) (ground arith) refl)
  ])
]

settle-Inv :
    (r : ControlRegistry) (d : String) (actor : ActorKind) (waited : Option ControlError)
    → Inv r
    → Inv (settle r d actor waited).0
unfolding settle
settle-Inv r d actor (some e) v = unreserve-Inv r v d
settle-Inv r d actor none v = elim (Bool-cases (is_blocked r d)) [
  | inl shut ↦ rw shut (unreserve-Inv r v d)
  | inr free ↦ rw free (elim (Option-cases (active_of r d)) [
    | inl idle ↦ rw idle (grant_locked-Inv _ (unreserve-Inv r v d) d actor 0 0 idle free)
    | inr (i, held) ↦ rw held (unreserve-Inv r v d)
  ])
]

pub acquire_finish-Inv :
    (r : ControlRegistry) (waited : Waited) (ctx_err : Bool) (d : String) (actor : ActorKind)
    → Inv r
    → Inv (acquire_finish r waited ctx_err d actor).0
unfolding acquire_finish
acquire_finish-Inv r waited ctx_err d actor v = elim (Bool-cases (is_some (takeover_of r d))) [
  | inl mine ↦ rw mine (settle-Inv r d actor (wait_err waited ctx_err) v)
  | inr gone ↦ rw gone v
]

pub acquire_agent-Inv :
    (r : ControlRegistry) (d : String) (ttl now : ℕ) → Inv r → Inv (acquire_agent r d ttl now).0
unfolding acquire_agent
acquire_agent-Inv r d ttl now v = elim (Bool-cases (r.draining || is_blocked r d)) [
  | inl shut ↦ rw shut v
  | inr free ↦ rw free (elim (Bool-cases (is_some (takeover_of r d) || is_some (active_of r d))) [
    | inl busy ↦ rw busy v
    | inr idle ↦
        rw idle (grant_locked-Inv r v d ActorKind.agent ttl now (ground arith) (ground arith))
  ])
]

pub release_locked-Inv :
    (r : ControlRegistry) (d : String) (i : ℕ) → Inv r → Inv (release_locked r d i)
unfolding release_locked
release_locked-Inv r d i v = elim (Bool-cases (owns (active_of r d) i)) [
  | inl mine ↦ rw mine (unlist-Inv r v d)
  | inr other ↦ rw other v
]

pub touch_held-Inv :
    (r : ControlRegistry) (d : String) (now : ℕ) (held : Option ℕ)
    → Inv r
    → Inv (touch_held r now held)
unfolding touch_held
touch_held-Inv r d now none v = v
touch_held-Inv r d now (some i) v =
    elim (Bool-cases (is_agent (r.controllers i).actor && ltb 0 (r.controllers i).ttl)) [
      | inl agent_lease ↦
          rw agent_lease
            (write-Inv r v d i (record (r.controllers i) { last_touch = now }) refl refl)
      | inr other ↦ rw other v
    ]
