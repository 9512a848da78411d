-- ===== src/Control/Generations.antt =====
-- control.go: the generations that number the leases of a desktop.
use text.Mathlib.TextEquality.{eq_iff}
use text.Mathlib.Text.{◌==◌ as str_eq}
use typeclaw_operator.Prelude.{
  ℕ, ◌+◌, ◌%◌, ◌^◌, String, ◌≡◌, refl, subst, ◌⊎◌, inl, inr, Bool, false, ◌&&◌, ◌||◌, Option, none,
  some, arith, Bool-cases, is_some, if_intro,
}
use typeclaw_operator.Prelude.Maps.{erase, lookup-erase, lookup-insert}
use typeclaw_operator.Control.Defs.{
  ActorKind, agent, ControlError, ControlRegistry, active_of, generation_of, is_blocked,
  takeover_of,
}
use typeclaw_operator.Control.Actions.{
  is_human, is_agent, Acquired, grant_locked, contend, acquire_begin, Waited, wait_err, settle,
  acquire_finish, acquire_agent, release_locked, close_done, touch_agent,
}
use typeclaw_operator.Control.Power.{
  power_succeeded, power_rejected, power_unknown, begin_power, finish_power, revoke_all,
}
use typeclaw_operator.Control.Steps.{
  Event, acquires, settles, acquires_agent, unlists, closes, touches, begins_power, finishes_power,
  revokes, cancels, step,
}

-- A grant at `d`: the desktop was free of leases and blocks, the new lease is its holder, carries
-- the next generation and is live.
pub record Grants (r s : ControlRegistry) (d : String) : Type 0 where
  pub idle : active_of r d ≡ none
  pub unblocked : is_blocked r d ≡ false
  pub holder : active_of s d ≡ some r.next
  pub numbered : generation_of s d ≡ (generation_of r d + 1) % 2 ^ 64
  pub stamped : (s.controllers r.next).generation ≡ generation_of s d
  pub live : ((s.controllers r.next).cancelled ≡ false) × ((s.controllers r.next).done ≡ false)

-- The lease and the generation at `d` are as before.
abbrev pub SameLease : ControlRegistry → ControlRegistry → String → Type 0
SameLease r s d = (active_of s d ≡ active_of r d) × (generation_of s d ≡ generation_of r d)

-- No lease is granted at `d`: the generation is as before, and so is the lease, or it has ended.
abbrev pub NoGrant : ControlRegistry → ControlRegistry → String → Type 0
NoGrant r s d =
    (generation_of s d ≡ generation_of r d)
    × ((active_of s d ≡ active_of r d) ⊎ (active_of s d ≡ none))

grant_locked-Grants :
    (r : ControlRegistry) (d : String) (actor : ActorKind) (ttl now : ℕ)
    → active_of r d ≡ none
    → is_blocked r d ≡ false
    → Grants r (grant_locked r d actor ttl now).0 d
unfolding grant_locked
grant_locked-Grants r d actor ttl now h k = ground (
  arith,
  eq_iff d d,
  lookup-insert d d r.next r.active,
  lookup-insert d d ((generation_of r d + 1) % 2 ^ 64) r.generations,
)

grant_locked-SameLease :
    (r : ControlRegistry) (d : String) (actor : ActorKind) (ttl now : ℕ) (e : String)
    → str_eq d e ≡ false
    → SameLease r (grant_locked r d actor ttl now).0 e
unfolding grant_locked
grant_locked-SameLease r d actor ttl now e h = ground (
  arith,
  lookup-insert d e r.next r.active,
  lookup-insert d e ((generation_of r d + 1) % 2 ^ 64) r.generations,
)

grant_locked-moves :
    (r : ControlRegistry) (d : String) (actor : ActorKind) (ttl now : ℕ) (e : String)
    → active_of r d ≡ none
    → is_blocked r d ≡ false
    → Grants r (grant_locked r d actor ttl now).0 e ⊎ NoGrant r (grant_locked r d actor ttl now).0 e
grant_locked-moves r d actor ttl now e h k = elim (Bool-cases (str_eq d e)) [
  | inl same ↦ inl (
      subst (Grants r (grant_locked r d actor ttl now).0) ((eq_iff d e).0 same)
        (grant_locked-Grants r d actor ttl now h k))
  | inr other ↦
      let same = grant_locked-SameLease r d actor ttl now e other in inr (same.1, inl same.0)
]

-- A grant at `d`, or none.
abbrev Moves : ControlRegistry → String → ControlRegistry × Acquired → Type 0
Moves r d p = Grants r p.0 d ⊎ NoGrant r p.0 d

contend-Moves :
    (r : ControlRegistry) (d : String) (actor : ActorKind) (takeover : Bool) (held : Option ℕ)
    (e : String)
    → active_of r d ≡ held
    → is_blocked r d ≡ false
    → Moves r e (contend r d actor takeover held)
unfolding contend
contend-Moves r d actor takeover none e h k = grant_locked-moves r d actor 0 0 e h k
contend-Moves r d actor takeover (some i) e h k =
    if_intro (Moves r e) (takeover && is_human actor && is_agent (r.controllers i).actor) _ _
      (λ _. inr (refl, inl refl)) (λ _. inr (refl, inl refl))

acquire_begin-Moves :
    (r : ControlRegistry) (c : Bool) (d : String) (actor : ActorKind) (takeover : Bool) (e : String)
    → Moves r e (acquire_begin r c d actor takeover)
unfolding acquire_begin
acquire_begin-Moves r c d actor takeover e =
    if_intro (Moves r e) c _ _ (λ _. inr (refl, inl refl))
      (λ _.
        if_intro (Moves r e) (r.draining || is_blocked r d) _ _ (λ _. inr (refl, inl refl))
          (λ free.
            if_intro (Moves r e) (is_some (takeover_of r d)) _ _ (λ _. inr (refl, inl refl))
              (λ _. contend-Moves r d actor takeover (active_of r d) e refl (ground arith))))

settle-Moves :
    (r : ControlRegistry) (d : String) (actor : ActorKind) (waited : Option ControlError)
    (e : String)
    → Moves r e (settle r d actor waited)
unfolding settle
settle-Moves r d actor (some err) e = inr (refl, inl refl)
settle-Moves r d actor none e =
    let r' : ControlRegistry = record r { takeovers = erase d r.takeovers } in
    if_intro (Moves r e) (is_blocked r d) _ _ (λ _. inr (refl, inl refl))
      (λ free.
        if_intro (Moves r e) (is_some (active_of r d)) _ _ (λ _. inr (refl, inl refl))
          (λ idle. elim (grant_locked-moves r' d actor 0 0 e (ground arith) free) [
            | inl g ↦ inl (record {
              idle = g.idle;
              unblocked = g.unblocked;
              holder = g.holder;
              numbered = g.numbered;
              stamped = g.stamped;
              live = g.live;
            })
            | inr same ↦ inr same
          ]))

acquire_finish-Moves :
    (r : ControlRegistry) (w : Waited) (c : Bool) (d : String) (actor : ActorKind) (e : String)
    → Moves r e (acquire_finish r w c d actor)
unfolding acquire_finish
acquire_finish-Moves r w c d actor e =
    if_intro (Moves r e) (is_some (takeover_of r d)) _ _
      (λ _. settle-Moves r d actor (wait_err w c) e) (λ _. inr (refl, inl refl))

acquire_agent-Moves :
    (r : ControlRegistry) (d : String) (ttl now : ℕ) (e : String)
    → Moves r e (acquire_agent r d ttl now)
unfolding acquire_agent
acquire_agent-Moves r d ttl now e =
    if_intro (Moves r e) (r.draining || is_blocked r d) _ _ (λ _. inr (refl, inl refl))
      (λ free.
        if_intro (Moves r e) (is_some (takeover_of r d) || is_some (active_of r d)) _ _
          (λ _. inr (refl, inl refl))
          (λ idle. grant_locked-moves r d agent ttl now e (ground arith) (ground arith)))

release_locked-NoGrant :
    (r : ControlRegistry) (d' : String) (i : ℕ) (d : String) → NoGrant r (release_locked r d' i) d
unfolding release_locked
release_locked-NoGrant r d' i d =
    (ground arith, ground (arith, eq_iff d' d, lookup-erase d' d r.active))

-- The generation of a desktop changes exactly when a lease is granted there. After each event either
-- a lease has been granted at the desktop, which had no lease and no block, and the new lease holds
-- it, carries the next generation (as a uint64) and is live; or the generation is as before, and the
-- lease of the desktop is as before or has ended.
pub generation_moves :
    (r : ControlRegistry) (e : Event) (d : String) → Grants r (step r e) d ⊎ NoGrant r (step r e) d
unfolding step close_done revoke_all begin_power finish_power touch_agent
generation_moves r (acquires c d' actor takeover) d = acquire_begin-Moves r c d' actor takeover d
generation_moves r (settles w c d' actor) d = acquire_finish-Moves r w c d' actor d
generation_moves r (acquires_agent d' ttl now) d = acquire_agent-Moves r d' ttl now d
generation_moves r (unlists d' i) d = inr (release_locked-NoGrant r d' i d)
generation_moves r (closes i) d = inr (refl, inl refl)
generation_moves r (touches d' now) d = inr (ground arith, inl (ground arith))
generation_moves r (begins_power d' a) d = inr (ground arith, inl (ground arith))
generation_moves r (finishes_power d' o power_succeeded) d = inr (ground arith, inl (ground arith))
generation_moves r (finishes_power d' o power_rejected) d = inr (ground arith, inl (ground arith))
generation_moves r (finishes_power d' o power_unknown) d = inr (ground arith, inl (ground arith))
generation_moves r revokes d = inr (refl, inl refl)
generation_moves r (cancels i) d = inr (refl, inl refl)
