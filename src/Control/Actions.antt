-- ===== src/Control/Actions.antt =====
-- control.go: the calls that change the registry, one function for each region under the mutex.
use typeclaw_operator.Prelude.{
  ℕ, ◌+◌, ◌-◌, ◌%◌, ◌^◌, String, Bool, true, false, ◌&&◌, ◌||◌, Option, none, some, ltb, ◌==◌,
  if◌then◌else◌, is_some,
}
use typeclaw_operator.Prelude.Maps.{insert, erase}
use typeclaw_operator.Control.Defs.{
  ActorKind, human, agent, ControlError, context_cancelled, control_busy, control_blocked,
  revocation_timed, Controller, ControlRegistry, active_of, generation_of, is_blocked, takeover_of,
}

-- A write through the pointer `i`.
abbrev pub write : (ℕ → Controller) → ℕ → Controller → ℕ → Controller
write cs i c j = if i == j then c else cs j

abbrev pub cancel : ℕ → (ℕ → Controller) → ℕ → Controller
cancel i cs = write cs i (record (cs i) { cancelled = true })

abbrev pub is_human : ActorKind → Bool
is_human human = true
is_human agent = false

abbrev pub is_agent : ActorKind → Bool
is_agent agent = true
is_agent human = false

-- `acquire` and `acquireAgent` return a lease or an error; `waiting i` is the point where
-- `acquire` has cancelled the controller `i` and dropped the lock to wait for it.
pub data Acquired : Type 0 where
  granted : ℕ → Acquired
  refused : ControlError → Acquired
  waiting : ℕ → Acquired

-- The generation is a uint64. The new lease's context derives from a live one.
unfoldable pub grant_locked :
    ControlRegistry → String → ActorKind → ℕ → ℕ → ControlRegistry × Acquired
grant_locked r desktop actor ttl now =
    let generation = (generation_of r desktop + 1) % 2 ^ 64 in
    let lease : Controller = record {
      actor = actor;
      generation = generation;
      cancelled = false;
      done = false;
      ttl = ttl;
      last_touch = now;
    } in
    (
      record r {
        active = insert desktop r.next r.active;
        generations = insert desktop generation r.generations;
        controllers = write r.controllers r.next lease;
        next = r.next + 1;
      },
      granted r.next,
    )

-- `acquire` up to its first unlock. `ctx_err` says whether the caller's context is done.
unfoldable pub contend :
    ControlRegistry → String → ActorKind → Bool → Option ℕ → ControlRegistry × Acquired
unfolding grant_locked
contend r desktop actor takeover none = grant_locked r desktop actor 0 0
contend r desktop actor takeover (some i) =
    if takeover && is_human actor && is_agent (r.controllers i).actor
    then (
      record r { takeovers = insert desktop tt r.takeovers; controllers = cancel i r.controllers },
      waiting i,
    )
    else (r, refused control_busy)

unfoldable pub acquire_begin :
    ControlRegistry → Bool → String → ActorKind → Bool → ControlRegistry × Acquired
unfolding contend
acquire_begin r ctx_err desktop actor takeover =
    if ctx_err
    then (r, refused context_cancelled)
    else if r.draining || is_blocked r desktop
    then (r, refused control_blocked)
    else if is_some (takeover_of r desktop)
    then (r, refused control_busy)
    else contend r desktop actor takeover (active_of r desktop)

-- How the `select` of `acquire` ended.
pub data Waited : Type 0 where
  previous_done timer_fired ctx_done : Waited

abbrev pub wait_err : Waited → Bool → Option ControlError
wait_err previous_done true = some context_cancelled
wait_err previous_done false = none
wait_err timer_fired _ = some revocation_timed
wait_err ctx_done _ = some context_cancelled

-- `acquire` from its second lock on. `ctx_err` is read again after a wait that did not fail.
unfoldable pub settle :
    ControlRegistry → String → ActorKind → Option ControlError → ControlRegistry × Acquired
unfolding grant_locked
settle r desktop actor (some e) = (record r { takeovers = erase desktop r.takeovers }, refused e)
settle r desktop actor none =
    let r' = record r { takeovers = erase desktop r.takeovers } in
    if is_blocked r desktop
    then (r', refused control_blocked)
    else if is_some (active_of r desktop)
    then (r', refused control_busy)
    else grant_locked r' desktop actor 0 0

unfoldable pub acquire_finish :
    ControlRegistry → Waited → Bool → String → ActorKind → ControlRegistry × Acquired
unfolding settle
acquire_finish r waited ctx_err desktop actor =
    if is_some (takeover_of r desktop)
    then settle r desktop actor (wait_err waited ctx_err)
    else (r, refused control_busy)

unfoldable pub acquire_agent : ControlRegistry → String → ℕ → ℕ → ControlRegistry × Acquired
unfolding grant_locked
acquire_agent r desktop ttl now =
    if r.draining || is_blocked r desktop
    then (r, refused control_blocked)
    else if is_some (takeover_of r desktop) || is_some (active_of r desktop)
    then (r, refused control_busy)
    else grant_locked r desktop agent ttl now

-- `release`: the part under the lock, then the close of `done`.
abbrev pub owns : Option ℕ → ℕ → Bool
owns none i = false
owns (some j) i = j == i

unfoldable pub release_locked : ControlRegistry → String → ℕ → ControlRegistry
release_locked r desktop i =
    if owns (active_of r desktop) i then record r { active = erase desktop r.active } else r

unfoldable pub close_done : ControlRegistry → ℕ → ControlRegistry
close_done r i = record r {
  controllers = write r.controllers i (record (r.controllers i) { done = true });
}

unfoldable pub release : ControlRegistry → String → ℕ → ControlRegistry
unfolding release_locked close_done
release r desktop i = close_done (release_locked r desktop i) i

-- One round of `expireLoop`: a done context, or a tick at the time `now`. The flag says that the
-- loop returns.
unfoldable pub expire_round : ControlRegistry → String → ℕ → Option ℕ → ControlRegistry × Bool
unfolding release
expire_round r desktop i none = (release r desktop i, true)
expire_round r desktop i (some now) =
    let c = r.controllers i in
    if ltb c.ttl (now - c.last_touch) then (release r desktop i, true) else (r, false)

unfoldable pub touch_held : ControlRegistry → ℕ → Option ℕ → ControlRegistry
touch_held r now none = r
touch_held r now (some i) =
    let c = r.controllers i in
    if is_agent c.actor && ltb 0 c.ttl
    then record r { controllers = write r.controllers i (record c { last_touch = now }) }
    else r

unfoldable pub touch_agent : ControlRegistry → String → ℕ → ControlRegistry
unfolding touch_held
touch_agent r desktop now = touch_held r now (active_of r desktop)

-- `releaseAgentOwner` up to its unlock: the controller that it goes on to release.
unfoldable pub agent_owner : ControlRegistry → String → Option ℕ
agent_owner r desktop = elim (active_of r desktop) [
  | none ↦ none
  | some i ↦ if is_agent (r.controllers i).actor then some i else none
]

unfoldable pub release_agent_owner : ControlRegistry → String → ControlRegistry × Bool
unfolding agent_owner release
release_agent_owner r desktop = elim (agent_owner r desktop) [
  | none ↦ (r, false)
  | some i ↦ (release r desktop i, true)
]
