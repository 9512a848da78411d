-- ===== src/Tests/Control.antt =====
-- The control registry of internal/desktopgateway/control.go at work.
use typeclaw_operator.Prelude.{
  ℕ, ◌+◌, ◌%◌, ◌^◌, ◌≤◌, ◌<◌, String, ◌≡◌, refl, ◌≢◌, ◌⊎◌, true, false, none, some, arith,
}
use typeclaw_operator.Prelude.Maps.{lookup, erase, insert}
use typeclaw_operator.Control.Defs.{
  human, agent, control_busy, PowerOperation, ControlRegistry, new_control_registry, active_of,
  generation_of, is_blocked, power_op_of, takeover_of, status, power_status,
}
use typeclaw_operator.Control.Actions.{
  granted, refused, waiting, grant_locked, contend, acquire_begin, previous_done, settle,
  acquire_finish, acquire_agent, release_locked, close_done, release, expire_round, touch_held,
  touch_agent, agent_owner, release_agent_owner,
}
use typeclaw_operator.Control.Power.{
  PowerOutcome, power_succeeded, power_rejected, reserved, denied, begin_power, is_reservation,
  finish_power, revoke_all,
}
use typeclaw_operator.Control.Steps.{
  Event, acquires, acquires_agent, unlists, closes, begins_power, finishes_power, step, Reach, here,
  next,
}
use typeclaw_operator.Control.Invariant.{Inv, new-Inv}
use typeclaw_operator.Control.Invariant.Events.{step-Inv, Reach-Inv}
use typeclaw_operator.Control.Quarantine.{Lifts, quarantine_lifted, blocked_after, begin-finish}
use typeclaw_operator.Control.Leases.{lease_removed, Revokes, lease_revoked}
use typeclaw_operator.Control.Generations.{Grants, NoGrant, generation_moves}
use typeclaw_operator.Control.Takeover.{Meanwhile, at_once, and_then, takeover_granted}
use typeclaw_operator.Control.Drain.{IsDrained, IsDrained-for_good}
use typeclaw_operator.Control.Expiry.{touch-expire, agent_release_spares_human}

-- The agent takes the desktop, a human takes it over, and the agent's loop lets go.
abbrev desk : String
desk = "kakao-desktop"

abbrev agent_lease : Event
agent_lease = acquires_agent desk 120 1000

abbrev agent_holds : ControlRegistry
agent_holds = step new_control_registry agent_lease

abbrev agent_holds-Inv : Inv agent_holds
agent_holds-Inv = step-Inv new_control_registry agent_lease tt new-Inv

registry : Unit {0}
unfolding step new_control_registry acquire_begin acquire_finish acquire_agent contend grant_locked
    settle release_locked close_done release touch_agent touch_held agent_owner release_agent_owner
    expire_round begin_power finish_power revoke_all lookup insert erase status power_status
registry = tt

agent_holds-status : status agent_holds desk ≡ (some agent, 1, true)
unfolding registry
agent_holds-status = refl

human_waits : (acquire_begin agent_holds false desk human true).1 ≡ waiting 0
unfolding registry
human_waits = refl

-- Without `takeover`, and for the agent, the desktop is busy.
second_comers :
    ((acquire_begin agent_holds false desk human false).1 ≡ refused control_busy)
    × ((acquire_begin agent_holds false desk agent true).1 ≡ refused control_busy)
    × ((acquire_agent agent_holds desk 120 1001).1 ≡ refused control_busy)
    × ((begin_power agent_holds desk "stop").1 ≡ denied control_busy)
unfolding registry
second_comers = (refl, refl, refl, refl)

Reach-Inv_example : Inv (step agent_holds (begins_power desk "stop"))
Reach-Inv_example =
    Reach-Inv new-Inv (next (next here agent_lease tt) (begins_power desk "stop") tt)

abbrev stop_operation : PowerOperation
stop_operation = record { id = 0; action = "stop"; prior_blocked = false }

abbrev stopping : ControlRegistry
stopping = step new_control_registry (begins_power desk "stop")

stopping_begun : begin_power new_control_registry desk "stop" ≡ (stopping, reserved stop_operation)
unfolding registry
stopping_begun = refl

stopping_op : power_op_of stopping desk ≡ some stop_operation
unfolding registry
stopping_op = refl

stopping_live : stopping.draining ≡ false
unfolding registry
stopping_live = refl

stopping_blocked : is_blocked stopping desk ≡ true
unfolding registry
stopping_blocked = refl

stop_rejected :
    is_blocked (step stopping (finishes_power desk stop_operation power_rejected)) desk ≡ false
unfolding registry
stop_rejected = refl

stopping-Inv : Inv stopping
stopping-Inv = step-Inv new_control_registry (begins_power desk "stop") tt new-Inv

quarantine_lifted_example :
    (o : PowerOperation) × (outcome : PowerOutcome) × (finishes_power desk stop_operation
        power_rejected
      ≡ finishes_power desk o outcome)
    × (is_reservation (power_op_of stopping desk) o ≡ true)
    × (stopping.draining ≡ false)
    × Lifts o outcome
quarantine_lifted_example =
    quarantine_lifted stopping (finishes_power desk stop_operation power_rejected) desk
      stopping_blocked stop_rejected

begin-finish_example :
    (is_blocked (finish_power stopping desk stop_operation power_succeeded) desk
      ≡ blocked_after (is_blocked new_control_registry desk) stop_operation power_succeeded)
    × (power_op_of (finish_power stopping desk stop_operation power_succeeded) desk ≡ none)
    × (stop_operation.action ≡ "stop")
begin-finish_example =
    begin-finish new_control_registry desk "stop" stopping stop_operation stopping power_succeeded
      stopping_begun stopping-Inv stopping_op stopping_live

agent_holds_active : active_of agent_holds desk ≡ some 0
unfolding registry
agent_holds_active = refl

agent_gone : active_of (step agent_holds (unlists desk 0)) desk ≢ some 0
unfolding registry
agent_gone = λ h. cc

lease_removed_example : unlists desk 0 ≡ unlists desk 0
lease_removed_example =
    lease_removed agent_holds (unlists desk 0) desk 0 agent_holds_active agent_gone

abbrev takeover : Event
takeover = acquires false desk human true

agent_holds_lease : (0 < agent_holds.next) × ((agent_holds.controllers 0).cancelled ≡ false)
unfolding registry
agent_holds_lease = (omega arith, refl)

takeover_cancels : ((step agent_holds takeover).controllers 0).cancelled ≡ true
unfolding registry
takeover_cancels = refl

lease_revoked_example : Revokes agent_holds 0 takeover
lease_revoked_example =
    lease_revoked agent_holds takeover 0 agent_holds_lease.0 agent_holds_lease.1 takeover_cancels

generation_moves_example :
    Grants new_control_registry agent_holds desk ⊎ NoGrant new_control_registry agent_holds desk
generation_moves_example = generation_moves new_control_registry agent_lease desk

abbrev taken : ControlRegistry
taken = (acquire_begin agent_holds false desk human true).0

abbrev let_go : ControlRegistry
let_go = step (step taken (unlists desk 0)) (closes 0)

unlisted : (d : String) → active_of (step taken (unlists desk 0)) d ≢ some 0
unfolding registry
unlisted d = λ h. cc

let_go-Meanwhile : Meanwhile desk taken let_go
let_go-Meanwhile = and_then (and_then at_once (unlists desk 0) tt tt) (closes 0) unlisted tt

let_go_done : (let_go.controllers 0).done ≡ true
unfolding registry
let_go_done = refl

takeover_granted_example :
    ((taken.controllers 0).cancelled ≡ true)
    × ((acquire_finish let_go previous_done false desk human).1 ≡ granted let_go.next)
    × (status (acquire_finish let_go previous_done false desk human).0 desk
        ≡ (some human, (generation_of let_go desk + 1) % 2 ^ 64, true))
    × (takeover_of (acquire_finish let_go previous_done false desk human).0 desk ≡ none)
takeover_granted_example =
    takeover_granted agent_holds false desk human true 0 let_go agent_holds-Inv human_waits
      let_go-Meanwhile let_go_done

IsDrained-for_good_example :
    IsDrained agent_holds (step (revoke_all agent_holds) (acquires_agent desk 120 2000))
IsDrained-for_good_example =
    let drained : Reach (revoke_all agent_holds) (revoke_all agent_holds) = here in
    IsDrained-for_good (next drained (acquires_agent desk 120 2000) tt)

agent_holds_ttl :
    ((agent_holds.controllers 0).actor ≡ agent) × (0 < (agent_holds.controllers 0).ttl)
unfolding registry
agent_holds_ttl = (refl, omega arith)

touch-expire_example :
    let s = touch_agent agent_holds desk 1500 in
    (1600 ≤ 1500 + (agent_holds.controllers 0).ttl → expire_round s desk 0 (some 1600) ≡ (s, false))
    × (1500 + (agent_holds.controllers 0).ttl < 1600
        → ((expire_round s desk 0 (some 1600)).1 ≡ true)
          × (active_of (expire_round s desk 0 (some 1600)).0 desk ≡ none)
          × (((expire_round s desk 0 (some 1600)).0.controllers 0).done ≡ true))
touch-expire_example =
    touch-expire agent_holds desk 0 1500 1600 agent_holds_active agent_holds_ttl.0 agent_holds_ttl.1

agent_holds_owner : agent_owner agent_holds desk ≡ some 0
unfolding registry
agent_holds_owner = refl

agent_release_spares_human_example :
    ((agent_holds.controllers 0).actor ≡ agent)
    × ((j : ℕ)
        → active_of agent_holds desk ≡ some j
        → (agent_holds.controllers j).actor ≡ human
        → active_of (release agent_holds desk 0) desk ≡ some j)
    × (active_of agent_holds desk ≡ some 0 → active_of (release agent_holds desk 0) desk ≡ none)
agent_release_spares_human_example =
    agent_release_spares_human agent_holds desk 0 agent_holds agent_holds-Inv agent_holds_owner here
