-- ===== src/Tests/Mission.antt =====
-- The theorems on missions and movers (backend/pkg/mavlink/mission.go, bridge.go and mover.go) at
-- concrete inputs.
use swarm_communication.Prelude.{
  ℕ, ◌≡◌, ap, ◌≢◌, ◌⊎◌, refl, true, false, none, some, List, [], ◌∷◌, arith,
}
use swarm_communication.Prelude.Int.{ℤ, pos, ◌+ℤ◌, ◌-ℤ◌}
use swarm_communication.Prelude.Map.{lookup}
use swarm_communication.Health.{Float64, zero_f}
use swarm_communication.Mavlink.Vector.{origin, clamp_position, sub_p, len_p, size, of_nat, of_int}
use swarm_communication.Mavlink.Vector.Cube.{InRange, InCube}
use swarm_communication.Mavlink.Mover.{Call, new_mover, reached}
use swarm_communication.Mavlink.Mover.Arrival.{
  after, IsInside, ZeroLength, after-IsInside, reached-at,
}
use swarm_communication.Mavlink.Bridge.{ItemState, is_done, is_flying, Bridge}
use swarm_communication.Mavlink.Bridge.Answer.{type_mission, mission_target, on_mission_request}
use swarm_communication.Mavlink.Bridge.Transfer.{accept_item, on_mission_item_int, expire_uploads}
use swarm_communication.Mavlink.Bridge.Transfer.RoundTrip.{
  answer_with, IsPlan, uploaded, request-uploaded,
}
use swarm_communication.Mavlink.Bridge.Transfer.Abandon.{
  Untouched, Completes, live, item-Untouched, lookup-expire_uploads,
}
use swarm_communication.Mavlink.Bridge.Fly.{collect_item, migrate}
use swarm_communication.Mavlink.Bridge.Fly.Credit.{Visited, collect_item-Visited}
use swarm_communication.Mavlink.Bridge.Fly.Elected.{Moves, migrate-Moves}
use swarm_communication.Mavlink.Bridge.Assign.{assign_each, assign_item, run_missions}
use swarm_communication.Mavlink.Bridge.Assign.Order.{
  InOrder, Assigned, assign_each-InOrder, assign_item-Assigned,
}
use swarm_communication.Mavlink.Bridge.Inbound.{Inbound}
use swarm_communication.Mavlink.Bridge.Sound.{IsSoundBridge}
use swarm_communication.Mavlink.Bridge.Loop.{run_loop, new_bridge}
use swarm_communication.Mavlink.Bridge.Loop.Sound.{run_loop-new_bridge}
use swarm_communication.Mavlink.Bridge.Loop.Pass.{StillFlown, run_missions-StillFlown}
use swarm_communication.Tests.Bridge.{
  machine, world, motion, station, station_config, waypoint, plan, flight, grounded, item_at,
  planned, docked,
}

waypoint_accepted : (seq : ℕ) → accept_item station_config (waypoint seq) ≢ none
unfolding accept_item
waypoint_accepted seq = λ e. cc

plan-IsPlan : IsPlan station_config 1 1 0 plan
plan-IsPlan =
    (refl, refl, refl, refl, waypoint_accepted 0, (refl, refl, refl, refl, waypoint_accepted 1, tt))

docked_target : mission_target 1 1 docked ≡ some (1, grounded 1 false)
unfolding mission_target lookup
docked_target = refl

request-uploaded_example :
    (on_mission_request station 1 1 1 type_mission
      (uploaded station_config 3 station 1 1 plan docked)).sent
    ≡ (1, answer_with station (waypoint 1))
      ∷ (uploaded station_config 3 station 1 1 plan docked).sent
request-uploaded_example =
    request-uploaded station_config 3 station station 1 1 1 (grounded 1 false) docked (waypoint 0)
      (waypoint 1 ∷ []) docked_target plan-IsPlan (omega arith) 1 (waypoint 1) refl

item-Untouched_example :
    Untouched docked (on_mission_item_int station_config 9 station (waypoint 7) docked)
    ⊎ Completes station_config
        (waypoint 7)
        docked
        (on_mission_item_int station_config 9 station (waypoint 7) docked)
item-Untouched_example = item-Untouched station_config 9 station (waypoint 7) docked

lookup-expire_uploads_example :
    ((k : ℕ)
      → lookup k (expire_uploads station_config 20 docked).uploads
        ≡ live 10 20 (lookup k docked.uploads))
    × Untouched docked (expire_uploads station_config 20 docked)
lookup-expire_uploads_example = lookup-expire_uploads station_config 20 docked

run_loop-new_bridge_example : IsSoundBridge (run_loop station_config flight new_bridge)
run_loop-new_bridge_example = run_loop-new_bridge station_config flight

migrate-Moves_example :
    (((migrate planned docked).0.exec ≡ 1) ⊎ Moves planned docked (migrate planned docked).0.exec)
    × ((migrate planned docked).0.items ≡ planned.items)
migrate-Moves_example = migrate-Moves planned docked

assign_each-InOrder_example :
    InOrder planned.items (assign_each world (1 ∷ []) 1 [] planned.items docked).0
assign_each-InOrder_example = assign_each-InOrder world (1 ∷ []) 1 [] planned.items docked

assign_item-Assigned_example :
    Assigned [] docked
      (item_at 1 ItemState.pending 0)
      (assign_item world (1 ∷ []) 1 [] (item_at 1 ItemState.pending 0) docked)
assign_item-Assigned_example =
    assign_item-Assigned world (1 ∷ []) 1 [] (item_at 1 ItemState.pending 0) docked

planned_there : lookup 1 docked.missions ≡ some planned
unfolding lookup
planned_there = refl

run_missions-StillFlown_example : StillFlown 1 planned (run_missions station_config docked).missions
run_missions-StillFlown_example =
    run_missions-StillFlown station_config 1 planned docked planned_there

-- A vehicle that has arrived.
abbrev landed : Bridge
landed = record docked {
  vs =
      (
        1,
        record (grounded 1 false) {
          mover = record (new_mover world 1 origin motion) {
            target = some origin;
            has_reached = true;
          };
        },
      )
      ∷ [];
}

landed_done : is_done (collect_item 1 (item_at 0 ItemState.flying 1) landed).0.state ≡ true
unfolding collect_item lookup
landed_done = refl

collect_item-Visited_example :
    (is_flying ItemState.flying ≡ true) × Visited (item_at 0 ItemState.flying 1) landed
collect_item-Visited_example =
    collect_item-Visited 1 (item_at 0 ItemState.flying 1) landed refl landed_done

-- A mover that is told to stay where it is.
abbrev errand : List Call
errand = Call.told origin ∷ Call.stepped (pos 1) ∷ []

origin-InCube : InCube origin
unfolding size of_nat of_int
origin-InCube =
    ((ground arith, ground arith), (ground arith, ground arith), (ground arith, ground arith))

start-IsInside : IsInside (new_mover world 1 origin motion)
unfolding new_mover
start-IsInside = record {
  at_inside = origin-InCube;
  home_inside = origin-InCube;
  target_inside = tt;
}

after-IsInside_example : IsInside (after world errand (new_mover world 1 origin motion))
after-IsInside_example =
    after-IsInside world errand (new_mover world 1 origin motion) start-IsInside

sub_self : (x : ℤ) → x -ℤ x ≡ pos 0
unfolding ◌-ℤ◌
sub_self x = ground arith

zero_difference : (f : Float64) → InRange f → machine.sub f f ≡ zero_f
unfolding size of_nat of_int
zero_difference Float64.nan h = absurd (cc)
zero_difference Float64.neg_inf h = absurd (cc)
zero_difference Float64.pos_inf h = absurd (cc)
zero_difference (Float64.finite x) h = ap (λ i. Float64.finite i) (sub_self x)

machine-ZeroLength : ZeroLength world
unfolding len_p sub_p ◌+ℤ◌
machine-ZeroLength p h =
    let ex = zero_difference p.x h.0 in
    let ey = zero_difference p.y h.1 in let ez = zero_difference p.z h.2 in rw (ex, ey, ez) refl

errand-reached : reached (after world errand (new_mover world 1 origin motion)) ≡ true
unfolding reached after new_mover of_nat clamp_position size ◌+ℤ◌ ◌-ℤ◌
errand-reached = refl

reached-at_example :
    (after world errand (new_mover world 1 origin motion)).target
    ≡ some (after world errand (new_mover world 1 origin motion)).at
reached-at_example =
    reached-at world machine-ZeroLength 1 origin motion errand origin-InCube errand-reached
