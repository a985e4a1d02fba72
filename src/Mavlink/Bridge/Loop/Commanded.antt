-- ===== src/Mavlink/Bridge/Loop/Commanded.antt =====
-- The commands keep the invariant.
use swarm_communication.Prelude.{
  ℕ, ◌≡◌, refl, Bool, true, false, not, some, List, [], ◌∷◌, arith, Bool-cases, Option-cases, inl,
  inr, length, map, ◌==◌, if◌then◌else◌,
}
use swarm_communication.Prelude.Int.{pos_part}
use swarm_communication.Prelude.Map.{Map, lookup, insert, AllEntries}
use swarm_communication.Health.{zero_f, ltb_f, eq_f}
use swarm_communication.Cluster.Member.{NodeId}
use swarm_communication.Mavlink.Vector.{Position, of_nat, truncate}
use swarm_communication.Mavlink.Mover.{set_target}
use swarm_communication.Mavlink.Bridge.{
  Message, Sender, Mission, Vehicle, Bridge, BridgeConfig, send, statusf, vehicle_by_sys_id,
}
use swarm_communication.Mavlink.Bridge.Fly.{release_item, release_in, release_items}
use swarm_communication.Mavlink.Bridge.Command.{
  CommandLong, Command, command_of, put_vehicle, take_over, takeoff_goal, land_goal, cmd_arm,
  cmd_takeoff, cmd_land, cmd_return_to_launch, start_mission, cmd_mission_start, can_report,
  cmd_request_message, run, run_command, target_sys_id, send_all, commanded, command_ack,
  acknowledge, on_command_long,
}
use swarm_communication.Mavlink.Bridge.Flights.{flights-release_in}
use swarm_communication.Mavlink.Bridge.Lifecycle.{
  AdvancesAll-map, AdvancesAll-refl, release_item-Advances,
}
use swarm_communication.Mavlink.Bridge.Sound.{
  IsPlanned, AdvancesAll-IsPlanned, IsSoundBridge, eased-IsSound,
}
use swarm_communication.Mavlink.Bridge.Loop.Elsewhere.{Elsewhere}
use swarm_communication.Mavlink.Bridge.Loop.Flown.{run_missions-IsSound}

release_in-planned :
    (node : NodeId) (m : Map Mission)
    → AllEntries (λ k ms. IsPlanned ms.items) m
    → AllEntries (λ k ms. IsPlanned ms.items) (release_in node m)
unfolding release_in
release_in-planned node [] h = tt
release_in-planned node ((k, ms) ∷ m) h = (
  AdvancesAll-IsPlanned ms.items (map (release_item node) ms.items)
      (AdvancesAll-map (release_item node) (release_item-Advances node) ms.items) h.0,
  release_in-planned node m h.1,
)

pub release_items-IsSound :
    (node : NodeId) (b : Bridge) → IsSoundBridge b → IsSoundBridge (release_items node b)
unfolding release_items
release_items-IsSound node b s = record {
  planned = release_in-planned node b.missions s.planned;
  staged = s.staged;
  one_flight = λ n. omega (arith, s.one_flight n, flights-release_in n node b.missions);
}

take_over-IsSound :
    (node : NodeId) (v : Vehicle) (p : Position) (b : Bridge)
    → IsSoundBridge b
    → IsSoundBridge (take_over node v p b)
unfolding take_over put_vehicle
take_over-IsSound node v p b s =
    release_items-IsSound node (put_vehicle node (record v { mover = set_target p v.mover }) b) s

if-IsSound :
    (c : Bool) (x y : ℕ × Bridge)
    → IsSoundBridge x.1
    → IsSoundBridge y.1
    → IsSoundBridge (if c then x else y).1
if-IsSound true x y p q = p
if-IsSound false x y p q = q

cmd_arm-IsSound :
    (node : NodeId) (v : Vehicle) (m : CommandLong) (b : Bridge)
    → IsSoundBridge b
    → IsSoundBridge (cmd_arm node v m b).1
unfolding cmd_arm put_vehicle
cmd_arm-IsSound node v m b s = elim (Bool-cases (eq_f m.param1 (of_nat 1))) [
  | inl e ↦ rw e s
  | inr e ↦ rw e (elim (Bool-cases (eq_f m.param1 zero_f)) [ inl f ↦ rw f s | inr f ↦ rw f s ])
]

cmd_takeoff-IsSound :
    (cfg : BridgeConfig) (node : NodeId) (v : Vehicle) (m : CommandLong) (b : Bridge)
    → IsSoundBridge b
    → IsSoundBridge (cmd_takeoff cfg node v m b).1
unfolding cmd_takeoff statusf send
cmd_takeoff-IsSound cfg node v m b s = if-IsSound (not v.armed) _ _ s (
    if-IsSound (not (ltb_f zero_f m.param7)) _ _ s
      (take_over-IsSound node v (takeoff_goal cfg v m) b s))

start_mission-IsSound :
    (cfg : BridgeConfig) (v : Vehicle) (ms : Mission) (b : Bridge)
    → lookup v.sys_id b.missions ≡ some ms
    → IsSoundBridge b
    → IsSoundBridge (start_mission cfg v ms b).1
unfolding start_mission statusf send
start_mission-IsSound cfg v ms b e s = if-IsSound (length ms.items == 0) _ _ s (
    if-IsSound (not v.armed) _ _ s (
      run_missions-IsSound cfg
        (record b { missions = insert v.sys_id (record ms { started = true }) b.missions })
        (eased-IsSound s v.sys_id ms (record ms { started = true }) e (AdvancesAll-refl ms.items)
          (λ n. omega arith))))

cmd_mission_start-IsSound :
    (cfg : BridgeConfig) (v : Vehicle) (b : Bridge)
    → IsSoundBridge b
    → IsSoundBridge (cmd_mission_start cfg v b).1
unfolding cmd_mission_start statusf send
cmd_mission_start-IsSound cfg v b s = elim (Option-cases (lookup v.sys_id b.missions)) [
  | inl e ↦ rw (e, cmd_mission_start) s
  | inr (ms, e) ↦ rw (e, cmd_mission_start) (start_mission-IsSound cfg v ms b e s)
]

cmd_request_message-IsSound :
    (v : Vehicle) (m : CommandLong) (b : Bridge)
    → IsSoundBridge b
    → IsSoundBridge (cmd_request_message v m b).1
unfolding cmd_request_message
cmd_request_message-IsSound v m b s =
    elim (Bool-cases (can_report (pos_part (truncate m.param1)))) [
      | inl e ↦ rw e s
      | inr e ↦ rw e s
    ]

run-IsSound :
    (c : Command) (cfg : BridgeConfig) (node : NodeId) (v : Vehicle) (m : CommandLong) (b : Bridge)
    → IsSoundBridge b
    → IsSoundBridge (run c cfg node v m b).1
unfolding run cmd_land cmd_return_to_launch
run-IsSound Command.arm_disarm cfg node v m b s = cmd_arm-IsSound node v m b s
run-IsSound Command.takeoff cfg node v m b s = cmd_takeoff-IsSound cfg node v m b s
run-IsSound Command.land cfg node v m b s = take_over-IsSound node v (land_goal v) b s
run-IsSound Command.return_to_launch cfg node v m b s = take_over-IsSound node v v.mover.home b s
run-IsSound Command.mission_start cfg node v m b s = cmd_mission_start-IsSound cfg v b s
run-IsSound Command.request_message cfg node v m b s = cmd_request_message-IsSound v m b s
run-IsSound Command.other cfg node v m b s = s

send_all-Elsewhere : (ms : List (ℕ × Message)) (b : Bridge) → Elsewhere b (send_all ms b)
unfolding send_all send
send_all-Elsewhere [] b = record { same_missions = refl; same_uploads = refl }
send_all-Elsewhere ((id, m) ∷ ms) b =
    let e = send_all-Elsewhere ms (send id m b) in
    record { same_missions = e.same_missions; same_uploads = e.same_uploads }

acknowledge-IsSound :
    (from : Sender) (id command : ℕ) (r : ℕ × Bridge)
    → IsSoundBridge r.1
    → IsSoundBridge (acknowledge from id command r)
unfolding acknowledge send
acknowledge-IsSound from id command (result, b) s =
    let e = send_all-Elsewhere b.after_ack (send id (command_ack from command result) b) in
    rw (e.same_missions, e.same_uploads) s

pub command-IsSound :
    (cfg : BridgeConfig) (from : Sender) (m : CommandLong) (b : Bridge)
    → IsSoundBridge b
    → IsSoundBridge (on_command_long cfg from m b)
unfolding on_command_long commanded run_command
command-IsSound cfg from m b s = elim (Option-cases (target_sys_id m.target_system b)) [
  | inl e ↦ rw (e, on_command_long) s
  | inr (id, e) ↦
      rw (e, on_command_long)
        (acknowledge-IsSound from id m.command (commanded cfg id m b)
          (elim (Option-cases (vehicle_by_sys_id id b)) [
            | inl f ↦ rw (f, commanded) s
            | inr (r, f) ↦ rw (f, commanded) (run-IsSound (command_of m.command) cfg r.0 r.1 m b s)
          ]))
]
