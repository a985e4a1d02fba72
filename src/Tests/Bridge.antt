-- ===== src/Tests/Bridge.antt =====
-- Data for the missions of the MAVLink bridge (backend/pkg/mavlink/mission.go, bridge.go and mover.go), and
-- runs of its loop.
use swarm_communication.Prelude.{
  ℕ, ◌+◌, ◌≡◌, refl, Bool, true, false, none, some, List, [], ◌∷◌, ◌++◌, map,
}
use swarm_communication.Prelude.Int.{pos, ◌+ℤ◌, ◌-ℤ◌}
use swarm_communication.Prelude.Map.{lookup, insert}
use swarm_communication.Prelude.Sort.{sort}
use swarm_communication.Mavlink.Vehicles.{sys_id}
use swarm_communication.Health.{Float64, zero_f}
use swarm_communication.Cluster.Member.{NodeId}
use swarm_communication.Mavlink.Vector.{FloatMath, origin, of_nat, clamp_position, size}
use swarm_communication.Mavlink.Mover.{MoveConfig, IdleMode, World, new_mover, clear_target}
use swarm_communication.Mavlink.Bridge.{
  Sender, MissionItemInt, ItemKind, ItemState, Item, Mission, Upload, Bridge, BridgeConfig, Vehicle,
}
use swarm_communication.Mavlink.Bridge.Nodes.{NodeState}
use swarm_communication.Mavlink.Bridge.Inbound.{Inbound}
use swarm_communication.Mavlink.Bridge.Loop.{Event, run_loop, new_bridge}

-- Exact sums and differences; the other operations give back their first argument.
abbrev pub add_exact : Float64 → Float64 → Float64
add_exact (Float64.finite x) (Float64.finite y) = Float64.finite (x +ℤ y)
add_exact _ _ = Float64.nan

abbrev pub sub_exact : Float64 → Float64 → Float64
sub_exact (Float64.finite x) (Float64.finite y) = Float64.finite (x -ℤ y)
sub_exact _ _ = Float64.nan

abbrev pub machine : FloatMath
machine = record {
  add = add_exact;
  sub = sub_exact;
  mul = λ a b. a;
  div = λ a b. a;
  sqrt = λ a. a;
  sin = λ a. a;
  cos = λ a. a;
  mod_f = λ a b. a;
  hypot = λ a b. a;
  atan2 = λ a b. a;
  to_float32 = λ a. a;
}

abbrev pub world : World
world = record { fm = machine; draw = λ node i. of_nat 1; seconds = λ dt. of_nat 1 }

abbrev pub motion : MoveConfig
motion = record {
  speed_units_per_sec = of_nat 3;
  idle = IdleMode.still;
  drift_disabled = false;
  drift_radius = of_nat 4;
  drift_speed = of_nat 1;
}

-- A configuration whose nodes are named by a digit.
abbrev pub station_config : BridgeConfig
station_config = record {
  world = world;
  projection = record {
    origin_lat = zero_f;
    origin_lon = zero_f;
    origin_alt_m = zero_f;
    metres_per_unit = of_nat 1;
  };
  move = motion;
  mission_upload_timeout = 10;
  name = λ node. 118 ∷ ((48 + node) ∷ []);
}

abbrev pub station : Sender
station = record { sys_id = 255; comp_id = 190 }

-- A waypoint to (5, 5, 5), in the frame that QGroundControl plans in.
abbrev pub waypoint : ℕ → MissionItemInt
waypoint seq = record {
  param1 = zero_f;
  param2 = zero_f;
  param3 = zero_f;
  param4 = zero_f;
  x = pos 5;
  y = pos 5;
  z = of_nat 5;
  seq = seq;
  command = 16;
  target_system = 1;
  target_component = 1;
  frame = 6;
  current = 0;
  autocontinue = 1;
  mission_type = 0;
}

abbrev pub plan : List MissionItemInt
plan = waypoint 0 ∷ waypoint 1 ∷ []

-- A leader and its worker, seen and uploaded to and started, and disarmed.
abbrev pub seen_node : NodeId → Bool → NodeState
seen_node id leader = record {
  id = id;
  leader = leader;
  leader_id = 1;
  connected = true;
  at = origin;
}

abbrev pub order : ℕ → Float64 → Event
order command param1 = Event.heard 0 station (
    Inbound.command_long
      (record { param1 = param1; param7 = zero_f; command = command; target_system = 1 }))

abbrev pub flight : List Event
flight =
    Event.synced (seen_node 1 true ∷ seen_node 2 false ∷ [])
    ∷ Event.heard 0 station (Inbound.mission_count 1 1 2 0)
    ∷ Event.heard 1 station (Inbound.mission_item_int (waypoint 0))
    ∷ Event.heard 2 station (Inbound.mission_item_int (waypoint 1))
    ∷ order 400 (of_nat 1)
    ∷ order 300 zero_f
    ∷ []

abbrev pub disarmed : List Event
disarmed = flight ++ order 400 zero_f ∷ []

abbrev pub flown_by : Bridge → List NodeId
flown_by b = elim (lookup 1 b.missions) [ none ↦ [] | some ms ↦ map (λ it. it.node) ms.items ]

abbrev pub armed_flags : Bridge → List Bool
armed_flags b = map (λ (e : ℕ × Vehicle). (e.1).armed) b.vs

-- The two items go to the two vehicles. One that is disarmed is armed again by the next pass, which gives
-- it the item back.
flight_shared : flown_by (run_loop station_config flight new_bridge) ≡ 1 ∷ 2 ∷ []
unfolding run_loop of_nat lookup sys_id insert ◌+ℤ◌ ◌-ℤ◌ sort
flight_shared = refl

disarmed_flags : armed_flags (run_loop station_config disarmed new_bridge) ≡ false ∷ true ∷ []
unfolding run_loop of_nat lookup sys_id insert ◌+ℤ◌ ◌-ℤ◌ sort
disarmed_flags = refl

disarmed_again :
    armed_flags (run_loop station_config (disarmed ++ Event.position_tick (pos 1) ∷ []) new_bridge)
    ≡ true ∷ true ∷ []
unfolding run_loop of_nat lookup sys_id insert ◌+ℤ◌ ◌-ℤ◌ sort clear_target clamp_position size
disarmed_again = refl

-- A bridge with a leader on the ground, and a transfer that has its first item.
abbrev pub grounded : ℕ → Bool → Vehicle
grounded id leader = record {
  sys_id = id;
  mover = new_mover world id origin motion;
  leader = leader;
  leader_id = 1;
  armed = true;
  connected = true;
  pushed = origin;
  seen = true;
}

abbrev pub item_at : ℕ → ItemState → NodeId → Item
item_at seq state node = record {
  seq = seq;
  cmd = 16;
  kind = ItemKind.fly;
  at = origin;
  has_xy = true;
  raw = waypoint seq;
  state = state;
  node = node;
  goal = origin;
}

abbrev pub transfer : Upload
transfer = record {
  typ = 0;
  count = 2;
  next = 1;
  items = item_at 0 ItemState.pending 0 ∷ [];
  gcs_sys = 255;
  gcs_comp = 190;
  last = 4;
}

abbrev pub planned : Mission
planned = record {
  owner = 1;
  exec = 1;
  leader_mission = true;
  items = item_at 0 ItemState.done 1 ∷ item_at 1 ItemState.pending 0 ∷ [];
  started = true;
  current = 0;
  sent_current = false;
  members = 1 ∷ [];
}

abbrev pub docked : Bridge
docked = record new_bridge {
  vehicles = record { by_node = (1, 1) ∷ (2, 2) ∷ []; by_sys = (1, 1) ∷ (2, 2) ∷ [] };
  vs = (1, grounded 1 false) ∷ (2, grounded 2 true) ∷ [];
  order = 1 ∷ 2 ∷ [];
  missions = (1, planned) ∷ [];
  uploads = (1, transfer) ∷ [];
}
