-- ===== src/Mavlink/Bridge/Command.antt =====
-- backend/pkg/mavlink/mission.go and bridge.go: the commands of COMMAND_LONG and their answers.
use swarm_communication.Prelude.{
  ℕ, Bool, true, false, not, ◌||◌, Option, none, some, List, [], ◌∷◌, ◌++◌, length, ◌==◌,
  if◌then◌else◌,
}
use swarm_communication.Prelude.Int.{pos_part}
use swarm_communication.Prelude.Map.{Map, lookup, insert}
use swarm_communication.Health.{Float64, zero_f, ltb_f, eq_f}
use swarm_communication.Cluster.Member.{NodeId}
use swarm_communication.Mavlink.Vector.{Position, of_nat, truncate}
use swarm_communication.Mavlink.Mover.{set_target, clear_target}
use swarm_communication.Mavlink.Vehicles.{node_of}
use swarm_communication.Mavlink.Bridge.{
  Message, Sender, Status, Vehicle, Mission, Bridge, BridgeConfig, send, statusf, severity_warning,
  vehicle_by_sys_id,
}
use swarm_communication.Mavlink.Bridge.Fly.{release_items}
use swarm_communication.Mavlink.Bridge.Assign.{run_missions}
use swarm_communication.Mavlink.CommandResult

-- What the commands read of COMMAND_LONG.
pub record CommandLong : Type 0 where
  pub param1 : Float64
  pub param7 : Float64
  pub command : ℕ
  pub target_system : ℕ

-- MAV_CMD, by the values of dialect.go, and the commands that are not supported.
pub data Command : Type 0 where
  arm_disarm takeoff land return_to_launch mission_start request_message other : Command

unfoldable pub command_of : ℕ → Command
command_of c =
    if c == 400
    then Command.arm_disarm
    else if c == 22
    then Command.takeoff
    else if c == 21
    then Command.land
    else if c == 20
    then Command.return_to_launch
    else if c == 300
    then Command.mission_start
    else if c == 512
    then Command.request_message
    else Command.other

-- A vehicle in its place.
unfoldable pub put_vehicle : NodeId → Vehicle → Bridge → Bridge
put_vehicle node v b = record b { vs = insert node v b.vs }

-- cmdArm
unfoldable pub cmd_arm : NodeId → Vehicle → CommandLong → Bridge → ℕ × Bridge
unfolding put_vehicle of_nat
cmd_arm node v m b =
    if eq_f m.param1 (of_nat 1)
    then (CommandResult.accepted, put_vehicle node (record v { armed = true }) b)
    else if eq_f m.param1 zero_f
    then (
      CommandResult.accepted,
      put_vehicle node (record v { armed = false; mover = clear_target v.mover }) b,
    )
    else (CommandResult.denied, b)

-- An operator's target: the vehicle flies to it, and the items that it was flying are free.
unfoldable pub take_over : NodeId → Vehicle → Position → Bridge → Bridge
unfolding put_vehicle release_items
take_over node v p b =
    release_items node (put_vehicle node (record v { mover = set_target p v.mover }) b)

-- cmdTakeoff, cmdLand and cmdReturnToLaunch
unfoldable pub takeoff_goal : BridgeConfig → Vehicle → CommandLong → Position
takeoff_goal cfg v m = record (v.mover.at) {
  z = cfg.world.fm.div m.param7 cfg.projection.metres_per_unit;
}

unfoldable pub land_goal : Vehicle → Position
land_goal v = record (v.mover.at) { z = zero_f }

unfoldable pub cmd_takeoff : BridgeConfig → NodeId → Vehicle → CommandLong → Bridge → ℕ × Bridge
unfolding statusf take_over takeoff_goal
cmd_takeoff cfg node v m b =
    if not v.armed
    then (
      CommandResult.temporarily_rejected,
      statusf v.sys_id severity_warning Status.takeoff_refused b,
    )
    else if not (ltb_f zero_f m.param7)
    then (CommandResult.denied, b)
    else (CommandResult.accepted, take_over node v (takeoff_goal cfg v m) b)

unfoldable pub cmd_land : NodeId → Vehicle → Bridge → ℕ × Bridge
unfolding take_over land_goal
cmd_land node v b = (CommandResult.accepted, take_over node v (land_goal v) b)

unfoldable pub cmd_return_to_launch : NodeId → Vehicle → Bridge → ℕ × Bridge
unfolding take_over
cmd_return_to_launch node v b = (CommandResult.accepted, take_over node v v.mover.home b)

-- cmdMissionStart
unfoldable pub start_mission : BridgeConfig → Vehicle → Mission → Bridge → ℕ × Bridge
unfolding statusf run_missions
start_mission cfg v ms b =
    if length ms.items == 0
    then (CommandResult.denied, statusf v.sys_id severity_warning Status.no_mission_to_start b)
    else if not v.armed
    then (
      CommandResult.temporarily_rejected,
      statusf v.sys_id severity_warning Status.mission_refused b,
    )
    else (
      CommandResult.accepted,
      run_missions cfg
          (record b { missions = insert v.sys_id (record ms { started = true }) b.missions }),
    )

unfoldable pub cmd_mission_start : BridgeConfig → Vehicle → Bridge → ℕ × Bridge
unfolding statusf start_mission
cmd_mission_start cfg v b = elim (lookup v.sys_id b.missions) [
  | none ↦ (CommandResult.denied, statusf v.sys_id severity_warning Status.no_mission_to_start b)
  | some ms ↦ start_mission cfg v ms b
]

-- cmdRequestMessage: AUTOPILOT_VERSION, HOME_POSITION, GPS_GLOBAL_ORIGIN or EXTENDED_SYS_STATE, where
-- the parameter is a number of 32 bits.
unfoldable pub can_report : ℕ → Bool
can_report id = id == 148 || id == 242 || id == 49 || id == 245

unfoldable pub cmd_request_message : Vehicle → CommandLong → Bridge → ℕ × Bridge
unfolding can_report truncate
cmd_request_message v m b =
    let id = pos_part (truncate m.param1) in
    if can_report id
    then (
      CommandResult.accepted,
      record b { after_ack = b.after_ack ++ (v.sys_id, Message.report id) ∷ [] },
    )
    else (CommandResult.unsupported, b)

-- runCommand
unfoldable pub run : Command → BridgeConfig → NodeId → Vehicle → CommandLong → Bridge → ℕ × Bridge
unfolding cmd_arm cmd_takeoff cmd_land cmd_return_to_launch cmd_mission_start cmd_request_message
run Command.arm_disarm cfg node v m b = cmd_arm node v m b
run Command.takeoff cfg node v m b = cmd_takeoff cfg node v m b
run Command.land cfg node v m b = cmd_land node v b
run Command.return_to_launch cfg node v m b = cmd_return_to_launch node v b
run Command.mission_start cfg node v m b = cmd_mission_start cfg v b
run Command.request_message cfg node v m b = cmd_request_message v m b
run Command.other cfg node v m b = (CommandResult.unsupported, b)

unfoldable pub run_command : BridgeConfig → NodeId → Vehicle → CommandLong → Bridge → ℕ × Bridge
unfolding command_of run
run_command cfg node v m b = run (command_of m.command) cfg node v m b

-- targetSysID
unfoldable pub first_sys_id : List NodeId → Map Vehicle → Option ℕ
first_sys_id [] vs = none
first_sys_id (id ∷ ids) vs =
    let others = first_sys_id ids vs in
    elim (lookup id vs) [ none ↦ others | some v ↦ some v.sys_id ]

unfoldable pub target_sys_id : ℕ → Bridge → Option ℕ
unfolding first_sys_id node_of
target_sys_id target b =
    if target == 0
    then first_sys_id b.order b.vs
    else elim (node_of target b.vehicles) [ none ↦ none | some node ↦ some target ]

-- onCommandLong
unfoldable pub send_all : List (ℕ × Message) → Bridge → Bridge
unfolding send
send_all [] b = b
send_all ((sys_id, m) ∷ rest) b = send_all rest (send sys_id m b)

unfoldable pub commanded : BridgeConfig → ℕ → CommandLong → Bridge → ℕ × Bridge
unfolding vehicle_by_sys_id run_command
commanded cfg sys_id m b = elim (vehicle_by_sys_id sys_id b) [
  | none ↦ (CommandResult.unsupported, b)
  | some (node, v) ↦ run_command cfg node v m b
]

unfoldable pub command_ack : Sender → ℕ → ℕ → Message
command_ack from command result = Message.command_ack (record {
  command = command;
  result = result;
  target_system = from.sys_id;
  target_component = from.comp_id;
})

unfoldable pub acknowledge : Sender → ℕ → ℕ → ℕ × Bridge → Bridge
unfolding send send_all command_ack
acknowledge from sys_id command (result, b) =
    let b' = send sys_id (command_ack from command result) b in
    record (send_all b'.after_ack b') { after_ack = [] }

unfoldable pub on_command_long : BridgeConfig → Sender → CommandLong → Bridge → Bridge
unfolding target_sys_id commanded acknowledge
on_command_long cfg from m b = elim (target_sys_id m.target_system b) [
  | none ↦ b
  | some sys_id ↦ acknowledge from sys_id m.command (commanded cfg sys_id m b)
]
