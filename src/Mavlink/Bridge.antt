-- ===== src/Mavlink/Bridge.antt =====
-- backend/pkg/mavlink/bridge.go and mission.go: the state of the bridge's loop, and what every handler
-- uses of it.
--
-- A pointer to a vehicle, and a member of a mission, is the node ID under which `vs` has the vehicle. What
-- `send` hands to the socket is logged in `sent`, the newest first, with the system ID that it is from.
pub mod Answer
pub mod Store
pub mod Transfer
pub mod Fly
pub mod Assign
pub mod Command
pub mod Nodes
pub mod Lifecycle
pub mod Flights
pub mod Inbound
pub mod Sound
pub mod Loop
use Prim.Native.String.{String}
use swarm_communication.Prelude.{
  ℕ, ◌+◌, ◌≡◌, Bool, true, false, not, ◌&&◌, Option, none, some, List, [], ◌∷◌, ◌++◌, length, ltb,
  ◌==◌, if◌then◌else◌,
}
use swarm_communication.Prelude.Int.{ℤ}
use swarm_communication.Prelude.Map.{Map, lookup, insert, keys}
use swarm_communication.Prelude.Sort.{sort}
use swarm_communication.Health.{Float64}
use swarm_communication.Cluster.Member.{NodeId}
use swarm_communication.Mavlink.Vector.{Position, Projection, eq_p}
use swarm_communication.Mavlink.Mover.{Mover, MoveConfig, World}
use swarm_communication.Mavlink.Vehicles.{Vehicles, node_of}

-- The messages of the mission protocol, by their fields.
pub record MissionItemInt : Type 0 where
  pub param1 : Float64
  pub param2 : Float64
  pub param3 : Float64
  pub param4 : Float64
  pub x : ℤ
  pub y : ℤ
  pub z : Float64
  pub seq : ℕ
  pub command : ℕ
  pub target_system : ℕ
  pub target_component : ℕ
  pub frame : ℕ
  pub current : ℕ
  pub autocontinue : ℕ
  pub mission_type : ℕ

pub record MissionCount : Type 0 where
  pub count : ℕ
  pub target_system : ℕ
  pub target_component : ℕ
  pub mission_type : ℕ

pub record MissionRequestInt : Type 0 where
  pub seq : ℕ
  pub target_system : ℕ
  pub target_component : ℕ
  pub mission_type : ℕ

pub record MissionAck : Type 0 where
  pub target_system : ℕ
  pub target_component : ℕ
  pub result : ℕ
  pub mission_type : ℕ

pub record MissionCurrent : Type 0 where
  pub seq : ℕ
  pub total : ℕ
  pub mission_state : ℕ

pub record CommandAck : Type 0 where
  pub command : ℕ
  pub result : ℕ
  pub target_system : ℕ
  pub target_component : ℕ

pub record ParamValue : Type 0 where
  pub param_value : Float64
  pub param_count : ℕ
  pub param_index : ℕ
  pub param_id : String
  pub param_type : ℕ

-- The texts of STATUSTEXT, by their format and arguments.
pub data Status : Type 0 where
  takeoff_refused no_mission_to_start mission_refused : Status
  upload_stalled : ℕ → ℕ → Status
  mission_moved : ℕ → Status
  item_skipped : ℕ → ℕ → Status
  swarm_event : NodeId → Status

-- What the bridge sends. `report` is a message that describes a vehicle, by its identifier.
pub data Message : Type 0 where
  mission_count : MissionCount → Message
  mission_request_int : MissionRequestInt → Message
  mission_item_int : MissionItemInt → Message
  mission_ack : MissionAck → Message
  mission_current : MissionCurrent → Message
  mission_item_reached : ℕ → Message
  statustext : ℕ → Status → Message
  command_ack : CommandAck → Message
  param_value : ParamValue → Message
  report : ℕ → Message

-- What the handlers read of the Frame of a message: who sent it.
pub record Sender : Type 0 where
  pub sys_id : ℕ
  pub comp_id : ℕ

-- itemKind and itemState
pub data ItemKind : Type 0 where
  skip fly land home : ItemKind

pub data ItemState : Type 0 where
  pending flying done : ItemState

abbrev pub is_pending : ItemState → Bool
is_pending ItemState.pending = true
is_pending _ = false

abbrev pub is_flying : ItemState → Bool
is_flying ItemState.flying = true
is_flying _ = false

abbrev pub is_done : ItemState → Bool
is_done ItemState.done = true
is_done _ = false

-- missionItem
pub record Item : Type 0 where
  pub seq : ℕ
  pub cmd : ℕ
  pub kind : ItemKind
  pub at : Position
  pub has_xy : Bool
  pub raw : MissionItemInt
  pub state : ItemState
  pub node : NodeId
  pub goal : Position

-- mission
pub record Mission : Type 0 where
  pub owner : ℕ
  pub exec : ℕ
  pub leader_mission : Bool
  pub items : List Item
  pub started : Bool
  pub current : ℕ
  pub sent_current : Bool
  pub members : List NodeId

-- upload
pub record Upload : Type 0 where
  pub typ : ℕ
  pub count : ℕ
  pub next : ℕ
  pub items : List Item
  pub gcs_sys : ℕ
  pub gcs_comp : ℕ
  pub last : ℕ

-- MissionTask, whose kind is a constant.
pub record MissionTask : Type 0 where
  pub node : NodeId
  pub seq : ℕ
  pub at : Position

-- vehicle, without its battery, its attitude and the counters that only telemetry reads.
pub record Vehicle : Type 0 where
  pub sys_id : ℕ
  pub mover : Mover
  pub leader : Bool
  pub leader_id : NodeId
  pub armed : Bool
  pub connected : Bool
  pub pushed : Position
  pub seen : Bool

pub record BridgeConfig : Type 0 where
  pub world : World
  pub projection : Projection
  pub move : MoveConfig
  pub mission_upload_timeout : ℕ
  -- A node ID as text, in bytes.
  pub name : NodeId → List ℕ

pub record Bridge : Type 0 where
  pub vehicles : Vehicles
  pub vs : Map Vehicle
  pub order : List NodeId
  pub missions : Map Mission
  pub uploads : Map Upload
  pub after_ack : List (ℕ × Message)
  pub tasks : List MissionTask
  pub sent : List (ℕ × Message)

-- send
unfoldable pub send : ℕ → Message → Bridge → Bridge
send sys_id m b = record b { sent = (sys_id, m) ∷ b.sent }

-- SeverityCritical, SeverityWarning and SeverityInfo
abbrev pub severity_critical : ℕ
severity_critical = 2

abbrev pub severity_warning : ℕ
severity_warning = 4

abbrev pub severity_info : ℕ
severity_info = 6

-- statusf
unfoldable pub statusf : ℕ → ℕ → Status → Bridge → Bridge
unfolding send
statusf sys_id severity text b = send sys_id (Message.statustext severity text) b

-- vehicleBySysID and vehicleByNode, the first with the node of the vehicle.
unfoldable pub vehicle_by_sys_id : ℕ → Bridge → Option (NodeId × Vehicle)
unfolding node_of
vehicle_by_sys_id sys_id b = elim (node_of sys_id b.vehicles) [
  | none ↦ none
  | some node ↦ elim (lookup node b.vs) [ none ↦ none | some v ↦ some (node, v) ]
]

unfoldable pub vehicle_by_node : NodeId → Map Vehicle → Option Vehicle
vehicle_by_node node vs = if node == 0 then none else lookup node vs

-- holdsGoal
unfoldable pub holds_goal : Vehicle → Item → Bool
holds_goal v it = elim v.mover.target [ none ↦ false | some p ↦ eq_p p it.goal ]

-- missionOrder, and the sorted keys of another map.
unfoldable pub sorted_keys : {V : Type 0} → Map V → List ℕ
sorted_keys entries = sort ltb (keys entries)

-- taskDepth and queueTask
abbrev pub task_depth : ℕ
task_depth = 64

unfoldable pub queue_task : MissionTask → Bridge → Bridge
queue_task t b =
    if ltb (length b.tasks) task_depth then record b { tasks = b.tasks ++ t ∷ [] } else b
