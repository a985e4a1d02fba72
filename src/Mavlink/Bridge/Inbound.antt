-- ===== src/Mavlink/Bridge/Inbound.antt =====
-- backend/pkg/mavlink/bridge.go: the parameters, and the message of a datagram that is decoded.
pub mod Reply
mod Uploads
pub mod Answered
use Prim.Native.String.{String}
use text.Mathlib.Text.{◌==◌ as str_eq}
use swarm_communication.Prelude.{
  ℕ, suc, ◌+◌, Bool, true, false, Option, none, some, List, [], ◌∷◌, length, get_elem?, ◌==◌,
  if◌then◌else◌,
}
use swarm_communication.Prelude.Int.{ℤ, pos, negsuc}
use swarm_communication.Prelude.Map.{lookup}
use swarm_communication.Health.{Float64, zero_f}
use swarm_communication.Cluster.Member.{NodeId}
use swarm_communication.Mavlink.Vector.{of_nat}
use swarm_communication.Mavlink.Bridge.{
  Message, MissionItemInt, Sender, Vehicle, Bridge, BridgeConfig, send, vehicle_by_sys_id,
}
use swarm_communication.Mavlink.Bridge.Answer.{on_mission_request_list, on_mission_request}
use swarm_communication.Mavlink.Bridge.Store.{on_mission_clear_all, on_mission_set_current}
use swarm_communication.Mavlink.Bridge.Transfer.{
  on_mission_count, on_mission_item_int, on_mission_item,
}
use swarm_communication.Mavlink.Bridge.Command.{CommandLong, on_command_long}

-- param: its name, and MAV_PARAM_TYPE_INT32 or MAV_PARAM_TYPE_REAL32.
pub record Param : Type 0 where
  pub name : String
  pub typ : ℕ
  pub value : BridgeConfig → Vehicle → Float64

-- bridgeParams
abbrev pub bridge_params : List Param
bridge_params =
    record { name = "SYSID_THISMAV"; typ = 6; value = λ cfg v. of_nat v.sys_id }
    ∷ record {
      name = "SWARM_LEADER";
      typ = 6;
      value = λ cfg v. if v.leader then of_nat 1 else zero_f;
    }
    ∷ record {
      name = "SWARM_M_PER_UNIT";
      typ = 9;
      value = λ cfg v. cfg.world.fm.to_float32 cfg.projection.metres_per_unit;
    }
    ∷ record {
      name = "SWARM_SPEED";
      typ = 9;
      value = λ cfg v. cfg.world.fm.to_float32 cfg.move.speed_units_per_sec;
    }
    ∷ record {
      name = "SWARM_DRIFT_R";
      typ = 9;
      value = λ cfg v.
          if cfg.move.drift_disabled then zero_f else cfg.world.fm.to_float32 cfg.move.drift_radius;
    }
    ∷ []

-- paramValue
unfoldable pub param_value : BridgeConfig → Vehicle → ℕ → Param → Message
param_value cfg v i p = Message.param_value (record {
  param_value = p.value cfg v;
  param_count = length bridge_params;
  param_index = i;
  param_id = p.name;
  param_type = p.typ;
})

-- sendParams, from an index on.
unfoldable pub send_params : BridgeConfig → Vehicle → ℕ → List Param → Bridge → Bridge
unfolding param_value send
send_params cfg v i [] b = b
send_params cfg v i (p ∷ ps) b =
    send_params cfg v (suc i) ps (send v.sys_id (param_value cfg v i p) b)

-- onParamRequestList
unfoldable pub send_every : BridgeConfig → List NodeId → Bridge → Bridge
unfolding send_params
send_every cfg [] b = b
send_every cfg (id ∷ ids) b =
    send_every cfg ids
      (elim (lookup id b.vs) [ none ↦ b | some v ↦ send_params cfg v 0 bridge_params b ])

unfoldable pub on_param_request_list : BridgeConfig → ℕ → Bridge → Bridge
unfolding send_every send_params vehicle_by_sys_id
on_param_request_list cfg target b =
    if target == 0 then send_every cfg b.order b else elim (vehicle_by_sys_id target b) [
      | none ↦ b
      | some (node, v) ↦ send_params cfg v 0 bridge_params b
    ]

-- onParamRequestRead
unfoldable pub param_index : String → ℕ → List Param → Option ℕ
param_index name i [] = none
param_index name i (p ∷ ps) =
    let later = param_index name (suc i) ps in if str_eq p.name name then some i else later

unfoldable pub requested_index : ℤ → String → Option ℕ
unfolding param_index
requested_index (pos i) name = some i
requested_index (negsuc i) name = param_index name 0 bridge_params

unfoldable pub on_param_request_read : BridgeConfig → ℕ → ℤ → String → Bridge → Bridge
unfolding requested_index param_value send vehicle_by_sys_id
on_param_request_read cfg target index name b = elim (vehicle_by_sys_id target b) [
  | none ↦ b
  | some (node, v) ↦ elim (requested_index index name) [
    | none ↦ b
    | some i ↦ elim (get_elem? bridge_params i) [
      | none ↦ b
      | some p ↦ send v.sys_id (param_value cfg v i p) b
    ]
  ]
]

-- The messages that onDatagram tells apart. A MISSION_ITEM has its latitude and longitude in degrees
-- before its other fields.
pub data Inbound : Type 0 where
  param_request_list : ℕ → Inbound
  param_request_read : ℕ → ℤ → String → Inbound
  command_long : CommandLong → Inbound
  mission_request_list : ℕ → ℕ → ℕ → Inbound
  mission_request_int mission_request : ℕ → ℕ → ℕ → ℕ → Inbound
  mission_count : ℕ → ℕ → ℕ → ℕ → Inbound
  mission_item_int : MissionItemInt → Inbound
  mission_item : Float64 → Float64 → MissionItemInt → Inbound
  mission_clear_all : ℕ → ℕ → ℕ → Inbound
  mission_set_current : ℕ → ℕ → ℕ → Inbound
  mission_ack other : Inbound

-- onDatagram, once the frame is decoded and its sender learned.
unfoldable pub on_message : BridgeConfig → ℕ → Sender → Inbound → Bridge → Bridge
unfolding on_param_request_list on_param_request_read on_command_long on_mission_request_list
    on_mission_request on_mission_count on_mission_item_int on_mission_item on_mission_clear_all
    on_mission_set_current
on_message cfg now from (Inbound.param_request_list target) b = on_param_request_list cfg target b
on_message cfg now from (Inbound.param_request_read target index name) b =
    on_param_request_read cfg target index name b
on_message cfg now from (Inbound.command_long m) b = on_command_long cfg from m b
on_message cfg now from (Inbound.mission_request_list target comp typ) b =
    on_mission_request_list from target comp typ b
on_message cfg now from (Inbound.mission_request_int target comp seq typ) b =
    on_mission_request from target comp seq typ b
on_message cfg now from (Inbound.mission_request target comp seq typ) b =
    on_mission_request from target comp seq typ b
on_message cfg now from (Inbound.mission_count target comp count typ) b =
    on_mission_count now from target comp count typ b
on_message cfg now from (Inbound.mission_item_int m) b = on_mission_item_int cfg now from m b
on_message cfg now from (Inbound.mission_item lat lon m) b =
    on_mission_item cfg now from lat lon m b
on_message cfg now from (Inbound.mission_clear_all target comp typ) b =
    on_mission_clear_all from target comp typ b
on_message cfg now from (Inbound.mission_set_current target comp seq) b =
    on_mission_set_current from target comp seq b
on_message cfg now from Inbound.mission_ack b = b
on_message cfg now from Inbound.other b = b
