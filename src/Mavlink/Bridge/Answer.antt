-- ===== src/Mavlink/Bridge/Answer.antt =====
-- backend/pkg/mavlink/mission.go: whom a mission message is for, and the download.
-- The latch on the log line about broadcast requests is left out.
use swarm_communication.Prelude.{
  ℕ, ◌%◌, not, ◌&&◌, Option, none, some, length, get_elem?, ◌==◌, if◌then◌else◌,
}
use swarm_communication.Prelude.Map.{lookup}
use swarm_communication.Cluster.Member.{NodeId}
use swarm_communication.Mavlink.Bridge.{
  Message, MissionItemInt, Sender, Item, Vehicle, Bridge, send, vehicle_by_sys_id,
}
use swarm_communication.Mavlink.MissionResult

-- MissionTypeMission
abbrev pub type_mission : ℕ
type_mission = 0

-- missionTarget
unfoldable pub mission_target : ℕ → ℕ → Bridge → Option (NodeId × Vehicle)
unfolding vehicle_by_sys_id
mission_target target comp b =
    if not (comp == 0) && not (comp == 1)
    then none
    else if target == 0
    then none
    else vehicle_by_sys_id target b

-- missionAck
unfoldable pub mission_ack : ℕ → Sender → ℕ → ℕ → Bridge → Bridge
unfolding send
mission_ack sys_id from typ result b =
    send sys_id
      (Message.mission_ack (record {
        target_system = from.sys_id;
        target_component = from.comp_id;
        result = result;
        mission_type = typ;
      }))
      b

-- onMissionRequestList
unfoldable pub mission_length : ℕ → ℕ → Bridge → ℕ
mission_length typ sys_id b =
    if typ == type_mission
    then elim (lookup sys_id b.missions) [ none ↦ 0 | some ms ↦ length ms.items ]
    else 0

unfoldable pub on_mission_request_list : Sender → ℕ → ℕ → ℕ → Bridge → Bridge
unfolding mission_target mission_length send
on_mission_request_list from target comp typ b = elim (mission_target target comp b) [
  | none ↦ b
  | some (node, v) ↦
      send v.sys_id
        (Message.mission_count (record {
          count = mission_length typ v.sys_id b % 65536;
          target_system = from.sys_id;
          target_component = from.comp_id;
          mission_type = typ;
        }))
        b
]

-- onMissionRequest
unfoldable pub mission_item : ℕ → ℕ → ℕ → Bridge → Option Item
mission_item typ sys_id seq b =
    if typ == type_mission
    then elim (lookup sys_id b.missions) [ none ↦ none | some ms ↦ get_elem? ms.items seq ]
    else none

-- The item as it arrived, addressed to who asks.
unfoldable pub echoed : Sender → MissionItemInt → MissionItemInt
echoed from raw = record raw {
  target_system = from.sys_id;
  target_component = from.comp_id;
  mission_type = type_mission;
}

unfoldable pub on_mission_request : Sender → ℕ → ℕ → ℕ → ℕ → Bridge → Bridge
unfolding mission_target mission_item echoed mission_ack send
on_mission_request from target comp seq typ b = elim (mission_target target comp b) [
  | none ↦ b
  | some (node, v) ↦ elim (mission_item typ v.sys_id seq b) [
    | none ↦ mission_ack v.sys_id from typ MissionResult.invalid_sequence b
    | some it ↦ send v.sys_id (Message.mission_item_int (echoed from it.raw)) b
  ]
]

-- requestItem
unfoldable pub request_item : ℕ → Sender → ℕ → Bridge → Bridge
unfolding send
request_item sys_id from seq b =
    send sys_id
      (Message.mission_request_int (record {
        seq = seq;
        target_system = from.sys_id;
        target_component = from.comp_id;
        mission_type = type_mission;
      }))
      b
