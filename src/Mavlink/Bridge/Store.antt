-- ===== src/Mavlink/Bridge/Store.antt =====
-- backend/pkg/mavlink/mission.go: the stored missions, which are installed, cleared and jumped in.
use swarm_communication.Prelude.{
  ℕ, ◌%◌, Bool, true, false, not, ◌&&◌, Option, none, some, List, [], ◌∷◌, length, map, ltb, leb,
  ◌==◌, if◌then◌else◌,
}
use swarm_communication.Prelude.Map.{Map, lookup, insert, erase}
use swarm_communication.Cluster.Member.{NodeId}
use swarm_communication.Mavlink.Mover.{clear_target}
use swarm_communication.Mavlink.Bridge.{
  Message, Sender, ItemState, is_pending, is_flying, is_done, Item, Mission, Vehicle, Bridge, send,
  vehicle_by_node, holds_goal,
}
use swarm_communication.Mavlink.Bridge.Answer.{type_mission, mission_target, mission_ack}
use swarm_communication.Mavlink.MissionState
use swarm_communication.Mavlink.MissionResult

-- clearAssignments: each item of the mission, and the movers that still fly one of them.
unfoldable pub freed : Item → Item
freed it = record it { state = ItemState.pending; node = 0 }

unfoldable pub clear_item : Item → Item
unfolding freed
clear_item it = if is_flying it.state then freed it else it

unfoldable pub stop_mover : NodeId → Map Vehicle → Map Vehicle
stop_mover node vs = elim (lookup node vs) [
  | none ↦ vs
  | some v ↦ insert node (record v { mover = clear_target v.mover }) vs
]

unfoldable pub stop_item : Item → Map Vehicle → Map Vehicle
unfolding vehicle_by_node holds_goal stop_mover
stop_item it vs =
    if is_flying it.state
    then elim (vehicle_by_node it.node vs) [
      | none ↦ vs
      | some v ↦ if holds_goal v it then stop_mover it.node vs else vs
    ]
    else vs

unfoldable pub stop_items : List Item → Map Vehicle → Map Vehicle
unfolding stop_item
stop_items [] vs = vs
stop_items (it ∷ items) vs = stop_items items (stop_item it vs)

unfoldable pub clear_assignments : ℕ → Bridge → Bridge
unfolding stop_items clear_item
clear_assignments sys_id b = elim (lookup sys_id b.missions) [
  | none ↦ b
  | some ms ↦ record b {
    vs = stop_items ms.items b.vs;
    missions = insert sys_id (record ms { items = map clear_item ms.items }) b.missions;
  }
]

-- clearMission
unfoldable pub clear_mission : ℕ → Bridge → Bridge
unfolding clear_assignments
clear_mission sys_id b =
    let b' = clear_assignments sys_id b in
    record b' { missions = erase sys_id b'.missions; uploads = erase sys_id b'.uploads }

-- missionComplete, missionCurrent and sendCurrent
unfoldable pub all_done : List Item → Bool
all_done [] = true
all_done (it ∷ items) = if is_done it.state then all_done items else false

unfoldable pub mission_complete : Mission → Bool
unfolding all_done
mission_complete ms = all_done ms.items && not (length ms.items == 0)

unfoldable pub mission_current : Mission → ℕ → Message
unfolding mission_complete
mission_current ms seq = Message.mission_current (record {
  seq = seq;
  total = length ms.items % 65536;
  mission_state =
      if length ms.items == 0
      then MissionState.no_mission
      else if mission_complete ms
      then MissionState.complete
      else if ms.started
      then MissionState.active
      else MissionState.not_started;
})

-- The item being worked on: the first that is not done, or else the last.
unfoldable pub working_item : List Item → Option ℕ
working_item [] = none
working_item (it ∷ items) =
    let later = working_item items in
    if is_done it.state
    then elim later [ none ↦ some it.seq | some seq ↦ some seq ]
    else some it.seq

unfoldable pub send_current : Mission → Bridge → Mission × Bridge
unfolding working_item mission_current send
send_current ms b = elim (working_item ms.items) [
  | none ↦ (ms, b)
  | some cur ↦
      let ms' : Mission = record ms { current = cur; sent_current = true } in
      if ms.sent_current && ms.current == cur
      then (ms, b)
      else (ms', send ms'.exec (mission_current ms' cur) b)
]

-- installMission
unfoldable pub new_mission : Vehicle → List Item → Mission
new_mission v items = record {
  owner = v.sys_id;
  exec = v.sys_id;
  leader_mission = v.leader;
  items = items;
  started = false;
  current = 0;
  sent_current = false;
  members = [];
}

unfoldable pub install_mission : Vehicle → List Item → Bridge → Bridge
unfolding new_mission clear_assignments send_current
install_mission v items b =
    let (ms, b') = send_current (new_mission v items) (clear_assignments v.sys_id b) in
    record b' { missions = insert v.sys_id ms b'.missions }

-- onMissionClearAll
unfoldable pub on_mission_clear_all : Sender → ℕ → ℕ → ℕ → Bridge → Bridge
unfolding mission_target mission_ack clear_mission
on_mission_clear_all from target comp typ b = elim (mission_target target comp b) [
  | none ↦ b
  | some (node, v) ↦
      mission_ack v.sys_id from typ MissionResult.accepted
        (if typ == type_mission then clear_mission v.sys_id b else b)
]

-- onMissionSetCurrent
unfoldable pub abandon : ℕ → Item → Item
abandon seq it =
    if ltb it.seq seq && is_pending it.state then record it { state = ItemState.done } else it

unfoldable pub jump : ℕ → ℕ → Mission → Bridge → Bridge
unfolding abandon mission_current send
jump sys_id seq ms b =
    let ms' : Mission = record ms {
      items = map (abandon seq) ms.items;
      current = seq;
      sent_current = true;
    } in
    send ms'.exec (mission_current ms' seq) (record b { missions = insert sys_id ms' b.missions })

unfoldable pub on_mission_set_current : Sender → ℕ → ℕ → ℕ → Bridge → Bridge
unfolding mission_target mission_ack jump
on_mission_set_current from target comp seq b = elim (mission_target target comp b) [
  | none ↦ b
  | some (node, v) ↦ elim (lookup v.sys_id b.missions) [
    | none ↦ mission_ack v.sys_id from type_mission MissionResult.invalid_sequence b
    | some ms ↦
        if leb (length ms.items) seq
        then mission_ack v.sys_id from type_mission MissionResult.invalid_sequence b
        else jump v.sys_id seq ms b
  ]
]
