-- ===== src/Mavlink/Bridge/Transfer.antt =====
-- backend/pkg/mavlink/mission.go: the upload of a mission, item by item. `now` is cfg.Now().
pub mod Frame
pub mod Abandon
pub mod Installed
pub mod Reached
pub mod Steps
pub mod RoundTrip
use swarm_communication.Prelude.{
  ℕ, suc, ◌+◌, ◌-◌, ◌%◌, Bool, true, false, not, ◌&&◌, ◌||◌, Option, none, some, List, [], ◌∷◌,
  ◌++◌, length, get_elem?, map, ltb, leb, ◌==◌, if◌then◌else◌,
}
use swarm_communication.Prelude.Int.{ℤ, pos, eq_ℤ}
use swarm_communication.Prelude.Map.{Map, lookup, insert, erase}
use swarm_communication.Health.{Float64}
use swarm_communication.Cluster.Member.{NodeId}
use swarm_communication.Mavlink.Vector.{
  FloatMath, Position, Global, Projection, origin, of_nat, round, to_int32, unproject,
}
use swarm_communication.Mavlink.Mover.{clear_target}
use swarm_communication.Mavlink.Bridge.{
  Message, MissionItemInt, MissionCurrent, Sender, Status, ItemKind, ItemState, is_pending,
  is_flying, is_done, Item, Mission, Upload, Vehicle, Bridge, BridgeConfig, send, statusf,
  severity_warning, vehicle_by_sys_id, vehicle_by_node, holds_goal, sorted_keys,
}
use swarm_communication.Mavlink.Bridge.Answer.{
  type_mission, mission_target, mission_ack, request_item,
}
use swarm_communication.Mavlink.Bridge.Store.{clear_mission, install_mission}
use swarm_communication.Mavlink.MissionState
use swarm_communication.Mavlink.MissionResult

-- maxMissionItems
abbrev pub max_mission_items : ℕ
max_mission_items = 500

-- acceptItem, with the kind of a command, and the altitude that a frame gives where it is supported.
unfoldable pub kind_of : ℕ → ItemKind
kind_of cmd =
    if cmd == 16 || cmd == 22
    then ItemKind.fly
    else if cmd == 21
    then ItemKind.land
    else if cmd == 20
    then ItemKind.home
    else ItemKind.skip

unfoldable pub altitude_mm : FloatMath → Projection → MissionItemInt → Option ℤ
unfolding to_int32 round of_nat
altitude_mm fm p m =
    let z = fm.mul m.z (of_nat 1000) in
    if m.frame == 6 || m.frame == 3
    then some (to_int32 (round (fm.add (fm.mul p.origin_alt_m (of_nat 1000)) z)))
    else if m.frame == 5 || m.frame == 0
    then some (to_int32 (round z))
    else none

unfoldable pub new_item : MissionItemInt → Item
unfolding kind_of
new_item m = record {
  seq = m.seq;
  cmd = m.command;
  kind = kind_of m.command;
  at = origin;
  has_xy = false;
  raw = m;
  state = ItemState.pending;
  node = 0;
  goal = origin;
}

abbrev pub navigates : ItemKind → Bool
navigates ItemKind.fly = true
navigates ItemKind.land = true
navigates _ = false

-- Either the accepted item, or none for MAV_MISSION_UNSUPPORTED_FRAME, the one refusal.
unfoldable pub accept_item : BridgeConfig → MissionItemInt → Option Item
unfolding new_item altitude_mm unproject
accept_item cfg m =
    let fm = cfg.world.fm in
    if navigates (kind_of m.command)
    then elim (altitude_mm fm cfg.projection m) [
      | none ↦ none
      | some alt ↦ some (record (new_item m) {
        at = unproject fm cfg.projection (record { lat_e7 = m.x; lon_e7 = m.y; alt_mm = alt });
        has_xy = not (eq_ℤ m.x (pos 0)) || not (eq_ℤ m.y (pos 0));
      })
    ]
    else some (new_item m)

-- onMissionCount
unfoldable pub begin_upload : ℕ → Sender → ℕ → ℕ → Upload
begin_upload now from typ count = record {
  typ = typ;
  count = count;
  next = 0;
  items = [];
  gcs_sys = from.sys_id;
  gcs_comp = from.comp_id;
  last = now;
}

unfoldable pub on_mission_count : ℕ → Sender → ℕ → ℕ → ℕ → ℕ → Bridge → Bridge
unfolding mission_target mission_ack clear_mission request_item begin_upload
on_mission_count now from target comp count typ b = elim (mission_target target comp b) [
  | none ↦ b
  | some (node, v) ↦
      if not (typ == type_mission)
      then mission_ack v.sys_id from typ
          (if ltb 0 count then MissionResult.unsupported else MissionResult.accepted) b
      else if ltb max_mission_items count
      then mission_ack v.sys_id from typ MissionResult.no_space b
      else if count == 0
      then mission_ack v.sys_id from typ MissionResult.accepted (clear_mission v.sys_id b)
      else request_item v.sys_id from 0
          (record b { uploads = insert v.sys_id (begin_upload now from typ count) b.uploads })
]

-- The refusals of onMissionItemInt, which end the transfer.
unfoldable pub end_upload : ℕ → Sender → ℕ → ℕ → Bridge → Bridge
unfolding mission_ack
end_upload sys_id from typ result b =
    let b' = mission_ack sys_id from typ result b in record b' { uploads = erase sys_id b'.uploads }

-- The next item of a transfer, at its place.
unfoldable pub staged : ℕ → Item → Upload → Upload
staged now it up = record up {
  items = up.items ++ it ∷ [];
  next = (up.next + 1) % 65536;
  last = now;
}

unfoldable pub take_item : ℕ → Sender → MissionItemInt → Vehicle → Item → Upload → Bridge → Bridge
unfolding staged request_item install_mission mission_ack
take_item now from m v it up b =
    let up' = staged now it up in
    if ltb up'.next up'.count
    then request_item v.sys_id from up'.next (record b { uploads = insert v.sys_id up' b.uploads })
    else mission_ack v.sys_id from m.mission_type MissionResult.accepted
        (install_mission v up'.items (record b { uploads = erase v.sys_id b.uploads }))

-- onMissionItemInt, once the vehicle and its transfer are found.
unfoldable pub continue_upload :
    BridgeConfig → ℕ → Sender → MissionItemInt → Vehicle → Upload → Bridge → Bridge
unfolding end_upload request_item accept_item take_item
continue_upload cfg now from m v up b =
    if not (m.mission_type == up.typ)
    then end_upload v.sys_id from m.mission_type MissionResult.invalid b
    else if ltb m.seq up.next
    then request_item v.sys_id from up.next
        (record b { uploads = insert v.sys_id (record up { last = now }) b.uploads })
    else if ltb up.next m.seq
    then end_upload v.sys_id from m.mission_type MissionResult.invalid_sequence b
    else elim (accept_item cfg m) [
      | none ↦ end_upload v.sys_id from m.mission_type MissionResult.unsupported_frame b
      | some it ↦ take_item now from m v it up b
    ]

unfoldable pub on_mission_item_int : BridgeConfig → ℕ → Sender → MissionItemInt → Bridge → Bridge
unfolding mission_target mission_ack continue_upload
on_mission_item_int cfg now from m b = elim (mission_target m.target_system m.target_component b) [
  | none ↦ b
  | some (node, v) ↦ elim (lookup v.sys_id b.uploads) [
    | none ↦ mission_ack v.sys_id from m.mission_type MissionResult.error b
    | some up ↦ continue_upload cfg now from m v up b
  ]
]

-- onMissionItem: the item in the integer form, whose latitude and longitude are in degrees.
unfoldable pub e7 : FloatMath → Float64 → ℤ
unfolding to_int32 round of_nat
e7 fm degrees = to_int32 (round (fm.mul degrees (of_nat 10000000)))

unfoldable pub on_mission_item :
    BridgeConfig → ℕ → Sender → Float64 → Float64 → MissionItemInt → Bridge → Bridge
unfolding e7 on_mission_item_int
on_mission_item cfg now from lat lon m b =
    let fm = cfg.world.fm in
    on_mission_item_int cfg now from (record m { x = e7 fm lat; y = e7 fm lon }) b

-- expireUploads, with no time before the upload's own, at which the clock's difference is 0.
unfoldable pub expire_upload : ℕ → ℕ → ℕ → Bridge → Bridge
unfolding send statusf
expire_upload timeout now sys_id b = elim (lookup sys_id b.uploads) [
  | none ↦ b
  | some up ↦
      if ltb (now - up.last) timeout
      then b
      else statusf sys_id severity_warning (Status.upload_stalled up.next up.count) (
          send sys_id
            (Message.mission_ack (record {
              target_system = up.gcs_sys;
              target_component = up.gcs_comp;
              result = MissionResult.operation_cancelled;
              mission_type = up.typ;
            }))
            (record b { uploads = erase sys_id b.uploads }))
]

unfoldable pub expire_each : ℕ → ℕ → List ℕ → Bridge → Bridge
unfolding expire_upload
expire_each timeout now [] b = b
expire_each timeout now (sys_id ∷ ids) b =
    expire_each timeout now ids (expire_upload timeout now sys_id b)

unfoldable pub expire_uploads : BridgeConfig → ℕ → Bridge → Bridge
unfolding expire_each sorted_keys
expire_uploads cfg now b = expire_each cfg.mission_upload_timeout now (sorted_keys b.uploads) b
