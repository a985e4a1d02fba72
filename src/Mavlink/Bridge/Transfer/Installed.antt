-- ===== src/Mavlink/Bridge/Transfer/Installed.antt =====
-- backend/pkg/mavlink/mission.go: what installMission stores, and what it leaves alone.
use swarm_communication.Prelude.{ℕ, ◌≡◌, sym, ap, ◌∙◌, some, List, arith, subst, map}
use swarm_communication.Prelude.Map.{lookup, lookup-insert_self}
use swarm_communication.Cluster.Member.{NodeId}
use swarm_communication.Mavlink.Bridge.{
  MissionItemInt, Item, Mission, Vehicle, Bridge, BridgeConfig, send,
}
use swarm_communication.Mavlink.Bridge.Store.{
  new_mission, install_mission, send_current, clear_assignments,
}
use swarm_communication.Mavlink.Bridge.Transfer.{accept_item}
use swarm_communication.Mavlink.Bridge.Transfer.Frame.{Stays, clear_assignments-Stays}

abbrev pub raw_of : Item → MissionItemInt
raw_of it = it.raw

-- What the bridge stores of a mission.
pub record Stored (sys_id : ℕ) (raws : List MissionItemInt) (b : Bridge) : Type 0 where
  pub mission : Mission
  pub is_stored : lookup sys_id b.missions ≡ some mission
  pub same_raws : map raw_of mission.items ≡ raws

pub accept_item-raw :
    (cfg : BridgeConfig) (m : MissionItemInt) {it : Item} → accept_item cfg m ≡ some it → it.raw ≡ m
unfolding accept_item
accept_item-raw cfg m e = ground arith

send_current-items : (ms : Mission) (b : Bridge) → (send_current ms b).0.items ≡ ms.items
unfolding send_current
send_current-items ms b = ground arith

send_current-vs : (ms : Mission) (b : Bridge) → (send_current ms b).1.vs ≡ b.vs
unfolding send_current send
send_current-vs ms b = ground arith

pub install_mission-Stored :
    (v : Vehicle) (items : List Item) (b : Bridge)
    → Stored v.sys_id (map raw_of items) (install_mission v items b)
unfolding install_mission
install_mission-Stored v items b =
    let sent = send_current (new_mission v items) (clear_assignments v.sys_id b) in
    record {
      mission = sent.0;
      is_stored = lookup-insert_self v.sys_id sent.0 sent.1.missions;
      same_raws =
          ap (map raw_of) (send_current-items (new_mission v items) (clear_assignments v.sys_id b));
    }

pub install_mission-Stays :
    (node : NodeId) (sys_id : ℕ) (v : Vehicle) (items : List Item) (b : Bridge)
    → Stays node sys_id b.vs
    → Stays node sys_id (install_mission v items b).vs
unfolding install_mission
install_mission-Stays node sys_id v items b s =
    subst (Stays node sys_id)
      (sym (send_current-vs (new_mission v items) (clear_assignments v.sys_id b)))
      (clear_assignments-Stays node sys_id v.sys_id b s)

send_current-vehicles : (ms : Mission) (b : Bridge) → (send_current ms b).1.vehicles ≡ b.vehicles
unfolding send_current send
send_current-vehicles ms b = ground arith

clear_assignments-vehicles : (id : ℕ) (b : Bridge) → (clear_assignments id b).vehicles ≡ b.vehicles
unfolding clear_assignments
clear_assignments-vehicles id b = ground arith

pub install_mission-vehicles :
    (v : Vehicle) (items : List Item) (b : Bridge)
    → (install_mission v items b).vehicles ≡ b.vehicles
unfolding install_mission
install_mission-vehicles v items b =
    send_current-vehicles (new_mission v items) (clear_assignments v.sys_id b)
    ∙ clear_assignments-vehicles v.sys_id b
