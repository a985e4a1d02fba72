-- ===== src/Mavlink/Bridge/Fly.antt =====
-- backend/pkg/mavlink/mission.go: the missions in flight. Each pass credits arrivals, follows the swarm's
-- election, and hands pending items to idle vehicles.
pub mod Credit
pub mod Elected
use swarm_communication.Prelude.{
  ℕ, suc, ◌+◌, ◌%◌, Bool, true, false, not, ◌&&◌, ◌||◌, Option, none, some, List, [], ◌∷◌, ◌++◌,
  length, map, keep, contains, ◌==◌, if◌then◌else◌,
}
use swarm_communication.Prelude.Map.{Map, lookup, insert}
use swarm_communication.Health.{Float64, zero_f, ltb_f}
use swarm_communication.Cluster.Member.{NodeId}
use swarm_communication.Mavlink.Vector.{Position, origin, sub_p, len_p}
use swarm_communication.Mavlink.Mover.{Mover, World, flying, reached, set_target, clear_target}
use swarm_communication.Mavlink.Bridge.{
  Message, Status, ItemKind, ItemState, is_pending, is_flying, Item, Mission, MissionTask, Vehicle,
  Bridge, BridgeConfig, send, statusf, severity_warning, vehicle_by_sys_id, vehicle_by_node,
  holds_goal, sorted_keys, queue_task,
}
use swarm_communication.Mavlink.Bridge.Store.{freed, stop_mover, send_current}

-- releaseItems, over the items of every mission.
unfoldable pub release_item : NodeId → Item → Item
unfolding freed
release_item node it = if is_flying it.state && it.node == node then freed it else it

unfoldable pub release_in : NodeId → Map Mission → Map Mission
unfolding release_item
release_in node [] = []
release_in node ((sys_id, ms) ∷ rest) =
    (sys_id, record ms { items = map (release_item node) ms.items }) ∷ release_in node rest

unfoldable pub release_items : NodeId → Bridge → Bridge
unfolding release_in
release_items node b = record b { missions = release_in node b.missions }

-- collectArrivals: an item whose vehicle is gone or does something else is free again, and an item
-- whose vehicle has arrived is done.
unfoldable pub arrived : ℕ → Vehicle → Item → Bridge → Item × Bridge
unfolding stop_mover send queue_task
arrived exec v it b = (
  record it { state = ItemState.done },
  queue_task (record { node = it.node; seq = it.seq; at = v.mover.at })
      (send exec (Message.mission_item_reached it.seq) (record b { vs = stop_mover it.node b.vs })),
)

unfoldable pub collect_flying : ℕ → Item → Bridge → Item × Bridge
unfolding vehicle_by_node holds_goal reached arrived freed
collect_flying exec it b = elim (vehicle_by_node it.node b.vs) [
  | none ↦ (freed it, b)
  | some v ↦
      if not v.connected || not (holds_goal v it)
      then (freed it, b)
      else if reached v.mover
      then arrived exec v it b
      else (it, b)
]

unfoldable pub collect_item : ℕ → Item → Bridge → Item × Bridge
unfolding collect_flying
collect_item exec it b = if is_flying it.state then collect_flying exec it b else (it, b)

unfoldable pub collect_each : ℕ → List Item → Bridge → List Item × Bridge
unfolding collect_item
collect_each exec [] b = ([], b)
collect_each exec (it ∷ items) b =
    let (it', b') = collect_item exec it b in
    let (items', b'') = collect_each exec items b' in (it' ∷ items', b'')

unfoldable pub collect_arrivals : Mission → Bridge → Mission × Bridge
unfolding collect_each
collect_arrivals ms b =
    let (items, b') = collect_each ms.exec ms.items b in (record ms { items = items }, b')

-- electedLeaderFor: the leader of the first member that follows one, or else the first leader.
abbrev pub leads : Option Vehicle → Bool
leads none = false
leads (some v) = v.connected && v.leader

unfoldable pub followed : Map Vehicle → NodeId → Option NodeId
followed vs id = elim (lookup id vs) [
  | none ↦ none
  | some v ↦
      if v.connected && not (v.leader_id == 0) && leads (lookup v.leader_id vs)
      then some v.leader_id
      else none
]

unfoldable pub leader_of_members : Map Vehicle → List NodeId → Option NodeId
unfolding followed
leader_of_members vs [] = none
leader_of_members vs (id ∷ ids) =
    let others = leader_of_members vs ids in
    elim (followed vs id) [ none ↦ others | some l ↦ some l ]

unfoldable pub first_leader : Map Vehicle → List NodeId → Option NodeId
first_leader vs [] = none
first_leader vs (id ∷ ids) = if leads (lookup id vs) then some id else first_leader vs ids

unfoldable pub elected_leader_for : Mission → Bridge → Option Vehicle
unfolding leader_of_members first_leader
elected_leader_for ms b = elim (leader_of_members b.vs ms.members) [
  | some l ↦ lookup l b.vs
  | none ↦ elim (first_leader b.vs b.order) [ none ↦ none | some l ↦ lookup l b.vs ]
]

-- migrate
abbrev pub still_leads : Option (NodeId × Vehicle) → Bool
still_leads none = false
still_leads (some (node, v)) = v.connected && v.leader

abbrev pub count_pending : List Item → ℕ
count_pending items = length (keep (λ it. is_pending it.state) items)

unfoldable pub migrate_to : Vehicle → Mission → Bridge → Mission × Bridge
unfolding statusf
migrate_to next ms b = if next.sys_id == ms.exec then (ms, b) else (
  record ms { exec = next.sys_id; sent_current = false },
  statusf next.sys_id severity_warning (Status.mission_moved (count_pending ms.items)) b,
)

unfoldable pub migrate : Mission → Bridge → Mission × Bridge
unfolding vehicle_by_sys_id elected_leader_for migrate_to
migrate ms b =
    if not ms.leader_mission || still_leads (vehicle_by_sys_id ms.exec b)
    then (ms, b)
    else elim (elected_leader_for ms b) [ none ↦ (ms, b) | some next ↦ migrate_to next ms b ]
