-- ===== src/Mavlink/Bridge/Assign.antt =====
-- backend/pkg/mavlink/mission.go: the pending items of a mission go to the idle vehicles of its
-- cluster, in their order, and a pass over every mission.
pub mod Single
pub mod Order
use swarm_communication.Prelude.{
  ℕ, suc, ◌+◌, ◌%◌, Bool, true, false, not, ◌&&◌, ◌||◌, Option, none, some, List, [], ◌∷◌, ◌++◌,
  length, map, keep, contains, ◌==◌, if◌then◌else◌,
}
use swarm_communication.Prelude.Map.{Map, lookup, insert}
use swarm_communication.Health.{Float64, zero_f, ltb_f}
use swarm_communication.Cluster.Member.{NodeId}
use swarm_communication.Mavlink.Vector.{Position, origin, sub_p, len_p}
use swarm_communication.Mavlink.Mover.{Mover, World, flying, reached, set_target, clear_target}
use swarm_communication.Mavlink.Bridge.{
  Message, Status, ItemKind, ItemState, is_pending, is_flying, Item, Mission, MissionTask, Vehicle,
  Bridge, BridgeConfig, send, statusf, severity_warning, vehicle_by_sys_id, vehicle_by_node,
  holds_goal, sorted_keys, queue_task,
}
use swarm_communication.Mavlink.Bridge.Store.{freed, stop_mover, send_current}
use swarm_communication.Mavlink.Bridge.Fly.{collect_arrivals, migrate}

-- execMembers
unfoldable pub follows : Map Vehicle → NodeId → NodeId → Bool
follows vs leader id = elim (lookup id vs) [
  | none ↦ false
  | some v ↦ not (id == leader) && v.connected && v.leader_id == leader
]

unfoldable pub exec_members : Mission → Bridge → List NodeId
unfolding vehicle_by_sys_id follows
exec_members ms b = elim (vehicle_by_sys_id ms.exec b) [
  | none ↦ []
  | some (node, ex) ↦
      if not ex.connected
      then []
      else if not ms.leader_mission
      then node ∷ []
      else node ∷ keep (follows b.vs node) b.order
]

-- busyNodes
unfoldable pub busy_of : List Item → List NodeId
busy_of [] = []
busy_of (it ∷ items) = if is_flying it.state then it.node ∷ busy_of items else busy_of items

unfoldable pub busy_in : Map Mission → List NodeId
unfolding busy_of
busy_in [] = []
busy_in ((sys_id, ms) ∷ rest) = busy_of ms.items ++ busy_in rest

-- goalFor
unfoldable pub goal_for : Vehicle → Item → Position
goal_for v it = elim it.kind [
  | ItemKind.fly ↦ if it.has_xy then it.at else record (v.mover.at) { z = it.at.z }
  | ItemKind.land ↦ record (v.mover.at) { z = zero_f }
  | ItemKind.home ↦ v.mover.home
  | ItemKind.skip ↦ v.mover.at
]

-- nearestIdle: strictly closer than the best so far, whose distance is infinite at first.
unfoldable pub is_idle : List NodeId → NodeId → Vehicle → Bool
is_idle busy id v = not (contains busy id) && v.connected && not (flying v.mover)

abbrev pub Nearest : Type 0
Nearest = Option NodeId × Float64

unfoldable pub closer : World → List NodeId → Item → Map Vehicle → NodeId → Nearest → Nearest
unfolding is_idle goal_for sub_p len_p
closer w busy it vs id (best, best_dist) = elim (lookup id vs) [
  | none ↦ (best, best_dist)
  | some v ↦
      let d = len_p w.fm (sub_p w.fm (goal_for v it) v.mover.at) in
      if is_idle busy id v && ltb_f d best_dist then (some id, d) else (best, best_dist)
]

unfoldable pub nearest_from :
    World → List NodeId → Item → Map Vehicle → List NodeId → Nearest → Nearest
unfolding closer
nearest_from w busy it vs [] best = best
nearest_from w busy it vs (id ∷ ids) best =
    nearest_from w busy it vs ids (closer w busy it vs id best)

unfoldable pub nearest_idle : World → List NodeId → List NodeId → Item → Map Vehicle → Option NodeId
unfolding nearest_from
nearest_idle w members busy it vs = (nearest_from w busy it vs members (none, Float64.pos_inf)).0

-- assignItems: one item, with none for the return that leaves the later items waiting.
unfoldable pub given : NodeId → Vehicle → Item → Item × Vehicle
unfolding set_target goal_for
given id v it =
    let mover = set_target (goal_for v it) v.mover in
    (
      record it {
        goal = elim mover.target [ none ↦ origin | some p ↦ p ];
        state = ItemState.flying;
        node = id;
      },
      record v { mover = mover; armed = true },
    )

unfoldable pub give_item :
    List NodeId → NodeId → Item → Bridge → Option (Item × List NodeId × Bridge)
unfolding given
give_item busy id it b = elim (lookup id b.vs) [
  | none ↦ none
  | some v ↦
      let (it', v') = given id v it in some (it', id ∷ busy, record b { vs = insert id v' b.vs })
]

unfoldable pub skip_item : ℕ → Item → Bridge → Item × Bridge
unfolding send statusf
skip_item exec it b = (
  record it { state = ItemState.done },
  send exec (Message.mission_item_reached it.seq)
      (statusf exec severity_warning (Status.item_skipped it.seq it.cmd) b),
)

abbrev pub is_skip : ItemKind → Bool
is_skip ItemKind.skip = true
is_skip _ = false

unfoldable pub assign_item :
    World → List NodeId → ℕ → List NodeId → Item → Bridge → Option (Item × List NodeId × Bridge)
unfolding skip_item nearest_idle give_item
assign_item w members exec busy it b =
    if not (is_pending it.state)
    then some (it, busy, b)
    else if is_skip it.kind
    then (let (it', b') = skip_item exec it b in some (it', busy, b'))
    else elim (nearest_idle w members busy it b.vs) [
      | none ↦ none
      | some id ↦ give_item busy id it b
    ]

unfoldable pub assign_each :
    World → List NodeId → ℕ → List NodeId → List Item → Bridge → List Item × Bridge
unfolding assign_item
assign_each w members exec busy [] b = ([], b)
assign_each w members exec busy (it ∷ items) b = elim (assign_item w members exec busy it b) [
  | none ↦ (it ∷ items, b)
  | some (it', busy', b') ↦
      let (items', b'') = assign_each w members exec busy' items b' in (it' ∷ items', b'')
]

unfoldable pub assign_items : World → Mission → Bridge → Mission × Bridge
unfolding exec_members busy_in assign_each
assign_items w ms b =
    let members = exec_members ms b in
    let ms' : Mission = record ms { members = members } in
    if not ms.started
    then (ms', b)
    else (let (items, b') = assign_each w members ms.exec (busy_in b.missions) ms.items b in
        (record ms' { items = items }, b'))

-- runMissions. A mission is a shared object, so it is stored before its items are assigned, where the
-- items of every mission are read.
unfoldable pub put_mission : ℕ → Mission × Bridge → Bridge
put_mission sys_id (ms, b) = record b { missions = insert sys_id ms b.missions }

unfoldable pub followed_mission : Mission → Bridge → Mission × Bridge
unfolding collect_arrivals migrate
followed_mission ms b = let (ms', b') = collect_arrivals ms b in migrate ms' b'

unfoldable pub pursued_mission : World → Mission → Bridge → Mission × Bridge
unfolding assign_items send_current
pursued_mission w ms b = let (ms', b') = assign_items w ms b in send_current ms' b'

unfoldable pub run_mission : World → ℕ → Bridge → Bridge
unfolding followed_mission put_mission pursued_mission
run_mission w sys_id b = elim (lookup sys_id b.missions) [
  | none ↦ b
  | some ms ↦
      let followed = followed_mission ms b in
      put_mission sys_id (pursued_mission w followed.0 (put_mission sys_id followed))
]

unfoldable pub run_each : World → List ℕ → Bridge → Bridge
unfolding run_mission
run_each w [] b = b
run_each w (sys_id ∷ ids) b = run_each w ids (run_mission w sys_id b)

unfoldable pub run_missions : BridgeConfig → Bridge → Bridge
unfolding run_each sorted_keys
run_missions cfg b = run_each cfg.world (sorted_keys b.missions) b
