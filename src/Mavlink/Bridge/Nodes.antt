-- ===== src/Mavlink/Bridge/Nodes.antt =====
-- backend/pkg/mavlink/bridge.go: the swarm's snapshot folded into the vehicle table, the ticks, and the
-- swarm's events. The order in which `vs` is visited is that of its entries.
use swarm_communication.Prelude.{
  ℕ, Bool, true, false, none, some, List, [], ◌∷◌, ◌==◌, if◌then◌else◌,
}
use swarm_communication.Prelude.Int.{ℤ}
use swarm_communication.Prelude.Map.{Map, lookup, insert, erase, keys}
use swarm_communication.Health.{Float64, ltb_f}
use swarm_communication.Cluster.Member.{NodeId}
use swarm_communication.Mavlink.Vector.{Position, literal, sub_p, len_p}
use swarm_communication.Mavlink.Mover.{new_mover, flying, adopt, step}
use swarm_communication.Mavlink.Vehicles.{sys_id, sys_id_of}
use swarm_communication.Mavlink.Bridge.{
  Message, Status, Vehicle, Bridge, BridgeConfig, send, statusf, severity_critical, severity_info,
  sorted_keys,
}
use swarm_communication.Mavlink.Bridge.Fly.{release_items}

-- NodeState, without the counters that only telemetry reads.
pub record NodeState : Type 0 where
  pub id : NodeId
  pub leader : Bool
  pub leader_id : NodeId
  pub connected : Bool
  pub at : Position

-- reorder
unfoldable pub reorder : Bridge → Bridge
unfolding sorted_keys
reorder b = record b { order = sorted_keys b.vs }

-- positionEpsilon
unfoldable pub position_epsilon : Float64
unfolding literal
position_epsilon = literal 4722366482869645 1002

-- applyNodes: what a snapshot says of one vehicle.
unfoldable pub observe : BridgeConfig → NodeState → Vehicle → Vehicle
unfolding position_epsilon sub_p len_p adopt
observe cfg n v =
    let fm = cfg.world.fm in
    let v' : Vehicle = record v {
      seen = true;
      leader = n.leader;
      leader_id = n.leader_id;
      connected = n.connected;
    } in
    if flying v.mover
    then v'
    else if ltb_f position_epsilon (len_p fm (sub_p fm n.at v.pushed))
    then record v' { mover = adopt n.at v.mover; pushed = n.at }
    else v'

unfoldable pub new_vehicle : BridgeConfig → NodeState → ℕ → Vehicle
unfolding new_mover
new_vehicle cfg n id = record {
  sys_id = id;
  mover = new_mover cfg.world n.id n.at cfg.move;
  leader = false;
  leader_id = 0;
  armed = false;
  connected = false;
  pushed = n.at;
  seen = false;
}

unfoldable pub add_vehicle : BridgeConfig → NodeState → ℕ → Bridge → Bridge
unfolding observe new_vehicle reorder
add_vehicle cfg n id b =
    reorder (record b { vs = insert n.id (observe cfg n (new_vehicle cfg n id)) b.vs })

unfoldable pub apply_node : BridgeConfig → NodeState → Bridge → Bridge
unfolding observe add_vehicle
apply_node cfg n b = if n.id == 0 then b else elim (lookup n.id b.vs) [
  | some v ↦ record b { vs = insert n.id (observe cfg n v) b.vs }
  | none ↦
      let (id, vehicles) = sys_id cfg.name n.id b.vehicles in
      let b' : Bridge = record b { vehicles = vehicles } in
      elim id [ none ↦ b' | some i ↦ add_vehicle cfg n i b' ]
]

unfoldable pub apply_each : BridgeConfig → List NodeState → Bridge → Bridge
unfolding apply_node
apply_each cfg [] b = b
apply_each cfg (n ∷ nodes) b = apply_each cfg nodes (apply_node cfg n b)

unfoldable pub unseen : Map Vehicle → Map Vehicle
unseen [] = []
unseen ((id, v) ∷ rest) = (id, record v { seen = false }) ∷ unseen rest

-- applyNodes: the vehicles that the snapshot does not have.
unfoldable pub forget : NodeId → Bridge → Bridge
unfolding release_items
forget id b = let b' = release_items id b in record b' { vs = erase id b'.vs }

unfoldable pub prune_node : NodeId → Bool × Bridge → Bool × Bridge
unfolding forget
prune_node id (pruned, b) = elim (lookup id b.vs) [
  | none ↦ (pruned, b)
  | some v ↦ if v.seen then (pruned, b) else (true, forget id b)
]

unfoldable pub prune_each : List NodeId → Bool × Bridge → Bool × Bridge
unfolding prune_node
prune_each [] acc = acc
prune_each (id ∷ ids) acc = prune_each ids (prune_node id acc)

unfoldable pub prune : Bridge → Bridge
unfolding prune_each reorder
prune b = let (pruned, b') = prune_each (keys b.vs) (false, b) in if pruned then reorder b' else b'

-- applyNodes: the positions to push.
unfoldable pub push_positions : Map Vehicle → Map Position × Map Vehicle
push_positions [] = ([], [])
push_positions ((id, v) ∷ rest) =
    let (out, vs) = push_positions rest in
    if v.connected
    then ((id, v.mover.at) ∷ out, (id, record v { pushed = v.mover.at }) ∷ vs)
    else (out, (id, v) ∷ vs)

unfoldable pub apply_nodes : BridgeConfig → List NodeState → Bridge → Map Position × Bridge
unfolding unseen apply_each prune push_positions
apply_nodes cfg nodes b =
    let b' = prune (apply_each cfg nodes (record b { vs = unseen b.vs })) in
    let (out, vs) = push_positions b'.vs in (out, record b' { vs = vs })

-- tickStatus, after checkLive, and tickPositions with the step that lastPos gives. Of a report only the
-- identifier is modelled.
unfoldable pub report_all : ℕ → List ℕ → Bridge → Bridge
unfolding send
report_all id [] b = b
report_all id (m ∷ ms) b = report_all id ms (send id (Message.report m) b)

abbrev pub status_burst : List ℕ
status_burst = 0 ∷ 1 ∷ 147 ∷ 24 ∷ 245 ∷ 242 ∷ 49 ∷ []

abbrev pub position_burst : List ℕ
position_burst = 33 ∷ 30 ∷ 74 ∷ []

unfoldable pub tick_status : List NodeId → Bridge → Bridge
unfolding report_all
tick_status [] b = b
tick_status (id ∷ ids) b = tick_status ids (elim (lookup id b.vs) [
  | none ↦ b
  | some v ↦ if v.connected then report_all v.sys_id status_burst b else b
])

unfoldable pub tick_positions : BridgeConfig → ℤ → List NodeId → Bridge → Bridge
unfolding report_all step
tick_positions cfg dt [] b = b
tick_positions cfg dt (id ∷ ids) b = tick_positions cfg dt ids (elim (lookup id b.vs) [
  | none ↦ b
  | some v ↦
      if v.connected
      then report_all v.sys_id position_burst
          (record b { vs = insert id (record v { mover = step cfg.world dt v.mover }) b.vs })
      else b
])

-- onEvent, of an event that is node_down or another.
unfoldable pub on_event : Bool → NodeId → Bridge → Bridge
unfolding sys_id_of statusf
on_event is_down node b = elim (sys_id_of node b.vehicles) [
  | none ↦ b
  | some id ↦
      statusf id (if is_down then severity_critical else severity_info) (Status.swarm_event node) b
]
