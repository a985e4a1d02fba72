-- ===== src/Mavlink/Bridge/Loop.antt =====
-- backend/pkg/mavlink/bridge.go: loop, the one owner of the state, one event after another. A datagram
-- that does not decode changes nothing, and the live feed is left out.
mod Stored
mod Protocol
mod Elsewhere
mod Flown
mod Commanded
mod Observed
pub mod Sound
pub mod Pass
use swarm_communication.Prelude.{ℕ, Bool, List, [], ◌∷◌}
use swarm_communication.Prelude.Int.{ℤ}
use swarm_communication.Cluster.Member.{NodeId}
use swarm_communication.Mavlink.Vehicles.{new_vehicles}
use swarm_communication.Mavlink.Bridge.{Sender, Bridge, BridgeConfig}
use swarm_communication.Mavlink.Bridge.Transfer.{expire_uploads}
use swarm_communication.Mavlink.Bridge.Assign.{run_missions}
use swarm_communication.Mavlink.Bridge.Nodes.{
  NodeState, apply_nodes, tick_status, tick_positions, on_event,
}
use swarm_communication.Mavlink.Bridge.Inbound.{Inbound, on_message}

-- What NewBridge starts from.
abbrev pub new_bridge : Bridge
new_bridge = record {
  vehicles = new_vehicles;
  vs = [];
  order = [];
  missions = [];
  uploads = [];
  after_ack = [];
  tasks = [];
  sent = [];
}

-- The cases of the loop's select: a message at a time from a sender, an event of the swarm, a snapshot,
-- the tick of the status at a time, and the tick of the positions after a duration.
pub data Event : Type 0 where
  heard : ℕ → Sender → Inbound → Event
  swarm : Bool → NodeId → Event
  synced : List NodeState → Event
  status_tick : ℕ → Event
  position_tick : ℤ → Event

unfoldable pub handle : BridgeConfig → Event → Bridge → Bridge
unfolding on_message on_event apply_nodes tick_status expire_uploads tick_positions run_missions
handle cfg (Event.heard now from m) b = on_message cfg now from m b
handle cfg (Event.swarm is_down node) b = on_event is_down node b
handle cfg (Event.synced nodes) b = (apply_nodes cfg nodes b).1
handle cfg (Event.status_tick now) b = expire_uploads cfg now (tick_status b.order b)
handle cfg (Event.position_tick dt) b = run_missions cfg (tick_positions cfg dt b.order b)

-- A run of the loop over a list of events.
unfoldable pub run_loop : BridgeConfig → List Event → Bridge → Bridge
unfolding handle
run_loop cfg [] b = b
run_loop cfg (e ∷ events) b = run_loop cfg events (handle cfg e b)
