-- ===== src/Mavlink/Bridge/Transfer/Reached.antt =====
-- backend/pkg/mavlink/mission.go: the messages that missionTarget lets through to a vehicle.
use swarm_communication.Prelude.{ℕ, ◌≡◌, refl, false, some, arith, ◌&&◌, not, ◌==◌}
use swarm_communication.Prelude.Map.{lookup}
use swarm_communication.Cluster.Member.{NodeId}
use swarm_communication.Mavlink.Vehicles.{node_of}
use swarm_communication.Mavlink.Bridge.{Vehicle, Bridge, vehicle_by_sys_id}
use swarm_communication.Mavlink.Bridge.Answer.{mission_target}

-- A message with this address reaches the node.
pub record Reaches (target comp : ℕ) (node : NodeId) (b : Bridge) : Type 0 where
  pub comp_ok : (not (comp == 0) && not (comp == 1)) ≡ false
  pub target_ok : (target == 0) ≡ false
  pub registered : node_of target b.vehicles ≡ some node

pub mission_target-Reaches :
    (target comp : ℕ) (node : NodeId) (v : Vehicle) (b : Bridge)
    → mission_target target comp b ≡ some (node, v)
    → Reaches target comp node b
unfolding mission_target vehicle_by_sys_id
mission_target-Reaches target comp node v b h = record {
  comp_ok = ground arith;
  target_ok = ground arith;
  registered = ground arith;
}

pub mission_target_there :
    (target comp : ℕ) (node : NodeId) (v : Vehicle) (b : Bridge)
    → mission_target target comp b ≡ some (node, v)
    → lookup node b.vs ≡ some v
unfolding mission_target vehicle_by_sys_id
mission_target_there target comp node v b h = ground arith

pub mission_target_found :
    (target comp : ℕ) (node : NodeId) (v : Vehicle) (b : Bridge)
    → Reaches target comp node b
    → lookup node b.vs ≡ some v
    → mission_target target comp b ≡ some (node, v)
unfolding mission_target vehicle_by_sys_id
mission_target_found target comp node v b r e =
    rw (r.comp_ok, r.target_ok) (rw (r.registered, vehicle_by_sys_id) (rw e refl))
