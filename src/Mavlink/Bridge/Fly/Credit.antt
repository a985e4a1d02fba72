-- ===== src/Mavlink/Bridge/Fly/Credit.antt =====
-- What it takes for an item in flight to be done.
use swarm_communication.Prelude.{
  ℕ, ◌≡◌, refl, true, false, ◌&&◌, some, arith, Bool-cases, Option-cases, inl, inr,
}
use swarm_communication.Prelude.Map.{Map, lookup}
use swarm_communication.Cluster.Member.{NodeId}
use swarm_communication.Mavlink.Vector.{Position, eq_p}
use swarm_communication.Mavlink.Mover.{reached}
use swarm_communication.Mavlink.Bridge.{
  Item, ItemState, Vehicle, Bridge, is_flying, is_done, vehicle_by_node, holds_goal,
}
use swarm_communication.Mavlink.Bridge.Store.{freed}
use swarm_communication.Mavlink.Bridge.Fly.{collect_item, collect_flying}

-- The vehicle that flies an item is connected, still aims at the item's goal, and has reached it.
pub record Visited (it : Item) (b : Bridge) : Type 0 where
  pub vehicle : Vehicle
  pub goal : Position
  pub is_there : lookup it.node b.vs ≡ some vehicle
  pub connected : vehicle.connected ≡ true
  pub aims : vehicle.mover.target ≡ some goal
  pub on_goal : eq_p goal it.goal ≡ true
  pub stands : vehicle.mover.has_reached ≡ true

vehicle_by_node_there :
    (node : NodeId) (vs : Map Vehicle) {v : Vehicle}
    → vehicle_by_node node vs ≡ some v
    → lookup node vs ≡ some v
unfolding vehicle_by_node
vehicle_by_node_there node vs e = ground arith

holds_goal_aims :
    (v : Vehicle) (it : Item)
    → holds_goal v it ≡ true
    → (p : Position) × (v.mover.target ≡ some p) × (eq_p p it.goal ≡ true)
unfolding holds_goal
holds_goal_aims v it h = elim (Option-cases v.mover.target) [
  | inl e ↦ absurd (ground (arith, e, h))
  | inr (p, e) ↦ (p, e, ground (arith, e, h))
]

flying_done : (s : ItemState) → is_flying s ≡ true → is_done s ≡ false
flying_done ItemState.flying h = refl
flying_done ItemState.pending h = cc
flying_done ItemState.done h = cc

collect_flying-Visited :
    (exec : ℕ) (it : Item) (b : Bridge)
    → is_flying it.state ≡ true
    → is_done (collect_flying exec it b).0.state ≡ true
    → Visited it b
unfolding collect_flying freed reached
collect_flying-Visited exec it b h d = elim (Option-cases (vehicle_by_node it.node b.vs)) [
  | inl e ↦ absurd (ground (arith, e, d))
  | inr (v, e) ↦
      let there = vehicle_by_node_there it.node b.vs e in
      let waits = flying_done it.state h in
      elim (Bool-cases (v.connected && holds_goal v it && reached v.mover)) [
        | inl t ↦
            let (p, aims, near) = holds_goal_aims v it (ground (arith, t)) in
            record {
              vehicle = v;
              goal = p;
              is_there = there;
              connected = ground (arith, t);
              aims = aims;
              on_goal = near;
              stands = ground (arith, t);
            }
        | inr f ↦ absurd (ground (arith, e, d, f, waits))
      ]
]

-- An item that collectArrivals turns from not done to done was in flight, and its vehicle is connected,
-- still aims at the goal that it was given for the item, and has reached it. The items that a pass skips
-- are done elsewhere, in assignItems, and are not among them.
pub collect_item-Visited :
    (exec : ℕ) (it : Item) (b : Bridge)
    → is_done it.state ≡ false
    → is_done (collect_item exec it b).0.state ≡ true
    → (is_flying it.state ≡ true) × Visited it b
unfolding collect_item
collect_item-Visited exec it b h d = elim (Bool-cases (is_flying it.state)) [
  | inl e ↦ (e, collect_flying-Visited exec it b e (ground (arith, e, d)))
  | inr e ↦ absurd (ground (arith, e, d, h))
]
