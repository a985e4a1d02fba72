-- ===== src/Mavlink/Vehicles.antt =====
-- backend/pkg/mavlink/vehicles.go: the MAVLink system IDs of the nodes. The registry is two maps, and
-- its mutex makes a call one step. A node ID is a number here, so its string is a parameter, as bytes.
pub mod Paired
use swarm_communication.Prelude.{
  ℕ, zero, suc, ◌+◌, ◌-◌, ◌*◌, Bool, true, false, ◌&&◌, ◌||◌, Option, none, some, List, [], ◌∷◌,
  length, ltb, leb, ◌==◌, if◌then◌else◌,
}
use swarm_communication.Prelude.Map.{Map, lookup, insert, erase}
use swarm_communication.Cluster.Member.{NodeId}

-- MinSysID and MaxSysID
abbrev pub min_sys_id : ℕ
min_sys_id = 1

abbrev pub max_sys_id : ℕ
max_sys_id = 254

pub record Vehicles : Type 0 where
  pub by_node : Map ℕ
  pub by_sys : Map NodeId

-- NewVehicles
abbrev pub new_vehicles : Vehicles
new_vehicles = record { by_node = []; by_sys = [] }

-- trailingSysID: the longest run of digits at the end, as a number. A run that ParseUint finds too long
-- for 64 bits is over the maximum here.
abbrev pub is_digit : ℕ → Bool
is_digit b = leb 48 b && leb b 57

unfoldable pub all_digits : List ℕ → Bool
all_digits [] = true
all_digits (b ∷ bs) = if is_digit b then all_digits bs else false

unfoldable pub trailing_digits : List ℕ → List ℕ
unfolding all_digits
trailing_digits [] = []
trailing_digits (b ∷ bs) = if all_digits (b ∷ bs) then b ∷ bs else trailing_digits bs

unfoldable pub parse_digits : ℕ → List ℕ → ℕ
parse_digits n [] = n
parse_digits n (d ∷ ds) = parse_digits (n * 10 + (d - 48)) ds

unfoldable pub trailing_sys_id : List ℕ → Option ℕ
unfolding trailing_digits parse_digits
trailing_sys_id name =
    let digits = trailing_digits name in
    let n = parse_digits 0 digits in
    if length digits == 0 || ltb n min_sys_id || ltb max_sys_id n then none else some n

-- assignLocked
unfoldable pub assign_locked : NodeId → ℕ → Vehicles → Vehicles
assign_locked node id v = record {
  by_node = insert node id v.by_node;
  by_sys = insert id node v.by_sys;
}

-- The loop of SysID: the greatest ID up to `id` that is free.
unfoldable pub free_from : ℕ → Vehicles → Option ℕ
free_from zero v = none
free_from (suc id) v =
    let below = free_from id v in
    elim (lookup (suc id) v.by_sys) [ none ↦ some (suc id) | some node ↦ below ]

-- The ID that SysID picks for a node that has none.
unfoldable pub pick_sys_id : List ℕ → Vehicles → Option ℕ
unfolding trailing_sys_id free_from
pick_sys_id name v = elim (trailing_sys_id name) [
  | none ↦ free_from max_sys_id v
  | some id ↦ elim (lookup id v.by_sys) [ none ↦ some id | some node ↦ free_from max_sys_id v ]
]

-- SysID, with none for ErrNoSysID.
unfoldable pub sys_id : (NodeId → List ℕ) → NodeId → Vehicles → Option ℕ × Vehicles
unfolding pick_sys_id assign_locked
sys_id name node v = elim (lookup node v.by_node) [
  | some id ↦ (some id, v)
  | none ↦ elim (pick_sys_id (name node) v) [
    | none ↦ (none, v)
    | some id ↦ (some id, assign_locked node id v)
  ]
]

-- Lookup and Node
unfoldable pub sys_id_of : NodeId → Vehicles → Option ℕ
sys_id_of node v = lookup node v.by_node

unfoldable pub node_of : ℕ → Vehicles → Option NodeId
node_of id v = lookup id v.by_sys

-- Release
unfoldable pub release : NodeId → Vehicles → Vehicles
release node v = elim (lookup node v.by_node) [
  | none ↦ v
  | some id ↦ record { by_node = erase node v.by_node; by_sys = erase id v.by_sys }
]

-- The calls that change the registry, in any order.
pub data Call : Type 0 where
  acquired released : NodeId → Call

unfoldable pub after : (NodeId → List ℕ) → List Call → Vehicles → Vehicles
unfolding sys_id release
after name [] v = v
after name (Call.acquired node ∷ calls) v = after name calls (sys_id name node v).1
after name (Call.released node ∷ calls) v = after name calls (release node v)
