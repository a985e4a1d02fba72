-- ===== src/Tests/Vehicles.antt =====
-- Runs of the registry of system IDs (backend/pkg/mavlink/vehicles.go).
use swarm_communication.Prelude.{ℕ, ◌+◌, ◌≡◌, ◌⊎◌, none, some, List, [], ◌∷◌, All}
use swarm_communication.Cluster.Member.{NodeId}
use swarm_communication.Mavlink.Vehicles.{
  Vehicles, new_vehicles, max_sys_id, sys_id, sys_id_of, Call, after,
}
use swarm_communication.Mavlink.Vehicles.Paired.{
  IsPaired, IsHeld, ids_up_to, after-IsPaired, sys_id_answer,
}

-- "v0" to "v9", for the IDs 0 to 9.
abbrev drone_name : NodeId → List ℕ
drone_name node = 118 ∷ ((48 + node) ∷ [])

-- The ID in a node's name, the greatest one for "v0", and one that is free again.
abbrev traffic : List Call
traffic =
    Call.acquired 7 ∷ Call.acquired 0 ∷ Call.released 7 ∷ Call.acquired 7 ∷ Call.released 9 ∷ []

after-IsPaired_example : IsPaired (after drone_name traffic new_vehicles)
after-IsPaired_example = after-IsPaired drone_name traffic

abbrev busy_registry : Vehicles
busy_registry = record { by_node = (4, 3) ∷ []; by_sys = (3, 4) ∷ [] }

sys_id_answer_example :
    ((id : ℕ) × ((sys_id drone_name 3 busy_registry).0 ≡ some id)
      × (sys_id_of 3 (sys_id drone_name 3 busy_registry).1 ≡ some id))
    ⊎ ((sys_id drone_name 3 busy_registry ≡ (none, busy_registry))
        × (sys_id_of 3 busy_registry ≡ none)
        × All (IsHeld busy_registry) (ids_up_to max_sys_id))
sys_id_answer_example = sys_id_answer drone_name 3 busy_registry
