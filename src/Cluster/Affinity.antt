-- ===== src/Cluster/Affinity.antt =====
-- backend/pkg/cluster/affinity.go: which leader a worker joins, and when it moves.
pub mod Choice
pub mod Moves
use swarm_communication.Prelude.{
  ℕ, ◌≡◌, Bool, true, false, Option, none, some, List, [], ◌∷◌, ◌==◌, ltb, ◌&&◌, ◌||◌, not,
  contains, if◌then◌else◌,
}
use swarm_communication.Prelude.Map.{Map, lookup}
use swarm_communication.Health.{Float64, FloatOps, zero_f, ltb_f, leb_f, is_valid_score, better}
use swarm_communication.Cluster.Member.{NodeId}
use swarm_communication.Cluster.Election.{is_nan}

-- One round of ChooseLeader's loop, over `(best, bestScore)` once something is found.
unfoldable pub choose_step :
    Map Float64 → Option (NodeId × Float64) → NodeId → Option (NodeId × Float64)
choose_step scores found id = elim (lookup id scores) [
  | none ↦ found
  | some s ↦ if not (is_valid_score s) then found else elim found [
    | none ↦ some (id, s)
    | some (best, best_score) ↦
        if better s best_score
        then some (id, s)
        else if not (better best_score s) && ltb id best
        then some (id, s)
        else some (best, best_score)
  ]
]

unfoldable pub choose_from :
    Map Float64 → Option (NodeId × Float64) → List NodeId → Option (NodeId × Float64)
unfolding choose_step
choose_from scores found [] = found
choose_from scores found (id ∷ ids) = choose_from scores (choose_step scores found id) ids

-- ChooseLeader, with the score of the leader that it picks.
unfoldable pub choose_leader : Map Float64 → List NodeId → Option (NodeId × Float64)
unfolding choose_from
choose_leader scores leaders = choose_from scores none leaders

-- A destination: measured, and a leader.
unfoldable pub usable_score : Map Float64 → List NodeId → NodeId → Option Float64
usable_score scores leaders id = elim (lookup id scores) [
  | none ↦ none
  | some s ↦ if not (is_valid_score s) || not (contains leaders id) then none else some s
]

-- ShouldRehome
unfoldable pub should_rehome :
    FloatOps → NodeId → NodeId → Map Float64 → List NodeId → Float64 → Bool
should_rehome ops current best scores leaders margin =
    let m = if ltb_f margin zero_f || is_nan margin then zero_f else margin in
    elim (usable_score scores leaders best) [
      | none ↦ false
      | some best_score ↦
          if best == current then false else elim (usable_score scores leaders current) [
            | none ↦ true
            | some cur_score ↦ better best_score cur_score && leb_f m (ops.sub cur_score best_score)
          ]
    ]
