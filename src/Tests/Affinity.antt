-- ===== src/Tests/Affinity.antt =====
-- Runs of the choice of a leader (backend/pkg/cluster/affinity.go).
use swarm_communication.Prelude.{◌≡◌, refl, true, false, [], ◌∷◌, All, contains}
use swarm_communication.Prelude.Int.{pos, ◌-ℤ◌}
use swarm_communication.Prelude.Map.{Map, lookup}
use swarm_communication.Health.{Float64, better, is_valid_score}
use swarm_communication.Cluster.Election.{score_of, ranks_before}
use swarm_communication.Cluster.Affinity.{
  choose_leader, choose_from, choose_step, should_rehome, usable_score,
}
use swarm_communication.Cluster.Affinity.Choice.{choose_leader_best}
use swarm_communication.Cluster.Affinity.Moves.{should_rehome-no_return}
use swarm_communication.Tests.Election.{exact}

abbrev latencies : Map Float64
latencies =
    (1, Float64.finite (pos 30))
    ∷ (2, Float64.finite (pos 12))
    ∷ (3, Float64.finite (pos 12))
    ∷ (4, Float64.nan)
    ∷ []

abbrev margin : Float64
margin = Float64.finite (pos 5)

choose_leader_best_example :
    (contains (3 ∷ 1 ∷ 2 ∷ 4 ∷ []) 2 ≡ true)
    × (Float64.finite (pos 12) ≡ score_of latencies 2)
    × (is_valid_score (Float64.finite (pos 12)) ≡ true)
    × All
        (λ id.
          is_valid_score (score_of latencies id) ≡ true
          → ranks_before (score_of latencies id) id (Float64.finite (pos 12)) 2 ≡ false)
        (3 ∷ 1 ∷ 2 ∷ 4 ∷ [])
unfolding choose_leader choose_from choose_step lookup better is_valid_score
choose_leader_best_example =
    choose_leader_best latencies (3 ∷ 1 ∷ 2 ∷ 4 ∷ []) 2 (Float64.finite (pos 12)) refl

should_rehome-no_return_example : should_rehome exact 2 1 latencies (1 ∷ 2 ∷ []) margin ≡ false
unfolding should_rehome usable_score lookup better is_valid_score ◌-ℤ◌
should_rehome-no_return_example =
    should_rehome-no_return exact 1 2 latencies (1 ∷ 2 ∷ []) margin margin refl
