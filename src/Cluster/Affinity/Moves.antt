-- ===== src/Cluster/Affinity/Moves.antt =====
-- ShouldRehome never sends a worker back and forth.
use swarm_communication.Prelude.{◌≡◌, ◌≢◌, true, false, none, List, arith, Option-cases, inl, inr}
use swarm_communication.Prelude.Map.{Map}
use swarm_communication.Health.{Float64, FloatOps}
use swarm_communication.Cluster.Member.{NodeId}
use swarm_communication.Cluster.Election.Ranking.{better-asymm}
use swarm_communication.Cluster.Affinity.{should_rehome, usable_score}

-- If a worker should move from `a` to `b`, it should not move from `b` to `a`, on the same scores and
-- leaders, whatever the two margins are.
pub should_rehome-no_return :
    (ops : FloatOps) (a b : NodeId) (s : Map Float64) (leaders : List NodeId) (m n : Float64)
    → should_rehome ops a b s leaders m ≡ true
    → should_rehome ops b a s leaders n ≡ false
unfolding should_rehome
should_rehome-no_return ops a b s leaders m n h = elim (Option-cases (usable_score s leaders b)) [
  | inl e ↦ absurd (let clash : false ≡ true = rw (e, should_rehome) at h in ground arith)
  | inr (sb, e) ↦ elim (Option-cases (usable_score s leaders a)) [
    | inl f ↦ rw (f, should_rehome)
    | inr (sa, f) ↦ ground (arith, e, f, better-asymm sb sa)
  ]
]

-- A worker whose leader is gone or unmeasured moves to any measured leader but its own.
pub should_rehome_lost :
    (ops : FloatOps) (a b : NodeId) (s : Map Float64) (leaders : List NodeId) (m : Float64)
    → usable_score s leaders a ≡ none
    → usable_score s leaders b ≢ none
    → a ≢ b
    → should_rehome ops a b s leaders m ≡ true
unfolding should_rehome
should_rehome_lost ops a b s leaders m e f n = ground arith
