-- ===== src/Cluster/Election/Ranking.antt =====
-- The ranking is a total order on members with different IDs, so an election does not depend on the
-- order in which a view lists its members.
use mathlib.Core.List.{Permᴰ}
use swarm_communication.Prelude.{
  ℕ, ◌≡◌, ◌≢◌, refl, Bool, true, false, List, [], ◌∷◌, arith, All, All-map, keep, contains,
  IsDistinct,
}
use swarm_communication.Prelude.Map.{Map}
use swarm_communication.Prelude.Sort.{AllPairs, Comparable, sort-perm, keep-Permᴰ, length-Permᴰ}
use swarm_communication.Health.{Float64, FloatOps, better}
use swarm_communication.Cluster.Member.{NodeId, Member, View, ids}
use swarm_communication.Cluster.Election.{
  Config, electorate, in_electorate, score_of, ranks_before, rank_less, elect,
}

ranks_before_trans :
    (a b c : Float64) (i j k : NodeId)
    → ranks_before a i b j ≡ true
    → ranks_before b j c k ≡ true
    → ranks_before a i c k ≡ true
unfolding ranks_before better
ranks_before_trans a b c i j k p q = ground arith

rank_less_trans :
    (s : Map Float64) (x y z : Member)
    → rank_less s x y ≡ true
    → rank_less s y z ≡ true
    → rank_less s x z ≡ true
unfolding rank_less
rank_less_trans s x y z p q =
    ranks_before_trans (score_of s x.id) (score_of s y.id) (score_of s z.id) x.id y.id z.id p q

pub better-asymm : (a b : Float64) → better a b ≡ true → better b a ≡ false
unfolding better
better-asymm a b h = ground arith

rank_less-Comparable : (s : Map Float64) (x y : Member) → x.id ≢ y.id → Comparable (rank_less s) x y
unfolding rank_less ranks_before
rank_less-Comparable s x y n = ground (
  arith,
  better-asymm (score_of s x.id) (score_of s y.id),
  better-asymm (score_of s y.id) (score_of s x.id),
)

not_contained :
    (x : Member) (ms : List Member) → contains (ids ms) x.id ≡ false → All (λ y. x.id ≢ y.id) ms
not_contained x [] h = tt
not_contained x (y ∷ ms) h = (λ e. ground arith, not_contained x ms (ground arith))

IsDistinct-Comparable :
    (s : Map Float64) (ms : List Member)
    → IsDistinct (ids ms)
    → AllPairs (Comparable (rank_less s)) ms
IsDistinct-Comparable s [] d = tt
IsDistinct-Comparable s (x ∷ ms) d = (
  All-map (λ y n. rank_less-Comparable s x y n) ms (not_contained x ms d.0),
  IsDistinct-Comparable s ms d.1,
)

contains-ids-keep :
    (p : Member → Bool) (j : ℕ) (ms : List Member)
    → contains (ids ms) j ≡ false
    → contains (ids (keep p ms)) j ≡ false
contains-ids-keep p j [] h = refl
contains-ids-keep p j (m ∷ ms) h = ground (arith, contains-ids-keep p j ms)

pub keep-IsDistinct :
    (p : Member → Bool) (ms : List Member) → IsDistinct (ids ms) → IsDistinct (ids (keep p ms))
keep-IsDistinct p [] d = tt
keep-IsDistinct p (m ∷ ms) d =
    ground (arith, keep-IsDistinct p ms d.1, contains-ids-keep p m.id ms d.0)

-- Two views with the same members, in any two orders and with distinct IDs, elect the same leaders.
pub elect-perm :
    (ops : FloatOps) (v w : View) (s : Map Float64) (cfg : Config)
    → Permᴰ v.members w.members
    → IsDistinct (ids v.members)
    → elect ops v s cfg ≡ elect ops w s cfg
unfolding elect electorate
elect-perm ops v w s cfg p d =
    let q = keep-Permᴰ in_electorate p in
    rw (
      sort-perm (rank_less s) (rank_less_trans s) q
          (IsDistinct-Comparable s _ (keep-IsDistinct in_electorate v.members d)),
      length-Permᴰ q,
    )
