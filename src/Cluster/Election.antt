-- ===== src/Cluster/Election.antt =====
-- backend/pkg/cluster/election.go: the election, a function of a view and a score map.
pub mod Ranking
pub mod Seats
pub mod Weakest
pub mod Hysteresis
pub mod Leaders
use swarm_communication.Prelude.{
  ℕ, ◌≡◌, refl, Bool, true, false, Option, none, some, List, [], ◌∷◌, ◌==◌, ltb, leb, ◌&&◌, ◌||◌,
  not, keep, take, set, length, contains, if◌then◌else◌, suc,
}
use swarm_communication.Prelude.Int.{ℤ, pos, negsuc, ltb_ℤ, leb_ℤ, pos_part}
use swarm_communication.Prelude.Map.{Map, lookup}
use swarm_communication.Prelude.Sort.{sort, insert_sorted}
use swarm_communication.Health.{
  Float64, FloatOps, zero_f, one, half, three_tenths, nan, ltb_f, leb_f, eq_f, is_valid_score,
  better, score_unavailable,
}
use swarm_communication.Cluster.Member.{
  NodeId, Role, leader, alive, suspect, eq_role, eq_state, Member, View, ids,
}

-- Config
pub record Config : Type 0 where
  pub threshold : Float64
  pub hysteresis : Float64

abbrev pub is_nan : Float64 → Bool
is_nan nan = true
is_nan _ = false

-- DefaultThreshold and DefaultHysteresis are 0.3 and 0.5.
unfoldable pub with_defaults : Config → Config
with_defaults c = record {
  threshold =
      if leb_f c.threshold zero_f || ltb_f one c.threshold then three_tenths else c.threshold;
  hysteresis = if ltb_f c.hysteresis zero_f || is_nan c.hysteresis then half else c.hysteresis;
}

-- Result
pub record Result : Type 0 where
  pub leaders : List NodeId
  pub size : ℕ
  pub want : ℤ

-- LeaderCount
unfoldable pub leader_count : FloatOps → ℤ → Float64 → ℤ
leader_count ops (negsuc n) threshold = pos 0
leader_count ops (pos n) threshold =
    if n == 0
    then pos 0
    else (let t =
          if leb_f threshold zero_f || ltb_f one threshold then three_tenths else threshold in
        let k = ops.ceil_mul n t in
        let k' = if ltb_ℤ k (pos 1) then pos 1 else k in if ltb_ℤ (pos n) k' then pos n else k')

abbrev pub in_electorate : Member → Bool
in_electorate m = eq_state m.state alive || (eq_state m.state suspect && eq_role m.role leader)

-- electorate
unfoldable pub electorate : View → List Member
electorate v = keep in_electorate v.members

-- The closure scoreOf: a member with no entry is unmeasured.
unfoldable pub score_of : Map Float64 → NodeId → Float64
score_of scores id = elim (lookup id scores) [ none ↦ score_unavailable | some s ↦ s ]

-- The order of the ranking: by score, ties by ID.
unfoldable pub ranks_before : Float64 → NodeId → Float64 → NodeId → Bool
ranks_before a i b j = if better a b then true else if better b a then false else ltb i j

unfoldable pub rank_less : Map Float64 → Member → Member → Bool
unfolding ranks_before
rank_less scores x y = ranks_before (score_of scores x.id) x.id (score_of scores y.id) y.id

abbrev pub measured : Map Float64 → Member → Bool
measured scores m = is_valid_score (score_of scores m.id)

-- sortIDs
abbrev pub sort_ids : List NodeId → List NodeId
sort_ids l = sort ltb l

-- The inner loop of applyHysteresis: the weakest newcomer with a seat, and its place.
unfoldable pub find_weakest :
    Map Float64 → ℕ → Option (ℕ × Member) → List Member → Option (ℕ × Member)
find_weakest scores i best [] = best
find_weakest scores i best (m ∷ ms) =
    find_weakest scores (suc i)
      (if eq_role m.role leader then best else elim best [
        | none ↦ some (i, m)
        | some (j, w) ↦
            if better (score_of scores w.id) (score_of scores m.id)
            then some (i, m)
            else some (j, w)
      ])
      ms

-- An incumbent against the weakest newcomer `w` in seat `i`: the newcomer keeps it only if it is
-- better by at least the margin.
unfoldable pub contest :
    FloatOps → Map Float64 → Float64 → List Member → Member → ℕ → Member → List Member
contest ops scores margin chosen inc i w =
    if leb_f margin (ops.sub (score_of scores inc.id) (score_of scores w.id))
    then chosen
    else set chosen i inc

-- The outer loop, over the displaced incumbents. It ends where no seat is a newcomer's.
unfoldable pub reseat : FloatOps → Map Float64 → Float64 → List Member → List Member → List Member
unfolding contest
reseat ops scores margin chosen [] = chosen
reseat ops scores margin chosen (inc ∷ rest) = elim (find_weakest scores 0 none chosen) [
  | none ↦ chosen
  | some (i, w) ↦ reseat ops scores margin (contest ops scores margin chosen inc i w) rest
]

-- The incumbents that lost their seat.
unfoldable pub displaced : Map Float64 → List Member → List Member → List Member
displaced scores chosen eligible =
    keep (λ m. eq_role m.role leader && not (contains (ids chosen) m.id) && measured scores m)
      eligible

abbrev pub by_id : Member → Member → Bool
by_id a b = ltb a.id b.id

-- applyHysteresis
unfoldable pub apply_hysteresis :
    FloatOps → Map Float64 → Float64 → List Member → List Member → List Member
unfolding reseat displaced
apply_hysteresis ops scores margin chosen eligible =
    if leb_f margin zero_f
    then chosen
    else reseat ops scores margin chosen (sort by_id (displaced scores chosen eligible))

-- `ranked[0].ID`, of a list that is not empty.
abbrev pub first_id : List Member → List NodeId
first_id [] = []
first_id (m ∷ ms) = m.id ∷ []

-- Elect, from the ranking on.
unfoldable pub elect_ranked : FloatOps → Map Float64 → Float64 → ℤ → List Member → List NodeId
elect_ranked ops scores margin want ranked =
    let eligible = keep (measured scores) ranked in
    if length eligible == 0
    then sort_ids (first_id ranked)
    else (let want' =
          if ltb_ℤ (pos (length eligible)) want then length eligible else pos_part want in
        sort_ids (ids (apply_hysteresis ops scores margin (take want' eligible) eligible)))

-- Elect
unfoldable pub elect : FloatOps → View → Map Float64 → Config → Result
elect ops view scores cfg =
    let c = with_defaults cfg in
    let voters = electorate view in
    let want = leader_count ops (pos (length voters)) c.threshold in
    if length voters == 0 then record { leaders = []; size = 0; want = pos 0 } else record {
      leaders = elect_ranked ops scores c.hysteresis want (sort (rank_less scores) voters);
      size = length voters;
      want = want;
    }
