-- ===== src/Cluster/Election/Leaders.antt =====
-- The result of an election: who leads, in which order, and how many.
use mathlib.Core.List.Permᴰ
use Prim.Native.Nat.{min}
use swarm_communication.Prelude.{
  ℕ, ◌<◌, ◌≡◌, refl, ◌∙◌, true, false, List, [], ◌∷◌, ◌==◌, ltb, arith, inl, inr, Bool-cases,
  if◌then◌else◌, All, All-map, keep, contains, IsDistinct, IsIncreasing, length, take, length-take,
}
use swarm_communication.Prelude.Int.{ℤ, pos, ltb_ℤ, pos_part, ◌≤ℤ◌}
use swarm_communication.Prelude.Map.{Map}
use swarm_communication.Prelude.Sort.{sort, sort-Permᴰ, All-Permᴰ, length-Permᴰ, keep-Permᴰ}
use swarm_communication.Prelude.Distinct.{IsDistinct-Permᴰ, sort-IsIncreasing, take-IsDistinct}
use swarm_communication.Health.{Float64, FloatOps, is_valid_score}
use swarm_communication.Cluster.Member.{NodeId, Member, View, ids}
use swarm_communication.Cluster.Election.{
  Config, with_defaults, leader_count, electorate, in_electorate, measured, score_of,
  apply_hysteresis, first_id, sort_ids, elect_ranked, rank_less, elect,
}
use swarm_communication.Cluster.Election.Ranking.{keep-IsDistinct}
use swarm_communication.Cluster.Election.Seats.{
  leader_count_bounds, All-take, All-keep_sub, All-keep, ids-Permᴰ, All-ids, length-ids, ids-take,
  apply_hysteresis-IsDistinct, length-apply_hysteresis, All-apply_hysteresis,
}

length-sort_ids : (l : List NodeId) → length (sort_ids l) ≡ length l
length-sort_ids l = length-Permᴰ (sort-Permᴰ ltb l)

All-sort_ids : (P : NodeId → Type 0) (l : List NodeId) → All P l → All P (sort_ids l)
All-sort_ids P l h = All-Permᴰ P (Permᴰ.symm (sort-Permᴰ ltb l)) h

-- The number of seats: of `n` voters, `k` of them measured, where the formula asks for `want`.
abbrev pub seats : ℕ → ℕ → ℕ → ℕ
seats n k want = if n == 0 then 0 else if k == 0 then 1 else min want k

module _ (ops : FloatOps) (s : Map Float64) (margin : Float64) (want : ℤ) where
  abbrev elected : List Member → List Member
  elected ranked =
      let eligible = keep (measured s) ranked in
      apply_hysteresis ops s margin
        (take (if ltb_ℤ (pos (length eligible)) want then length eligible else pos_part want)
          eligible)
        eligible

  elected-IsDistinct :
      (ranked : List Member) → IsDistinct (ids ranked) → IsDistinct (ids (elected ranked))
  elected-IsDistinct ranked d =
      let eligible = keep (measured s) ranked in
      let de = keep-IsDistinct (measured s) ranked d in
      apply_hysteresis-IsDistinct ops s margin _ eligible
        (rw (ids-take _ eligible) (take-IsDistinct _ (ids eligible) de)) de

  All-elected :
      (P : Member → Type 0) (ranked : List Member)
      → All P (keep (measured s) ranked)
      → All P (elected ranked)
  All-elected P ranked h =
      All-apply_hysteresis ops s margin P _ _ (All-take P _ (keep (measured s) ranked) h) h

  first-IsDistinct : (ranked : List Member) → IsDistinct (first_id ranked)
  first-IsDistinct [] = tt
  first-IsDistinct (m ∷ ms) = (refl, tt)

  All-first :
      (P : NodeId → Type 0) (ranked : List Member)
      → All (λ m. P m.id) ranked
      → All P (first_id ranked)
  All-first P [] h = tt
  All-first P (m ∷ ms) h = (h.0, tt)

  length-first : (ranked : List Member) → 0 < length ranked → length (first_id ranked) ≡ 1
  length-first [] h = absurd (omega arith)
  length-first (m ∷ ms) h = refl

  elect_ranked-IsIncreasing :
      (ranked : List Member)
      → IsDistinct (ids ranked)
      → IsIncreasing (elect_ranked ops s margin want ranked)
  unfolding elect_ranked
  elect_ranked-IsIncreasing ranked d = elim (Bool-cases (length (keep (measured s) ranked) == 0)) [
    | inl e ↦ rw e (sort-IsIncreasing _ (first-IsDistinct ranked))
    | inr e ↦ rw e (sort-IsIncreasing _ (elected-IsDistinct ranked d))
  ]

  All-elect_ranked :
      (P : NodeId → Type 0) (ranked : List Member)
      → All (λ m. P m.id) ranked
      → All P (elect_ranked ops s margin want ranked)
  unfolding elect_ranked
  All-elect_ranked P ranked h = elim (Bool-cases (length (keep (measured s) ranked) == 0)) [
    | inl e ↦ rw e (All-sort_ids P _ (All-first P ranked h))
    | inr e ↦ rw e (
        All-sort_ids P _ (
          All-ids P _
            (All-elected (λ m. P m.id) ranked (All-keep_sub (λ m. P m.id) (measured s) ranked h))))
  ]

  measured-elect_ranked :
      (ranked : List Member)
      → 0 < length (keep (measured s) ranked)
      → All (λ id. is_valid_score (score_of s id) ≡ true) (elect_ranked ops s margin want ranked)
  unfolding elect_ranked
  measured-elect_ranked ranked h =
      let e : (length (keep (measured s) ranked) == 0) ≡ false = ground arith in
      rw e (
        All-sort_ids _ _ (
          All-ids (λ id. is_valid_score (score_of s id) ≡ true) _
            (All-elected _ ranked (All-keep (measured s) ranked))))

  length-elect_ranked :
      (ranked : List Member)
      → pos 0 ≤ℤ want
      → 0 < length ranked
      → length (elect_ranked ops s margin want ranked)
        ≡ seats (length ranked) (length (keep (measured s) ranked)) (pos_part want)
  unfolding elect_ranked
  length-elect_ranked ranked w h = elim (Bool-cases (length (keep (measured s) ranked) == 0)) [
    | inl e ↦ rw e (length-sort_ids (first_id ranked) ∙ length-first ranked h ∙ ground arith)
    | inr e ↦
        let eligible = keep (measured s) ranked in
        let n : ℕ = if ltb_ℤ (pos (length eligible)) want then length eligible else pos_part want in
        rw e (
          length-sort_ids (ids (elected ranked))
          ∙ length-ids (elected ranked)
          ∙ length-apply_hysteresis ops s margin (take n eligible) eligible
          ∙ length-take n eligible
          ∙ ground arith)
  ]

electorate-IsDistinct : (v : View) → IsDistinct (ids v.members) → IsDistinct (ids (electorate v))
unfolding electorate
electorate-IsDistinct v d = keep-IsDistinct in_electorate v.members d

-- Each member's ID is among the IDs.
All-own : (ms : List Member) → All (λ m. contains (ids ms) m.id ≡ true) ms
All-own [] = tt
All-own (m ∷ ms) = (ground arith, All-map (λ x h. ground arith) ms (All-own ms))

-- Over members with distinct IDs, an election lists its leaders in strictly increasing order of ID,
-- each of them in the electorate; and it fills as many seats as its count of leaders asks for, but
-- no more than there are measured candidates, and one seat where nobody is measured and somebody
-- votes.
pub elect_leaders :
    (ops : FloatOps) (v : View) (s : Map Float64) (cfg : Config)
    → IsDistinct (ids v.members)
    → let r = elect ops v s cfg in
      IsIncreasing r.leaders
      × All (λ id. contains (ids (electorate v)) id ≡ true) r.leaders
      × (length r.leaders
          ≡ seats
              (length (electorate v))
              (length (keep (measured s) (electorate v)))
              (pos_part r.want))
unfolding elect
elect_leaders ops v s cfg d = elim (Bool-cases (length (electorate v) == 0)) [
  | inl e ↦ rw e (tt, tt, refl)
  | inr e ↦
      let c = with_defaults cfg in
      let want = leader_count ops (pos (length (electorate v))) c.threshold in
      let p = sort-Permᴰ (rank_less s) (electorate v) in
      let ranked = sort (rank_less s) (electorate v) in
      let bounds =
        leader_count_bounds ops (pos (length (electorate v))) c.threshold (ground arith) in
      rw e (
        elect_ranked-IsIncreasing ops s c.hysteresis want ranked
            (IsDistinct-Permᴰ (ids-Permᴰ (Permᴰ.symm p)) (electorate-IsDistinct v d)),
        All-elect_ranked ops s c.hysteresis want (λ id. contains (ids (electorate v)) id ≡ true)
            ranked
            (All-Permᴰ (λ m. contains (ids (electorate v)) m.id ≡ true) (Permᴰ.symm p)
              (All-own (electorate v))),
        length-elect_ranked ops s c.hysteresis want ranked (omega (arith, bounds.0))
              (ground (arith, length-Permᴰ p))
            ∙ rw (length-Permᴰ p, length-Permᴰ (keep-Permᴰ (measured s) p)) (rw e),
      )
]

elect-want :
    (ops : FloatOps) (v : View) (s : Map Float64) (cfg : Config)
    → 0 < length (electorate v)
    → pos 1 ≤ℤ (elect ops v s cfg).want
unfolding elect
elect-want ops v s cfg h =
    let e : (length (electorate v) == 0) ≡ false = ground arith in
    rw e
      (leader_count_bounds ops (pos (length (electorate v))) (with_defaults cfg).threshold
        (omega arith)).0

-- Over members with distinct IDs, an election in which somebody votes has a leader.
pub elect-nonempty :
    (ops : FloatOps) (v : View) (s : Map Float64) (cfg : Config)
    → IsDistinct (ids v.members)
    → 0 < length (electorate v)
    → 0 < length (elect ops v s cfg).leaders
elect-nonempty ops v s cfg d h =
    let r = elect_leaders ops v s cfg d in let w = elect-want ops v s cfg h in ground arith

-- Where one voter is measured, every leader is.
pub elect-measured :
    (ops : FloatOps) (v : View) (s : Map Float64) (cfg : Config)
    → 0 < length (keep (measured s) (electorate v))
    → All (λ id. is_valid_score (score_of s id) ≡ true) (elect ops v s cfg).leaders
unfolding elect
elect-measured ops v s cfg h = elim (Bool-cases (length (electorate v) == 0)) [
  | inl e ↦ rw e tt
  | inr e ↦
      let c = with_defaults cfg in
      let p = sort-Permᴰ (rank_less s) (electorate v) in
      rw e (
        measured-elect_ranked ops s c.hysteresis
          (leader_count ops (pos (length (electorate v))) c.threshold)
          (sort (rank_less s) (electorate v))
          (omega (arith, h, length-Permᴰ (keep-Permᴰ (measured s) p))))
]
