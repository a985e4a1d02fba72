-- ===== src/Tests/Election.antt =====
-- Runs of the election (backend/pkg/cluster/election.go).
use mathlib.Core.List.{Permᴰ, Memᴰ}
use swarm_communication.Prelude.{
  ℕ, ◌+◌, ◌-◌, ◌*◌, ◌/◌, ◌^◌, ◌≡◌, ◌<◌, ◌⊎◌, refl, true, List, [], ◌∷◌, arith, All, IsIncreasing,
  length, keep, contains,
}
use swarm_communication.Prelude.Int.{ℤ, pos, negsuc, pos_part, ◌-ℤ◌}
use swarm_communication.Prelude.Map.{Map, lookup}
use swarm_communication.Health.{Float64, FloatOps, better, is_valid_score, one, three_tenths}
use swarm_communication.Cluster.Member.{
  NodeId, Role, State, alive, suspect, worker, leader, Member, View, ids, eq_role,
}
use swarm_communication.Cluster.Election.{
  Config, elect, electorate, leader_count, apply_hysteresis, displaced, measured, score_of,
}
use swarm_communication.Cluster.Election.Ranking.{elect-perm}
use swarm_communication.Cluster.Election.Hysteresis.{SubMono, Outdone, apply_hysteresis_fair}
use swarm_communication.Cluster.Election.Leaders.{seats, elect_leaders, elect-nonempty}

-- Arithmetic that does not round. (A conversion of a NaN gives the least integer.)
abbrev exact_sub : Float64 → Float64 → Float64
exact_sub (Float64.finite x) (Float64.finite y) = Float64.finite (x -ℤ y)
exact_sub _ _ = Float64.nan

abbrev exact_ceil_mul : ℕ → Float64 → ℤ
exact_ceil_mul n (Float64.finite (pos t)) = pos ((n * t + (2 ^ 1074 - 1)) / 2 ^ 1074)
exact_ceil_mul n _ = negsuc (2 ^ 63 - 1)

abbrev pub exact : FloatOps
exact = record { sub = exact_sub; ceil_mul = exact_ceil_mul }

exact-SubMono : SubMono exact
unfolding is_valid_score better ◌-ℤ◌
exact-SubMono margin Float64.nan b c ha hb hc h p = cc
exact-SubMono margin Float64.neg_inf b c ha hb hc h p = cc
exact-SubMono margin Float64.pos_inf b c ha hb hc h p = cc
exact-SubMono margin (Float64.finite a) Float64.nan c ha hb hc h p = cc
exact-SubMono margin (Float64.finite a) Float64.neg_inf c ha hb hc h p = cc
exact-SubMono margin (Float64.finite a) Float64.pos_inf c ha hb hc h p = cc
exact-SubMono margin (Float64.finite a) (Float64.finite b) Float64.nan ha hb hc h p = cc
exact-SubMono margin (Float64.finite a) (Float64.finite b) Float64.neg_inf ha hb hc h p = cc
exact-SubMono margin (Float64.finite a) (Float64.finite b) Float64.pos_inf ha hb hc h p = cc
exact-SubMono Float64.nan (Float64.finite a) (Float64.finite b) (Float64.finite c) ha hb hc h p = p
exact-SubMono Float64.neg_inf (Float64.finite a) (Float64.finite b) (Float64.finite c) ha hb hc h
      p =
    p
exact-SubMono Float64.pos_inf (Float64.finite a) (Float64.finite b) (Float64.finite c) ha hb hc h
      p =
    p
exact-SubMono (Float64.finite m) (Float64.finite a) (Float64.finite b) (Float64.finite c) ha hb hc h
      p =
    ground arith

abbrev member : NodeId → Role → State → Member
member k r s = record {
  id = k;
  addr = k;
  role = r;
  state = s;
  incarnation = pos 0;
  score = Float64.nan;
  seq = 0;
}

abbrev members : List Member
members = member 1 leader suspect ∷ member 2 worker alive ∷ member 3 worker alive ∷ []

abbrev members_of_peer : List Member
members_of_peer = member 2 worker alive ∷ member 1 leader suspect ∷ member 3 worker alive ∷ []

abbrev view : View
view = record { members = members; version = 3 }

abbrev view_of_peer : View
view_of_peer = record { members = members_of_peer; version = 7 }

abbrev scores : Map Float64
scores = (1, Float64.finite (pos 30)) ∷ (2, Float64.finite (pos 26)) ∷ (3, Float64.nan) ∷ []

abbrev cfg : Config
cfg = record { threshold = Float64.nan; hysteresis = Float64.finite (pos 5) }

elect-perm_example : elect exact view scores cfg ≡ elect exact view_of_peer scores cfg
elect-perm_example =
    elect-perm exact view view_of_peer scores cfg (Permᴰ.swap refl refl) (refl, (refl, (refl, tt)))

-- Three of ten, at the default of 0.3 that stands for an absurd threshold.
leader_count_run : leader_count exact (pos 10) (Float64.finite (pos 0)) ≡ pos 3
unfolding leader_count one three_tenths
leader_count_run = refl

elect_leaders_example :
    let r = elect exact view scores cfg in
    IsIncreasing r.leaders
    × All (λ id. contains (ids (electorate view)) id ≡ true) r.leaders
    × (length r.leaders
        ≡ seats
            (length (electorate view))
            (length (keep (measured scores) (electorate view)))
            (pos_part r.want))
elect_leaders_example = elect_leaders exact view scores cfg (refl, (refl, (refl, tt)))

elect-nonempty_example : 0 < length (elect exact view scores cfg).leaders
unfolding electorate
elect-nonempty_example =
    elect-nonempty exact view scores cfg (refl, (refl, (refl, tt))) (omega arith)

-- The incumbent lost the ranking by less than the margin, and gets its seat back.
apply_hysteresis_fair_example :
    let chosen = member 2 worker alive ∷ [] in
    let eligible = member 1 leader suspect ∷ member 2 worker alive ∷ [] in
    let margin = Float64.finite (pos 5) in
    let seated = apply_hysteresis exact scores margin chosen eligible in
    ((x : Member) → eq_role x.role leader ≡ true → Memᴰ x chosen → Memᴰ x seated)
    × All
        (λ inc. Memᴰ inc seated ⊎ Outdone exact exact-SubMono scores margin inc seated)
        (displaced scores chosen eligible)
unfolding score_of is_valid_score lookup
apply_hysteresis_fair_example =
    apply_hysteresis_fair exact exact-SubMono scores (Float64.finite (pos 5))
      (member 2 worker alive ∷ []) (member 1 leader suspect ∷ member 2 worker alive ∷ []) refl
      (two_measured, tt)
  where
    two_measured : is_valid_score (score_of scores 2) ≡ true
    two_measured = refl
