-- ===== src/Cluster/Affinity/Choice.antt =====
-- ChooseLeader picks the first of the leaders in the order of score and ID.
use mathlib.Core.List.{Permᴰ}
use swarm_communication.Prelude.{
  ◌≡◌, refl, ap, ◌∙◌, subst, true, false, Option, none, some, List, [], ◌∷◌, arith, contains,
  if◌then◌else◌, All, All-map,
}
use swarm_communication.Prelude.Map.{Map}
use swarm_communication.Health.{Float64, is_valid_score, better, score_unavailable}
use swarm_communication.Cluster.Member.{NodeId}
use swarm_communication.Cluster.Election.{score_of, ranks_before}
use swarm_communication.Cluster.Affinity.{choose_step, choose_from, choose_leader}

ranks_before_irrefl : (a : Float64) (i : NodeId) → ranks_before a i a i ≡ false
unfolding ranks_before better
ranks_before_irrefl a i = ground arith

ranks_before_neg_trans :
    (a b c : Float64) (i j k : NodeId)
    → ranks_before a i b j ≡ false
    → ranks_before b j c k ≡ false
    → ranks_before a i c k ≡ false
unfolding ranks_before better
ranks_before_neg_trans a b c i j k p q = ground arith

ranks_before-asymm :
    (a b : Float64) (i j : NodeId) → ranks_before a i b j ≡ true → ranks_before b j a i ≡ false
unfolding ranks_before better
ranks_before-asymm a b i j p = ground arith

invalid_nan : is_valid_score score_unavailable ≡ false
unfolding is_valid_score
invalid_nan = refl

ranks_before-total :
    (a b : Float64) (i j : NodeId)
    → ranks_before a i b j ≡ false
    → ranks_before b j a i ≡ false
    → i ≡ j
unfolding ranks_before
ranks_before-total a b i j p q = ground arith

module _ (s : Map Float64) where
  abbrev sc : NodeId → Float64
  sc id = score_of s id

  -- The step, by the ranking of the election.
  abbrev next : Option (NodeId × Float64) → NodeId → Option (NodeId × Float64)
  next found id =
      if is_valid_score (sc id)
      then elim found [
        | none ↦ some (id, sc id)
        | some (b, sb) ↦ if ranks_before (sc id) id sb b then some (id, sc id) else some (b, sb)
      ]
      else found

  choose_step_lem :
      (found : Option (NodeId × Float64)) (id : NodeId) → choose_step s found id ≡ next found id
  unfolding choose_step score_of ranks_before
  choose_step_lem none id = ground (arith, invalid_nan)
  choose_step_lem (some (b, sb)) id = ground (arith, invalid_nan)

  -- The pick is measured, and `id` does not rank before it.
  abbrev pub Bounds : Option (NodeId × Float64) → NodeId → Type 0
  Bounds none id = is_valid_score (sc id) ≡ false
  Bounds (some (b, sb)) id = is_valid_score (sc id) ≡ true → ranks_before (sc id) id sb b ≡ false

  abbrev pub FromScores : Option (NodeId × Float64) → Type 0
  FromScores none = Unit
  FromScores (some (b, sb)) = (sb ≡ sc b) × (is_valid_score sb ≡ true)

  next-Bounds :
      (found : Option (NodeId × Float64)) (id x : NodeId)
      → Bounds found x
      → Bounds (next found id) x
  next-Bounds none id x h = ground arith
  next-Bounds (some (b, sb)) id x h =
      ground
        (arith, ranks_before-asymm (sc id) sb id b, ranks_before_neg_trans (sc x) sb (sc id) x b id)

  next-Bounds_self : (found : Option (NodeId × Float64)) (id : NodeId) → Bounds (next found id) id
  next-Bounds_self none id = ground (arith, ranks_before_irrefl (sc id) id)
  next-Bounds_self (some (b, sb)) id = ground (arith, ranks_before_irrefl (sc id) id)

  next-FromScores :
      (found : Option (NodeId × Float64)) (id : NodeId)
      → FromScores found
      → FromScores (next found id)
  next-FromScores none id h = ground arith
  next-FromScores (some (b, sb)) id h = ground arith

  choose_from-Bounds :
      (found : Option (NodeId × Float64)) (x : NodeId) (ids : List NodeId)
      → Bounds found x
      → Bounds (choose_from s found ids) x
  unfolding choose_from
  choose_from-Bounds found x [] h = h
  choose_from-Bounds found x (id ∷ ids) h =
      choose_from-Bounds (choose_step s found id) x ids
        (rw (choose_step_lem found id) (next-Bounds found id x h))

  choose_from-All :
      (found : Option (NodeId × Float64)) (ids : List NodeId)
      → All (Bounds (choose_from s found ids)) ids
  unfolding choose_from
  choose_from-All found [] = tt
  choose_from-All found (id ∷ ids) = (
    choose_from-Bounds (choose_step s found id) id ids
        (rw (choose_step_lem found id) (next-Bounds_self found id)),
    choose_from-All (choose_step s found id) ids,
  )

  -- The pick is a leader of the list.
  abbrev Among : List NodeId → Option (NodeId × Float64) → Type 0
  Among leaders none = Unit
  Among leaders (some (b, sb)) = contains leaders b ≡ true

  next-Among :
      (leaders : List NodeId) (found : Option (NodeId × Float64)) (id : NodeId)
      → Among leaders found
      → contains leaders id ≡ true
      → Among leaders (next found id)
  next-Among leaders none id h c = ground arith
  next-Among leaders (some (b, sb)) id h c = ground arith

  choose_from-Among :
      (leaders : List NodeId) (found : Option (NodeId × Float64)) (ids : List NodeId)
      → Among leaders found
      → FromScores found
      → All (λ id. contains leaders id ≡ true) ids
      → Among leaders (choose_from s found ids) × FromScores (choose_from s found ids)
  unfolding choose_from
  choose_from-Among leaders found [] h f c = (h, f)
  choose_from-Among leaders found (id ∷ ids) h f c =
      choose_from-Among leaders (choose_step s found id) ids
        (rw (choose_step_lem found id) (next-Among leaders found id h c.0))
        (rw (choose_step_lem found id) (next-FromScores found id f)) c.1

  next_comm :
      (found : Option (NodeId × Float64)) (x y : NodeId)
      → FromScores found
      → next (next found x) y ≡ next (next found y) x
  next_comm none x y h =
      ground (arith, ranks_before-asymm (sc x) (sc y) x y, ranks_before-total (sc x) (sc y) x y)
  next_comm (some (b, sb)) x y h = ground (
    arith,
    ranks_before-asymm (sc x) (sc y) x y,
    ranks_before-total (sc x) (sc y) x y,
    ranks_before_neg_trans (sc y) sb (sc x) y b x,
    ranks_before_neg_trans (sc x) sb (sc y) x b y,
    ranks_before-asymm (sc x) sb x b,
    ranks_before-asymm (sc y) sb y b,
    ranks_before_neg_trans sb (sc y) (sc x) b y x,
    ranks_before_neg_trans sb (sc x) (sc y) b x y,
    ranks_before_neg_trans (sc x) (sc y) sb x y b,
    ranks_before_neg_trans (sc y) (sc x) sb y x b,
  )

  choose_from_comm :
      (found : Option (NodeId × Float64)) (x y : NodeId) (ids : List NodeId)
      → FromScores found
      → choose_from s found (x ∷ y ∷ ids) ≡ choose_from s found (y ∷ x ∷ ids)
  unfolding choose_from
  choose_from_comm found x y ids h =
      ap (λ f. choose_from s f ids)
        (rw
          (
            choose_step_lem found x,
            choose_step_lem found y,
            choose_step_lem (next found x) y,
            choose_step_lem (next found y) x,
          )
          (next_comm found x y h))

  choose_from-perm :
      (found : Option (NodeId × Float64)) {xs ys : List NodeId}
      → Permᴰ xs ys
      → FromScores found
      → choose_from s found xs ≡ choose_from s found ys
  unfolding choose_from
  choose_from-perm found Permᴰ.nil h = refl
  choose_from-perm found (Permᴰ.cons {a = a} e p) h = rw (← e) (
      choose_from-perm (choose_step s found a) p
        (rw (choose_step_lem found a) (next-FromScores found a h)))
  choose_from-perm found (Permᴰ.swap {a = a} {b = b} {l = l} e f) h =
      rw (← e, ← f) (choose_from_comm found a b l h)
  choose_from-perm found (Permᴰ.trans p q) h =
      choose_from-perm found p h ∙ choose_from-perm found q h

All-contains : (l : List NodeId) → All (λ id. contains l id ≡ true) l
All-contains [] = tt
All-contains (x ∷ l) = (ground arith, All-map (λ y h. ground arith) l (All-contains l))

-- The leader that ChooseLeader picks is a measured leader of the list, with its own score, and no
-- measured leader of the list ranks before it, by score and then by ID.
pub choose_leader_best :
    (s : Map Float64) (leaders : List NodeId) (b : NodeId) (sb : Float64)
    → choose_leader s leaders ≡ some (b, sb)
    → (contains leaders b ≡ true)
      × (sb ≡ score_of s b)
      × (is_valid_score sb ≡ true)
      × All
          (λ id.
            is_valid_score (score_of s id) ≡ true → ranks_before (score_of s id) id sb b ≡ false)
          leaders
unfolding choose_leader
choose_leader_best s leaders b sb e =
    let all = choose_from-All s none leaders in
    let own = choose_from-Among s leaders none leaders tt tt (All-contains leaders) in
    let among = subst (Among s leaders) e own.0 in
    let scores = subst (FromScores s) e own.1 in
    (among, scores.0, scores.1, subst (λ r. All (Bounds s r) leaders) e all)

-- ChooseLeader picks nobody only where no leader of the list is measured.
pub choose_leader-none :
    (s : Map Float64) (leaders : List NodeId)
    → choose_leader s leaders ≡ none
    → All (λ id. is_valid_score (score_of s id) ≡ false) leaders
unfolding choose_leader
choose_leader-none s leaders e =
    subst (λ r. All (Bounds s r) leaders) e (choose_from-All s none leaders)

-- The pick does not depend on the order in which the leaders are listed.
pub choose_leader-perm :
    (s : Map Float64) {xs ys : List NodeId} → Permᴰ xs ys → choose_leader s xs ≡ choose_leader s ys
unfolding choose_leader
choose_leader-perm s p = choose_from-perm s none p tt
