-- ===== src/Cluster/Election/Seats.antt =====
-- Who may be elected, and how many: LeaderCount, and the seats through the hysteresis.
use mathlib.Core.List.{Permᴰ}
use mathlib.Core.List.Permᴰ
use swarm_communication.Prelude.{
  ℕ, ◌≡◌, refl, ap, ◌∙◌, Bool, true, false, none, List, [], ◌∷◌, ◌++◌, arith, inl, inr, Bool-cases,
  Option-cases, if◌then◌else◌, All, All-map, keep, contains, IsDistinct, length, take, set,
  length-set, zero, suc,
}
use swarm_communication.Prelude.Int.{ℤ, pos, negsuc, ◌≤ℤ◌}
use swarm_communication.Prelude.Map.{Map}
use swarm_communication.Prelude.Sort.{sort, sort-Permᴰ, All-Permᴰ}
use swarm_communication.Prelude.Distinct.{
  IsDistinct-Permᴰ, append-IsDistinct, set-append-IsDistinct, append-IsDistinct_left,
  IsDistinct-middle,
}
use swarm_communication.Health.{Float64, FloatOps, leb_f, zero_f}
use swarm_communication.Cluster.Member.{NodeId, Member, ids}
use swarm_communication.Cluster.Election.{
  leader_count, score_of, find_weakest, reseat, contest, displaced, by_id, apply_hysteresis,
}
use swarm_communication.Cluster.Election.Ranking.{keep-IsDistinct}

-- A swarm that is not empty gets at least one leader and at most as many as it has members, whatever
-- the rounding of the machine does.
pub leader_count_bounds :
    (ops : FloatOps) (n : ℤ) (threshold : Float64)
    → pos 1 ≤ℤ n
    → (pos 1 ≤ℤ leader_count ops n threshold) × (leader_count ops n threshold ≤ℤ n)
unfolding leader_count
leader_count_bounds ops (negsuc n) threshold h = absurd (omega arith)
leader_count_bounds ops (pos n) threshold h = (ground arith, ground arith)

module _ (P : Member → Type 0) where
  All-set : (i : ℕ) (v : Member) (ms : List Member) → P v → All P ms → All P (set ms i v)
  All-set i v [] p h = tt
  All-set zero v (m ∷ ms) p h = (p, h.1)
  All-set (suc i) v (m ∷ ms) p h = (h.0, All-set i v ms p h.1)

  pub All-take : (n : ℕ) (ms : List Member) → All P ms → All P (take n ms)
  All-take zero ms h = tt
  All-take (suc n) [] h = tt
  All-take (suc n) (m ∷ ms) h = (h.0, All-take n ms h.1)

  pub All-keep_sub : (p : Member → Bool) (ms : List Member) → All P ms → All P (keep p ms)
  All-keep_sub p [] h = tt
  All-keep_sub p (m ∷ ms) h = elim (Bool-cases (p m)) [
    | inl t ↦ rw t (h.0, All-keep_sub p ms h.1)
    | inr f ↦ rw f (All-keep_sub p ms h.1)
  ]

  pub All-contest :
      (ops : FloatOps) (s : Map Float64) (margin : Float64) (chosen : List Member) (inc : Member)
      (i : ℕ) (w : Member)
      → All P chosen
      → P inc
      → All P (contest ops s margin chosen inc i w)
  unfolding contest
  All-contest ops s margin chosen inc i w hc p =
      kept (leb_f margin (ops.sub (score_of s inc.id) (score_of s w.id)))
    where
      kept : (b : Bool) → All P (if b then chosen else set chosen i inc)
      kept true = hc
      kept false = All-set i inc chosen p hc

  -- Whoever holds a seat after the hysteresis held one before, or was displaced.
  pub All-reseat :
      (ops : FloatOps) (s : Map Float64) (margin : Float64) (chosen lost : List Member)
      → All P chosen
      → All P lost
      → All P (reseat ops s margin chosen lost)
  unfolding reseat
  All-reseat ops s margin chosen [] hc hl = hc
  All-reseat ops s margin chosen (inc ∷ rest) hc hl =
      elim (Option-cases (find_weakest s 0 none chosen)) [
        | inl e ↦ rw (e, reseat) hc
        | inr ((i, w), e) ↦
            rw (e, reseat)
              (All-reseat ops s margin (contest ops s margin chosen inc i w) rest
                (All-contest ops s margin chosen inc i w hc hl.0) hl.1)
      ]

pub All-keep : (p : Member → Bool) (ms : List Member) → All (λ m. p m ≡ true) (keep p ms)
All-keep p [] = tt
All-keep p (m ∷ ms) = elim (Bool-cases (p m)) [
  | inl t ↦ rw t (t, All-keep p ms)
  | inr f ↦ rw f (All-keep p ms)
]

length-contest :
    (ops : FloatOps) (s : Map Float64) (margin : Float64) (chosen : List Member) (inc : Member)
    (i : ℕ) (w : Member)
    → length (contest ops s margin chosen inc i w) ≡ length chosen
unfolding contest
length-contest ops s margin chosen inc i w = ground (arith, length-set chosen i inc)

pub length-reseat :
    (ops : FloatOps) (s : Map Float64) (margin : Float64) (chosen lost : List Member)
    → length (reseat ops s margin chosen lost) ≡ length chosen
unfolding reseat
length-reseat ops s margin chosen [] = refl
length-reseat ops s margin chosen (inc ∷ rest) =
    elim (Option-cases (find_weakest s 0 none chosen)) [
      | inl e ↦ rw (e, reseat)
      | inr ((i, w), e) ↦
          rw (e, reseat)
            (length-reseat ops s margin (contest ops s margin chosen inc i w) rest
              ∙ length-contest ops s margin chosen inc i w)
    ]

ids-set : (ms : List Member) (i : ℕ) (v : Member) → ids (set ms i v) ≡ set (ids ms) i v.id
ids-set [] i v = refl
ids-set (m ∷ ms) zero v = refl
ids-set (m ∷ ms) (suc i) v = ap (λ l. m.id ∷ l) (ids-set ms i v)

contest-IsDistinct :
    (ops : FloatOps) (s : Map Float64) (margin : Float64) (chosen rest : List Member) (inc : Member)
    (i : ℕ) (w : Member)
    → IsDistinct (ids chosen ++ inc.id ∷ ids rest)
    → IsDistinct (ids (contest ops s margin chosen inc i w) ++ ids rest)
unfolding contest
contest-IsDistinct ops s margin chosen rest inc i w d =
    kept (leb_f margin (ops.sub (score_of s inc.id) (score_of s w.id)))
  where
    kept : (b : Bool) → IsDistinct (ids (if b then chosen else set chosen i inc) ++ ids rest)
    kept true = (IsDistinct-middle (ids chosen) inc.id (ids rest) d).1
    kept false =
        rw (ids-set chosen i inc) (set-append-IsDistinct (ids chosen) i inc.id (ids rest) d)

-- No seat is held twice.
pub reseat-IsDistinct :
    (ops : FloatOps) (s : Map Float64) (margin : Float64) (chosen lost : List Member)
    → IsDistinct (ids chosen ++ ids lost)
    → IsDistinct (ids (reseat ops s margin chosen lost))
unfolding reseat
reseat-IsDistinct ops s margin chosen [] d = append-IsDistinct_left (ids chosen) [] d
reseat-IsDistinct ops s margin chosen (inc ∷ rest) d =
    elim (Option-cases (find_weakest s 0 none chosen)) [
      | inl e ↦ rw (e, reseat) (append-IsDistinct_left (ids chosen) (ids (inc ∷ rest)) d)
      | inr ((i, w), e) ↦
          rw (e, reseat)
            (reseat-IsDistinct ops s margin (contest ops s margin chosen inc i w) rest
              (contest-IsDistinct ops s margin chosen rest inc i w d))
    ]

pub ids-Permᴰ : {xs ys : List Member} → Permᴰ xs ys → Permᴰ (ids xs) (ids ys)
ids-Permᴰ Permᴰ.nil = Permᴰ.nil
ids-Permᴰ (Permᴰ.cons e p) = Permᴰ.cons (ap (λ (m : Member). m.id) e) (ids-Permᴰ p)
ids-Permᴰ (Permᴰ.swap e f) = Permᴰ.swap (ap (λ (m : Member). m.id) e) (ap (λ (m : Member). m.id) f)
ids-Permᴰ (Permᴰ.trans p q) = Permᴰ.trans (ids-Permᴰ p) (ids-Permᴰ q)

pub All-ids : (P : NodeId → Type 0) (ms : List Member) → All (λ m. P m.id) ms → All P (ids ms)
All-ids P [] h = tt
All-ids P (m ∷ ms) h = (h.0, All-ids P ms h.1)

pub length-ids : (ms : List Member) → length (ids ms) ≡ length ms
length-ids [] = refl
length-ids (m ∷ ms) = ap suc (length-ids ms)

pub ids-take : (n : ℕ) (ms : List Member) → ids (take n ms) ≡ take n (ids ms)
ids-take zero ms = refl
ids-take (suc n) [] = refl
ids-take (suc n) (m ∷ ms) = ap (λ l. m.id ∷ l) (ids-take n ms)

-- The displaced incumbents and the chosen are different members.
chosen_displaced-IsDistinct :
    (s : Map Float64) (chosen eligible : List Member)
    → IsDistinct (ids chosen)
    → IsDistinct (ids eligible)
    → IsDistinct (ids chosen ++ ids (sort by_id (displaced s chosen eligible)))
unfolding displaced
chosen_displaced-IsDistinct s chosen eligible dc de =
    let back = Permᴰ.symm (sort-Permᴰ by_id (displaced s chosen eligible)) in
    append-IsDistinct (ids chosen) _ dc
      (IsDistinct-Permᴰ (ids-Permᴰ back) (keep-IsDistinct _ eligible de))
      (All-ids (λ y. contains (ids chosen) y ≡ false) _
        (All-Permᴰ (λ m. contains (ids chosen) m.id ≡ false) back
          (All-map (λ m t. ground arith) _ (All-keep _ eligible))))

module _ (ops : FloatOps) (s : Map Float64) (margin : Float64) where
  pub apply_hysteresis-IsDistinct :
      (chosen eligible : List Member)
      → IsDistinct (ids chosen)
      → IsDistinct (ids eligible)
      → IsDistinct (ids (apply_hysteresis ops s margin chosen eligible))
  unfolding apply_hysteresis
  apply_hysteresis-IsDistinct chosen eligible dc de = elim (Bool-cases (leb_f margin zero_f)) [
    | inl c ↦ rw c dc
    | inr c ↦ rw c (
        reseat-IsDistinct ops s margin chosen _
          (chosen_displaced-IsDistinct s chosen eligible dc de))
  ]

  pub length-apply_hysteresis :
      (chosen eligible : List Member)
      → length (apply_hysteresis ops s margin chosen eligible) ≡ length chosen
  unfolding apply_hysteresis
  length-apply_hysteresis chosen eligible =
      ground (arith, length-reseat ops s margin chosen (sort by_id (displaced s chosen eligible)))

  pub All-apply_hysteresis :
      (P : Member → Type 0) (chosen eligible : List Member)
      → All P chosen
      → All P eligible
      → All P (apply_hysteresis ops s margin chosen eligible)
  unfolding apply_hysteresis displaced
  All-apply_hysteresis P chosen eligible hc he = elim (Bool-cases (leb_f margin zero_f)) [
    | inl c ↦ rw c hc
    | inr c ↦ rw c (
        All-reseat P ops s margin chosen _ hc (
          All-Permᴰ P (Permᴰ.symm (sort-Permᴰ by_id (displaced s chosen eligible)))
            (All-keep_sub P _ eligible he)))
  ]
