-- ===== src/Cluster/Election/Weakest.antt =====
-- The inner loop of applyHysteresis finds a newcomer that no newcomer with a seat is worse than.
use swarm_communication.Prelude.{
  ℕ, ◌+◌, ◌≡◌, ap, ◌∙◌, false, Option, none, some, List, [], ◌∷◌, arith, inl, inr, Bool-cases,
  if◌then◌else◌, All, get_elem?, suc,
}
use swarm_communication.Prelude.Map.{Map}
use swarm_communication.Health.{Float64, better}
use swarm_communication.Cluster.Member.{Member, leader, eq_role}
use swarm_communication.Cluster.Election.{score_of, find_weakest}
use swarm_communication.Cluster.Election.Ranking.{better-asymm}

abbrev pub IsNewcomer : Member → Type 0
IsNewcomer m = eq_role m.role leader ≡ false

better_neg_trans : (a b c : Float64) → better a b ≡ false → better b c ≡ false → better a c ≡ false
unfolding better
better_neg_trans a b c p q = ground arith

better_irrefl : (a : Float64) → better a a ≡ false
unfolding better
better_irrefl a = ground arith

module _ (s : Map Float64) where
  -- The best so far after one more seat.
  abbrev next_weakest : ℕ → Option (ℕ × Member) → Member → Option (ℕ × Member)
  next_weakest i best m = if eq_role m.role leader then best else elim best [
    | none ↦ some (i, m)
    | some (j, w) ↦ if better (score_of s w.id) (score_of s m.id) then some (i, m) else some (j, w)
  ]

  -- The result is there and is not better than `m`.
  abbrev pub Yields : Option (ℕ × Member) → Member → Type 0
  Yields none m = ⊥
  Yields (some (j, w)) m = better (score_of s w.id) (score_of s m.id) ≡ false

  Yields-trans :
      (r : Option (ℕ × Member)) (b m : Member)
      → Yields r b
      → better (score_of s b.id) (score_of s m.id) ≡ false
      → Yields r m
  Yields-trans none b m y q = y
  Yields-trans (some (j, w)) b m y q =
      better_neg_trans (score_of s w.id) (score_of s b.id) (score_of s m.id) y q

  next_weakest-some :
      (i : ℕ) (best : Option (ℕ × Member)) (m : Member)
      → IsNewcomer m
      → (j : ℕ) × (w : Member) × (next_weakest i best m ≡ some (j, w))
        × (better (score_of s w.id) (score_of s m.id) ≡ false)
  next_weakest-some i none m n = (i, m, rw n, better_irrefl (score_of s m.id))
  next_weakest-some i (some (j, w)) m n =
      elim (Bool-cases (better (score_of s w.id) (score_of s m.id))) [
        | inl b ↦ (i, m, rw (n, b), better_irrefl (score_of s m.id))
        | inr b ↦ (j, w, rw (n, b), b)
      ]

  next_weakest-keeps :
      (i j : ℕ) (b m : Member)
      → (k : ℕ) × (w : Member) × (next_weakest i (some (j, b)) m ≡ some (k, w))
        × (better (score_of s w.id) (score_of s b.id) ≡ false)
  next_weakest-keeps i j b m = elim (Bool-cases (eq_role m.role leader)) [
    | inl l ↦ (j, b, rw l, better_irrefl (score_of s b.id))
    | inr n ↦ elim (Bool-cases (better (score_of s b.id) (score_of s m.id))) [
      | inl t ↦ (i, m, rw (n, t), better-asymm (score_of s b.id) (score_of s m.id) t)
      | inr f ↦ (j, b, rw (n, f), better_irrefl (score_of s b.id))
    ]
  ]

  find_weakest-keeps :
      (i j : ℕ) (b : Member) (ms : List Member) → Yields (find_weakest s i (some (j, b)) ms) b
  unfolding find_weakest
  find_weakest-keeps i j b [] = better_irrefl (score_of s b.id)
  find_weakest-keeps i j b (m ∷ ms) =
      let (k, w, e, q) = next_weakest-keeps i j b m in
      rw (e, find_weakest)
        (Yields-trans (find_weakest s (suc i) (some (k, w)) ms) w b
          (find_weakest-keeps (suc i) k w ms) q)

  -- The result yields to every newcomer with a seat.
  pub find_weakest-Yields :
      (i : ℕ) (best : Option (ℕ × Member)) (ms : List Member)
      → All (λ m. IsNewcomer m → Yields (find_weakest s i best ms) m) ms
  unfolding find_weakest
  find_weakest-Yields i best [] = tt
  find_weakest-Yields i best (m ∷ ms) = (
    λ n.
        let (k, w, e, q) = next_weakest-some i best m n in
        rw (e, find_weakest)
          (Yields-trans (find_weakest s (suc i) (some (k, w)) ms) w m
            (find_weakest-keeps (suc i) k w ms) q),
    find_weakest-Yields (suc i) (next_weakest i best m) ms,
  )

  -- A newcomer in the seat that its index names.
  abbrev pub HasSeat : List Member → Option (ℕ × Member) → Type 0
  HasSeat whole none = Unit
  HasSeat whole (some (j, w)) = (get_elem? whole j ≡ some w) × IsNewcomer w

  next_weakest-HasSeat :
      (whole : List Member) (i : ℕ) (best : Option (ℕ × Member)) (m : Member)
      → get_elem? whole i ≡ some m
      → HasSeat whole best
      → HasSeat whole (next_weakest i best m)
  next_weakest-HasSeat whole i none m e h = elim (Bool-cases (eq_role m.role leader)) [
    | inl l ↦ rw l tt
    | inr n ↦ rw n (e, n)
  ]
  next_weakest-HasSeat whole i (some (j, w)) m e h = elim (Bool-cases (eq_role m.role leader)) [
    | inl l ↦ rw l h
    | inr n ↦ elim (Bool-cases (better (score_of s w.id) (score_of s m.id))) [
      | inl t ↦ rw (n, t) (e, n)
      | inr f ↦ rw (n, f) h
    ]
  ]

  pub find_weakest-HasSeat :
      (whole : List Member) (i : ℕ) (best : Option (ℕ × Member)) (ms : List Member)
      → ((k : ℕ) → get_elem? whole (i + k) ≡ get_elem? ms k)
      → HasSeat whole best
      → HasSeat whole (find_weakest s i best ms)
  unfolding find_weakest
  find_weakest-HasSeat whole i best [] f h = h
  find_weakest-HasSeat whole i best (m ∷ ms) f h =
      find_weakest-HasSeat whole (suc i) (next_weakest i best m) ms
        (λ k. ap (get_elem? whole) (omega arith) ∙ f (suc k))
        (next_weakest-HasSeat whole i best m (ap (get_elem? whole) (omega arith) ∙ f 0) h)
