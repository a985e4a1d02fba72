-- ===== src/Cluster/Election/Hysteresis.antt =====
-- What the hysteresis promises an incumbent, and the election as a whole.
use mathlib.Core.List.{Memᴰ}
use mathlib.Core.List.Permᴰ
use swarm_communication.Prelude.{
  ℕ, ◌≡◌, refl, sym, ap, ◌∙◌, subst, Bool, true, false, none, some, List, [], ◌∷◌, arith, inl, inr,
  Bool-cases, Option-cases, All, All-map, get_elem?, zero, suc, set, ◌⊎◌, some_inj, contains, not,
  ◌&&◌,
}
use swarm_communication.Prelude.Map.{Map}
use swarm_communication.Prelude.Sort.{sort, sort-Permᴰ, All-Permᴰ}
use swarm_communication.Health.{Float64, FloatOps, better, leb_f, zero_f, is_valid_score}
use swarm_communication.Cluster.Member.{Member, ids, leader, eq_role}
use swarm_communication.Cluster.Election.{
  score_of, find_weakest, contest, reseat, displaced, apply_hysteresis, measured, by_id,
}
use swarm_communication.Cluster.Election.Seats.{All-reseat, All-contest}
use swarm_communication.Cluster.Election.Weakest.{
  IsNewcomer, find_weakest-Yields, find_weakest-HasSeat, Yields, HasSeat,
}

-- Rounding is monotone: for measured scores, where `c` is no worse than `b`, `a - c` passes every
-- test against a margin that `a - b` passes.
abbrev pub SubMono : FloatOps → Type 0
SubMono ops =
    (margin a b c : Float64)
    → is_valid_score a ≡ true
    → is_valid_score b ≡ true
    → is_valid_score c ≡ true
    → better b c ≡ false
    → leb_f margin (ops.sub a b) ≡ true
    → leb_f margin (ops.sub a c) ≡ true

module _ (ops : FloatOps) (mono : SubMono ops) (s : Map Float64) (margin : Float64) where
  -- Every newcomer with a seat is better than the incumbent by the margin.
  abbrev pub Outdone : Member → List Member → Type 0
  Outdone inc seats =
      All (λ m. IsNewcomer m → leb_f margin (ops.sub (score_of s inc.id) (score_of s m.id)) ≡ true)
        seats

  stays :
      (inc w v : Member) (i : ℕ) {ms : List Member}
      → Memᴰ inc ms
      → eq_role inc.role leader ≡ true
      → get_elem? ms i ≡ some w
      → IsNewcomer w
      → Memᴰ inc (set ms i v)
  stays inc w v zero (Memᴰ.head e) l g n =
      let clash : true ≡ false =
        sym l ∙ ap (λ (m : Member). eq_role m.role leader) (e ∙ some_inj g) ∙ n in
      cc
  stays inc w v (suc i) (Memᴰ.head e) l g n = Memᴰ.head e
  stays inc w v zero (Memᴰ.tail t) l g n = Memᴰ.tail t
  stays inc w v (suc i) (Memᴰ.tail t) l g n = Memᴰ.tail (stays inc w v i t l g n)

  seated :
      (inc : Member) (i : ℕ) (v : Member) (ms : List Member) {w : Member}
      → get_elem? ms i ≡ some w
      → inc ≡ v
      → Memᴰ inc (set ms i v)
  seated inc i v [] g e = absurd (cc)
  seated inc zero v (m ∷ ms) g e = Memᴰ.head e
  seated inc (suc i) v (m ∷ ms) g e = Memᴰ.tail (seated inc i v ms g e)

  abbrev test : Member → Member → Bool
  test inc w = leb_f margin (ops.sub (score_of s inc.id) (score_of s w.id))

  weakest-HasSeat :
      (chosen : List Member) {i : ℕ} {w : Member}
      → find_weakest s 0 none chosen ≡ some (i, w)
      → (get_elem? chosen i ≡ some w) × IsNewcomer w
  weakest-HasSeat chosen e =
      subst (HasSeat s chosen) e
        (find_weakest-HasSeat s chosen 0 none chosen (λ k. ap (get_elem? chosen) (omega arith)) tt)

  contest-stays :
      (x inc : Member) (chosen : List Member) (i : ℕ) (w : Member)
      → find_weakest s 0 none chosen ≡ some (i, w)
      → eq_role x.role leader ≡ true
      → Memᴰ x chosen
      → Memᴰ x (contest ops s margin chosen inc i w)
  unfolding contest
  contest-stays x inc chosen i w e l mem = elim (Bool-cases (test inc w)) [
    | inl t ↦ rw t mem
    | inr f ↦ let (g, n) = weakest-HasSeat chosen e in rw f (stays x w inc i mem l g n)
  ]

  -- An incumbent with a seat keeps it.
  pub reseat-stays :
      (x : Member) (chosen lost : List Member)
      → eq_role x.role leader ≡ true
      → Memᴰ x chosen
      → Memᴰ x (reseat ops s margin chosen lost)
  unfolding reseat
  reseat-stays x chosen [] l mem = mem
  reseat-stays x chosen (inc ∷ rest) l mem = elim (Option-cases (find_weakest s 0 none chosen)) [
    | inl e ↦ rw (e, reseat) mem
    | inr ((i, w), e) ↦
        rw (e, reseat)
          (reseat-stays x (contest ops s margin chosen inc i w) rest l
            (contest-stays x inc chosen i w e l mem))
  ]

  abbrev IsIncumbent : Member → Type 0
  IsIncumbent m = (eq_role m.role leader ≡ true) × (is_valid_score (score_of s m.id) ≡ true)

  abbrev IsMeasured : Member → Type 0
  IsMeasured m = is_valid_score (score_of s m.id) ≡ true

  Outdone-All :
      (inc w : Member) (i : ℕ) (all seats : List Member)
      → find_weakest s 0 none all ≡ some (i, w)
      → IsMeasured inc
      → IsMeasured w
      → test inc w ≡ true
      → All IsMeasured seats
      → All (λ m. IsNewcomer m → Yields s (find_weakest s 0 none all) m) seats
      → Outdone inc seats
  Outdone-All inc w i all [] e vi vw t hm hy = tt
  Outdone-All inc w i all (m ∷ ms) e vi vw t hm hy = (
    λ n.
        mono margin (score_of s inc.id) (score_of s w.id) (score_of s m.id) vi vw hm.0
          (subst (λ r. Yields s r m) e (hy.0 n)) t,
    Outdone-All inc w i all ms e vi vw t hm.1 hy.1,
  )

  IsMeasured-at :
      (ms : List Member) (i : ℕ) {w : Member}
      → All IsMeasured ms
      → get_elem? ms i ≡ some w
      → IsMeasured w
  IsMeasured-at [] i h g = absurd (cc)
  IsMeasured-at (m ∷ ms) zero h g = subst IsMeasured (some_inj g) h.0
  IsMeasured-at (m ∷ ms) (suc i) h g = IsMeasured-at ms i h.1 g

  no_newcomer :
      (inc : Member) (all seats : List Member)
      → find_weakest s 0 none all ≡ none
      → All (λ m. IsNewcomer m → Yields s (find_weakest s 0 none all) m) seats
      → Outdone inc seats
  no_newcomer inc all [] e hy = tt
  no_newcomer inc all (m ∷ ms) e hy =
      (λ n. absurd (subst (λ r. Yields s r m) e (hy.0 n)), no_newcomer inc all ms e hy.1)

  -- The seats outdo `inc`, so they still do when incumbents have taken some of them.
  Outdone-reseat :
      (inc : Member) (chosen lost : List Member)
      → Outdone inc chosen
      → All IsIncumbent lost
      → Outdone inc (reseat ops s margin chosen lost)
  Outdone-reseat inc chosen lost h hl =
      All-reseat _ ops s margin chosen lost h
        (All-map (λ m p n. let clash : true ≡ false = sym p.0 ∙ n in cc) lost hl)

  -- Each of the incumbents `lost` has a seat in the end, or every newcomer with a seat outdoes it.
  abbrev pub Fair : List Member → List Member → Type 0
  Fair seats lost = All (λ inc. Memᴰ inc seats ⊎ Outdone inc seats) lost

  reseat_stop :
      (chosen : List Member) (inc : Member) (rest : List Member)
      → find_weakest s 0 none chosen ≡ none
      → reseat ops s margin chosen (inc ∷ rest) ≡ chosen
  unfolding reseat
  reseat_stop chosen inc rest e = rw (e, reseat)

  reseat_step :
      (chosen : List Member) (inc : Member) (rest : List Member) (i : ℕ) (w : Member)
      → find_weakest s 0 none chosen ≡ some (i, w)
      → reseat ops s margin chosen (inc ∷ rest)
        ≡ reseat ops s margin (contest ops s margin chosen inc i w) rest
  unfolding reseat
  reseat_step chosen inc rest i w e = rw (e, reseat)

  contest_fair :
      (chosen : List Member) (inc : Member) (rest : List Member) (i : ℕ) (w : Member)
      → find_weakest s 0 none chosen ≡ some (i, w)
      → All IsMeasured chosen
      → All IsIncumbent (inc ∷ rest)
      → let seats = reseat ops s margin (contest ops s margin chosen inc i w) rest in
        Memᴰ inc seats ⊎ Outdone inc seats
  unfolding contest
  contest_fair chosen inc rest i w e hc hl =
      let (g, n) = weakest-HasSeat chosen e in
      elim (Bool-cases (test inc w)) [
        | inl t ↦ rw t (
            inr (
              Outdone-reseat inc chosen rest
                (Outdone-All inc w i chosen chosen e hl.0.1 (IsMeasured-at chosen i hc g) t hc
                  (find_weakest-Yields s 0 none chosen))
                hl.1))
        | inr f ↦
            rw f (
              inl
                (reseat-stays inc (set chosen i inc) rest hl.0.0 (seated inc i inc chosen g refl)))
      ]

  pub reseat-Fair :
      (chosen lost : List Member)
      → All IsMeasured chosen
      → All IsIncumbent lost
      → Fair (reseat ops s margin chosen lost) lost
  unfolding reseat
  reseat-Fair chosen [] hc hl = tt
  reseat-Fair chosen (inc ∷ rest) hc hl = elim (Option-cases (find_weakest s 0 none chosen)) [
    | inl e ↦
        subst (λ seats. Fair seats (inc ∷ rest)) (sym (reseat_stop chosen inc rest e))
          (All-map
            (λ m p. inr (no_newcomer m chosen chosen e (find_weakest-Yields s 0 none chosen)))
            (inc ∷ rest) hl)
    | inr ((i, w), e) ↦
        subst (λ seats. Fair seats (inc ∷ rest)) (sym (reseat_step chosen inc rest i w e))
          (
            contest_fair chosen inc rest i w e hc hl,
            reseat-Fair (contest ops s margin chosen inc i w) rest
                (All-contest IsMeasured ops s margin chosen inc i w hc hl.0.1) hl.1,
          )
  ]

  displaced-IsIncumbent :
      (chosen eligible : List Member) → All IsIncumbent (displaced s chosen eligible)
  unfolding displaced
  displaced-IsIncumbent chosen [] = tt
  displaced-IsIncumbent chosen (m ∷ ms) = elim (Bool-cases (lost chosen m)) [
    | inl t ↦ rw t (ground arith, displaced-IsIncumbent chosen ms)
    | inr f ↦ rw f (displaced-IsIncumbent chosen ms)
  ]
    where
      lost : List Member → Member → Bool
      lost chosen m = eq_role m.role leader && not (contains (ids chosen) m.id) && measured s m

  -- Where the machine's subtraction is monotone, the margin is positive and the chosen are measured,
  -- an incumbent that was chosen keeps its seat, and a displaced one has a seat in the end, unless
  -- every newcomer with a seat is better than it by at least the margin.
  pub apply_hysteresis_fair :
      (chosen eligible : List Member)
      → leb_f margin zero_f ≡ false
      → All IsMeasured chosen
      → let seats = apply_hysteresis ops s margin chosen eligible in
        ((x : Member) → eq_role x.role leader ≡ true → Memᴰ x chosen → Memᴰ x seats)
        × All (λ inc. Memᴰ inc seats ⊎ Outdone inc seats) (displaced s chosen eligible)
  unfolding apply_hysteresis
  apply_hysteresis_fair chosen eligible pos_margin hc =
      let lost = sort by_id (displaced s chosen eligible) in
      let p = sort-Permᴰ by_id (displaced s chosen eligible) in
      rw pos_margin (
        λ x l mem. reseat-stays x chosen lost l mem,
        All-Permᴰ
            (λ inc.
              Memᴰ inc (reseat ops s margin chosen lost)
              ⊎ Outdone inc (reseat ops s margin chosen lost))
            p
            (reseat-Fair chosen lost hc
              (All-Permᴰ IsIncumbent (Permᴰ.symm p) (displaced-IsIncumbent chosen eligible))),
      )
