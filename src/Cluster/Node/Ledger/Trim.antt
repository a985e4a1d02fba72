-- ===== src/Cluster/Node/Ledger/Trim.antt =====
-- The trimming loop of syncPayload.
use swarm_communication.Prelude.{
  ℕ, zero, suc, ◌/◌, ◌≡◌, ◌⊎◌, ◌≤◌, ◌<◌, refl, sym, ◌∙◌, ap, subst, Bool, true, false, not, ◌||◌,
  Option, none, some, Option-cases, List, [], ◌∷◌, arith, Bool-cases, inl, inr, if◌then◌else◌,
  length, ◌==◌, keep,
}
use swarm_communication.Cluster.Member.{NodeId}
use swarm_communication.Cluster.Wire.{TaskRecord, Snapshot}
use swarm_communication.Cluster.Node.{NodeConfig, Node, Work}
use swarm_communication.Cluster.Node.Ledger.{
  is_pending, count_done, drop_some, at_least_one, trim_round, trim_ledger, returns, encoded,
  sync_payload, sync_budget,
}

-- drop_some drops as many as it is told, as long as there are enough of them.
drop_some-le : (any : Bool) (n : ℕ) (l : List TaskRecord) → length (drop_some any n l) ≤ length l
unfolding drop_some
drop_some-le any zero l = omega arith
drop_some-le any (suc n) [] = omega arith
drop_some-le any (suc n) (r ∷ rs) = elim (Bool-cases (not (is_pending r) || any)) [
  | inl e ↦ rw (e, drop_some) (omega (arith, drop_some-le any n rs))
  | inr e ↦ rw (e, drop_some) (omega (arith, drop_some-le any (suc n) rs))
]

drop_some-any :
    (n : ℕ) (r : TaskRecord) (rs : List TaskRecord)
    → length (drop_some true (suc n) (r ∷ rs)) ≤ length rs
unfolding drop_some
drop_some-any n r rs = rw (any_true (not (is_pending r)), drop_some) (drop_some-le true n rs)
  where
    any_true : (b : Bool) → (b || true) ≡ true
    any_true b = ground arith

drop_some-done :
    (n : ℕ) (l : List TaskRecord) → 0 < count_done l → length (drop_some false (suc n) l) < length l
unfolding drop_some count_done
drop_some-done n [] h = absurd (omega (arith, h))
drop_some-done n (r ∷ rs) h = elim (Bool-cases (is_pending r)) [
  | inl e ↦
      let h' : 0 < count_done rs = ground (arith, h, e) in
      let e' : (not (is_pending r) || false) ≡ false = ground (arith, e) in
      rw (e', drop_some) (omega (arith, drop_some-done n rs h'))
  | inr e ↦
      let e' : (not (is_pending r) || false) ≡ true = ground (arith, e) in
      rw (e', drop_some) (omega (arith, drop_some-le false n rs))
]

positive : (k : ℕ) → (n : ℕ) × (at_least_one k ≡ suc n)
positive zero = (0, refl)
positive (suc n) = (n, ground arith)

-- A round drops a record as long as there is one.
length-trim_round : (l : List TaskRecord) → 0 < length l → length (trim_round l) < length l
unfolding trim_round
length-trim_round [] h = absurd (omega (arith, h))
length-trim_round (r ∷ rs) h = elim (Bool-cases (count_done (r ∷ rs) == 0)) [
  | inl e ↦
      let (n, at) = positive (length (r ∷ rs) / 2) in
      rw (e, trim_round, at) (omega (arith, drop_some-any n r rs))
  | inr e ↦
      let (n, at) = positive (count_done (r ∷ rs) / 2) in
      rw (e, trim_round, at) (drop_some-done n (r ∷ rs) (ground (arith, e)))
]

-- What a round drops is finished, unless nothing is.
drop_some-pending :
    (n : ℕ) (l : List TaskRecord) → keep is_pending (drop_some false n l) ≡ keep is_pending l
unfolding drop_some
drop_some-pending zero l = refl
drop_some-pending (suc n) [] = refl
drop_some-pending (suc n) (r ∷ rs) = elim (Bool-cases (is_pending r)) [
  | inl e ↦
      let e' : (not (is_pending r) || false) ≡ false = ground (arith, e) in
      rw (e', drop_some, e) (ap (λ (l : List TaskRecord). r ∷ l) (drop_some-pending (suc n) rs))
  | inr e ↦
      let e' : (not (is_pending r) || false) ≡ true = ground (arith, e) in
      rw (e', drop_some, e) (drop_some-pending n rs)
]

drop_some-undone :
    (any : Bool) (n : ℕ) (l : List TaskRecord)
    → count_done l ≡ 0
    → count_done (drop_some any n l) ≡ 0
unfolding drop_some count_done
drop_some-undone any zero l h = h
drop_some-undone any (suc n) [] h = refl
drop_some-undone any (suc n) (r ∷ rs) h =
    let (e, h') = all_pending (is_pending r) h in
    elim (Bool-cases (not (is_pending r) || any)) [
      | inl f ↦ rw (f, drop_some) (drop_some-undone any n rs h')
      | inr f ↦ rw (f, drop_some, e) (drop_some-undone any (suc n) rs h')
    ]
  where
    all_pending :
        (b : Bool)
        → (if b then count_done rs else suc (count_done rs)) ≡ 0
        → (b ≡ true) × (count_done rs ≡ 0)
    all_pending true h = (refl, h)
    all_pending false h = absurd (omega (arith, h))

trim_round-pending :
    (l : List TaskRecord) → 0 < count_done l → keep is_pending (trim_round l) ≡ keep is_pending l
unfolding trim_round
trim_round-pending l h =
    let e : (count_done l == 0) ≡ false = ground (arith, h) in
    rw (e, trim_round) (drop_some-pending (at_least_one (count_done l / 2)) l)

trim_round-undone : (l : List TaskRecord) → count_done l ≡ 0 → count_done (trim_round l) ≡ 0
unfolding trim_round
trim_round-undone l h =
    let e : (count_done l == 0) ≡ true = ground (arith, h) in
    rw (e, trim_round) (drop_some-undone true (at_least_one (length l / 2)) l h)

nothing_left : (l : List TaskRecord) → length l ≡ 0 → l ≡ []
nothing_left [] h = refl
nothing_left (r ∷ rs) h = absurd (omega (arith, h))

-- A snapshot with another ledger.
abbrev pub with_ledger : List TaskRecord → Snapshot → Snapshot
with_ledger l p = record p { ledger = l }

module _ (cfg : NodeConfig) where
  -- The snapshot encodes, and its encoding is within the budget.
  abbrev pub Fits : Snapshot → Type 0
  Fits p = (size : ℕ) × (cfg.encoded_size p ≡ some size) × (size ≤ sync_budget)

  Fits-returns : (p : Snapshot) → Fits p → returns cfg p ≡ true
  unfolding returns
  Fits-returns p (size, e, le) = rw (e, returns) (ground (arith, le))

  trim-stops : (fuel : ℕ) (p : Snapshot) → returns cfg p ≡ true → trim_ledger cfg (suc fuel) p ≡ p
  unfolding trim_ledger
  trim-stops fuel p e = rw (e, trim_ledger) refl

  trim-goes :
      (fuel : ℕ) (p : Snapshot)
      → returns cfg p ≡ false
      → trim_ledger cfg (suc fuel) p ≡ trim_ledger cfg fuel (with_ledger (trim_round p.ledger) p)
  unfolding trim_ledger
  trim-goes fuel p e = rw (e, trim_ledger) refl

  trim_ledger-returns :
      (fuel : ℕ) (p : Snapshot)
      → length p.ledger ≤ fuel
      → returns cfg (with_ledger [] p) ≡ true
      → returns cfg (trim_ledger cfg fuel p) ≡ true
  unfolding trim_ledger
  trim_ledger-returns zero p enough fits =
      subst (λ l. returns cfg (with_ledger l p) ≡ true)
        (sym (nothing_left p.ledger (omega (arith, enough)))) fits
  trim_ledger-returns (suc fuel) p enough fits = elim (Bool-cases (returns cfg p)) [
    | inl e ↦ rw (trim-stops fuel p e) e
    | inr e ↦ rw (trim-goes fuel p e) (
        trim_ledger-returns fuel (with_ledger (trim_round p.ledger) p)
          (shorter e (Bool-cases (length p.ledger == 0))) fits)
  ]
    where
      shorter :
          returns cfg p ≡ false
          → ((length p.ledger == 0) ≡ true) ⊎ ((length p.ledger == 0) ≡ false)
          → length (trim_round p.ledger) ≤ fuel
      shorter e (inl empty) =
          let fits' : returns cfg p ≡ true =
            subst (λ l. returns cfg (with_ledger l p) ≡ true)
              (sym (nothing_left p.ledger (ground (arith, empty)))) fits in
          absurd (ground (arith, e, fits'))
      shorter e (inr some_left) =
          let less = length-trim_round p.ledger (ground (arith, some_left)) in
          omega (arith, less, enough)

  trim_ledger-undone :
      (fuel : ℕ) (p : Snapshot)
      → count_done p.ledger ≡ 0
      → count_done (trim_ledger cfg fuel p).ledger ≡ 0
  unfolding trim_ledger
  trim_ledger-undone zero p h = h
  trim_ledger-undone (suc fuel) p h = elim (Bool-cases (returns cfg p)) [
    | inl e ↦ rw (trim-stops fuel p e) h
    | inr e ↦ rw (trim-goes fuel p e) (
        trim_ledger-undone fuel (with_ledger (trim_round p.ledger) p)
          (trim_round-undone p.ledger h))
  ]

  trim_ledger-pending :
      (fuel : ℕ) (p : Snapshot)
      → 0 < count_done (trim_ledger cfg fuel p).ledger
      → keep is_pending (trim_ledger cfg fuel p).ledger ≡ keep is_pending p.ledger
  unfolding trim_ledger
  trim_ledger-pending zero p h = refl
  trim_ledger-pending (suc fuel) p h = elim (Bool-cases (returns cfg p)) [
    | inl e ↦ ap (λ (s : Snapshot). keep is_pending s.ledger) (trim-stops fuel p e)
    | inr e ↦
        let goes = trim-goes fuel p e in
        let next = with_ledger (trim_round p.ledger) p in
        let h' = subst (λ (s : Snapshot). 0 < count_done s.ledger) goes h in
        ap (λ (s : Snapshot). keep is_pending s.ledger) goes
        ∙ trim_ledger-pending fuel next h'
        ∙ trim_round-pending p.ledger (some_done h' (Bool-cases (count_done p.ledger == 0)))
  ]
    where
      some_done :
          0 < count_done (trim_ledger cfg fuel (with_ledger (trim_round p.ledger) p)).ledger
          → ((count_done p.ledger == 0) ≡ true) ⊎ ((count_done p.ledger == 0) ≡ false)
          → 0 < count_done p.ledger
      some_done h' (inl nothing) =
          let none_done : count_done p.ledger ≡ 0 = ground (arith, nothing) in
          let still =
            trim_ledger-undone fuel (with_ledger (trim_round p.ledger) p)
              (trim_round-undone p.ledger none_done) in
          absurd (omega (arith, still, h'))
      some_done h' (inr finished) = ground (arith, finished)

  trim_ledger-same :
      (fuel : ℕ) (p : Snapshot)
      → trim_ledger cfg fuel p ≡ with_ledger (trim_ledger cfg fuel p).ledger p
  unfolding trim_ledger
  trim_ledger-same zero p = refl
  trim_ledger-same (suc fuel) p = elim (Bool-cases (returns cfg p)) [
    | inl e ↦ rw (trim-stops fuel p e) refl
    | inr e ↦ rw (trim-goes fuel p e) (trim_ledger-same fuel (with_ledger (trim_round p.ledger) p))
  ]

  trim_ledger-whole : (fuel : ℕ) (p : Snapshot) → returns cfg p ≡ true → trim_ledger cfg fuel p ≡ p
  unfolding trim_ledger
  trim_ledger-whole zero p fits = refl
  trim_ledger-whole (suc fuel) p fits = trim-stops fuel p fits

-- A node's snapshot before the trimming.
unfoldable pub whole_snapshot : NodeConfig → Node → List NodeId → Work → Snapshot
whole_snapshot cfg n workers w = record {
  term = n.term;
  leader = cfg.self;
  workers = workers;
  ledger = w.ledger;
  version = w.sync_version;
}

returned_size :
    (cfg : NodeConfig) (p : Snapshot) {size : ℕ}
    → cfg.encoded_size p ≡ some size
    → returns cfg p ≡ true
    → size ≤ sync_budget
unfolding returns
returned_size cfg p e stopped = ground (arith, e, stopped)

-- The ledger that is encoded last: the whole one unless the whole snapshot does not fit, and either
-- without any finished record, or with every pending one in its order.
abbrev pub IsCut : NodeConfig → Snapshot → List TaskRecord → Type 0
IsCut cfg whole l =
    ((¬ Fits cfg whole) ⊎ (l ≡ whole.ledger))
    × ((count_done l ≡ 0) ⊎ (keep is_pending l ≡ keep is_pending whole.ledger))

-- What syncPayload gives for a snapshot: the error of its encoding with such a ledger, or the snapshot
-- with such a ledger, which fits the budget.
abbrev pub IsTrimmed : NodeConfig → Snapshot → Option Snapshot → Type 0
IsTrimmed cfg whole none =
    (l : List TaskRecord) × IsCut cfg whole l × (cfg.encoded_size (with_ledger l whole) ≡ none)
IsTrimmed cfg whole (some s) =
    Fits cfg s × (s ≡ with_ledger s.ledger whole) × IsCut cfg whole s.ledger

trim_ledger-IsCut :
    (cfg : NodeConfig) (fuel : ℕ) (p : Snapshot) → IsCut cfg p (trim_ledger cfg fuel p).ledger
trim_ledger-IsCut cfg fuel p = (
  elim (Bool-cases (returns cfg p)) [
    | inl r ↦ inr (ap (λ (s : Snapshot). s.ledger) (trim_ledger-whole cfg fuel p r))
    | inr r ↦ inl λ whole. absurd (let r' = Fits-returns cfg p whole in cc)
  ],
  elim (Bool-cases (count_done (trim_ledger cfg fuel p).ledger == 0)) [
    | inl d ↦ inl (ground (arith, d))
    | inr d ↦ inr (trim_ledger-pending cfg fuel p (ground (arith, d)))
  ],
)

-- Where a snapshot without any record fits the budget, the loop of syncPayload comes to an end. It gives
-- a snapshot that fits the budget and differs from the whole one in the ledger alone, or the error of the
-- encoding of one that does. Its ledger is the whole one where the whole snapshot fits, and either it has
-- no finished record, or it has every pending one, in its order.
pub sync_payload-Fits :
    (cfg : NodeConfig) (n : Node) (workers : List NodeId) (w : Work)
    → Fits cfg (with_ledger [] (whole_snapshot cfg n workers w))
    → IsTrimmed cfg (whole_snapshot cfg n workers w) (sync_payload cfg n workers w)
unfolding sync_payload whole_snapshot encoded
sync_payload-Fits cfg n workers w fits =
    let p = whole_snapshot cfg n workers w in
    let fuel = length w.ledger in
    let s = trim_ledger cfg fuel p in
    let stopped =
      trim_ledger-returns cfg fuel p (omega arith) (Fits-returns cfg (with_ledger [] p) fits) in
    let same = trim_ledger-same cfg fuel p in
    let is_cut = trim_ledger-IsCut cfg fuel p in
    elim (Option-cases (cfg.encoded_size s)) [
      | inl e ↦ rw (e, encoded) (s.ledger, is_cut, ap cfg.encoded_size (sym same) ∙ e)
      | inr (size, e) ↦ rw (e, encoded) ((size, e, returned_size cfg s e stopped), same, is_cut)
    ]
