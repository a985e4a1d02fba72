-- ===== src/Cluster/Node/Ledger/Bound.antt =====
-- The size of the ledger, and what ledgerAppend evicts.
use swarm_communication.Prelude.{
  ℕ, zero, suc, ◌+◌, ◌≡◌, ◌⊎◌, ◌≤◌, ◌<◌, refl, sym, ◌∙◌, ap, true, false, List, [], ◌∷◌, ◌++◌,
  arith, Bool-cases, inl, inr, ltb, length, length-append, keep,
}
use swarm_communication.Cluster.Wire.{TaskRecord}
use swarm_communication.Cluster.Node.{NodeConfig, Work}
use swarm_communication.Cluster.Node.Ledger.{
  is_pending, drop_done, has_done, evict_one, evict, cap_body, changed, ledger_append,
}

length-drop_done : (l : List TaskRecord) → has_done l ≡ true → length (drop_done l) + 1 ≡ length l
unfolding has_done drop_done
length-drop_done [] h = absurd (cc)
length-drop_done (r ∷ rs) h = elim (Bool-cases (is_pending r)) [
  | inl e ↦
      let h' : has_done rs ≡ true = ground (arith, h, e) in
      rw e (ground (arith, length-drop_done rs h'))
  | inr e ↦ rw e (omega arith)
]

length-evict_one : (l : List TaskRecord) → 0 < length l → length (evict_one l) + 1 ≡ length l
unfolding evict_one
length-evict_one [] h = absurd (omega (arith, h))
length-evict_one (r ∷ rs) h = elim (Bool-cases (has_done (r ∷ rs))) [
  | inl e ↦ rw e (length-drop_done (r ∷ rs) e)
  | inr e ↦ rw e (omega arith)
]

drop_done-pending : (l : List TaskRecord) → keep is_pending (drop_done l) ≡ keep is_pending l
unfolding drop_done
drop_done-pending [] = refl
drop_done-pending (r ∷ rs) = elim (Bool-cases (is_pending r)) [
  | inl e ↦ rw (e, e) (ap (λ (l : List TaskRecord). r ∷ l) (drop_done-pending rs))
  | inr e ↦ rw e refl
]

has_done-tail :
    (r : TaskRecord) (rs : List TaskRecord) → has_done (r ∷ rs) ≡ false → has_done rs ≡ false
unfolding has_done
has_done-tail r rs h = ground (arith, h)

-- The rounds of the loop.
module _ (fuel size : ℕ) (l : List TaskRecord) where
  evict-fits : ltb (length l) size ≡ true → evict (suc fuel) size l ≡ l
  unfolding evict
  evict-fits e = rw (e, evict) refl

  evict-full : ltb (length l) size ≡ false → evict (suc fuel) size l ≡ evict fuel size (evict_one l)
  unfolding evict
  evict-full e = rw (e, evict) refl

evict_one-undone : (l : List TaskRecord) → has_done l ≡ false → has_done (evict_one l) ≡ false
unfolding evict_one
evict_one-undone [] h = rw h h
evict_one-undone (r ∷ rs) h = rw h (has_done-tail r rs h)

evict-undone :
    (fuel size : ℕ) (l : List TaskRecord)
    → has_done l ≡ false
    → has_done (evict fuel size l) ≡ false
unfolding evict
evict-undone zero size l h = h
evict-undone (suc fuel) size l h = elim (Bool-cases (ltb (length l) size)) [
  | inl e ↦ rw (evict-fits fuel size l e) h
  | inr e ↦
      rw (evict-full fuel size l e) (evict-undone fuel size (evict_one l) (evict_one-undone l h))
]

length-evict :
    (fuel size : ℕ) (l : List TaskRecord)
    → length l ≤ fuel
    → 0 < size
    → length (evict fuel size l) < size
unfolding evict
length-evict zero size l enough some_room = omega (arith, enough, some_room)
length-evict (suc fuel) size l enough some_room = elim (Bool-cases (ltb (length l) size)) [
  | inl e ↦ rw (evict-fits fuel size l e) (ground (arith, e))
  | inr e ↦
      let full : size ≤ length l = ground (arith, e) in
      let one = length-evict_one l (omega (arith, full, some_room)) in
      rw (evict-full fuel size l e)
        (length-evict fuel size (evict_one l) (omega (arith, one, enough)) some_room)
]

evict_one-pending :
    (l : List TaskRecord) → has_done l ≡ true → keep is_pending (evict_one l) ≡ keep is_pending l
unfolding evict_one
evict_one-pending l h = rw h (drop_done-pending l)

evict-pending :
    (fuel size : ℕ) (l : List TaskRecord)
    → has_done (evict fuel size l) ≡ true
    → keep is_pending (evict fuel size l) ≡ keep is_pending l
unfolding evict
evict-pending zero size l h = refl
evict-pending (suc fuel) size l h = elim (Bool-cases (ltb (length l) size)) [
  | inl e ↦ ap (λ (x : List TaskRecord). keep is_pending x) (evict-fits fuel size l e)
  | inr e ↦
      let full = evict-full fuel size l e in
      let h' : has_done (evict fuel size (evict_one l)) ≡ true = sym (ap has_done full) ∙ h in
      ap (λ (x : List TaskRecord). keep is_pending x) full
      ∙ evict-pending fuel size (evict_one l) h'
      ∙ evict_one-pending l (some_done h' (Bool-cases (has_done l)))
]
  where
    some_done :
        has_done (evict fuel size (evict_one l)) ≡ true
        → (has_done l ≡ true) ⊎ (has_done l ≡ false)
        → has_done l ≡ true
    some_done h' (inl finished) = finished
    some_done h' (inr nothing) =
        let clash : has_done (evict fuel size (evict_one l)) ≡ false =
          evict-undone fuel size (evict_one l) (evict_one-undone l nothing) in
        absurd (cc)

evict-small : (fuel size : ℕ) (l : List TaskRecord) → length l < size → evict fuel size l ≡ l
unfolding evict
evict-small zero size l h = refl
evict-small (suc fuel) size l h = evict-fits fuel size l (ground (arith, h))

-- For a ledger size above 0, ledgerAppend puts the new record, its body capped, behind what it keeps of
-- the old ledger, and the whole is within the size. A ledger with room for one more is kept whole, and
-- either no finished record is kept, or every pending one is, in its order.
pub ledger_append-kept :
    (cfg : NodeConfig) (rec : TaskRecord) (w : Work)
    → 0 < cfg.ledger_size
    → (kept : List TaskRecord) × ((ledger_append cfg rec w).ledger ≡ kept ++ (cap_body rec ∷ []))
      × (length (ledger_append cfg rec w).ledger ≤ cfg.ledger_size)
      × ((cfg.ledger_size ≤ length w.ledger) ⊎ (kept ≡ w.ledger))
      × ((has_done kept ≡ false) ⊎ (keep is_pending kept ≡ keep is_pending w.ledger))
unfolding ledger_append changed
ledger_append-kept cfg rec w some_room =
    let kept = evict (length w.ledger) cfg.ledger_size w.ledger in
    let room = length-evict (length w.ledger) cfg.ledger_size w.ledger (omega arith) some_room in
    (
      kept,
      refl,
      omega (arith, room, length-append kept (cap_body rec ∷ [])),
      elim (Bool-cases (ltb (length w.ledger) cfg.ledger_size)) [
        | inl e ↦ inr (evict-small (length w.ledger) cfg.ledger_size w.ledger (ground (arith, e)))
        | inr e ↦ inl (ground (arith, e))
      ],
      elim (Bool-cases (has_done kept)) [
        | inl e ↦ inr (evict-pending (length w.ledger) cfg.ledger_size w.ledger e)
        | inr e ↦ inl e
      ],
    )
