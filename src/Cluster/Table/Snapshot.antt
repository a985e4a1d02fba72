-- ===== src/Cluster/Table/Snapshot.antt =====
-- The table's invariant, which every operation keeps, and the order of a snapshot.
use swarm_communication.Prelude.{
  ℕ, ◌+◌, ◌&&◌, ◌<◌, ◌≡◌, refl, ◌∙◌, Bool, true, false, some, List, [], ◌∷◌, ◌==◌, ltb,
  if◌then◌else◌, arith, All, Option-cases, Bool-cases, inl, inr, contains, IsDistinct, IsIncreasing,
  All-map,
}
use swarm_communication.Prelude.Int.{ℤ, ltb_ℤ, eq_ℤ}
use swarm_communication.Prelude.Map.{
  Map, lookup, insert, keys, values, AllEntries, insert-AllEntries, erase-AllEntries,
  lookup-AllEntries, insert-IsDistinct, erase-IsDistinct,
}
use swarm_communication.Prelude.Sort.{sort, insert_sorted}
use swarm_communication.Health.{Float64}
use swarm_communication.Cluster.Member.{
  NodeId, Role, State, Member, alive, eq_state, ids, find_member, view_get,
}
use swarm_communication.Cluster.Table.{
  Table, new_table, upsert, upsert_known, set_score, set_role, set_state, revive, remove, store,
  take_claims, clamp_state, snapshot, id_less, same_record, u64,
}

-- One entry for each ID, and each member under its own ID.
abbrev pub OwnKey : ℕ → Member → Type 0
OwnKey k m = m.id ≡ k

pub record IsValid (t : Table) : Type 0 where
  pub distinct : IsDistinct (keys t.members)
  pub own_keys : AllEntries OwnKey t.members

pub new_table-IsValid : IsValid new_table
unfolding new_table
new_table-IsValid = record { distinct = tt; own_keys = tt }

insert-IsValid :
    (t : Table) (k v : ℕ) (m : Member)
    → m.id ≡ k
    → IsValid t
    → IsValid (record { members = insert k m t.members; version = v })
insert-IsValid t k v m i h = record {
  distinct = insert-IsDistinct k m t.members h.distinct;
  own_keys = insert-AllEntries OwnKey k m t.members i h.own_keys;
}

own_key : (t : Table) (k : ℕ) {m : Member} → IsValid t → lookup k t.members ≡ some m → m.id ≡ k
own_key t k h e = lookup-AllEntries OwnKey k t.members h.own_keys e

store-IsValid : (t : Table) (m : Member) → IsValid t → IsValid (store t m)
unfolding store
store-IsValid t m h = insert-IsValid t m.id _ m refl h

-- A branch between two results.
if_IsValid :
    (b : Bool) (x y : Table × Bool) → IsValid x.0 → IsValid y.0 → IsValid (if b then x else y).0
if_IsValid true x y hx hy = hx
if_IsValid false x y hx hy = hy

if3-IsValid :
    (b c : Bool) (x y z : Table × Bool)
    → IsValid x.0
    → IsValid y.0
    → IsValid z.0
    → IsValid (if b then x else if c then y else z).0
if3-IsValid true c x y z hx hy hz = hx
if3-IsValid false c x y z hx hy hz = if_IsValid c y z hy hz

upsert_known-IsValid : (t : Table) (e m : Member) → IsValid t → IsValid (upsert_known t e m).0
unfolding upsert_known
upsert_known-IsValid t e m h =
    let m' = take_claims e (clamp_state e m) in
    if3-IsValid _ _ (store t m, true) (t, false)
      (if same_record m' e then (t, false) else (store t m', true)) (store-IsValid t m h) h
      (if_IsValid (same_record m' e) (t, false) (store t m', true) h (store-IsValid t m' h))

-- Every operation keeps the invariant.
pub upsert-IsValid : (t : Table) (m : Member) → IsValid t → IsValid (upsert t m).0
unfolding upsert
upsert-IsValid t m h = elim (Option-cases (lookup m.id t.members)) [
  | inl e ↦ rw (e, upsert) (store-IsValid t m h)
  | inr (e, o) ↦ rw (o, upsert) (upsert_known-IsValid t e m h)
]

pub set_state-IsValid :
    (t : Table) (k : NodeId) (s : State) → IsValid t → IsValid (set_state t k s).0
unfolding set_state
set_state-IsValid t k s h = elim (Option-cases (lookup k t.members)) [
  | inl e ↦ rw (e, set_state) h
  | inr (m, o) ↦ rw (o, set_state) (if_IsValid _ _ _ h (insert-IsValid t k _ _ (own_key t k h o) h))
]

pub set_score-IsValid :
    (t : Table) (k : NodeId) (x : Float64) → IsValid t → IsValid (set_score t k x).0
unfolding set_score
set_score-IsValid t k x h = elim (Option-cases (lookup k t.members)) [
  | inl e ↦ rw (e, set_score) h
  | inr (m, o) ↦ rw (o, set_score) (if_IsValid _ _ _ h (insert-IsValid t k _ _ (own_key t k h o) h))
]

pub set_role-IsValid : (t : Table) (k : NodeId) (r : Role) → IsValid t → IsValid (set_role t k r).0
unfolding set_role
set_role-IsValid t k r h = elim (Option-cases (lookup k t.members)) [
  | inl e ↦ rw (e, set_role) h
  | inr (m, o) ↦ rw (o, set_role) (if_IsValid _ _ _ h (insert-IsValid t k _ _ (own_key t k h o) h))
]

pub revive-IsValid : (t : Table) (k : NodeId) (i : ℤ) → IsValid t → IsValid (revive t k i).0
unfolding revive
revive-IsValid t k i h = elim (Option-cases (lookup k t.members)) [
  | inl e ↦ rw (e, revive) h
  | inr (m, o) ↦
      rw (o, revive)
        (if3-IsValid (ltb_ℤ i m.incarnation) (eq_state m.state alive && eq_ℤ m.incarnation i)
          (t, false) (t, false)
          (
            record {
              members = insert k (record m { state = alive; incarnation = i }) t.members;
              version = u64 (t.version + 1);
            },
            true,
          )
          h h
          (insert-IsValid t k (u64 (t.version + 1)) (record m { state = alive; incarnation = i })
            (own_key t k h o) h))
]

pub remove-IsValid : (t : Table) (k : NodeId) → IsValid t → IsValid (remove t k).0
unfolding remove
remove-IsValid t k h = elim (Option-cases (lookup k t.members)) [
  | inl e ↦ rw (e, remove) h
  | inr (m, o) ↦
      rw (o, remove)
        (record {
          distinct = erase-IsDistinct k t.members h.distinct;
          own_keys = erase-AllEntries OwnKey k t.members h.own_keys;
        })
]

-- Every operation of the table keeps it valid: one entry for each ID, each member under its own.
pub table_ops-IsValid :
    (t : Table) (m : Member) (k : NodeId) (x : Float64) (r : Role) (s : State) (i : ℤ)
    → IsValid t
    → IsValid (upsert t m).0
      × IsValid (set_score t k x).0
      × IsValid (set_role t k r).0
      × IsValid (set_state t k s).0
      × IsValid (revive t k i).0
      × IsValid (remove t k).0
table_ops-IsValid t m k x r s i h = (
  upsert-IsValid t m h,
  set_score-IsValid t k x h,
  set_role-IsValid t k r h,
  set_state-IsValid t k s h,
  revive-IsValid t k i h,
  remove-IsValid t k h,
)

ids-insert_sorted :
    (x : Member) (a : ℕ) (ms : List Member)
    → a < x.id
    → All (λ y. a < y) (ids ms)
    → All (λ y. a < y) (ids (insert_sorted id_less x ms))
unfolding insert_sorted
ids-insert_sorted x a [] p h = (p, tt)
ids-insert_sorted x a (m ∷ ms) p h = ground (arith, ids-insert_sorted x a ms p h.1)

contains-insert_sorted :
    (x : Member) (j : ℕ) (ms : List Member)
    → contains (ids (insert_sorted id_less x ms)) j
      ≡ (if x.id == j then true else contains (ids ms) j)
unfolding insert_sorted
contains-insert_sorted x j [] = refl
contains-insert_sorted x j (m ∷ ms) = ground (arith, contains-insert_sorted x j ms)

insert_sorted-IsIncreasing :
    (x : Member) (ms : List Member)
    → IsIncreasing (ids ms)
    → contains (ids ms) x.id ≡ false
    → IsIncreasing (ids (insert_sorted id_less x ms))
unfolding insert_sorted
insert_sorted-IsIncreasing x [] h n = (tt, tt)
insert_sorted-IsIncreasing x (m ∷ ms) h n = elim (Bool-cases (ltb m.id x.id)) [
  | inl c ↦ rw c (
    ids-insert_sorted x m.id ms (ground arith) h.0,
    insert_sorted-IsIncreasing x ms h.1 (ground arith),
  )
  | inr c ↦
      let below : x.id < m.id = ground arith in
      rw c ((below, All-map (λ y p. omega arith) (ids ms) h.0), h)
]

find_member-insert_sorted :
    (x : Member) (j : ℕ) (ms : List Member)
    → find_member j (insert_sorted id_less x ms) ≡ (if x.id == j then some x else find_member j ms)
unfolding insert_sorted find_member
find_member-insert_sorted x j [] = refl
find_member-insert_sorted x j (m ∷ ms) = ground (arith, find_member-insert_sorted x j ms)

contains-sort :
    (j : ℕ) (m : Map Member)
    → AllEntries OwnKey m
    → contains (ids (sort id_less (values m))) j ≡ contains (keys m) j
unfolding sort
contains-sort j [] o = refl
contains-sort j ((k, x) ∷ m) o =
    ground (arith, contains-insert_sorted x j (sort id_less (values m)), contains-sort j m o.1)

sort-IsIncreasing :
    (m : Map Member)
    → AllEntries OwnKey m
    → IsDistinct (keys m)
    → IsIncreasing (ids (sort id_less (values m)))
unfolding sort
sort-IsIncreasing [] o d = tt
sort-IsIncreasing ((k, x) ∷ m) o d =
    insert_sorted-IsIncreasing x (sort id_less (values m)) (sort-IsIncreasing m o.1 d.1)
      (contains-sort x.id m o.1 ∙ ground arith)

find_member-sort :
    (j : ℕ) (m : Map Member)
    → AllEntries OwnKey m
    → find_member j (sort id_less (values m)) ≡ lookup j m
unfolding sort lookup
find_member-sort j [] o = unfold find_member in refl
find_member-sort j ((k, x) ∷ m) o =
    ground
      (arith, find_member-insert_sorted x j (sort id_less (values m)), find_member-sort j m o.1)

-- A snapshot of a valid table is in strictly increasing order of ID, and Get on it reads the table.
pub snapshot_sorted :
    (t : Table)
    → IsValid t
    → IsIncreasing (ids (snapshot t).members)
      × ((k : NodeId) → view_get (snapshot t) k ≡ lookup k t.members)
unfolding snapshot view_get
snapshot_sorted t h = (
  sort-IsIncreasing t.members h.own_keys h.distinct,
  λ k. find_member-sort k t.members h.own_keys,
)
