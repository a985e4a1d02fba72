-- ===== src/Cluster/Table/Merge.antt =====
-- What Table.Upsert does to one entry: the incarnation rule, the liveness rule and the claims rule.
use Prim.Native.Nat.{max}
use swarm_communication.Prelude.{
  ℕ, ◌≡◌, true, Option, none, some, Option-cases, inl, inr, ◌==◌, if◌then◌else◌, arith,
}
use swarm_communication.Prelude.Int.{ℤ, ltb_ℤ, eq_of_parts}
use swarm_communication.Prelude.Map.{lookup, lookup-insert}
use swarm_communication.Cluster.Member.{State, rank, Member}
use swarm_communication.Cluster.Table.{
  Table, store, clamp_state, take_claims, same_record, upsert_known, upsert,
}

-- The entry after a record `m` is merged over the entry `e`.
unfoldable pub merged : Member → Member → Member
merged e m =
    if ltb_ℤ e.incarnation m.incarnation
    then m
    else if ltb_ℤ m.incarnation e.incarnation
    then e
    else (let m' = take_claims e (clamp_state e m) in if same_record m' e then e else m')

unfoldable pub merged_over : Option Member → Member → Member
unfolding merged
merged_over none m = m
merged_over (some e) m = merged e m

take_claims-id : (e m : Member) → (take_claims e (clamp_state e m)).id ≡ m.id
unfolding take_claims clamp_state
take_claims-id e m = ground arith

lookup-upsert_known :
    (t : Table) (e m : Member) (j : ℕ)
    → lookup m.id t.members ≡ some e
    → lookup j (upsert_known t e m).0.members
      ≡ (if m.id == j then some (merged e m) else lookup j t.members)
unfolding upsert_known store merged
lookup-upsert_known t e m j h =
    let m' = take_claims e (clamp_state e m) in
    ground (
      arith,
      take_claims-id e m,
      lookup-insert m.id j m t.members,
      lookup-insert m'.id j m' t.members,
    )

-- Upsert stores the merge of the record with the entry of its ID, and leaves every other entry.
pub lookup-upsert :
    (t : Table) (m : Member) (j : ℕ)
    → lookup j (upsert t m).0.members
      ≡ (if m.id == j then some (merged_over (lookup m.id t.members) m) else lookup j t.members)
unfolding upsert store merged_over
lookup-upsert t m j = elim (Option-cases (lookup m.id t.members)) [
  | inl e ↦ rw (e, upsert) (lookup-insert m.id j m t.members)
  | inr (e, h) ↦ rw (h, upsert) (lookup-upsert_known t e m j h)
]

-- The later of two incarnations, and the value at the later one: at equal ones, the larger value.
abbrev pub top : ℤ → ℤ → ℤ
top i j = if ltb_ℤ i j then j else i

abbrev pub lex : ℤ → ℕ → ℤ → ℕ → ℕ
lex i x j y = if ltb_ℤ i j then y else if ltb_ℤ j i then x else max x y

pub top_comm : (i j k : ℤ) → top (top i j) k ≡ top (top i k) j
top_comm i j k = ground (arith, eq_of_parts j k)

pub lex_comm :
    (i j k : ℤ) (x y z : ℕ) → lex (top i j) (lex i x j y) k z ≡ lex (top i k) (lex i x k z) j y
lex_comm i j k x y z = ground arith

pub merged-incarnation : (e m : Member) → (merged e m).incarnation ≡ top e.incarnation m.incarnation
unfolding merged take_claims clamp_state
merged-incarnation e m = ground (arith, eq_of_parts e.incarnation m.incarnation)

pub merged-rank :
    (e m : Member)
    → rank (merged e m).state ≡ lex e.incarnation (rank e.state) m.incarnation (rank m.state)
unfolding merged take_claims clamp_state same_record
merged-rank e m = ground arith

pub rank-injective : (a b : State) → rank a ≡ rank b → a ≡ b
rank-injective a b h = ground arith

take_claims-seq : (e m : Member) → (take_claims e (clamp_state e m)).seq ≡ max e.seq m.seq
unfolding take_claims clamp_state
take_claims-seq e m = ground arith

same_record-seq : (m e : Member) → same_record m e ≡ true → m.seq ≡ e.seq
unfolding same_record
same_record-seq m e h = ground arith

pub merged-seq : (e m : Member) → (merged e m).seq ≡ lex e.incarnation e.seq m.incarnation m.seq
unfolding merged
merged-seq e m =
    ground (arith, take_claims-seq e m, same_record-seq (take_claims e (clamp_state e m)) e)
