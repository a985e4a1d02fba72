-- ===== src/Cluster/Table.antt =====
-- backend/pkg/cluster/member.go, lines 183 to 459: the membership table and its operations. The
-- mutex makes each of them one step. A method returns the new table and its result.
pub mod Merge
pub mod Converge
pub mod Liveness
pub mod Snapshot
use swarm_communication.Prelude.{
  ℕ, ◌+◌, ◌-◌, ◌%◌, ◌^◌, Bool, true, false, none, some, [], ◌==◌, ◌&&◌, not, ltb, if◌then◌else◌,
}
use swarm_communication.Prelude.Int.{ℤ, pos, ltb_ℤ, eq_ℤ, ◌+ℤ◌}
use swarm_communication.Prelude.Map.{Map, lookup, insert, erase, values}
use swarm_communication.Prelude.Sort.{sort}
use swarm_communication.Health.{Float64, is_valid_score, eq_f}
use swarm_communication.Cluster.Member.{
  NodeId, Role, State, alive, dead, rank, eq_role, eq_state, Member, View,
}

pub record Table : Type 0 where
  pub members : Map Member
  pub version : ℕ  -- uint64

abbrev pub u64 : ℕ → ℕ
u64 n = n % 2 ^ 64

-- NewTable
unfoldable pub new_table : Table
new_table = record { members = []; version = 0 }

-- `t.members[m.ID] = m; t.version++`
unfoldable pub store : Table → Member → Table
store t m = record { members = insert m.id m t.members; version = u64 (t.version + 1) }

-- Two invalid scores are the same.
unfoldable pub same_score : Float64 → Float64 → Bool
unfolding is_valid_score
same_score a b = if not (is_valid_score a) && not (is_valid_score b) then true else eq_f a b

-- Liveness may get worse but never better.
unfoldable pub clamp_state : Member → Member → Member
clamp_state e m = if ltb (rank m.state) (rank e.state) then record m { state = e.state } else m

-- Whose claims stand: those with the newer Seq.
unfoldable pub take_claims : Member → Member → Member
unfolding is_valid_score
take_claims e m =
    if ltb e.seq m.seq
    then m
    else if m.seq == 0 && e.seq == 0
    then (if not (is_valid_score m.score) then record m { score = e.score } else m)
    else record m { role = e.role; score = e.score; seq = e.seq }

unfoldable pub same_record : Member → Member → Bool
unfolding same_score
same_record m e =
    eq_state m.state e.state
    && eq_role m.role e.role
    && m.addr == e.addr
    && m.seq == e.seq
    && same_score m.score e.score

unfoldable pub upsert_known : Table → Member → Member → Table × Bool
unfolding store clamp_state take_claims same_record
upsert_known t e m =
    if ltb_ℤ e.incarnation m.incarnation
    then (store t m, true)
    else if ltb_ℤ m.incarnation e.incarnation
    then (t, false)
    else (let m' = take_claims e (clamp_state e m) in
        if same_record m' e then (t, false) else (store t m', true))

-- Upsert
unfoldable pub upsert : Table → Member → Table × Bool
unfolding upsert_known store
upsert t m = elim (lookup m.id t.members) [ none ↦ (store t m, true) | some e ↦ upsert_known t e m ]

-- SetScore
unfoldable pub set_score : Table → NodeId → Float64 → Table × Bool
unfolding same_score store
set_score t k score = elim (lookup k t.members) [
  | none ↦ (t, false)
  | some m ↦ if same_score m.score score then (t, false) else (
    record {
      members = insert k (record m { score = score; seq = u64 (m.seq + 1) }) t.members;
      version = u64 (t.version + 1);
    },
    true,
  )
]

-- SetRole
unfoldable pub set_role : Table → NodeId → Role → Table × Bool
set_role t k r = elim (lookup k t.members) [
  | none ↦ (t, false)
  | some m ↦ if eq_role m.role r then (t, false) else (
    record {
      members = insert k (record m { role = r; seq = u64 (m.seq + 1) }) t.members;
      version = u64 (t.version + 1);
    },
    true,
  )
]

-- math.MaxInt64
abbrev pub max_int64 : ℤ
max_int64 = pos (2 ^ 63 - 1)

-- NextIncarnation: the successor, which stays at the ceiling.
unfoldable pub next_incarnation : ℤ → ℤ
unfolding ◌+ℤ◌
next_incarnation inc = if eq_ℤ inc max_int64 then inc else inc +ℤ pos 1

-- SetState: a death also advances the incarnation.
unfoldable pub set_state : Table → NodeId → State → Table × Bool
unfolding next_incarnation
set_state t k s = elim (lookup k t.members) [
  | none ↦ (t, false)
  | some m ↦ if eq_state m.state s then (t, false) else (
    record {
      members =
          insert k
            (record m {
              state = s;
              incarnation =
                  if eq_state s dead then next_incarnation m.incarnation else m.incarnation;
            })
            t.members;
      version = u64 (t.version + 1);
    },
    true,
  )
]

-- Revive: first-hand evidence of life, at least as new as the record.
unfoldable pub revive : Table → NodeId → ℤ → Table × Bool
revive t k inc = elim (lookup k t.members) [
  | none ↦ (t, false)
  | some m ↦
      if ltb_ℤ inc m.incarnation
      then (t, false)
      else if eq_state m.state alive && eq_ℤ m.incarnation inc
      then (t, false)
      else (
        record {
          members = insert k (record m { state = alive; incarnation = inc }) t.members;
          version = u64 (t.version + 1);
        },
        true,
      )
]

-- Remove
unfoldable pub remove : Table → NodeId → Table × Bool
remove t k = elim (lookup k t.members) [
  | none ↦ (t, false)
  | some m ↦ (record { members = erase k t.members; version = u64 (t.version + 1) }, true)
]

-- Snapshot: the members in the order of their IDs.
abbrev pub id_less : Member → Member → Bool
id_less a b = ltb a.id b.id

unfoldable pub snapshot : Table → View
snapshot t = record { members = sort id_less (values t.members); version = t.version }
