-- ===== src/Cluster/Node/Gossip/RoundTrip.antt =====
-- A member's record on its way from one node's table to another's: memberRecord, the JSON rules of a
-- MemberRecord, and what handleMembershipDelta makes of it.
use swarm_communication.Prelude.{
  ◌≡◌, refl, ◌∙◌, ap, ℕ, ◌≢◌, ◌⊎◌, Option-cases, Bool, true, false, not, ◌&&◌, ◌||◌, Option, none,
  some, arith, Bool-cases, inl, inr, if◌then◌else◌, ◌==◌,
}
use swarm_communication.Prelude.Int.{ltb_ℤ}
use swarm_communication.Prelude.Map.{lookup, lookup-insert_self}
use swarm_communication.Health.{Float64, zero_f, ltb_f, is_valid_score, score_unavailable}
use swarm_communication.Cluster.Member.{
  NodeId, Member, Role, State, worker, leader, alive, suspect, dead, role_string, state_string,
  parse_role, parse_state, eq_state, View, view_get,
}
use swarm_communication.Cluster.Table.{Table, upsert, upsert_known, store}
use swarm_communication.Cluster.Wire.{
  MemberRecord, member_record, marshal_record, is_measured, record_score, unmeasured_score,
}
use swarm_communication.Cluster.Node.{NodeConfig, Node}
use swarm_communication.Cluster.Node.Members.{connect}
use swarm_communication.Cluster.Node.Gossip.{
  relayed_role, relayed_record, is_unknown_death, take_record,
}

parse_role-role_string : (r : Role) → parse_role (role_string r) ≡ r
unfolding parse_role role_string
parse_role-role_string worker = refl
parse_role-role_string leader = refl

parse_state-state_string : (s : State) → parse_state (state_string s) ≡ s
unfolding parse_state state_string
parse_state-state_string alive = refl
parse_state-state_string suspect = refl
parse_state-state_string dead = refl

-- A score that a peer reads as a measurement.
abbrev pub is_measurement : Float64 → Bool
is_measurement x = is_valid_score x && not (ltb_f x zero_f)

unmeasured-unavailable : is_measurement unmeasured_score ≡ false
unfolding is_valid_score unmeasured_score
unmeasured-unavailable = refl

record_score-marshal_record :
    (r : MemberRecord)
    → record_score (marshal_record r)
      ≡ (if is_measurement r.score then r.score else score_unavailable)
unfolding record_score marshal_record is_measured
record_score-marshal_record r =
    elim (Bool-cases (not (is_valid_score r.score) || ltb_f r.score zero_f)) [
      | inl e ↦
          let e' : is_measurement r.score ≡ false = ground (arith, e) in
          rw (e, unmeasured-unavailable, e') refl
      | inr e ↦ let e' : is_measurement r.score ≡ true = ground (arith, e) in rw (e, e') refl
    ]

-- The fields that the JSON leaves alone.
marshal_record-same :
    (r : MemberRecord) → marshal_record r ≡ record r { score = (marshal_record r).score }
unfolding marshal_record
marshal_record-same r = elim (Bool-cases (not (is_valid_score r.score) || ltb_f r.score zero_f)) [
  | inl e ↦ rw (e, marshal_record) refl
  | inr e ↦ rw (e, marshal_record) refl
]

-- The record, with an unmeasured score as unavailable, once it has been sent and read.
relayed_record-vouched :
    (from : NodeId) (known : Option Member) (m : Member)
    → (m.seq == 0 && not (m.id == from)) ≡ false
    → relayed_record from known (marshal_record (member_record m))
      ≡ record m { score = if is_measurement m.score then m.score else score_unavailable }
unfolding relayed_record relayed_role member_record record_score is_measured
relayed_record-vouched from known m vouched =
    let r = member_record m in
    ap (relayed_record from known) (marshal_record-same r)
    ∙ rw
        (
          vouched,
          record_score-marshal_record r,
          parse_role-role_string m.role,
          parse_state-state_string m.state,
        )
        refl

-- A record is news to a table that has no entry for its member, or one of an older incarnation.
abbrev pub IsNews : Member → Table → Type 0
IsNews m t =
    (lookup m.id t.members ≡ none)
    ⊎ ((e : Member) × (lookup m.id t.members ≡ some e) × (ltb_ℤ e.incarnation m.incarnation ≡ true))

upsert-news : (t : Table) (m : Member) → IsNews m t → lookup m.id (upsert t m).0.members ≡ some m
unfolding upsert upsert_known store
upsert-news t m (inl e) = rw (e, upsert) (lookup-insert_self m.id m t.members)
upsert-news t m (inr (old, e, newer)) =
    rw (e, upsert) (rw (newer, upsert_known) (lookup-insert_self m.id m t.members))

connect-table : (cfg : NodeConfig) (addr : ℕ) (n : Node) → (connect cfg addr n).table ≡ n.table
unfolding connect
connect-table cfg addr n = ground arith

-- A death is news only of a member that the receiver's view had.
is_known :
    (before : View) (m : Member)
    → (eq_state m.state dead ≡ false) ⊎ (view_get before m.id ≢ none)
    → is_unknown_death before (marshal_record (member_record m)) ≡ false
unfolding is_unknown_death member_record
is_known before m h =
    ap (is_unknown_death before) (marshal_record-same (member_record m))
    ∙ elim (Option-cases (view_get before m.id)) [
      | inr (k, e) ↦ rw (e, is_unknown_death) refl
      | inl e ↦
          rw (e, is_unknown_death)
            (elim h [
              | inl lives ↦ rw (parse_state-state_string m.state) lives
              | inr there ↦ absurd (there e)
            ])
    ]

-- The record of another member that one node sends goes through the JSON into the table that gets it as
-- the member itself, but for a score that is no measurement, which is stored as unavailable. This needs
-- that the member speaks for itself, or its record has a Seq; that the table has no entry for it, or one
-- of an older incarnation; and that it lives, or the receiver knew of it.
pub take_record-member_record :
    (cfg : NodeConfig) (from : NodeId) (before : View) (m : Member) (n : Node)
    → (m.id ≡ from) ⊎ (m.seq ≢ 0)
    → IsNews m n.table
    → (eq_state m.state dead ≡ false) ⊎ (view_get before m.id ≢ none)
    → lookup m.id (take_record cfg from before (marshal_record (member_record m)) n).1.table.members
      ≡ some (record m { score = if is_measurement m.score then m.score else score_unavailable })
unfolding take_record
take_record-member_record cfg from before m n speaks news known =
    let stored : Member = record m {
      score = if is_measurement m.score then m.score else score_unavailable;
    } in
    let r = marshal_record (member_record m) in
    let n' : Node = if eq_state (parse_state r.state) alive then connect cfg r.advertise n else n in
    let same : n'.table ≡ n.table = elim (Bool-cases (eq_state (parse_state r.state) alive)) [
      | inl e ↦ rw e (connect-table cfg r.advertise n)
      | inr e ↦ rw e refl
    ] in
    rw (is_known before m known, take_record)
      (ap (λ (k : Member). lookup m.id (upsert n'.table k).0.members)
          (relayed_record-vouched from (view_get before r.id) m (vouched speaks))
        ∙ ap (λ (t : Table). lookup m.id (upsert t stored).0.members) same
        ∙ upsert-news n.table stored news)
  where
    vouched : (m.id ≡ from) ⊎ (m.seq ≢ 0) → (m.seq == 0 && not (m.id == from)) ≡ false
    vouched (inl e) = ground (arith, e)
    vouched (inr e) = ground (arith, e)
