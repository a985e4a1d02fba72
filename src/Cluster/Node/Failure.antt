-- ===== src/Cluster/Node/Failure.antt =====
-- backend/pkg/cluster/failure.go: suspicion, confirmation, and the age of death records; with
-- markDead, markLeft and pushRecord of node.go. Times are numbers on the node's clock.
use swarm_communication.Prelude.{
  ℕ, ◌+◌, Bool, true, false, not, ◌&&◌, ◌||◌, Option, none, some, List, [], ◌∷◌, keep, ltb, leb,
  ◌==◌, if◌then◌else◌,
}
use swarm_communication.Prelude.Int.{ℤ, eq_ℤ}
use swarm_communication.Prelude.Map.{Map, lookup, insert, erase, keys}
use swarm_communication.Cluster.Member.{NodeId, Member, suspect, dead, eq_state}
use swarm_communication.Cluster.Table.{set_state, revive, remove, snapshot}
use swarm_communication.Cluster.Election.{sort_ids}
use swarm_communication.Cluster.Wire.{Message, member_record, marshal_record}
use swarm_communication.Cluster.Node.{NodeConfig, Node, Suspicion, Tombstone, broadcast, remove_id}
use swarm_communication.Cluster.Node.Tasks.{reassign_from}

-- `n.table.Snapshot().Get(id)`, which reads the table (Cluster.Table.Snapshot.snapshot_sorted).
unfoldable pub get_member : NodeId → Node → Option Member
get_member id n = lookup id n.table.members

-- n.missed[id]
unfoldable pub missed_of : NodeId → Node → ℕ
missed_of id n = elim (lookup id n.missed) [ none ↦ 0 | some k ↦ k ]

unfoldable pub is_doubted : NodeId → Node → Bool
is_doubted id n = elim (lookup id n.suspects) [ none ↦ false | some s ↦ true ]

-- usableLeaders
unfoldable pub usable_leaders : Node → List NodeId → List NodeId
unfolding is_doubted
usable_leaders n leaders = keep (λ id. not (is_doubted id n)) leaders

-- The suspicion that a doubt leaves under an ID: an old one keeps its clock, and turns silent.
unfoldable pub doubt : ℕ → Member → Bool → Node → Option Suspicion → Suspicion
doubt now m silent n none = record {
  since = now;
  incarnation = m.incarnation;
  round = n.probe_seq;
  silent = silent;
}
doubt now m silent n (some s) = if silent && not s.silent then record s { silent = true } else s

-- probeClears
unfoldable pub probe_clears : NodeId → ℕ → ℤ → Node → Bool × Node
probe_clears id round incarnation n =
    let blocked : Bool = elim (lookup id n.suspects) [
      | none ↦ false
      | some s ↦ leb round s.round || s.silent
    ] in
    if blocked
    then (false, n)
    else (let (t, changed) = revive n.table id incarnation in
        (changed, record n { suspects = erase id n.suspects; table = t }))

-- expireSuspicions: one suspicion, against the view from before the loop, and the loop.
unfoldable pub is_resolved : Option Member → Suspicion → Bool
is_resolved none s = true
is_resolved (some m) s = not (eq_state m.state suspect) || not (eq_ℤ m.incarnation s.incarnation)

unfoldable pub bury : ℕ → Map ℤ → Map Tombstone → Map Tombstone
bury now [] tombs = tombs
bury now ((id, inc) ∷ rest) tombs = bury now rest (elim (lookup id tombs) [
  | none ↦ insert id (record { since = now; incarnation = inc }) tombs
  | some ts ↦
      if eq_ℤ ts.incarnation inc
      then tombs
      else insert id (record { since = now; incarnation = inc }) tombs
])

unfoldable pub keep_dead : Map ℤ → Map Tombstone → Map Tombstone
keep_dead deaths [] = []
keep_dead deaths ((id, ts) ∷ rest) = elim (lookup id deaths) [
  | none ↦ keep_dead deaths rest
  | some inc ↦ (id, ts) ∷ keep_dead deaths rest
]

abbrev pub is_same_death : Tombstone → Member → Bool
is_same_death ts m = eq_state m.state dead && eq_ℤ m.incarnation ts.incarnation

module _ (cfg : NodeConfig) where
  -- pushRecord, and announceSelf where it is this node's own.
  unfoldable pub push_record : NodeId → Node → Node
  unfolding get_member broadcast
  push_record id n = elim (get_member id n) [
    | none ↦ n
    | some m ↦ record n {
      work =
          broadcast cfg
            (Message.membership_delta (marshal_record (member_record m) ∷ []) n.table.version)
            n.work;
    }
  ]

  unfoldable pub announce_self : Node → Node
  unfolding push_record
  announce_self n = push_record cfg.self n

  -- markDead and markLeft, which differ in what they log.
  unfoldable pub mark_dead : NodeId → Node → Bool × Node
  unfolding push_record reassign_from
  mark_dead id n =
      let (t, changed) = set_state n.table id dead in
      let n' : Node = record n {
        attached = remove_id id n.attached;
        suspects = erase id n.suspects;
        table = t;
      } in
      (changed, if changed then reassign_from cfg id (push_record id n') else n')

  abbrev pub mark_left : NodeId → Node → Bool × Node
  mark_left id n = mark_dead id n

  -- suspect, of markSuspect and markSilent.
  unfoldable pub raise_doubt : ℕ → NodeId → Bool → Member → Node → Bool × Node
  unfolding doubt push_record
  raise_doubt now id silent m n =
      let (t, changed) = set_state n.table id suspect in
      let n' : Node = record n {
        suspects = insert id (doubt now m silent n (lookup id n.suspects)) n.suspects;
        table = t;
      } in
      (changed, if changed then push_record id n' else n')

  unfoldable pub suspect_peer : ℕ → NodeId → Bool → Node → Bool × Node
  unfolding raise_doubt get_member
  suspect_peer now id silent n = if id == cfg.self then (false, n) else elim (get_member id n) [
    | none ↦ (false, n)
    | some m ↦ if eq_state m.state dead then (false, n) else raise_doubt now id silent m n
  ]

  abbrev pub mark_suspect : ℕ → NodeId → Node → Bool × Node
  mark_suspect now id n = suspect_peer now id false n

  abbrev pub mark_silent : ℕ → NodeId → Node → Bool × Node
  mark_silent now id n = suspect_peer now id true n

  -- probeMissed
  unfoldable pub probe_missed : ℕ → NodeId → Node → Bool × Node
  unfolding missed_of
  probe_missed now id n =
      if leb cfg.dead_after (missed_of id n)
      then mark_dead id n
      else if leb cfg.suspect_after (missed_of id n)
      then mark_suspect now id n
      else (false, n)

  unfoldable pub expire_one : ℕ → NodeId → Option Member → Suspicion → Node → Bool × Node
  unfolding is_resolved mark_dead
  expire_one now id seen s n =
      if is_resolved seen s
      then (false, record n { suspects = erase id n.suspects })
      else if ltb now (s.since + cfg.suspicion_timeout)
      then (false, n)
      else mark_dead id n

  unfoldable pub expire_each : ℕ → Node → List NodeId → Bool × Node → Bool × Node
  unfolding expire_one get_member
  expire_each now before [] acc = acc
  expire_each now before (id ∷ ids) (changed, n) = elim (lookup id n.suspects) [
    | none ↦ expire_each now before ids (changed, n)
    | some s ↦
        let (c, n') = expire_one now id (get_member id before) s n in
        expire_each now before ids (changed || c, n')
  ]

  unfoldable pub expire_suspicions : ℕ → Node → Bool × Node
  unfolding expire_each
  expire_suspicions now n = expire_each now n (sort_ids (keys n.suspects)) (false, n)

  -- sweepTombstones: the death records of others, those that start a clock, and those that end.
  unfoldable pub dead_others : List Member → Map ℤ
  dead_others [] = []
  dead_others (m ∷ ms) =
      if eq_state m.state dead && not (m.id == cfg.self)
      then (m.id, m.incarnation) ∷ dead_others ms
      else dead_others ms

  unfoldable pub refresh_tombstones : ℕ → Node → Node
  unfolding dead_others bury keep_dead
  refresh_tombstones now n =
      if n.table.version == n.tomb_version
      then n
      else (let deaths = dead_others (snapshot n.table).members in
          record n {
            tomb_version = n.table.version;
            tombstones = keep_dead deaths (bury now deaths n.tombstones);
          })

  unfoldable pub collect : NodeId → Member → Node → Node
  collect id m n = record n {
    table = (remove n.table id).0;
    claims = erase id n.claims;
    dialed = if m.addr == cfg.advertise then n.dialed else remove_id m.addr n.dialed;
  }

  unfoldable pub sweep_one : ℕ → NodeId → Tombstone → Node → Bool × Node
  unfolding collect get_member
  sweep_one now id ts n =
      if ltb now (ts.since + cfg.tombstone_ttl)
      then (false, n)
      else (let n' : Node = record n { tombstones = erase id n.tombstones } in
          elim (get_member id n') [
            | none ↦ (false, n')
            | some m ↦ if is_same_death ts m then (true, collect id m n') else (false, n')
          ])

  unfoldable pub sweep_each : ℕ → Map Tombstone → Bool × Node → Bool × Node
  unfolding sweep_one
  sweep_each now [] acc = acc
  sweep_each now ((id, ts) ∷ rest) (removed, n) =
      let (r, n') = sweep_one now id ts n in sweep_each now rest (removed || r, n')

  unfoldable pub sweep_tombstones : ℕ → Node → Bool × Node
  unfolding refresh_tombstones sweep_each
  sweep_tombstones now n =
      let n' = refresh_tombstones now n in sweep_each now n'.tombstones (false, n')
