-- ===== src/Cluster/Node/Gossip.antt =====
-- backend/pkg/cluster/node.go: the records that nodes tell each other: deltas, rumours about this node,
-- and the rounds of gossip.
pub mod RoundTrip
use swarm_communication.Prelude.{
  ◌+◌, Bool, true, false, not, ◌&&◌, ◌||◌, Option, none, some, List, [], ◌∷◌, length, get_elem?,
  contains, leb, ◌==◌, if◌then◌else◌,
}
use swarm_communication.Prelude.Int.{ℤ, ltb_ℤ}
use swarm_communication.Health.{Float64}
use swarm_communication.Cluster.Member.{
  NodeId, Member, View, Role, worker, leader, alive, dead, eq_role, eq_state, parse_role,
  parse_state, view_get,
}
use swarm_communication.Cluster.Table.{upsert, snapshot, next_incarnation}
use swarm_communication.Cluster.Wire.{MemberRecord, record_score}
use swarm_communication.Cluster.Node.{NodeConfig, Node}
use swarm_communication.Cluster.Node.Failure.{get_member, announce_self}
use swarm_communication.Cluster.Node.Evaluate.{membership_changed}
use swarm_communication.Cluster.Node.Members.{connect, send_view}

-- The record of a peer as handleMembershipDelta stores it: a relayed record without a Seq vouches for
-- no role.
unfoldable pub relayed_role : NodeId → Option Member → MemberRecord → Role
relayed_role from known r =
    if r.seq == 0 && not (r.id == from)
    then elim known [ none ↦ worker | some m ↦ m.role ]
    else parse_role r.role

unfoldable pub relayed_record : NodeId → Option Member → MemberRecord → Member
unfolding relayed_role record_score
relayed_record from known r = record {
  id = r.id;
  addr = r.advertise;
  incarnation = r.incarnation;
  role = relayed_role from known r;
  state = parse_state r.state;
  score = record_score r;
  seq = r.seq;
}

-- Where the node does not hold itself, Get gives the zero Member.
abbrev pub zero_member : Member
zero_member = record {
  id = 0;
  addr = 0;
  role = worker;
  state = alive;
  incarnation = ℤ.pos 0;
  score = Float64.finite (ℤ.pos 0);
  seq = 0;
}

-- One record of a delta, with the view from before.
unfoldable pub is_unknown_death : View → MemberRecord → Bool
is_unknown_death before r = elim (view_get before r.id) [
  | none ↦ eq_state (parse_state r.state) dead
  | some m ↦ false
]

-- voidAttachmentIfLeaderStepped
unfoldable pub is_leader_in : Option Member → Bool
is_leader_in none = false
is_leader_in (some m) = eq_role m.role leader

unfoldable pub is_worker_in : Option Member → Bool
is_worker_in none = false
is_worker_in (some m) = not (eq_role m.role leader)

abbrev pub all_in : List NodeId → List NodeId → Bool
all_in set [] = true
all_in set (id ∷ ids) = if contains set id then all_in set ids else false

module _ (cfg : NodeConfig) where
  -- refuteIfNeeded
  unfoldable pub refute : MemberRecord → Member → Node → Node
  refute r own n =
      let inc = next_incarnation r.incarnation in
      let (t, stored) = upsert n.table (record {
        id = cfg.self;
        addr = cfg.advertise;
        incarnation = inc;
        role = own.role;
        state = alive;
        score = own.score;
        seq = own.seq;
      }) in
      announce_self cfg (record n { incarnation = inc; table = t })

  unfoldable pub refute_if_needed : MemberRecord → Node → Node
  unfolding refute get_member
  refute_if_needed r n =
      if eq_state (parse_state r.state) alive || ltb_ℤ r.incarnation n.incarnation
      then n
      else refute r (elim (get_member cfg.self n) [ none ↦ zero_member | some m ↦ m ]) n

  unfoldable pub take_record : NodeId → View → MemberRecord → Node → Bool × Node
  unfolding relayed_record connect is_unknown_death
  take_record from before r n =
      if is_unknown_death before r
      then (false, n)
      else (let n' =
            if eq_state (parse_state r.state) alive then connect cfg r.advertise n else n in
          let (t, stored) = upsert n'.table (relayed_record from (view_get before r.id) r) in
          (stored, record n' { table = t }))

  unfoldable pub take_any : NodeId → View → MemberRecord → Node → Bool × Node
  unfolding take_record refute_if_needed
  take_any from before r n =
      if r.id == 0
      then (false, n)
      else if r.id == cfg.self
      then (false, refute_if_needed r n)
      else take_record from before r n

  unfoldable pub take_records : NodeId → View → List MemberRecord → Bool × Node → Bool × Node
  unfolding take_any
  take_records from before [] acc = acc
  take_records from before (r ∷ rs) (changed, n) =
      let (c, n') = take_any from before r n in take_records from before rs (changed || c, n')

  unfoldable pub void_attachment : View → Node → Node
  unfolding is_leader_in is_worker_in get_member
  void_attachment before n =
      if n.leader == 0 || n.leader == cfg.self
      then n
      else if is_leader_in (view_get before n.leader) && is_worker_in (get_member n.leader n)
      then record n { leader = 0 }
      else n

  unfoldable pub handle_membership_delta : NodeId → List MemberRecord → Node → Node
  unfolding take_records void_attachment
  handle_membership_delta from records n =
      let before = snapshot n.table in
      let (changed, n') = take_records from before records (false, n) in
      if changed then membership_changed cfg (void_attachment before n') else n'

  -- gossipRound. The order of a round is a parameter, the result of Shuffle.
  unfoldable pub gossip_peers : List Member → List NodeId
  gossip_peers [] = []
  gossip_peers (m ∷ ms) =
      if not (eq_state m.state dead) && not (m.id == cfg.self)
      then m.id ∷ gossip_peers ms
      else gossip_peers ms

  -- sameGossipSet
  unfoldable pub same_gossip_set : Node → Bool
  unfolding gossip_peers
  same_gossip_set n =
      let peers = gossip_peers (snapshot n.table).members in
      all_in n.gossip_set peers && length peers == length n.gossip_set

  unfoldable pub gossip_round : (List NodeId → List NodeId) → Node → Node
  unfolding same_gossip_set gossip_peers send_view
  gossip_round shuffle n =
      let version = n.table.version in
      let redraw =
        (not (version == n.gossip_version) && not (same_gossip_set n))
        || leb (length n.gossip_order) n.gossip_next in
      let peers = gossip_peers (snapshot n.table).members in
      let order = if redraw then shuffle peers else n.gossip_order in
      let at = if redraw then 0 else n.gossip_next in
      let n' : Node = record n {
        gossip_version = version;
        gossip_order = order;
        gossip_set = if redraw then peers else n.gossip_set;
        gossip_next = at;
      } in
      elim (get_elem? order at) [
        | none ↦ n'
        | some peer ↦ send_view cfg peer (record n' { gossip_next = at + 1 })
      ]
