-- ===== src/Cluster/Node/Members.antt =====
-- backend/pkg/cluster/node.go: peers that come and go, and the attachment of workers to their leader.
use swarm_communication.Prelude.{
  ℕ, ◌+◌, Bool, true, false, not, ◌&&◌, ◌||◌, Option, none, some, List, [], ◌∷◌, contains, ◌==◌,
  if◌then◌else◌,
}
use swarm_communication.Prelude.Int.{ℤ}
use swarm_communication.Prelude.Map.{erase}
use swarm_communication.Health.{score_unavailable}
use swarm_communication.Cluster.Member.{NodeId, NodeAddress, Member, worker, alive, dead, eq_state}
use swarm_communication.Cluster.Table.{upsert, revive, snapshot}
use swarm_communication.Cluster.Wire.{Message, MemberRecord, JoinAck, member_record, marshal_record}
use swarm_communication.Cluster.Node.{NodeConfig, Node, is_leader, send, send_as, add_id, remove_id}
use swarm_communication.Cluster.Node.Tasks.{hand_off}
use swarm_communication.Cluster.Node.Failure.{get_member, mark_dead, mark_left, mark_suspect}
use swarm_communication.Cluster.Node.Evaluate.{evaluate, evaluate_if}

-- Resolve, as a test.
unfoldable pub is_known_address : NodeAddress → List Member → Bool
is_known_address addr [] = false
is_known_address addr (m ∷ ms) =
    if m.addr == addr && not (eq_state m.state dead) then true else is_known_address addr ms

module _ (cfg : NodeConfig) where
  unfoldable pub connect : NodeAddress → Node → Node
  unfolding is_known_address
  connect addr n =
      if addr == 0 || not cfg.has_connect || contains n.dialed addr
      then n
      else (let n' : Node = record n { dialed = add_id addr n.dialed } in
          if is_known_address addr (snapshot n.table).members
          then n'
          else record n' { work = record (n.work) { dials = addr ∷ n.work.dials } })

  unfoldable pub connect_all : List NodeAddress → Node → Node
  unfolding connect
  connect_all [] n = n
  connect_all (addr ∷ rest) n = connect_all rest (connect addr n)

-- network.Disposition, as far as it is told apart here, and network.PeerEvent.
pub data Disposition : Type 0 where
  clean_close protocol_violation other_end : Disposition

pub record Peer : Type 0 where
  pub id : NodeId
  pub advertise : NodeAddress
  pub incarnation : ℤ
  pub known_peers : List NodeAddress

pub data PeerEvent : Type 0 where
  up : Peer → PeerEvent
  down : NodeId → Disposition → PeerEvent

-- The record that a handshake vouches for.
unfoldable pub hello_record : Peer → Option Member → Member
hello_record p none = record {
  id = p.id;
  addr = p.advertise;
  incarnation = p.incarnation;
  role = worker;
  state = alive;
  score = score_unavailable;
  seq = 0;
}
hello_record p (some m) = record {
  id = p.id;
  addr = p.advertise;
  incarnation = p.incarnation;
  role = m.role;
  state = alive;
  score = m.score;
  seq = 0;
}

unfoldable pub all_records : List Member → List MemberRecord
all_records [] = []
all_records (m ∷ ms) = marshal_record (member_record m) ∷ all_records ms

module _ (cfg : NodeConfig) where
  -- sendView; a failed Send is only logged.
  unfoldable pub send_view : NodeId → Node → Node
  unfolding all_records send
  send_view to n =
      let view = snapshot n.table in
      record n {
        work =
            (send cfg to (Message.membership_delta (all_records view.members) view.version)
              n.work).1;
      }

  -- handlePeerEvent
  unfoldable pub peer_up : Peer → Node → Bool × Node
  unfolding hello_record connect_all send_view get_member
  peer_up p n =
      let (t, stored) = upsert n.table (hello_record p (get_member p.id n)) in
      let n1 : Node = record n { table = t; dialed = add_id p.advertise n.dialed } in
      let n2 = connect_all cfg p.known_peers n1 in
      let (t', revived) = revive n2.table p.id p.incarnation in
      (
        stored || revived,
        send_view p.id (record n2 { table = t'; suspects = erase p.id n2.suspects }),
      )

  unfoldable pub peer_down : ℕ → NodeId → Disposition → Node → Bool × Node
  unfolding mark_dead
  peer_down now id Disposition.clean_close n = mark_left cfg id n
  peer_down now id Disposition.protocol_violation n = mark_dead cfg id n
  peer_down now id Disposition.other_end n = mark_suspect cfg now id n

  unfoldable pub handle_peer_event : ℕ → PeerEvent → Node → Node
  unfolding peer_up peer_down
  handle_peer_event now (PeerEvent.up p) n =
      if p.id == 0 || p.id == cfg.self then n else evaluate_if cfg (peer_up p n)
  handle_peer_event now (PeerEvent.down id how) n =
      if id == 0 || id == cfg.self
      then n
      else evaluate_if cfg (peer_down now id how (record n { attached = remove_id id n.attached }))

  -- handleJoinCluster; the reply carries the request's ID.
  unfoldable pub handle_join_cluster : NodeId → ℕ → NodeId → Node → Node
  unfolding is_leader send_as
  handle_join_cluster from id named n =
      let joiner = if named == 0 then from else named in
      let leads = is_leader cfg n in
      record n {
        attached = if leads then add_id joiner n.attached else n.attached;
        work =
            (send_as cfg id from
              (Message.join_ack
                (record { accepted = leads; leader = if leads then cfg.self else n.leader }))
              n.work).1;
      }

  -- handleJoinAck
  unfoldable pub joined : Node → Node
  unfolding hand_off
  joined n = hand_off cfg (record n { hint = 0; work = record (n.work) { held = false } })

  unfoldable pub refused : JoinAck → Node → Node
  refused p n =
      evaluate cfg (record n { leader = 0; hint = p.leader; rejections = n.rejections + 1 })

  unfoldable pub handle_join_ack : NodeId → ℕ → JoinAck → Node → Node
  unfolding joined refused
  handle_join_ack from id p n =
      if id == 0 || not (id == n.join_id) || not (n.leader == from)
      then n
      else (let n' : Node = record n { join_id = 0 } in
          if p.accepted
          then if p.leader == 0 || p.leader == from
            then joined n'
            else evaluate cfg (record n' { leader = 0 })
          else refused p n')
