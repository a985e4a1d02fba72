-- ===== src/Cluster/Node/Loop/Changes.antt =====
-- The invariant of a node under a change of its view: peers that come and go, and gossip.
use swarm_communication.Prelude.{
  ℕ, ◌≢◌, refl, Bool, true, false, ◌&&◌, ◌||◌, List, ◌==◌, arith, Bool-cases, inl, inr,
}
use swarm_communication.Prelude.Int.{ℤ}
use swarm_communication.Cluster.Member.{NodeId, View, view_get}
use swarm_communication.Cluster.Table.{snapshot}
use swarm_communication.Cluster.Wire.{MemberRecord}
use swarm_communication.Cluster.Node.{NodeConfig, Node, remove_id}
use swarm_communication.Cluster.Node.Failure.{get_member}
use swarm_communication.Cluster.Node.Evaluate.{evaluate_if, membership_changed, retain_live}
use swarm_communication.Cluster.Node.Members.{PeerEvent, peer_up, peer_down, handle_peer_event}
use swarm_communication.Cluster.Node.Gossip.{
  void_attachment, take_records, handle_membership_delta, is_leader_in, is_worker_in,
}
use swarm_communication.Cluster.Node.Loop.Keeps.{Keeps, Keeps-trans, length-remove_id}
use swarm_communication.Cluster.Node.Loop.Hears.{
  peer_up-Keeps, peer_down-Keeps, Keeps-IsSound, take_records-IsSound,
}
use swarm_communication.Cluster.Node.Loop.Evaluated.{Holds, IsSound, evaluate-IsSound}

module _ (cfg : NodeConfig) (floor : ℤ) (named : cfg.self ≢ 0) where
  pub membership_changed-IsSound :
      (n : Node) → Holds cfg floor n → IsSound cfg floor (membership_changed cfg n)
  unfolding membership_changed retain_live
  membership_changed-IsSound n h = evaluate-IsSound cfg floor named (retain_live cfg n) h

  pub evaluate_if-IsSound :
      (n : Node) (r : Bool × Node)
      → Keeps cfg n r.1
      → IsSound cfg floor n
      → IsSound cfg floor (evaluate_if cfg r)
  evaluate_if-IsSound n (true, m) k h =
      membership_changed-IsSound m (Keeps-IsSound cfg floor n m k h).own
  evaluate_if-IsSound n (false, m) k h = Keeps-IsSound cfg floor n m k h

  pub handle_peer_event-IsSound :
      (now : ℕ) (e : PeerEvent) (n : Node)
      → IsSound cfg floor n
      → IsSound cfg floor (handle_peer_event cfg now e n)
  unfolding handle_peer_event
  handle_peer_event-IsSound now (PeerEvent.up p) n h =
      elim (Bool-cases (p.id == 0 || p.id == cfg.self)) [
        | inl e ↦ rw (e, handle_peer_event) h
        | inr e ↦
            rw (e, handle_peer_event)
              (evaluate_if-IsSound n (peer_up cfg p n) (peer_up-Keeps cfg p n (ground (arith, e)))
                h)
      ]
  handle_peer_event-IsSound now (PeerEvent.down id how) n h =
      elim (Bool-cases (id == 0 || id == cfg.self)) [
        | inl e ↦ rw (e, handle_peer_event) h
        | inr e ↦
            let n' : Node = record n { attached = remove_id id n.attached } in
            let k : Keeps cfg n n' = record {
              own = refl;
              incarnation = refl;
              leaders = refl;
              leader = refl;
              attached = length-remove_id cfg id n.attached;
            } in
            rw (e, handle_peer_event)
              (evaluate_if-IsSound n (peer_down cfg now id how n')
                (Keeps-trans cfg n n' (peer_down cfg now id how n').1 k
                  (peer_down-Keeps cfg now id how n' (ground (arith, e))))
                h)
      ]

  pub void_attachment-Holds :
      (before : View) (n : Node)
      → Holds cfg floor n
      → Holds cfg floor (void_attachment cfg before n)
  unfolding void_attachment
  void_attachment-Holds before n h = elim (Bool-cases (n.leader == 0 || n.leader == cfg.self)) [
    | inl e ↦ rw (e, void_attachment) h
    | inr e ↦
        elim (Bool-cases
          (is_leader_in (view_get before n.leader) && is_worker_in (get_member n.leader n))) [
            | inl f ↦ rw (e, f, void_attachment) h
            | inr f ↦ rw (e, f, void_attachment) h
          ]
  ]

  pub handle_membership_delta-IsSound :
      (from : NodeId) (rs : List MemberRecord) (n : Node)
      → IsSound cfg floor n
      → IsSound cfg floor (handle_membership_delta cfg from rs n)
  unfolding handle_membership_delta
  handle_membership_delta-IsSound from rs n h =
      let before = snapshot n.table in
      let out = take_records cfg from before rs (false, n) in
      let s : IsSound cfg floor out.1 = take_records-IsSound cfg floor from before rs false n h in
      elim (Bool-cases out.0) [
        | inl e ↦ rw e (
            membership_changed-IsSound (void_attachment cfg before out.1)
              (void_attachment-Holds before out.1 s.own))
        | inr e ↦ rw e s
      ]
