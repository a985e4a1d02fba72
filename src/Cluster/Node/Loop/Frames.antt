-- ===== src/Cluster/Node/Loop/Frames.antt =====
-- The invariant of a node under the frames that attach workers and carry beats.
use swarm_communication.Prelude.{
  ℕ, ◌+◌, ◌≡◌, ◌≢◌, refl, Bool, true, false, not, ◌&&◌, ◌||◌, List, ◌==◌, arith, Bool-cases,
  Option-cases, inl, inr, if◌then◌else◌, contains, length, ltb,
}
use swarm_communication.Prelude.Int.{ℤ}
use swarm_communication.Prelude.Map.{lookup, erase}
use swarm_communication.Cluster.Member.{NodeId}
use swarm_communication.Cluster.Table.{revive}
use swarm_communication.Cluster.Wire.{Heartbeat, HeartbeatAck, JoinAck}
use swarm_communication.Cluster.Node.{NodeConfig, Node, is_leader, remove_id, add_id}
use swarm_communication.Cluster.Node.Ledger.{adopt_term}
use swarm_communication.Cluster.Node.Tasks.{hand_off}
use swarm_communication.Cluster.Node.Failure.{get_member}
use swarm_communication.Cluster.Node.Members.{handle_join_cluster, handle_join_ack, joined, refused}
use swarm_communication.Cluster.Node.Loop.Own.{lookup-revive_other}
use swarm_communication.Cluster.Node.Loop.Keeps.{
  Keeps, same_fields, Keeps-trans, Keeps-if, length-remove_id,
}
use swarm_communication.Cluster.Node.Probes.{
  beat_resumed, hear_beat, handle_heartbeat, handle_heartbeat_ack, may_attach,
}
use swarm_communication.Cluster.Node.Loop.Hears.{Keeps-IsSound}
use swarm_communication.Cluster.Node.Loop.Evaluated.{IsSound, evaluate-IsSound}
use swarm_communication.Cluster.Node.Loop.Changes.{evaluate_if-IsSound}

module _ (cfg : NodeConfig) (floor : ℤ) (named : cfg.self ≢ 0) where
  pub handle_join_cluster-IsSound :
      (from : NodeId) (id : ℕ) (joiner : NodeId) (n : Node)
      → IsSound cfg floor n
      → IsSound cfg floor (handle_join_cluster cfg from id joiner n)
  unfolding handle_join_cluster is_leader
  handle_join_cluster-IsSound from id joiner n h = record {
    own = h.own;
    role = h.role;
    link = record {
      led = h.link.led;
      workers = only_leads (contains n.leaders cfg.self) n.attached _ h.link.workers;
    };
  }
    where
      only_leads :
          (b : Bool) (xs ys : List NodeId)
          → (b || length xs == 0) ≡ true
          → (b || length (if b then ys else xs) == 0) ≡ true
      only_leads true xs ys w = refl
      only_leads false xs ys w = w

  pub joined-Keeps : (n : Node) → Keeps cfg n (joined cfg n)
  unfolding joined hand_off
  joined-Keeps n =
      let n' : Node = record n { hint = 0; work = record (n.work) { held = false } } in
      elim (Bool-cases (length n.work.handoff == 0 || n.leader == 0 || n.leader == cfg.self)) [
        | inl e ↦ rw (e, joined, hand_off) (same_fields cfg n n' refl refl refl refl refl)
        | inr e ↦ rw (e, joined, hand_off) (same_fields cfg n _ refl refl refl refl refl)
      ]

  pub handle_join_ack-IsSound :
      (from : NodeId) (id : ℕ) (p : JoinAck) (n : Node)
      → IsSound cfg floor n
      → IsSound cfg floor (handle_join_ack cfg from id p n)
  unfolding handle_join_ack refused
  handle_join_ack-IsSound from id p n h =
      elim (Bool-cases (id == 0 || not (id == n.join_id) || not (n.leader == from))) [
        | inl e ↦ rw (e, handle_join_ack) h
        | inr e ↦
            let n' : Node = record n { join_id = 0 } in
            let k = same_fields cfg n n' refl refl refl refl refl in
            elim (Bool-cases p.accepted) [
              | inl a ↦ elim (Bool-cases (p.leader == 0 || p.leader == from)) [
                | inl l ↦
                    rw (e, a, l, handle_join_ack)
                      (Keeps-IsSound cfg floor n (joined cfg n')
                        (Keeps-trans cfg n n' (joined cfg n') k (joined-Keeps n')) h)
                | inr l ↦
                    rw (e, a, l, handle_join_ack)
                      (evaluate-IsSound cfg floor named (record n' { leader = 0 }) h.own)
              ]
              | inr a ↦
                  rw (e, a, handle_join_ack)
                    (evaluate-IsSound cfg floor named
                      (record n' { leader = 0; hint = p.leader; rejections = n.rejections + 1 })
                      h.own)
            ]
      ]

  -- A beat of another node.
  pub beat_resumed-IsSound :
      (from : NodeId) (n : Node)
      → from ≢ cfg.self
      → IsSound cfg floor n
      → IsSound cfg floor (beat_resumed cfg from n)
  unfolding beat_resumed
  beat_resumed-IsSound from n other h = elim (Option-cases (lookup from n.suspects)) [
    | inl e ↦ rw (e, beat_resumed) h
    | inr (s, e) ↦ elim (Bool-cases (not s.silent)) [
      | inl f ↦ rw (e, f, beat_resumed) h
      | inr f ↦
          let r = revive n.table from s.incarnation in
          let n' : Node = record n { suspects = erase from n.suspects; table = r.0 } in
          rw (e, f, beat_resumed)
            (evaluate_if-IsSound cfg floor named n (r.1, n')
              (record {
                own = lookup-revive_other n.table from cfg.self other s.incarnation;
                incarnation = refl;
                leaders = refl;
                leader = refl;
                attached = λ h. h;
              })
              h)
    ]
  ]

  pub hear_beat-IsSound :
      (from : NodeId) (p : Heartbeat) (n : Node)
      → from ≢ cfg.self
      → IsSound cfg floor n
      → IsSound cfg floor (hear_beat cfg from p n)
  unfolding hear_beat
  hear_beat-IsSound from p n other h = elim (Bool-cases (ltb p.term n.term)) [
    | inl e ↦ rw (e, hear_beat) h
    | inr e ↦
        let m = adopt_term p.term n in
        let b = from == m.leader && not (is_leader cfg m) in
        let m' : Node = if b then record m { since_beat = 0 } else m in
        rw (e, hear_beat)
          (beat_resumed-IsSound from m' other (
            Keeps-IsSound cfg floor n m'
              (Keeps-if cfg b n (record m { since_beat = 0 }) m
                (same_fields cfg n _ refl refl refl refl refl)
                (same_fields cfg n m refl refl refl refl refl))
              h))
  ]

  pub handle_heartbeat-IsSound :
      (from : NodeId) (id : ℕ) (p : Heartbeat) (n : Node)
      → from ≢ cfg.self
      → IsSound cfg floor n
      → IsSound cfg floor (handle_heartbeat cfg from id p n)
  unfolding handle_heartbeat
  handle_heartbeat-IsSound from id p n other h =
      let n' = hear_beat cfg from p n in
      Keeps-IsSound cfg floor n' (handle_heartbeat cfg from id p n)
        (same_fields cfg n' _ refl refl refl refl refl) (hear_beat-IsSound from p n other h)

  -- A leader may hold any list of workers.
  pub leading-IsSound :
      (n : Node) (workers : List NodeId)
      → contains n.leaders cfg.self ≡ true
      → IsSound cfg floor n
      → IsSound cfg floor (record n { attached = workers })
  leading-IsSound n workers leads h = record {
    own = h.own;
    role = h.role;
    link = record { led = h.link.led; workers = rw leads refl };
  }

  pub handle_heartbeat_ack-IsSound :
      (from : NodeId) (p : HeartbeatAck) (n : Node)
      → IsSound cfg floor n
      → IsSound cfg floor (handle_heartbeat_ack cfg from p n)
  unfolding handle_heartbeat_ack is_leader
  handle_heartbeat_ack-IsSound from p n h =
      let n' = adopt_term p.term n in
      let h' : IsSound cfg floor n' =
        Keeps-IsSound cfg floor n n' (same_fields cfg n n' refl refl refl refl refl) h in
      let strays = not (p.observed_leader == cfg.self) && contains n.attached from in
      let joins =
        p.observed_leader == cfg.self && not (contains n.attached from) && is_leader cfg n in
      elim (Bool-cases strays) [
        | inl e ↦
            rw (e, handle_heartbeat_ack)
              (Keeps-IsSound cfg floor n' (record n' { attached = remove_id from n.attached })
                (record {
                  own = refl;
                  incarnation = refl;
                  leaders = refl;
                  leader = refl;
                  attached = length-remove_id cfg from n.attached;
                })
                h')
        | inr e ↦ elim (Bool-cases joins) [
          | inr f ↦ rw (e, f, handle_heartbeat_ack) h'
          | inl f ↦ elim (Bool-cases (may_attach (get_member from n))) [
            | inr g ↦ rw (e, f, g, handle_heartbeat_ack) h'
            | inl g ↦
                rw (e, f, g, handle_heartbeat_ack)
                  (leading-IsSound n' (add_id from n.attached) (ground (arith, f)) h')
          ]
        ]
      ]
