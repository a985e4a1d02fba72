-- ===== src/Cluster/Node/Loop/Ticks.antt =====
-- The invariant of a node under its timers: probes, gossip, the control tick, and tuning.
use swarm_communication.Prelude.{
  ℕ, ◌+◌, ◌≡◌, ◌≢◌, refl, sym, ap, ◌∙◌, true, false, not, ◌&&◌, ◌||◌, none, List, ◌==◌, Bool-cases,
  Option-cases, inl, inr, some_inj, if◌then◌else◌, length, leb, ltb, get_elem?,
}
use swarm_communication.Prelude.Int.{ℤ}
use swarm_communication.Prelude.Map.{Map, lookup, insert, keys}
use swarm_communication.Health.{Float64, is_valid_score, ltb_f}
use swarm_communication.Cluster.Member.{NodeId, Member, leader, eq_role}
use swarm_communication.Cluster.Table.{set_score, snapshot}
use swarm_communication.Cluster.Election.{sort_ids, with_defaults}
use swarm_communication.Cluster.Node.{NodeConfig, Node, is_leader}
use swarm_communication.Cluster.Node.Tasks.{adopt_orphans, reissue_if_due}
use swarm_communication.Cluster.Node.Failure.{
  announce_self, mark_silent, expire_suspicions, sweep_tombstones,
}
use swarm_communication.Cluster.Node.Evaluate.{evaluate_if, retain_live}
use swarm_communication.Cluster.Node.Members.{send_view}
use swarm_communication.Cluster.Node.Gossip.{gossip_round, same_gossip_set, gossip_peers}
use swarm_communication.Cluster.Node.Loop.Own.{lookup-set_score_self}
use swarm_communication.Cluster.Node.Loop.Keeps.{
  Keeps, keeps, same_fields, Keeps-trans, Keeps-if, suspect_peer-Keeps, push_record-Keeps,
}
use swarm_communication.Cluster.Node.Loop.Expires.{
  IsUp, expire_suspicions-Keeps, sweep_tombstones-Keeps, apply_probes-Keeps,
}
use swarm_communication.Cluster.Node.Probes.{
  start_probe_round, beat, fail_over, check_leader_silence, control_tick, update_self_score,
  self_score, apply_probe_round, ProbeResult, apply_probes, own_score, abs_f,
}
use swarm_communication.Cluster.Node.Loop.Hears.{Keeps-IsSound}
use swarm_communication.Cluster.Node.Loop.Evaluated.{IsSound}
use swarm_communication.Cluster.Node.Loop.Changes.{membership_changed-IsSound, evaluate_if-IsSound}

module _ (cfg : NodeConfig) (floor : ℤ) where
  send_view-Keeps : (to : NodeId) (n : Node) → Keeps cfg n (send_view cfg to n)
  unfolding send_view
  send_view-Keeps to n = same_fields cfg n _ refl refl refl refl refl

  pub gossip_round-Keeps :
      (shuffle : List NodeId → List NodeId) (n : Node) → Keeps cfg n (gossip_round cfg shuffle n)
  unfolding gossip_round
  gossip_round-Keeps shuffle n =
      let version = n.table.version in
      let redraw =
        (not (version == n.gossip_version) && not (same_gossip_set cfg n))
        || leb (length n.gossip_order) n.gossip_next in
      let peers = gossip_peers cfg (snapshot n.table).members in
      let order = if redraw then shuffle peers else n.gossip_order in
      let at = if redraw then 0 else n.gossip_next in
      elim (Option-cases (get_elem? order at)) [
        | inl e ↦ rw (e, gossip_round) (same_fields cfg n _ refl refl refl refl refl)
        | inr (peer, e) ↦
            rw (e, gossip_round, send_view) (same_fields cfg n _ refl refl refl refl refl)
      ]

  pub start_probe_round-Keeps : (n : Node) → Keeps cfg n (start_probe_round cfg n)
  unfolding start_probe_round
  start_probe_round-Keeps n =
      Keeps-if cfg n.probing n n _ (keeps cfg n) (same_fields cfg n _ refl refl refl refl refl)

  pub reissue_if_due-Keeps : (n : Node) → Keeps cfg n (reissue_if_due cfg n)
  unfolding reissue_if_due
  reissue_if_due-Keeps n =
      Keeps-if cfg n.work.reissue_due n _ n (same_fields cfg n _ refl refl refl refl refl)
        (keeps cfg n)

  pub beat-Keeps : (n : Node) → Keeps cfg n (beat cfg n)
  unfolding beat
  beat-Keeps n = same_fields cfg n _ refl refl refl refl refl

  pub IsSound-IsUp : (n : Node) → IsSound cfg floor n → IsUp cfg n
  IsSound-IsUp n h = record { own = h.own.own; found = h.own.found; state = h.own.state }

  -- A new score of its own moves the Seq of the node's record only.
  scored-IsSound :
      (x : Float64) (n : Node)
      → IsSound cfg floor n
      → IsSound cfg floor (record n { table = (set_score n.table cfg.self x).0 })
  scored-IsSound x n h =
      let w = lookup-set_score_self cfg.self n.table h.own.own h.own.found x in
      let same : h.role.own ≡ h.own.own = some_inj (sym h.role.found ∙ h.own.found) in
      record {
        own = record {
          own = w.0;
          found = w.1;
          state = w.2 ∙ h.own.state;
          current = w.3 ∙ h.own.current;
          at_least = h.own.at_least;
        };
        role = record {
          own = w.0;
          found = w.1;
          role =
              ap (λ q. eq_role q leader) (w.4 ∙ ap (λ (m : Member). m.role) (sym same))
              ∙ h.role.role;
        };
        link = h.link;
      }

  update_self_score-IsSound :
      (n : Node) → IsSound cfg floor n → IsSound cfg floor (update_self_score cfg n)
  unfolding update_self_score announce_self
  update_self_score-IsSound n h =
      let fresh = self_score cfg n in
      let prev = own_score cfg n in
      let n' : Node = record n { local = insert cfg.self fresh n.local } in
      let h' = Keeps-IsSound cfg floor n n' (same_fields cfg n n' refl refl refl refl refl) h in
      let small =
        is_valid_score prev
        && is_valid_score fresh
        && ltb_f (abs_f (cfg.ops.sub fresh prev)) (with_defaults n.election).hysteresis in
      elim (Bool-cases small) [
        | inl e ↦ rw (e, update_self_score) h'
        | inr e ↦
            let n'' : Node = record n' { table = (set_score n'.table cfg.self fresh).0 } in
            rw (e, update_self_score)
              (Keeps-IsSound cfg floor n'' _
                (Keeps-if cfg (set_score n'.table cfg.self fresh).1 n'' (announce_self cfg n'') n''
                  (push_record-Keeps cfg cfg.self n'') (keeps cfg n''))
                (scored-IsSound fresh n' h'))
      ]

  -- A round that has no result of the node itself.
  pub apply_probe_round-IsSound :
      (now seq : ℕ) (results : Map ProbeResult) (n : Node)
      → lookup cfg.self results ≡ none
      → IsSound cfg floor n
      → IsSound cfg floor (apply_probe_round cfg now seq results n)
  unfolding apply_probe_round retain_live
  apply_probe_round-IsSound now seq results n others h =
      let n' : Node = record n { probing = false; rejections = 0 } in
      let out =
        apply_probes cfg now seq (snapshot n'.table) results (sort_ids (keys results))
          (false, n') in
      let k : Keeps cfg n' out.1 =
        apply_probes-Keeps cfg now seq (snapshot n'.table) results (sort_ids (keys results)) false
          n' others in
      update_self_score-IsSound (if out.0 then retain_live cfg out.1 else out.1) (
        Keeps-IsSound cfg floor n _
          (Keeps-trans cfg n n' _ (same_fields cfg n n' refl refl refl refl refl) (
            Keeps-trans cfg n' out.1 _ k (
              Keeps-if cfg out.0 out.1 (retain_live cfg out.1) out.1
                (same_fields cfg out.1 _ refl refl refl refl refl) (keeps cfg out.1))))
          h)

module _ (cfg : NodeConfig) (floor : ℤ) (named : cfg.self ≢ 0) where
  -- A worker whose leader is silent doubts it, leaves it, and evaluates.
  fail_over-IsSound :
      (now : ℕ) (n : Node) → IsSound cfg floor n → IsSound cfg floor (fail_over cfg now n)
  unfolding fail_over
  fail_over-IsSound now n h =
      let n' : Node = record n { since_beat = 0; work = adopt_orphans n.work } in
      let m = (mark_silent cfg now n.leader n').1 in
      membership_changed-IsSound cfg floor named (record m { leader = 0 })
        (Keeps-IsSound cfg floor n m
          (Keeps-trans cfg n n' m (same_fields cfg n n' refl refl refl refl refl)
            (suspect_peer-Keeps cfg now n.leader true n'))
          h).own

  check_leader_silence-IsSound :
      (now : ℕ) (n : Node)
      → IsSound cfg floor n
      → IsSound cfg floor (check_leader_silence cfg now n)
  unfolding check_leader_silence
  check_leader_silence-IsSound now n h =
      let n' : Node = record n { since_beat = n.since_beat + 1 } in
      let h' = Keeps-IsSound cfg floor n n' (same_fields cfg n n' refl refl refl refl refl) h in
      elim (Bool-cases (ltb (n.since_beat + 1) cfg.heartbeat_misses)) [
        | inl e ↦ rw (e, check_leader_silence) h'
        | inr e ↦ rw (e, check_leader_silence) (fail_over-IsSound now n' h')
      ]

  pub control_tick-IsSound :
      (now : ℕ) (n : Node) → IsSound cfg floor n → IsSound cfg floor (control_tick cfg now n)
  unfolding control_tick
  control_tick-IsSound now n h =
      let n1 = evaluate_if cfg (expire_suspicions cfg now n) in
      let h1 =
        evaluate_if-IsSound cfg floor named n (expire_suspicions cfg now n)
          (expire_suspicions-Keeps cfg now n (IsSound-IsUp cfg floor n h)) h in
      let n2 = (sweep_tombstones cfg now n1).1 in
      let h2 : IsSound cfg floor n2 =
        Keeps-IsSound cfg floor n1 n2
          (sweep_tombstones-Keeps cfg now n1 (IsSound-IsUp cfg floor n1 h1)) h1 in
      elim (Bool-cases (is_leader cfg n2)) [
        | inl e ↦
            rw (e, control_tick)
              (Keeps-IsSound cfg floor n2 (reissue_if_due cfg (beat cfg n2))
                (Keeps-trans cfg n2 (beat cfg n2) _ (beat-Keeps cfg floor n2)
                  (reissue_if_due-Keeps cfg floor (beat cfg n2)))
                h2)
        | inr e ↦ elim (Bool-cases (not (n2.leader == 0))) [
          | inl f ↦ rw (e, f, control_tick) (check_leader_silence-IsSound now n2 h2)
          | inr f ↦ rw (e, f, control_tick) h2
        ]
      ]
