-- ===== src/Cluster/Node/Loop/Sound.antt =====
-- The invariant of the loop over every list of events.
use swarm_communication.Prelude.{
  ℕ, ◌≡◌, ◌≢◌, refl, ◌∙◌, false, not, ◌||◌, some, none, Option, List, [], ◌∷◌, ◌==◌, arith,
  Bool-cases, inl, inr, ==_iff,
}
use swarm_communication.Prelude.Int.{ℤ}
use swarm_communication.Prelude.Map.{lookup}
use swarm_communication.Health.{Float64, score_unavailable}
use swarm_communication.Cluster.Member.{NodeId, Member, worker, alive}
use swarm_communication.Cluster.Table.{new_table}
use swarm_communication.Cluster.Wire.{Message, Task}
use swarm_communication.Cluster.Node.{NodeConfig, Node, is_leader}
use swarm_communication.Cluster.Node.Ledger.{
  is_foreign, is_stale, handle_state_sync, flush_sync, periodic_sync,
}
use swarm_communication.Cluster.Node.Tasks.{handle_task, handle_task_result, submit}
use swarm_communication.Cluster.Node.Failure.{mark_dead}
use swarm_communication.Cluster.Node.Gossip.{gossip_round}
use swarm_communication.Cluster.Node.Loop.Keeps.{
  Keeps, keeps, same_fields, Keeps-if_result, Keeps-trans, Keeps-if, mark_dead-Keeps,
}
use swarm_communication.Cluster.Node.Probes.{
  start_probe_round, apply_probe_round, apply_tuning, Tuning, tune_threshold, tune_hysteresis,
}
use swarm_communication.Cluster.Node.Loop.Hears.{Keeps-IsSound, Keeps-Holds}
use swarm_communication.Cluster.Node.Loop.Evaluated.{Holds, IsSound, evaluate-IsSound}
use swarm_communication.Cluster.Node.Loop.Changes.{evaluate_if-IsSound}
use swarm_communication.Cluster.Node.Loop.Changes.{
  handle_peer_event-IsSound, handle_membership_delta-IsSound,
}
use swarm_communication.Cluster.Node.Loop.Frames.{
  handle_join_cluster-IsSound, handle_join_ack-IsSound, handle_heartbeat-IsSound,
  handle_heartbeat_ack-IsSound,
}
use swarm_communication.Cluster.Node.Loop.Ticks.{
  gossip_round-Keeps, start_probe_round-Keeps, apply_probe_round-IsSound, control_tick-IsSound,
}
use swarm_communication.Cluster.Node.Loop.{
  Frame, Event, new_node, handle_message, handle_frame, handle, step, run, start,
}
use swarm_communication.Cluster.Election.{Config}
use swarm_communication.Cluster.Table.Merge.{lookup-upsert, merged_over}

-- Whether an event can come from outside: no frame has this node's own ID as its sender, and no round
-- of probes has a result of the node itself.
unfoldable pub IsFromOutside : NodeConfig → Event → Type 0
IsFromOutside cfg (Event.frame now from id f) = from ≢ cfg.self
IsFromOutside cfg (Event.probe_round now seq results) = lookup cfg.self results ≡ none
IsFromOutside cfg (Event.peer_event now e) = Unit
IsFromOutside cfg Event.probe_tick = Unit
IsFromOutside cfg Event.floor_tick = Unit
IsFromOutside cfg Event.sync_tick = Unit
IsFromOutside cfg (Event.gossip_tick shuffle) = Unit
IsFromOutside cfg (Event.control now) = Unit
IsFromOutside cfg (Event.task_done origin res) = Unit
IsFromOutside cfg (Event.submitted t) = Unit
IsFromOutside cfg (Event.tuned t) = Unit

unfoldable pub AreFromOutside : NodeConfig → List Event → Type 0
unfolding IsFromOutside
AreFromOutside cfg [] = Unit
AreFromOutside cfg (e ∷ es) = IsFromOutside cfg e × AreFromOutside cfg es

module _ (cfg : NodeConfig) (floor : ℤ) (named : cfg.self ≢ 0) where
  handle_message-IsSound :
      (now : ℕ) (from : NodeId) (id : ℕ) (m : Message) (n : Node)
      → from ≢ cfg.self
      → IsSound cfg floor n
      → IsSound cfg floor (handle_message cfg now from id m n)
  unfolding handle_message handle_state_sync handle_task handle_task_result
  handle_message-IsSound now from id (Message.membership_delta records version) n other h =
      handle_membership_delta-IsSound cfg floor named from records n h
  handle_message-IsSound now from id (Message.election_result claim) n other h =
      Keeps-IsSound cfg floor n _ (same_fields cfg n _ refl refl refl refl refl) h
  handle_message-IsSound now from id (Message.join_cluster joiner score) n other h =
      handle_join_cluster-IsSound cfg floor named from id joiner n h
  handle_message-IsSound now from id (Message.join_ack p) n other h =
      handle_join_ack-IsSound cfg floor named from id p n h
  handle_message-IsSound now from id Message.leave n other h =
      evaluate_if-IsSound cfg floor named n (mark_dead cfg from n)
        (mark_dead-Keeps cfg from n other) h
  handle_message-IsSound now from id (Message.heartbeat p) n other h =
      handle_heartbeat-IsSound cfg floor named from id p n other h
  handle_message-IsSound now from id (Message.heartbeat_ack p) n other h =
      handle_heartbeat_ack-IsSound cfg floor named from p n h
  handle_message-IsSound now from id (Message.state_sync p) n other h =
      Keeps-IsSound cfg floor n (handle_state_sync cfg from p n)
        (Keeps-if cfg (is_foreign cfg from p n) n n _ (keeps cfg n) (
          Keeps-if cfg (is_stale cfg p n.work) n _ _ (same_fields cfg n _ refl refl refl refl refl)
            (same_fields cfg n _ refl refl refl refl refl)))
        h
  handle_message-IsSound now from id (Message.task t) n other h =
      Keeps-IsSound cfg floor n (handle_task cfg from t n)
        (Keeps-if cfg (t.task_id == 0) n n _ (keeps cfg n)
          (same_fields cfg n _ refl refl refl refl refl))
        h
  handle_message-IsSound now from id (Message.task_result r) n other h =
      Keeps-IsSound cfg floor n _ (same_fields cfg n _ refl refl refl refl refl) h

  submit-Keeps : (t : Task) (n : Node) → Keeps cfg n (submit cfg t n).1
  unfolding submit
  submit-Keeps t n =
      Keeps-if_result cfg (is_leader cfg n) n _ _ (same_fields cfg n _ refl refl refl refl refl) (
        Keeps-if_result cfg (n.leader == 0) n _ _ (keeps cfg n)
          (same_fields cfg n _ refl refl refl refl refl))

  periodic_sync-Keeps : (n : Node) → Keeps cfg n (periodic_sync cfg n)
  unfolding periodic_sync
  periodic_sync-Keeps n =
      Keeps-if cfg (is_leader cfg n) n _ n (same_fields cfg n _ refl refl refl refl refl)
        (keeps cfg n)

  flush_sync-Keeps : (n : Node) → Keeps cfg n (flush_sync cfg n)
  unfolding flush_sync
  flush_sync-Keeps n =
      Keeps-if cfg (not (is_leader cfg n)) n n _ (keeps cfg n)
        (same_fields cfg n _ refl refl refl refl refl)

  tune_threshold-Keeps : (t : Option Float64) (n : Node) → Keeps cfg n (tune_threshold t n).1
  unfolding tune_threshold
  tune_threshold-Keeps none n = keeps cfg n
  tune_threshold-Keeps (some x) n =
      Keeps-if_result cfg _ n (false, n) _ (keeps cfg n)
        (same_fields cfg n _ refl refl refl refl refl)

  tune_hysteresis-Keeps : (t : Option Float64) (n : Node) → Keeps cfg n (tune_hysteresis t n).1
  unfolding tune_hysteresis
  tune_hysteresis-Keeps none n = keeps cfg n
  tune_hysteresis-Keeps (some x) n =
      Keeps-if_result cfg _ n (false, n) _ (keeps cfg n)
        (same_fields cfg n _ refl refl refl refl refl)

  -- What apply_tuning evaluates.
  tuned-Keeps :
      (t : Tuning) (n : Node)
      → Keeps cfg n (tune_hysteresis t.hysteresis (tune_threshold t.threshold n).1).1
  tuned-Keeps t n =
      Keeps-trans cfg n (tune_threshold t.threshold n).1 _ (tune_threshold-Keeps t.threshold n)
        (tune_hysteresis-Keeps t.hysteresis (tune_threshold t.threshold n).1)

  apply_tuning-IsSound :
      (t : Tuning) (n : Node) → IsSound cfg floor n → IsSound cfg floor (apply_tuning cfg t n)
  unfolding apply_tuning
  apply_tuning-IsSound t n h =
      let a = tune_threshold t.threshold n in
      let b = tune_hysteresis t.hysteresis a.1 in
      let h' : IsSound cfg floor b.1 = Keeps-IsSound cfg floor n b.1 (tuned-Keeps t n) h in
      elim (Bool-cases (a.0 || b.0)) [
        | inl e ↦ rw (e, apply_tuning) (evaluate-IsSound cfg floor named b.1 h'.own)
        | inr e ↦ rw (e, apply_tuning) h'
      ]

  pub handle-IsSound :
      (e : Event) (n : Node)
      → IsFromOutside cfg e
      → IsSound cfg floor n
      → IsSound cfg floor (handle cfg e n)
  unfolding IsFromOutside handle handle_frame
  handle-IsSound (Event.peer_event now e) n out h =
      handle_peer_event-IsSound cfg floor named now e n h
  handle-IsSound (Event.frame now from id (Frame.decoded m)) n out h =
      handle_message-IsSound now from id m n out h
  handle-IsSound (Event.frame now from id Frame.malformed) n out h =
      evaluate_if-IsSound cfg floor named n (mark_dead cfg from n) (mark_dead-Keeps cfg from n out)
        h
  handle-IsSound (Event.frame now from id Frame.unknown) n out h = h
  handle-IsSound Event.probe_tick n out h =
      Keeps-IsSound cfg floor n (start_probe_round cfg n) (start_probe_round-Keeps cfg floor n) h
  handle-IsSound Event.floor_tick n out h = evaluate-IsSound cfg floor named n h.own
  handle-IsSound Event.sync_tick n out h =
      Keeps-IsSound cfg floor n (periodic_sync cfg n) (periodic_sync-Keeps n) h
  handle-IsSound (Event.probe_round now seq results) n out h =
      evaluate-IsSound cfg floor named (apply_probe_round cfg now seq results n)
        (apply_probe_round-IsSound cfg floor now seq results n out h).own
  handle-IsSound (Event.gossip_tick shuffle) n out h =
      Keeps-IsSound cfg floor n (gossip_round cfg shuffle n)
        (gossip_round-Keeps cfg floor shuffle n) h
  handle-IsSound (Event.control now) n out h = control_tick-IsSound cfg floor named now n h
  handle-IsSound (Event.task_done origin res) n out h =
      Keeps-IsSound cfg floor n _ (same_fields cfg n _ refl refl refl refl refl) h
  handle-IsSound (Event.submitted t) n out h =
      Keeps-IsSound cfg floor n (submit cfg t n).1 (submit-Keeps t n) h
  handle-IsSound (Event.tuned t) n out h = apply_tuning-IsSound t n h

  pub run-IsSound :
      (es : List Event) (n : Node)
      → AreFromOutside cfg es
      → IsSound cfg floor n
      → IsSound cfg floor (run cfg es n)
  unfolding AreFromOutside run step
  run-IsSound [] n out h = h
  run-IsSound (e ∷ es) n out h = run-IsSound es (step cfg e n) out.1 (
      Keeps-IsSound cfg floor (handle cfg e n) (step cfg e n) (flush_sync-Keeps (handle cfg e n))
        (handle-IsSound e n out.0 h))

-- A node that has started.
new_node-Holds :
    (cfg : NodeConfig) (incarnation : ℤ) (election : Config) (rehome : Float64)
    → Holds cfg incarnation (new_node cfg incarnation election rehome)
unfolding new_node merged_over new_table lookup
new_node-Holds cfg incarnation election rehome =
    let m : Member = record {
      id = cfg.self;
      addr = cfg.advertise;
      role = worker;
      state = alive;
      incarnation = incarnation;
      score = score_unavailable;
      seq = 1;
    } in
    record {
      own = m;
      found = lookup-upsert new_table m cfg.self ∙ rw ((==_iff cfg.self cfg.self).1 refl) refl;
      state = refl;
      current = refl;
      at_least = omega arith;
    }

pub start-IsSound :
    (cfg : NodeConfig) (tuning : Tuning) (incarnation : ℤ) (election : Config) (rehome : Float64)
    → cfg.self ≢ 0
    → IsSound cfg incarnation (start cfg tuning incarnation election rehome)
unfolding start apply_tuning
start-IsSound cfg tuning incarnation election rehome named =
    let n = new_node cfg incarnation election rehome in
    let h = new_node-Holds cfg incarnation election rehome in
    let a = tune_threshold tuning.threshold n in
    let b = tune_hysteresis tuning.hysteresis a.1 in
    let h' : Holds cfg incarnation b.1 =
      Keeps-Holds cfg incarnation n b.1 (tuned-Keeps cfg incarnation named tuning n) h in
    evaluate-IsSound cfg incarnation named (apply_tuning cfg tuning n)
      (elim (Bool-cases (a.0 || b.0)) [
        | inl e ↦ rw (e, apply_tuning) (evaluate-IsSound cfg incarnation named b.1 h').own
        | inr e ↦ rw (e, apply_tuning) h'
      ])

-- From its start on, through every list of events from outside, a node with an ID holds itself alive in
-- its own table at its own incarnation, which is never below the one it started with; its record plays
-- the role that its leaders give it; a leader is its own leader, and no other node is, nor has workers.
pub run-start-IsSound :
    (cfg : NodeConfig) (tuning : Tuning) (incarnation : ℤ) (election : Config) (rehome : Float64)
    (es : List Event)
    → cfg.self ≢ 0
    → AreFromOutside cfg es
    → IsSound cfg incarnation (run cfg es (start cfg tuning incarnation election rehome))
run-start-IsSound cfg tuning incarnation election rehome es named out =
    run-IsSound cfg incarnation named es (start cfg tuning incarnation election rehome) out
      (start-IsSound cfg tuning incarnation election rehome named)
