-- ===== src/Cluster/Node/Loop.antt =====
-- backend/pkg/cluster/node.go: NewNode, the dispatch of frames, and the loop of Run. An event is what
-- one round of the loop takes from its channels; the order of the rounds is the order of a list.
pub mod Own
pub mod Keeps
pub mod Expires
pub mod Hears
pub mod Elects
pub mod Evaluated
pub mod Changes
pub mod Frames
pub mod Ticks
pub mod Sound
use swarm_communication.Prelude.{ℕ, ◌≡◌, ◌≢◌, Bool, true, false, List, [], ◌∷◌, ◌==◌, if◌then◌else◌}
use swarm_communication.Prelude.Int.{ℤ}
use swarm_communication.Prelude.Map.{Map, insert}
use swarm_communication.Health.{Float64, score_unavailable}
use swarm_communication.Cluster.Member.{NodeId, worker, alive}
use swarm_communication.Cluster.Table.{new_table, upsert}
use swarm_communication.Cluster.Election.{Config}
use swarm_communication.Cluster.Wire.{Message, Task, TaskResult, Claim}
use swarm_communication.Cluster.Node.{NodeConfig, Work, Node}
use swarm_communication.Cluster.Node.Ledger.{flush_sync, periodic_sync, handle_state_sync}
use swarm_communication.Cluster.Node.Tasks.{
  handle_task, handle_task_result, handle_task_outcome, submit,
}
use swarm_communication.Cluster.Node.Failure.{mark_dead, mark_left}
use swarm_communication.Cluster.Node.Evaluate.{evaluate, evaluate_if}
use swarm_communication.Cluster.Node.Members.{
  PeerEvent, handle_peer_event, handle_join_cluster, handle_join_ack,
}
use swarm_communication.Cluster.Node.Gossip.{handle_membership_delta, gossip_round}
use swarm_communication.Cluster.Node.Probes.{
  ProbeResult, Tuning, handle_heartbeat, handle_heartbeat_ack, start_probe_round, apply_probe_round,
  control_tick, apply_tuning,
}

-- What a peer sends: a payload that decodes, one that does not, or a type that is not known.
pub data Frame : Type 0 where
  decoded : Message → Frame
  malformed unknown : Frame

-- The cases of Run's select, with the time on the clock where the handler reads it.
pub data Event : Type 0 where
  peer_event : ℕ → PeerEvent → Event
  frame : ℕ → NodeId → ℕ → Frame → Event
  probe_tick floor_tick sync_tick : Event
  probe_round : ℕ → ℕ → Map ProbeResult → Event
  gossip_tick : (List NodeId → List NodeId) → Event
  control : ℕ → Event
  task_done : NodeId → TaskResult → Event
  submitted : Task → Event
  tuned : Tuning → Event

abbrev pub no_work : Work
no_work = record {
  ledger = [];
  sync_version = 0;
  dirty = false;
  sent_workers = [];
  sent_term = 0;
  held = false;
  held_term = 0;
  inflight = 0;
  next = 0;
  reissue_due = false;
  handoff = [];
  sent = [];
  started = [];
  reported = [];
  dials = [];
}

module _ (cfg : NodeConfig) where
  -- NewNode
  unfoldable pub new_node : ℤ → Config → Float64 → Node
  new_node incarnation election rehome = record {
    table =
        (upsert new_table (record {
          id = cfg.self;
          addr = cfg.advertise;
          role = worker;
          state = alive;
          incarnation = incarnation;
          score = score_unavailable;
          seq = 1;
        })).0;
    incarnation = incarnation;
    term = 0;
    leaders = [];
    leader = 0;
    hint = 0;
    join_id = 0;
    rejections = 0;
    attached = [];
    local = [];
    reported_scores = [];
    dialed = cfg.advertise ∷ [];
    missed = [];
    claims = [];
    high_water = 0;
    degraded = false;
    election = election;
    rehome = rehome;
    gossip_order = [];
    gossip_next = 0;
    gossip_set = [];
    gossip_version = 0;
    suspects = [];
    probe_seq = 0;
    probing = false;
    tombstones = [];
    tomb_version = 0;
    beat_seq = [];
    since_beat = 0;
    work = no_work;
  }

  -- handleFrame, with payloadOrPoison.
  unfoldable pub handle_message : ℕ → NodeId → ℕ → Message → Node → Node
  handle_message now from id (Message.membership_delta records version) n =
      handle_membership_delta cfg from records n
  handle_message now from id (Message.election_result claim) n = record n {
    claims = insert from claim n.claims;
  }
  handle_message now from id (Message.join_cluster joiner score) n =
      handle_join_cluster cfg from id joiner n
  handle_message now from id (Message.join_ack p) n = handle_join_ack cfg from id p n
  handle_message now from id Message.leave n = evaluate_if cfg (mark_left cfg from n)
  handle_message now from id (Message.heartbeat p) n = handle_heartbeat cfg from id p n
  handle_message now from id (Message.heartbeat_ack p) n = handle_heartbeat_ack cfg from p n
  handle_message now from id (Message.state_sync p) n = handle_state_sync cfg from p n
  handle_message now from id (Message.task t) n = handle_task cfg from t n
  handle_message now from id (Message.task_result r) n = handle_task_result cfg from r n

  unfoldable pub handle_frame : ℕ → NodeId → ℕ → Frame → Node → Node
  unfolding handle_message
  handle_frame now from id (Frame.decoded m) n = handle_message now from id m n
  handle_frame now from id Frame.malformed n = evaluate_if cfg (mark_dead cfg from n)
  handle_frame now from id Frame.unknown n = n

  unfoldable pub handle : Event → Node → Node
  unfolding handle_frame
  handle (Event.peer_event now e) n = handle_peer_event cfg now e n
  handle (Event.frame now from id f) n = handle_frame now from id f n
  handle Event.probe_tick n = start_probe_round cfg n
  handle Event.floor_tick n = evaluate cfg n
  handle Event.sync_tick n = periodic_sync cfg n
  handle (Event.probe_round now seq results) n =
      evaluate cfg (apply_probe_round cfg now seq results n)
  handle (Event.gossip_tick shuffle) n = gossip_round cfg shuffle n
  handle (Event.control now) n = control_tick cfg now n
  handle (Event.task_done origin res) n = record n {
    work = handle_task_outcome cfg n origin res n.work;
  }
  handle (Event.submitted t) n = (submit cfg t n).1
  handle (Event.tuned t) n = apply_tuning cfg t n

  -- One round of the loop.
  unfoldable pub step : Event → Node → Node
  unfolding handle flush_sync
  step e n = flush_sync cfg (handle e n)

  unfoldable pub run : List Event → Node → Node
  unfolding step
  run [] n = n
  run (e ∷ es) n = run es (step e n)

  -- Run, from its first evaluation.
  unfoldable pub start : Tuning → ℤ → Config → Float64 → Node
  unfolding new_node
  start tuning incarnation election rehome =
      evaluate cfg (apply_tuning cfg tuning (new_node incarnation election rehome))
