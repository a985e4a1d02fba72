-- ===== src/Tests/Node.antt =====
-- Runs of a node's event loop, its ledger and its tasks (backend/pkg/cluster).
use swarm_communication.Prelude.{
  ℕ, ◌+◌, ◌*◌, ◌≡◌, ◌≢◌, ◌⊎◌, ◌≤◌, refl, inl, inr, true, false, none, some, List, [], ◌∷◌, ◌++◌,
  arith, length, keep,
}
use swarm_communication.Prelude.Int.{pos}
use swarm_communication.Prelude.Map.{lookup, insert}
use swarm_communication.Health.{Float64, score_unavailable}
use swarm_communication.Cluster.Member.{Member, leader, alive}
use swarm_communication.Cluster.Table.{snapshot, upsert, new_table}
use swarm_communication.Cluster.Election.{Config}
use swarm_communication.Cluster.Wire.{
  member_record, marshal_record, Message, MemberRecord, TaskResult, TaskState, TaskRecord, Snapshot,
}
use swarm_communication.Cluster.Node.{NodeConfig, Node, Work}
use swarm_communication.Cluster.Node.Ledger.{
  is_pending, has_done, cap_body, ledger_append, sync_payload, handle_state_sync,
}
use swarm_communication.Cluster.Node.Ledger.Bound.{ledger_append-kept}
use swarm_communication.Cluster.Node.Ledger.Order.{handle_state_sync_comm}
use swarm_communication.Cluster.Node.Ledger.Trim.{IsTrimmed, whole_snapshot, sync_payload-Fits}
use swarm_communication.Cluster.Node.Tasks.{
  complete_task, handle_task_result, handle_task_outcome, reassign_from, reissue_if_due,
}
use swarm_communication.Cluster.Node.Tasks.Board.{Advances}
use swarm_communication.Cluster.Node.Tasks.Complete.{complete_task_once}
use swarm_communication.Cluster.Node.Tasks.Assign.{tasks-Advances}
use swarm_communication.Cluster.Node.Failure.{get_member}
use swarm_communication.Cluster.Node.Gossip.{take_record}
use swarm_communication.Cluster.Node.Gossip.RoundTrip.{take_record-member_record}
use swarm_communication.Cluster.Node.Members.{Peer, PeerEvent}
use swarm_communication.Cluster.Node.Probes.{Tuning, ProbeResult}
use swarm_communication.Cluster.Node.Probes.Silence.{silence, silence-leaves}
use swarm_communication.Cluster.Node.Loop.{Frame, Event, no_work, new_node, start, run}
use swarm_communication.Cluster.Node.Loop.Evaluated.{IsSound}
use swarm_communication.Cluster.Node.Loop.Sound.{IsFromOutside, AreFromOutside, run-start-IsSound}
use swarm_communication.Tests.Election.{exact}

-- A node in a swarm of which it knows two peers.
abbrev settings : NodeConfig
settings = record {
  self = 1;
  advertise = 11;
  ops = exact;
  message_id = λ k. k + 1;
  reaches = λ k to. true;
  mean = λ a b. a;
  encoded_size = λ p. some (100 + 2000 * length p.ledger);
  has_connect = true;
  heartbeat_misses = 2;
  suspect_after = 2;
  dead_after = 5;
  suspicion_timeout = 10;
  tombstone_ttl = 100;
  ledger_size = 2;
}

abbrev election : Config
election = record { threshold = Float64.finite (pos 1); hysteresis = Float64.finite (pos 1) }

abbrev untuned : Tuning
untuned = record { threshold = none; hysteresis = none }

abbrev rumour : MemberRecord
rumour = record {
  id = 1;
  advertise = 11;
  incarnation = pos 9;
  role = "worker";
  state = "dead";
  score = Float64.finite (pos 0);
  seq = 4;
}

abbrev peer : Peer
peer = record { id = 2; advertise = 12; incarnation = pos 3; known_peers = 13 ∷ [] }

-- A peer comes up and says that this node is dead; a probe of it fails, and it falls silent.
abbrev events : List Event
events =
    Event.peer_event 0 (PeerEvent.up peer)
    ∷ Event.frame 1 2 77 (Frame.decoded (Message.membership_delta (rumour ∷ []) 5))
    ∷ Event.probe_round 2 1 ((2, ProbeResult.failed) ∷ [])
    ∷ Event.control 3
    ∷ Event.frame 4 2 78 Frame.malformed
    ∷ []

run-start-IsSound_example :
    IsSound settings
      (pos 7)
      (run settings events (start settings untuned (pos 7) election (Float64.finite (pos 1))))
unfolding AreFromOutside IsFromOutside lookup
run-start-IsSound_example =
    run-start-IsSound settings untuned (pos 7) election (Float64.finite (pos 1)) events
      (λ e. omega arith) (tt, ((λ e. omega arith), (refl, (tt, ((λ e. omega arith), tt)))))

-- The same node as a leader with a ledger.
abbrev pending_task : ℕ → TaskRecord
pending_task id = record {
  task_id = id;
  assigned_to = 2;
  state = TaskState.pending;
  result = [];
  kind = 1;
  body = [];
}

abbrev board : Work
board = record no_work { ledger = pending_task 5 ∷ pending_task 6 ∷ [] }

abbrev chief : Node
chief = record (new_node settings (pos 7) election (Float64.finite (pos 1))) {
  leaders = 1 ∷ [];
  leader = 1;
  work = board;
}

abbrev success : TaskResult
success = record { task_id = 5; worker = 2; ok = true; output = [] }

abbrev late : TaskResult
late = record { task_id = 5; worker = 3; ok = false; output = 0 ∷ [] }

complete_task_once_example :
    complete_task settings chief late (complete_task settings chief success board)
    ≡ complete_task settings chief success board
complete_task_once_example = complete_task_once settings chief success late board refl

tasks-Advances_example :
    Advances board (handle_task_result settings 2 success chief).work
    × Advances board (handle_task_outcome settings chief 2 success board)
    × Advances board (reassign_from settings 2 chief).work
    × Advances board (reissue_if_due settings chief).work
tasks-Advances_example = tasks-Advances settings chief 2 2 success

ledger_append-kept_example :
    (kept : List TaskRecord) × ((ledger_append settings (pending_task 7) board).ledger
      ≡ kept ++ (cap_body (pending_task 7) ∷ []))
    × (length (ledger_append settings (pending_task 7) board).ledger ≤ 2)
    × ((2 ≤ length board.ledger) ⊎ (kept ≡ board.ledger))
    × ((has_done kept ≡ false) ⊎ (keep is_pending kept ≡ keep is_pending board.ledger))
ledger_append-kept_example = ledger_append-kept settings (pending_task 7) board (omega arith)

sync_payload-Fits_example :
    IsTrimmed settings
      (whole_snapshot settings chief (2 ∷ []) board)
      (sync_payload settings chief (2 ∷ []) board)
unfolding whole_snapshot
sync_payload-Fits_example = sync_payload-Fits settings chief (2 ∷ []) board (100, refl, omega arith)

-- And as a worker.
abbrev copy : ℕ → Snapshot
copy version = record {
  term = 4;
  leader = 2;
  workers = 1 ∷ [];
  ledger = pending_task version ∷ [];
  version = version;
}

abbrev follower : Node
follower = record (new_node settings (pos 7) election (Float64.finite (pos 1))) {
  table = record {
    members =
        (
          2,
          record {
            id = 2;
            addr = 12;
            role = leader;
            state = alive;
            incarnation = pos 3;
            score = Float64.finite (pos 0);
            seq = 1;
          },
        )
        ∷ [];
    version = 1;
  };
  leaders = 2 ∷ [];
  leader = 2;
}

handle_state_sync_comm_example :
    handle_state_sync settings 2 (copy 9) (handle_state_sync settings 2 (copy 8) follower)
    ≡ handle_state_sync settings 2 (copy 8) (handle_state_sync settings 2 (copy 9) follower)
handle_state_sync_comm_example = handle_state_sync_comm settings 2 (copy 8) (copy 9) follower refl

silence-leaves_example : (silence settings (20 ∷ 25 ∷ []) follower).leader ≢ 2
unfolding get_member lookup new_node
silence-leaves_example =
    silence-leaves settings (20 ∷ 25 ∷ []) follower
      (record {
        id = 2;
        addr = 12;
        role = leader;
        state = alive;
        incarnation = pos 3;
        score = Float64.finite (pos 0);
        seq = 1;
      })
      (λ e. omega arith) (λ e. omega arith) refl refl (omega arith) refl

-- A record from a node that it is not about, whose score has not been measured.
abbrev newcomer : Member
newcomer = record {
  id = 3;
  addr = 13;
  role = leader;
  state = alive;
  incarnation = pos 1;
  score = Float64.nan;
  seq = 4;
}

take_record-member_record_example :
    lookup 3
      (take_record settings 2
        (snapshot chief.table)
        (marshal_record (member_record newcomer))
        chief).1.table.members
    ≡ some (record newcomer { score = score_unavailable })
unfolding lookup new_node upsert new_table insert
take_record-member_record_example =
    take_record-member_record settings 2 (snapshot chief.table) newcomer chief
      (inr λ h. omega (arith, h)) (inl refl) (inl refl)
