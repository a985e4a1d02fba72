-- ===== src/Cluster/Node.antt =====
-- backend/pkg/cluster/node.go: the state of a node's event loop. Only the loop's goroutine touches it,
-- so a handler is a function from a state to the next, and what it gives to the world is kept in the
-- state: `sent` holds every envelope, newest first, `started` the tasks handed to a goroutine,
-- `reported` the calls of OnTaskResult, `dials` the calls of Connect. The logs are left out, and the
-- published Status, a copy that the loop does not read back.
pub mod Ledger
pub mod Tasks
pub mod Failure
pub mod Evaluate
pub mod Members
pub mod Gossip
pub mod Probes
pub mod Loop
use swarm_communication.Prelude.{
  ℕ, Bool, true, false, not, Option, none, some, List, [], ◌∷◌, length, contains, keep, ◌==◌,
  if◌then◌else◌,
}
use swarm_communication.Prelude.Int.{ℤ}
use swarm_communication.Prelude.Map.{Map}
use swarm_communication.Health.{Float64, FloatOps}
use swarm_communication.Cluster.Member.{NodeId, NodeAddress}
use swarm_communication.Cluster.Table.{Table}
use swarm_communication.Cluster.Election.{Config, sort_ids}
use swarm_communication.Cluster.Wire.{Message, Task, TaskRecord, TaskResult, Claim, Snapshot}

-- NodeConfig after withDefaults, with what the node is given from outside: the arithmetic of the
-- machine, the ID of each new envelope and whether its Send succeeds, by the number of envelopes
-- before it, and the length of a snapshot's encoding.
pub record NodeConfig : Type 0 where
  pub self : NodeId
  pub advertise : NodeAddress
  pub ops : FloatOps
  pub message_id : ℕ → ℕ
  pub reaches : ℕ → NodeId → Bool
  pub mean : Float64 → Float64 → Float64  -- (a + b) / 2
  pub encoded_size : Snapshot → Option ℕ  -- of its JSON, in bytes; none where json.Marshal fails
  pub has_connect : Bool  -- Connect is not nil
  pub heartbeat_misses : ℕ
  pub suspect_after : ℕ
  pub dead_after : ℕ
  pub suspicion_timeout : ℕ  -- time.Duration
  pub tombstone_ttl : ℕ
  pub ledger_size : ℕ

pub record Envelope : Type 0 where
  pub id : ℕ
  pub to : NodeId  -- 0 for a broadcast
  pub message : Message
  pub arrives : Bool

-- The fields that the replication of the ledger and the tasks change: replica (without the copy that
-- is published) and taskState, and the node's output.
pub record Work : Type 0 where
  pub ledger : List TaskRecord
  pub sync_version : ℕ
  pub dirty : Bool
  pub sent_workers : List NodeId
  pub sent_term : ℕ
  pub held : Bool
  pub held_term : ℕ
  pub inflight : ℕ
  pub next : ℕ
  pub reissue_due : Bool
  pub handoff : List Task
  pub sent : List Envelope
  pub started : List (Task × NodeId)
  pub reported : List TaskResult
  pub dials : List NodeAddress

pub record Suspicion : Type 0 where
  pub since : ℕ
  pub incarnation : ℤ
  pub round : ℕ
  pub silent : Bool

pub record Tombstone : Type 0 where
  pub since : ℕ
  pub incarnation : ℤ

pub record Node : Type 0 where
  pub table : Table
  pub incarnation : ℤ
  pub term : ℕ
  pub leaders : List NodeId
  pub leader : NodeId  -- 0 for none
  pub hint : NodeId
  pub join_id : ℕ
  pub rejections : ℕ
  pub attached : List NodeId  -- a set
  pub local : Map Float64
  pub reported_scores : Map Float64
  pub dialed : List NodeAddress  -- a set
  pub missed : Map ℕ
  pub claims : Map Claim
  pub high_water : ℕ
  pub degraded : Bool
  pub election : Config
  pub rehome : Float64
  pub gossip_order : List NodeId
  pub gossip_next : ℕ
  pub gossip_set : List NodeId
  pub gossip_version : ℕ
  pub suspects : Map Suspicion
  pub probe_seq : ℕ
  pub probing : Bool
  pub tombstones : Map Tombstone
  pub tomb_version : ℕ
  pub beat_seq : Map ℕ
  pub since_beat : ℕ
  pub work : Work

-- A set of IDs or addresses.
abbrev pub add_id : ℕ → List ℕ → List ℕ
add_id id set = if contains set id then set else id ∷ set

abbrev pub remove_id : ℕ → List ℕ → List ℕ
remove_id id set = keep (λ x. not (x == id)) set

-- equalIDs
unfoldable pub equal_ids : List NodeId → List NodeId → Bool
equal_ids [] [] = true
equal_ids [] (y ∷ ys) = false
equal_ids (x ∷ xs) [] = false
equal_ids (x ∷ xs) (y ∷ ys) = if x == y then equal_ids xs ys else false

-- attachedIDs
unfoldable pub attached_ids : Node → List NodeId
attached_ids n = sort_ids n.attached

module _ (cfg : NodeConfig) where
  -- isLeader
  unfoldable pub is_leader : Node → Bool
  is_leader n = contains n.leaders cfg.self

  -- Transport.Send of an envelope with that ID: whether it arrives, and what was sent by then.
  unfoldable pub send_as : ℕ → NodeId → Message → Work → Bool × Work
  send_as id to message w =
      let arrives = cfg.reaches (length w.sent) to in
      let envelope : Envelope = record { id = id; to = to; message = message; arrives = arrives } in
      (arrives, record w { sent = envelope ∷ w.sent })

  -- NewEnvelope and Send; NewReply, which takes the ID of the request, is a call of send_as.
  unfoldable pub send : NodeId → Message → Work → Bool × Work
  unfolding send_as
  send to message w = send_as (cfg.message_id (length w.sent)) to message w

  -- Broadcast, whose count of receivers is only logged.
  unfoldable pub broadcast : Message → Work → Work
  unfolding send
  broadcast message w = (send 0 message w).1
