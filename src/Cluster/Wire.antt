-- ===== src/Cluster/Wire.antt =====
-- backend/pkg/protocol/message.go: the payloads that nodes exchange. A task ID, a kind and the ID of a
-- message are numbers, the empty string 0; a body and an output are lists of bytes.
use Prim.Native.String.{String}
use swarm_communication.Prelude.{ℕ, ◌-◌, ◌^◌, Bool, not, ◌||◌, ◌&&◌, List, if◌then◌else◌}
use swarm_communication.Prelude.Int.{ℤ, negsuc}
use swarm_communication.Health.{Float64, zero_f, ltb_f, is_valid_score, score_unavailable}
use swarm_communication.Cluster.Member.{NodeId, NodeAddress, Member, role_string, state_string}

pub record MemberRecord : Type 0 where
  pub id : NodeId
  pub advertise : NodeAddress
  pub incarnation : ℤ
  pub role : String
  pub state : String
  pub score : Float64
  pub seq : ℕ

-- UnmeasuredScore, which is -1.0: in units of 2 ^ -1074, with the sign on the constructor.
unfoldable pub unmeasured_score : Float64
unmeasured_score = Float64.finite (negsuc (2 ^ 1074 - 1))

-- MemberRecord.MarshalJSON: what JSON cannot carry, and what no measurement gives, is -1.
unfoldable pub marshal_record : MemberRecord → MemberRecord
marshal_record r =
    if not (is_valid_score r.score) || ltb_f r.score zero_f
    then record r { score = unmeasured_score }
    else r

-- MemberRecord.Measured
unfoldable pub is_measured : MemberRecord → Bool
is_measured r = is_valid_score r.score && not (ltb_f r.score zero_f)

-- memberRecord, of backend/pkg/cluster/node.go.
unfoldable pub member_record : Member → MemberRecord
member_record m = record {
  id = m.id;
  advertise = m.addr;
  incarnation = m.incarnation;
  role = role_string m.role;
  state = state_string m.state;
  score = m.score;
  seq = m.seq;
}

-- A score as handleMembershipDelta reads it.
unfoldable pub record_score : MemberRecord → Float64
record_score r = if is_measured r then r.score else score_unavailable

pub record Task : Type 0 where
  pub task_id : ℕ
  pub kind : ℕ
  pub body : List ℕ

pub record TaskResult : Type 0 where
  pub task_id : ℕ
  pub worker : NodeId
  pub ok : Bool
  pub output : List ℕ

-- A record's State: "pending", "done", "failed".
pub data TaskState : Type 0 where
  pending done failed : TaskState

pub record TaskRecord : Type 0 where
  pub task_id : ℕ
  pub assigned_to : NodeId
  pub state : TaskState
  pub result : List ℕ
  pub kind : ℕ
  pub body : List ℕ

-- StateSyncPayload
pub record Snapshot : Type 0 where
  pub term : ℕ
  pub leader : NodeId
  pub workers : List NodeId
  pub ledger : List TaskRecord
  pub version : ℕ

-- HeartbeatPayload, whose LeaderID is the sender, and HeartbeatAckPayload.
pub record Heartbeat : Type 0 where
  pub seq : ℕ
  pub term : ℕ
  pub cluster_size : ℕ

pub record HeartbeatAck : Type 0 where
  pub seq : ℕ
  pub term : ℕ
  pub observed_leader : NodeId

-- JoinAckPayload, less its text.
pub record JoinAck : Type 0 where
  pub accepted : Bool
  pub leader : NodeId

-- ElectionResultPayload
pub record Claim : Type 0 where
  pub term : ℕ
  pub leaders : List NodeId
  pub cluster_size : ℕ

-- The payloads by the type of their message.
pub data Message : Type 0 where
  membership_delta : List MemberRecord → ℕ → Message
  election_result : Claim → Message
  join_cluster : NodeId → Float64 → Message
  join_ack : JoinAck → Message
  leave : Message
  heartbeat : Heartbeat → Message
  heartbeat_ack : HeartbeatAck → Message
  state_sync : Snapshot → Message
  task : Task → Message
  task_result : TaskResult → Message
