-- ===== src/Lib.antt =====
-- A swarm of nodes elects leaders, keeps a membership table by gossip, and speaks to ground stations
-- over MAVLink. This library models the parts of the Go program that decide: what a node believes of
-- the others, who leads, which leader a worker joins, the two wire formats, and the missions that ground
-- stations upload and the swarm flies.
--
-- The files, and the code that each is about:
--   Health            backend/pkg/health/strategy.go: float64 scores, IsValidScore, Better.
--   Cluster.Member    backend/pkg/cluster/member.go: Role, State, Member, View and its methods.
--   Cluster.Table     backend/pkg/cluster/member.go: Table and its methods, which return the new
--                     table beside their result. Its children prove the merge of one record, the
--                     convergence of many, the rules of life and death, and the snapshot.
--   Cluster.Election  backend/pkg/cluster/election.go: LeaderCount, Elect, applyHysteresis.
--   Cluster.Affinity  backend/pkg/cluster/affinity.go: ChooseLeader, ShouldRehome.
--   Cluster.Partition backend/pkg/cluster/partition.go: Quorum, Degraded.
--   Cluster.Wire      backend/pkg/protocol/message.go: the payloads of the control plane, and what a
--                     score becomes on the wire.
--   Cluster.Node      backend/pkg/cluster/node.go: the state of a node's event loop. Its children are
--                     Ledger (replication.go), Tasks (tasks.go), Failure (failure.go, with markDead and
--                     pushRecord of node.go), Evaluate (evaluate, join and membershipChanged), Members
--                     (peer events, attachment), Gossip (deltas, refutation, gossipRound), Probes (heartbeat.go, the probe
--                     rounds, controlTick, tuning.go) and Loop (handleFrame and Run), each with its
--                     proofs below it.
--   Protocol.Framing  backend/pkg/protocol/framing.go: WriteEnvelope, ReadFrame.
--   Mavlink.Crc, Mavlink.Dialect, Mavlink.Frame
--                     backend/pkg/mavlink/frame.go and the Message interface of message.go: the
--                     checksum, Encode, decodeFrame, Sequencer; and Parser in Mavlink.Frame.Parser.
--   Mavlink.Vehicles  backend/pkg/mavlink/vehicles.go: the system IDs of the nodes, over the calls that
--                     take and give them back; the text of a node ID is a parameter.
--   Mavlink.Vector    backend/pkg/mavlink/project.go, the vector helpers of mover.go, and ClampPosition of
--                     backend/pkg/geo/geo.go.
--   Mavlink.Mover     backend/pkg/mavlink/mover.go: a vehicle's simulated motion.
--   Mavlink.Bridge    backend/pkg/mavlink/bridge.go and mission.go: the state of the bridge's loop. Its
--                     children are Answer (addresses and the download), Store (missionComplete to
--                     installMission, clear and jump), Transfer (the upload), Fly (releaseItems,
--                     collectArrivals, migrate), Assign (assignItems and runMissions), Command (the
--                     commands), Nodes (applyNodes and the ticks), Inbound (parameters and onDatagram)
--                     and Loop (loop), each with its proofs below it; Lifecycle, Flights and Sound have
--                     the relations and counts that the proofs share. MissionState, MissionResult and
--                     CommandResult are enumerations of the protocol.
--   Prelude           names, lists, maps, integers and sorting that these share.
--   Tests             concrete runs.
--
-- How they interact: the handlers of a node merge what they hear into the table, take a snapshot,
-- and call Elect and ChooseLeader on it with a map of scores; the framing carries the envelopes
-- that bring the records, and the MAVLink framing carries what ground stations are told.
--
-- A node's loop is a state machine. Cluster.Node.Loop.Event has a constructor for each case of Run's
-- select, handle is the case, step adds the flushSync that follows each, and run takes a list of
-- events, so that every order of events is a list. What a node gives to the world (envelopes, started
-- tasks, reported results, dials) is kept in the Work of its state, newest first.
--
-- The bridge's loop is one too: Mavlink.Bridge.Loop.Event has the cases of its select. A shared pointer to
-- a vehicle or a mission is the key under which the state has it, and a mission is put back before the
-- step that reads all of them. What the bridge gives to send is kept in its state, newest first.
--
-- Representation. Node IDs and addresses are numbers in the order of the strings, the empty string
-- 0. A map is an association list with one entry for each key. A float64 is a NaN, an infinity or a
-- whole multiple of 2 ^ -1074, so order and equality are exact; the rounding operations are
-- parameters. An int64 is an integer, with the ceiling of NextIncarnation written out; uint64
-- counters wrap. A byte is a number below 256. A mutex makes a method one step.
--
-- A NodeConfig also holds what a node is given from outside: the ID of each envelope and whether its Send
-- succeeds, by the number of those before it, the mean of two scores, whether Connect is set, and the
-- length of the JSON of a snapshot or its error. The time is an argument of the events that read it; a shuffle is an argument of its tick.
--
-- Parameters: the subtraction and the rounded product of float64 (Health.FloatOps), the JSON of an
-- envelope (Protocol.Framing.Codec), the rounding operations and functions of package math that movers
-- and projections use (Mavlink.Vector.FloatMath), the draws of their generators, the messages of the
-- generated dialect (Mavlink.Dialect), and how many bytes of a failing write go out. Their laws are
-- hypotheses: SubMono, IsJson, IsGenerated, ZeroLength. IsJson lets encoding/json rewrite an envelope.
--
-- Loops are recursions on lists. On fuel are the eviction of ledgerAppend and the trimming of syncPayload,
-- with the length of the ledger, since each round takes a record while there is one; a parser is drained
-- within as many calls as it holds bytes. A mover's randomUnit has the 16 tries of the source.
--
-- Not modelled: sockets, goroutines and the HTTP server; generated code and the layout of JSON; the logs
-- and the published Status of a node, the defaults of its configuration, and its shutdown; the executor
-- of tasks and the control commands; of the MAVLink bridge the learned ground stations, the live feed, the
-- published view of the missions and the contents of telemetry messages, which are reports by their
-- identifier; telemetry and the control centre, which print and serve what the other parts decide.
pub mod Prelude
pub mod Health
pub mod Cluster
pub mod Mavlink
pub mod Tests
pub mod Protocol
