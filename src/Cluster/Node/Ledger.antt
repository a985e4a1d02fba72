-- ===== src/Cluster/Node/Ledger.antt =====
-- backend/pkg/cluster/replication.go: a leader's ledger of tasks, and its copies.
pub mod Order
pub mod Bound
pub mod Trim
use swarm_communication.Prelude.{
  ℕ, zero, suc, ◌+◌, ◌-◌, ◌/◌, Bool, true, false, not, ◌&&◌, ◌||◌, Option, none, some, List, [],
  ◌∷◌, ◌++◌, length, take, drop, ltb, leb, ◌==◌, if◌then◌else◌,
}
use swarm_communication.Cluster.Member.{NodeId}
use swarm_communication.Cluster.Table.{u64}
use swarm_communication.Cluster.Wire.{Message, TaskState, TaskRecord, Snapshot}
use swarm_communication.Cluster.Node.{
  NodeConfig, Work, Node, is_leader, send, attached_ids, equal_ids,
}

abbrev pub is_pending : TaskRecord → Bool
is_pending r = elim (r.state) [ TaskState.pending ↦ true | _ ↦ false ]

abbrev pub max_record_body : ℕ
max_record_body = 1024

abbrev pub max_record_result : ℕ
max_record_result = 512

-- syncBudget: protocol.MaxFrameSize - 64<<10
abbrev pub sync_budget : ℕ
sync_budget = 983040

-- truncateUTF8: the greatest index up to `n` at which a rune starts, 0 where there is none.
abbrev pub is_rune_start : ℕ → Bool
is_rune_start b = ltb b 128 || leb 192 b

unfoldable pub byte_or_zero : List ℕ → ℕ → ℕ
byte_or_zero [] i = 0
byte_or_zero (b ∷ bs) zero = b
byte_or_zero (b ∷ bs) (suc i) = byte_or_zero bs i

unfoldable pub rune_cut : List ℕ → ℕ → ℕ
unfolding byte_or_zero
rune_cut s zero = 0
rune_cut s (suc n) = if is_rune_start (byte_or_zero s (suc n)) then suc n else rune_cut s n

unfoldable pub truncate_utf8 : List ℕ → ℕ → List ℕ
unfolding rune_cut
truncate_utf8 s n = if leb (length s) n then s else take (rune_cut s n) s

-- replica.changed
unfoldable pub changed : Work → Work
changed w = record w { sync_version = u64 (w.sync_version + 1); dirty = true }

-- The victim of one round of ledgerAppend's loop: the oldest record that is not pending, or the
-- oldest of all.
unfoldable pub drop_done : List TaskRecord → List TaskRecord
drop_done [] = []
drop_done (r ∷ rs) = if is_pending r then r ∷ drop_done rs else rs

unfoldable pub has_done : List TaskRecord → Bool
has_done [] = false
has_done (r ∷ rs) = if is_pending r then has_done rs else true

unfoldable pub evict_one : List TaskRecord → List TaskRecord
unfolding drop_done has_done
evict_one l = if has_done l then drop_done l else drop 1 l

-- The loop: each round takes one record, so the length of the ledger is fuel enough.
unfoldable pub evict : ℕ → ℕ → List TaskRecord → List TaskRecord
unfolding evict_one
evict zero size l = l
evict (suc fuel) size l = elim (ltb (length l) size) [
  | true ↦ l
  | false ↦ evict fuel size (evict_one l)
]

-- slices.Delete of a record whose body is too large to replicate keeps the record without it.
unfoldable pub cap_body : TaskRecord → TaskRecord
cap_body r = if ltb max_record_body (length r.body) then record r { body = [] } else r

unfoldable pub newer_snapshot : ℕ → ℕ → ℕ → ℕ → Bool
newer_snapshot term version held_term held_version =
    if not (term == held_term) then ltb held_term term else ltb held_version version

-- One round of syncPayload's trimming: the older half of the completed records, and where none is
-- left the older half of all, at least one.
unfoldable pub count_done : List TaskRecord → ℕ
count_done [] = 0
count_done (r ∷ rs) = if is_pending r then count_done rs else suc (count_done rs)

unfoldable pub drop_some : Bool → ℕ → List TaskRecord → List TaskRecord
drop_some any zero rs = rs
drop_some any (suc n) [] = []
drop_some any (suc n) (r ∷ rs) = elim (not (is_pending r) || any) [
  | true ↦ drop_some any n rs
  | false ↦ r ∷ drop_some any (suc n) rs
]

abbrev pub at_least_one : ℕ → ℕ
at_least_one n = if n == 0 then 1 else n

unfoldable pub trim_round : List TaskRecord → List TaskRecord
unfolding count_done drop_some
trim_round l =
    let done = count_done l in
    if done == 0
    then drop_some true (at_least_one (length l / 2)) l
    else drop_some false (at_least_one (done / 2)) l

-- A higher term is adopted from whoever shows it.
abbrev pub adopt_term : ℕ → Node → Node
adopt_term term n = record n { term = if ltb n.term term then term else n.term }

module _ (cfg : NodeConfig) where
  unfoldable pub ledger_append : TaskRecord → Work → Work
  unfolding evict cap_body changed
  ledger_append rec w = changed (record w {
    ledger = evict (length w.ledger) cfg.ledger_size w.ledger ++ (cap_body rec ∷ []);
  })

  -- The loop of syncPayload comes to its return: json.Marshal fails, or the encoding fits.
  unfoldable pub returns : Snapshot → Bool
  returns p = elim (cfg.encoded_size p) [ none ↦ true | some size ↦ leb size sync_budget ]

  -- The ledger that syncPayload encodes last, cut until the loop returns. A round drops a record as long as
  -- there is one, so the length of the ledger is fuel enough; with an empty ledger the source would
  -- go on for ever, and the model returns.
  unfoldable pub trim_ledger : ℕ → Snapshot → Snapshot
  unfolding trim_round returns
  trim_ledger zero p = p
  trim_ledger (suc fuel) p = elim (returns p) [
    | true ↦ p
    | false ↦ trim_ledger fuel (record p { ledger = trim_round p.ledger })
  ]

  -- What syncPayload returns of the snapshot that was encoded last; none is the error of json.Marshal.
  unfoldable pub encoded : Snapshot → Option Snapshot
  encoded p = elim (cfg.encoded_size p) [ none ↦ none | some size ↦ some p ]

  unfoldable pub sync_payload : Node → List NodeId → Work → Option Snapshot
  unfolding trim_ledger encoded
  sync_payload n workers w = encoded (
      trim_ledger (length w.ledger) (record {
        term = n.term;
        leader = cfg.self;
        workers = workers;
        ledger = w.ledger;
        version = w.sync_version;
      }))

  -- The loop of sendSync; a failed Send is only logged.
  unfoldable pub send_each : Message → List NodeId → Work → Work
  unfolding send
  send_each message [] w = w
  send_each message (to ∷ rest) w = send_each message rest (send cfg to message w).1

  unfoldable pub send_sync : Node → List NodeId → Work → Work
  unfolding send_each sync_payload
  send_sync n workers w = if length workers == 0 then w else elim (sync_payload n workers w) [
    | none ↦ w
    | some p ↦ send_each (Message.state_sync p) workers w
  ]

  -- flushSync, which runs after every event of the loop.
  unfoldable pub note_roster : List NodeId → Work → Work
  unfolding changed equal_ids
  note_roster workers w = if equal_ids workers w.sent_workers then w else changed w

  unfoldable pub note_term : ℕ → Work → Work
  note_term term w = if term == w.sent_term then w else record w { dirty = true }

  unfoldable pub flush_dirty : Node → List NodeId → Work → Work
  unfolding send_sync
  flush_dirty n workers w =
      if not w.dirty
      then w
      else send_sync n workers
          (record w { dirty = false; sent_workers = workers; sent_term = n.term })

  unfoldable pub flush_sync : Node → Node
  unfolding note_roster note_term flush_dirty attached_ids is_leader
  flush_sync n =
      if not (is_leader cfg n)
      then n
      else (let workers = attached_ids n in
          record n { work = flush_dirty n workers (note_term n.term (note_roster workers n.work)) })

  unfoldable pub periodic_sync : Node → Node
  unfolding send_sync attached_ids is_leader
  periodic_sync n =
      if is_leader cfg n then record n { work = send_sync n (attached_ids n) n.work } else n

  -- handleStateSync: the copy that a worker holds.
  unfoldable pub take_snapshot : Snapshot → Work → Work
  take_snapshot p w = record w {
    ledger = drop (length p.ledger - cfg.ledger_size) p.ledger;
    sync_version = p.version;
    held_term = p.term;
    held = true;
  }

  unfoldable pub is_foreign : NodeId → Snapshot → Node → Bool
  unfolding is_leader
  is_foreign from p n =
      is_leader cfg n || not (from == n.leader) || (not (p.leader == 0) && not (p.leader == from))

  unfoldable pub is_stale : Snapshot → Work → Bool
  unfolding newer_snapshot
  is_stale p w = w.held && not (newer_snapshot p.term p.version w.held_term w.sync_version)

  unfoldable pub handle_state_sync : NodeId → Snapshot → Node → Node
  unfolding take_snapshot is_foreign is_stale
  handle_state_sync from p n =
      if is_foreign from p n
      then n
      else if is_stale p n.work
      then adopt_term p.term n
      else record (adopt_term p.term n) { work = take_snapshot p n.work }
