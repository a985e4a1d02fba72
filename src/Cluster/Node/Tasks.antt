-- ===== src/Cluster/Node/Tasks.antt =====
-- backend/pkg/cluster/tasks.go: tasks from a leader to its workers and their results back. The
-- functions change the Work of a node and read the rest of it.
pub mod Board
pub mod Complete
pub mod Assign
use swarm_communication.Prelude.{
  ℕ, zero, suc, ◌+◌, ◌-◌, ◌%◌, Bool, true, false, not, ◌&&◌, ◌||◌, Option, none, some, List, [],
  ◌∷◌, length, get_elem?, contains, leb, ◌==◌, if◌then◌else◌,
}
use swarm_communication.Cluster.Member.{NodeId}
use swarm_communication.Cluster.Wire.{Message, Task, TaskResult, TaskState, TaskRecord}
use swarm_communication.Cluster.Node.{NodeConfig, Work, Node, is_leader, send, attached_ids}
use swarm_communication.Cluster.Node.Ledger.{
  is_pending, changed, ledger_append, truncate_utf8, max_record_result,
}

abbrev pub max_inflight_tasks : ℕ
max_inflight_tasks = 256

-- "busy: too many running tasks"
abbrev pub busy_output : List ℕ
busy_output =
    98 ∷ 117 ∷ 115 ∷ 121 ∷ 58 ∷ 32 ∷ 116 ∷ 111 ∷ 111 ∷ 32 ∷ 109 ∷ 97 ∷ 110 ∷ 121 ∷ 32 ∷ 114 ∷ 117
    ∷ 110 ∷ 110 ∷ 105 ∷ 110 ∷ 103 ∷ 32 ∷ 116 ∷ 97 ∷ 115 ∷ 107 ∷ 115 ∷ []

-- ledgerIndex, as the record that it finds.
unfoldable pub find_task : ℕ → List TaskRecord → Option TaskRecord
find_task id [] = none
find_task id (r ∷ rs) = if r.task_id == id then some r else find_task id rs

-- A write to `ledger[ledgerIndex(id)]`.
unfoldable pub update_task : ℕ → (TaskRecord → TaskRecord) → List TaskRecord → List TaskRecord
update_task id f [] = []
update_task id f (r ∷ rs) = if r.task_id == id then f r ∷ rs else r ∷ update_task id f rs

-- setAssignee
unfoldable pub assign_to : NodeId → TaskRecord → TaskRecord
assign_to worker r = record r { assigned_to = worker }

unfoldable pub set_assignee : ℕ → NodeId → Work → Work
unfolding find_task update_task changed assign_to
set_assignee id worker w = elim (find_task id w.ledger) [
  | none ↦ w
  | some r ↦
      if r.assigned_to == worker
      then w
      else changed (record w { ledger = update_task id (assign_to worker) w.ledger })
]

-- completeTask: the record of a task that has finished.
unfoldable pub finish : TaskResult → TaskRecord → TaskRecord
unfolding truncate_utf8
finish res r = record r {
  state = if res.ok then TaskState.done else TaskState.failed;
  result = truncate_utf8 res.output max_record_result;
  body = [];
  assigned_to = if res.worker == 0 then r.assigned_to else res.worker;
}

-- pendingTasks
abbrev pub as_task : TaskRecord → Task
as_task r = record { task_id = r.task_id; kind = r.kind; body = r.body }

unfoldable pub pending_tasks : (TaskRecord → Bool) → List TaskRecord → List Task
pending_tasks keep [] = []
pending_tasks keep (r ∷ rs) =
    if is_pending r && keep r && not (r.kind == 0)
    then as_task r ∷ pending_tasks keep rs
    else pending_tasks keep rs

abbrev pub all_tasks : TaskRecord → Bool
all_tasks r = true

-- tasksRoleChanged, and roleChanged of replication.go, which calls it.
unfoldable pub tasks_role_changed : Bool → Work → Work
unfolding pending_tasks
tasks_role_changed true w = record w { reissue_due = true; handoff = [] }
tasks_role_changed false w = record w {
  reissue_due = false;
  handoff = pending_tasks all_tasks w.ledger;
}

unfoldable pub role_changed : Bool → Work → Work
unfolding tasks_role_changed
role_changed leading w =
    tasks_role_changed leading
      (record w { sent_workers = []; held = false; dirty = if leading then true else w.dirty })

-- adoptOrphans
unfoldable pub adopt_orphans : Work → Work
unfolding pending_tasks
adopt_orphans w = if w.held then record w { handoff = pending_tasks all_tasks w.ledger } else w

module _ (cfg : NodeConfig) where
  -- sendTask
  unfoldable pub send_task : NodeId → Task → Work → Bool × Work
  send_task to t w = send cfg to (Message.task t) w

  unfoldable pub complete_task : Node → TaskResult → Work → Work
  unfolding is_leader find_task update_task finish changed
  complete_task n res w =
      if not (is_leader cfg n) then w else elim (find_task res.task_id w.ledger) [
        | none ↦ w
        | some r ↦
            if not (is_pending r)
            then w
            else (let w' =
                  changed (record w { ledger = update_task res.task_id (finish res) w.ledger }) in
                record w' { reported = res ∷ w'.reported })
      ]

  -- sendResult, with its fallback to the leader of now.
  unfoldable pub fall_back : Node → NodeId → TaskResult → Work → Work
  unfolding complete_task send
  fall_back n to res w =
      if n.leader == cfg.self
      then complete_task n res w
      else if not (n.leader == 0) && not (n.leader == to)
      then (send cfg n.leader (Message.task_result res) w).1
      else w

  unfoldable pub send_result : Node → NodeId → TaskResult → Work → Work
  unfolding fall_back send
  send_result n to res w =
      let (arrives, w') = send cfg to (Message.task_result res) w in
      if arrives then w' else fall_back n to res w'

  -- handleTaskOutcome; the origin is 0 where this node leads the task.
  unfoldable pub report : Node → NodeId → TaskResult → Work → Work
  unfolding complete_task send_result
  report n origin res w = if origin == 0 then complete_task n res w else send_result n origin res w

  unfoldable pub handle_task_outcome : Node → NodeId → TaskResult → Work → Work
  unfolding report
  handle_task_outcome n origin res w = report n origin res (record w { inflight = w.inflight - 1 })

  -- launch: a task past the limit fails at once, and is counted and uncounted on the way.
  unfoldable pub launch : Node → Task → NodeId → Work → Work
  unfolding handle_task_outcome
  launch n t origin w =
      if leb max_inflight_tasks w.inflight
      then handle_task_outcome n origin
          (record { task_id = t.task_id; worker = cfg.self; ok = false; output = busy_output })
          (record w { inflight = w.inflight + 1 })
      else record w { inflight = w.inflight + 1; started = (t, origin) ∷ w.started }

  -- The loop of assign: `k` workers of the list have refused, and `left` are to be asked.
  unfoldable pub assign_from : Node → List NodeId → ℕ → Task → ℕ → ℕ → Work → Work
  unfolding send_task set_assignee launch
  assign_from n workers start t k zero w = launch n t 0 (set_assignee t.task_id cfg.self w)
  assign_from n workers start t k (suc left) w =
      elim (get_elem? workers ((start + k) % length workers)) [
        | none ↦ w
        | some to ↦
            let (arrives, w') = send_task to t w in
            elim arrives [
              | true ↦
                  set_assignee t.task_id to (record w' { next = (start + k + 1) % length workers })
              | false ↦ assign_from n workers start t (k + 1) left w'
            ]
      ]

  unfoldable pub assign : Node → Task → Work → Work
  unfolding assign_from attached_ids
  assign n t w = let workers = attached_ids n in assign_from n workers w.next t 0 (length workers) w

  -- The loops of reassignFrom and reissueIfDue.
  unfoldable pub assign_all : Node → List Task → Work → Work
  unfolding assign
  assign_all n [] w = w
  assign_all n (t ∷ ts) w = assign_all n ts (assign n t w)

  -- leadTask: the ledger keeps the first task of an ID.
  abbrev pub pending_record : Task → TaskRecord
  pending_record t = record {
    task_id = t.task_id;
    assigned_to = 0;
    state = TaskState.pending;
    result = [];
    kind = t.kind;
    body = t.body;
  }

  unfoldable pub lead_task : Node → Task → Work → Work
  unfolding find_task ledger_append assign
  lead_task n t w = elim (find_task t.task_id w.ledger) [
    | some r ↦ w
    | none ↦ assign n t (ledger_append cfg (pending_record t) w)
  ]

  -- handleTask
  unfoldable pub handle_task : NodeId → Task → Node → Node
  unfolding is_leader launch lead_task
  handle_task from t n = if t.task_id == 0 then n else record n {
    work =
        if from == n.leader && not (is_leader cfg n)
        then launch n t from n.work
        else if is_leader cfg n && contains n.attached from
        then lead_task n t n.work
        else if contains n.leaders from
        then launch n t from n.work
        else if is_leader cfg n
        then lead_task n t n.work
        else n.work;
  }

  -- handleTaskResult
  unfoldable pub handle_task_result : NodeId → TaskResult → Node → Node
  unfolding complete_task
  handle_task_result from res n = record n {
    work =
        complete_task n (record res { worker = if res.worker == 0 then from else res.worker })
          n.work;
  }

  -- submit: what SubmitTask is told, with false for an error, and the node.
  unfoldable pub submit : Task → Node → Bool × Node
  unfolding is_leader lead_task send_task
  submit t n =
      if is_leader cfg n
      then (true, record n { work = lead_task n t n.work })
      else if n.leader == 0
      then (false, n)
      else (let (arrives, w) = send_task n.leader t n.work in (arrives, record n { work = w }))

  -- reassignFrom
  unfoldable pub reassign_from : NodeId → Node → Node
  unfolding is_leader assign_all pending_tasks
  reassign_from worker n =
      if is_leader cfg n
      then record n {
        work = assign_all n (pending_tasks (λ r. r.assigned_to == worker) n.work.ledger) n.work;
      }
      else n

  -- reissueIfDue
  unfoldable pub reissue_if_due : Node → Node
  unfolding assign_all pending_tasks
  reissue_if_due n =
      if n.work.reissue_due
      then record n {
        work =
            assign_all n (pending_tasks all_tasks n.work.ledger)
              (record (n.work) { reissue_due = false });
      }
      else n

  -- handOff; a failed Send is only logged.
  unfoldable pub send_tasks : NodeId → List Task → Work → Work
  unfolding send_task
  send_tasks to [] w = w
  send_tasks to (t ∷ ts) w = send_tasks to ts (send_task to t w).1

  unfoldable pub hand_off : Node → Node
  unfolding send_tasks
  hand_off n =
      if length n.work.handoff == 0 || n.leader == 0 || n.leader == cfg.self
      then n
      else record n { work = record (send_tasks n.leader n.work.handoff n.work) { handoff = [] } }
