-- ===== src/Cluster/Node/Tasks/Assign.antt =====
-- The tasks that backend/pkg/cluster/tasks.go gives out, at first and again.
use swarm_communication.Prelude.{
  ℕ, zero, suc, ◌+◌, ◌%◌, refl, false, not, List, [], ◌∷◌, Bool-cases, Option-cases, inl, inr,
  if◌then◌else◌, ◌==◌, length, get_elem?, leb, ◌-◌, ◌&&◌,
}
use swarm_communication.Cluster.Member.{NodeId}
use swarm_communication.Cluster.Wire.{Message, Task, TaskResult}
use swarm_communication.Cluster.Node.{
  NodeConfig, Node, Work, is_leader, send_as, send, attached_ids,
}
use swarm_communication.Cluster.Node.Ledger.{changed}
use swarm_communication.Cluster.Node.Tasks.{
  find_task, assign_to, set_assignee, complete_task, fall_back, send_result, report,
  handle_task_outcome, launch, assign_from, assign, assign_all, send_task, max_inflight_tasks,
  busy_output, reissue_if_due, reassign_from, pending_tasks, all_tasks, handle_task_result,
}
use swarm_communication.Cluster.Node.Tasks.Board.{
  stays, Advances, Advances-trans, same_board, Advances-if, update_task-Advances,
}
use swarm_communication.Cluster.Node.Tasks.Complete.{complete_task-Advances}

module _ (cfg : NodeConfig) (n : Node) where
  set_assignee-Advances : (id : ℕ) (to : NodeId) (w : Work) → Advances w (set_assignee id to w)
  unfolding set_assignee assign_to changed
  set_assignee-Advances id to w j = elim (Option-cases (find_task id w.ledger)) [
    | inl e ↦ rw (e, set_assignee) (stays _)
    | inr (r, e) ↦ elim (Bool-cases (r.assigned_to == to)) [
      | inl g ↦ rw (e, g, set_assignee) (stays _)
      | inr g ↦
          rw (e, g, set_assignee)
            (update_task-Advances id (assign_to to) (λ r. refl) w.ledger r e (stays _) j)
    ]
  ]

  fall_back-Advances :
      (to : NodeId) (res : TaskResult) (w : Work) → Advances w (fall_back cfg n to res w)
  unfolding fall_back
  fall_back-Advances to res w = elim (Bool-cases (n.leader == cfg.self)) [
    | inl e ↦ rw (e, fall_back) (complete_task-Advances cfg n res w)
    | inr e ↦ elim (Bool-cases (not (n.leader == 0) && not (n.leader == to))) [
      | inl f ↦ rw (e, f, fall_back) (λ id. stays _)
      | inr f ↦ rw (e, f, fall_back) (λ id. stays _)
    ]
  ]

  send_result-Advances :
      (to : NodeId) (res : TaskResult) (w : Work) → Advances w (send_result cfg n to res w)
  unfolding send_result send send_as
  send_result-Advances to res w =
      let w' = (send cfg to (Message.task_result res) w).1 in
      Advances-if (cfg.reaches (length w.sent) to) w w' (fall_back cfg n to res w')
        (same_board w w' refl)
        (Advances-trans w w' (fall_back cfg n to res w') (same_board w w' refl)
          (fall_back-Advances to res w'))

  handle_task_outcome-Advances :
      (origin : NodeId) (res : TaskResult) (w : Work)
      → Advances w (handle_task_outcome cfg n origin res w)
  unfolding handle_task_outcome report
  handle_task_outcome-Advances origin res w =
      let w' : Work = record w { inflight = w.inflight - 1 } in
      elim (Bool-cases (origin == 0)) [
        | inl e ↦
            rw (e, handle_task_outcome, report)
              (Advances-trans w w' (complete_task cfg n res w') (same_board w w' refl)
                (complete_task-Advances cfg n res w'))
        | inr e ↦
            rw (e, handle_task_outcome, report)
              (Advances-trans w w' (send_result cfg n origin res w') (same_board w w' refl)
                (send_result-Advances origin res w'))
      ]

  launch-Advances : (t : Task) (origin : NodeId) (w : Work) → Advances w (launch cfg n t origin w)
  unfolding launch
  launch-Advances t origin w = elim (Bool-cases (leb max_inflight_tasks w.inflight)) [
    | inr e ↦ rw (e, launch) (λ id. stays _)
    | inl e ↦
        let w' : Work = record w { inflight = w.inflight + 1 } in
        let busy : TaskResult = record {
          task_id = t.task_id;
          worker = cfg.self;
          ok = false;
          output = busy_output;
        } in
        rw (e, launch)
          (Advances-trans w w' (handle_task_outcome cfg n origin busy w') (same_board w w' refl)
            (handle_task_outcome-Advances origin busy w'))
  ]

  send_task-same : (to : NodeId) (t : Task) (w : Work) → Advances w (send_task cfg to t w).1
  unfolding send_task send send_as
  send_task-same to t w = same_board w (send_task cfg to t w).1 refl

  assign_from-Advances :
      (workers : List NodeId) (start : ℕ) (t : Task) (k left : ℕ) (w : Work)
      → Advances w (assign_from cfg n workers start t k left w)
  unfolding assign_from
  assign_from-Advances workers start t k zero w =
      let w' = set_assignee t.task_id cfg.self w in
      Advances-trans w w' (launch cfg n t 0 w') (set_assignee-Advances t.task_id cfg.self w)
        (launch-Advances t 0 w')
  assign_from-Advances workers start t k (suc left) w =
      elim (Option-cases (get_elem? workers ((start + k) % length workers))) [
        | inl e ↦ rw (e, assign_from) (same_board w w refl)
        | inr (to, e) ↦
            let w' = (send_task cfg to t w).1 in
            let v : Work = record w' { next = (start + k + 1) % length workers } in
            let x = set_assignee t.task_id to v in
            let y = assign_from cfg n workers start t (k + 1) left w' in
            elim (Bool-cases (send_task cfg to t w).0) [
              | inl a ↦
                  rw (e, assign_from, a)
                    (Advances-trans w v x (send_task-same to t w)
                      (set_assignee-Advances t.task_id to v))
              | inr a ↦
                  rw (e, assign_from, a)
                    (Advances-trans w w' y (send_task-same to t w)
                      (assign_from-Advances workers start t (k + 1) left w'))
            ]
      ]

  -- Giving out tasks, by the rotation among workers or to the node itself, never loses a task, nor opens
  -- a finished one, nor adds one: a pending task stays pending or ends.
  pub assign_all-Advances : (ts : List Task) (w : Work) → Advances w (assign_all cfg n ts w)
  unfolding assign_all assign
  assign_all-Advances [] w = same_board w w refl
  assign_all-Advances (t ∷ ts) w =
      let w' = assign cfg n t w in
      Advances-trans w w' (assign_all cfg n ts w')
        (assign_from-Advances (attached_ids n) w.next t 0 (length (attached_ids n)) w)
        (assign_all-Advances ts w')

  reassign_from-Advances : (worker : NodeId) → Advances n.work (reassign_from cfg worker n).work
  unfolding reassign_from
  reassign_from-Advances worker = elim (Bool-cases (is_leader cfg n)) [
    | inl e ↦
        rw (e, reassign_from)
          (assign_all-Advances (pending_tasks (λ r. r.assigned_to == worker) n.work.ledger) n.work)
    | inr e ↦ rw (e, reassign_from) (λ id. stays _)
  ]

  reissue_if_due-Advances : Advances n.work (reissue_if_due cfg n).work
  unfolding reissue_if_due
  reissue_if_due-Advances = elim (Bool-cases n.work.reissue_due) [
    | inl e ↦
        let w : Work = record (n.work) { reissue_due = false } in
        let v = assign_all cfg n (pending_tasks all_tasks n.work.ledger) w in
        rw (e, reissue_if_due)
          (Advances-trans n.work w v (same_board n.work w refl)
            (assign_all-Advances (pending_tasks all_tasks n.work.ledger) w))
    | inr e ↦ rw (e, reissue_if_due) (λ id. stays _)
  ]

  -- Seen as a board of states by task ID, every way in which a result comes in (from a peer, or from this
  -- node's own work) and every way in which tasks are given out again (after a worker is lost, or after a
  -- promotion) is a move of the board: each task stays as it was, or was pending and ends as done or failed.
  -- None is lost, added or opened again.
  pub tasks-Advances :
      (from worker : NodeId) (res : TaskResult)
      → Advances n.work (handle_task_result cfg from res n).work
        × Advances n.work (handle_task_outcome cfg n from res n.work)
        × Advances n.work (reassign_from cfg worker n).work
        × Advances n.work (reissue_if_due cfg n).work
  unfolding handle_task_result
  tasks-Advances from worker res = (
    complete_task-Advances cfg n
        (record res { worker = if res.worker == 0 then from else res.worker }) n.work,
    handle_task_outcome-Advances from res n.work,
    reassign_from-Advances worker,
    reissue_if_due-Advances,
  )
