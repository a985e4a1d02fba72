-- ===== src/Cluster/Node/Tasks/Complete.antt =====
-- completeTask of backend/pkg/cluster/tasks.go: a result, and any other for the same task.
use swarm_communication.Prelude.{
  ◌≡◌, refl, sym, ◌∙◌, ap, subst, Bool, true, false, none, some, Bool-cases, Option-cases, inl, inr,
}
use swarm_communication.Cluster.Wire.{TaskResult, TaskState, TaskRecord}
use swarm_communication.Cluster.Node.{NodeConfig, Node, Work, is_leader}
use swarm_communication.Cluster.Node.Ledger.{is_pending, changed}
use swarm_communication.Cluster.Node.Tasks.{find_task, update_task, finish, complete_task}
use swarm_communication.Cluster.Node.Tasks.Board.{
  Becomes, stays, ends, Advances, find_task-update_same, update_task-Advances,
}

is_pending-state : (r : TaskRecord) → is_pending r ≡ true → r.state ≡ TaskState.pending
is_pending-state r h = of_state r.state h
  where
    of_state :
        (s : TaskState)
        → elim s as (λ x. Bool) [ TaskState.pending ↦ true | _ ↦ false ] ≡ true
        → s ≡ TaskState.pending
    of_state TaskState.pending h = refl
    of_state TaskState.done h = cc
    of_state TaskState.failed h = cc

module _ (cfg : NodeConfig) (n : Node) where
  pub complete_task-Advances :
      (res : TaskResult) (w : Work) → Advances w (complete_task cfg n res w)
  unfolding complete_task finish changed
  complete_task-Advances res w id = elim (Bool-cases (is_leader cfg n)) [
    | inr l ↦ rw (l, complete_task) (stays _)
    | inl l ↦ elim (Option-cases (find_task res.task_id w.ledger)) [
      | inl e ↦ rw (l, e, complete_task) (stays _)
      | inr (r, e) ↦ elim (Bool-cases (is_pending r)) [
        | inr p ↦ rw (l, e, p, complete_task) (stays _)
        | inl p ↦
            rw (l, e, p, complete_task)
              (update_task-Advances res.task_id (finish res) (λ r. refl) w.ledger r e
                (subst (λ s. Becomes (some s) (some (finish res r).state))
                  (sym (is_pending-state r p)) (ends res.ok))
                id)
      ]
    ]
  ]

  -- A result that changes nothing: nobody leads, or the task is not known, or is no longer pending.
  complete_task-follower :
      (res : TaskResult) (w : Work) → is_leader cfg n ≡ false → complete_task cfg n res w ≡ w
  unfolding complete_task
  complete_task-follower res w l = rw (l, complete_task) refl

  complete_task-unknown :
      (res : TaskResult) (w : Work)
      → find_task res.task_id w.ledger ≡ none
      → complete_task cfg n res w ≡ w
  unfolding complete_task
  complete_task-unknown res w e = elim (Bool-cases (is_leader cfg n)) [
    | inr l ↦ rw (l, complete_task) refl
    | inl l ↦ rw (l, e, complete_task) refl
  ]

  complete_task-finished :
      (res : TaskResult) (w : Work) (r : TaskRecord)
      → find_task res.task_id w.ledger ≡ some r
      → is_pending r ≡ false
      → complete_task cfg n res w ≡ w
  unfolding complete_task
  complete_task-finished res w r e p = elim (Bool-cases (is_leader cfg n)) [
    | inr l ↦ rw (l, complete_task) refl
    | inl l ↦ rw (l, e, p, complete_task) refl
  ]

  finish-ends : (res : TaskResult) (r : TaskRecord) → is_pending (finish res r) ≡ false
  unfolding finish
  finish-ends res r = elim (Bool-cases res.ok) [ inl e ↦ rw e refl | inr e ↦ rw e refl ]

  completed-ledger :
      (res : TaskResult) (w : Work) (r : TaskRecord)
      → is_leader cfg n ≡ true
      → find_task res.task_id w.ledger ≡ some r
      → is_pending r ≡ true
      → (complete_task cfg n res w).ledger ≡ update_task res.task_id (finish res) w.ledger
  unfolding complete_task changed
  completed-ledger res w r l e p = rw (l, e, p, complete_task) refl

  -- Once a result for a task has been taken, any other result for it changes nothing: the first one
  -- stands, and OnTaskResult is not called again.
  pub complete_task_once :
      (res again : TaskResult) (w : Work)
      → again.task_id ≡ res.task_id
      → complete_task cfg n again (complete_task cfg n res w) ≡ complete_task cfg n res w
  unfolding finish
  complete_task_once res again w same = elim (Bool-cases (is_leader cfg n)) [
    | inr l ↦ complete_task-follower again (complete_task cfg n res w) l
    | inl l ↦ elim (Option-cases (find_task res.task_id w.ledger)) [
      | inl e ↦
          rw (complete_task-unknown res w e)
            (complete_task-unknown again w (ap (λ id. find_task id w.ledger) same ∙ e))
      | inr (r, e) ↦ elim (Bool-cases (is_pending r)) [
        | inr p ↦
            rw (complete_task-finished res w r e p)
              (complete_task-finished again w r (ap (λ id. find_task id w.ledger) same ∙ e) p)
        | inl p ↦
            let v = complete_task cfg n res w in
            let found : find_task again.task_id v.ledger ≡ some (finish res r) =
              ap (λ id. find_task id v.ledger) same
              ∙ ap (find_task res.task_id) (completed-ledger res w r l e p)
              ∙ find_task-update_same res.task_id (finish res) (λ r. refl) w.ledger r e in
            complete_task-finished again v (finish res r) found (finish-ends res r)
      ]
    ]
  ]
