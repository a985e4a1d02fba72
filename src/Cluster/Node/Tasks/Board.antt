-- ===== src/Cluster/Node/Tasks/Board.antt =====
-- The ledger as a board of tasks: what a client of a leader can tell of it is the state of each task ID.
use swarm_communication.Prelude.{
  ℕ, ◌≡◌, refl, sym, ◌∙◌, ap, subst, Bool, true, false, Option, none, some, List, [], ◌∷◌,
  Bool-cases, some_inj, inl, inr, if◌then◌else◌, ◌==◌, ==_iff,
}
use swarm_communication.Cluster.Wire.{TaskState, TaskRecord}
use swarm_communication.Cluster.Node.{Work}
use swarm_communication.Cluster.Node.Tasks.{find_task, update_task}

-- The state of a task on the board, none where the board does not know it.
unfoldable pub status : List TaskRecord → ℕ → Option TaskState
unfolding find_task
status l id = elim (find_task id l) [ none ↦ none | some r ↦ some r.state ]

-- What may become of it: a pending task ends once, as done or as failed.
pub data Becomes : Option TaskState → Option TaskState → Type 0 where
  stays : (s : Option TaskState) → Becomes s s
  ends :
      (ok : Bool)
      → Becomes (some TaskState.pending) (some (if ok then TaskState.done else TaskState.failed))

-- A move of the whole board.
abbrev pub Advances : Work → Work → Type 0
Advances w v = (id : ℕ) → Becomes (status w.ledger id) (status v.ledger id)

pub Becomes-trans : {a b c : Option TaskState} → Becomes a b → Becomes b c → Becomes a c
Becomes-trans (stays a) q = q
Becomes-trans (ends true) (stays b) = ends true
Becomes-trans (ends false) (stays b) = ends false

pub Advances-trans : (u v w : Work) → Advances u v → Advances v w → Advances u w
Advances-trans u v w p q id = Becomes-trans (p id) (q id)

pub same_board : (w v : Work) → v.ledger ≡ w.ledger → Advances w v
same_board w v e id = subst (λ l. Becomes (status w.ledger id) (status l id)) (sym e) (stays _)

pub Advances-if :
    (b : Bool) (w x y : Work) → Advances w x → Advances w y → Advances w (if b then x else y)
Advances-if true w x y p q = p
Advances-if false w x y p q = q

-- A write to a task's record.
module _ (id : ℕ) (f : TaskRecord → TaskRecord)
    (keeps_id : (r : TaskRecord) → (f r).task_id ≡ r.task_id) where
  pub find_task-update_same :
      (l : List TaskRecord) (r : TaskRecord)
      → find_task id l ≡ some r
      → find_task id (update_task id f l) ≡ some (f r)
  unfolding find_task update_task
  find_task-update_same [] r h = absurd (cc)
  find_task-update_same (x ∷ xs) r h = elim (Bool-cases (x.task_id == id)) [
    | inl e ↦
        let here : some x ≡ some r =
          subst (λ b. (if b then some x else find_task id xs) ≡ some r) e h in
        let e' : ((f x).task_id == id) ≡ true = ap (λ k. k == id) (keeps_id x) ∙ e in
        rw (e, find_task, e') (ap (λ (y : TaskRecord). some (f y)) (some_inj here))
    | inr e ↦
        let there : find_task id xs ≡ some r =
          subst (λ b. (if b then some x else find_task id xs) ≡ some r) e h in
        rw (e, find_task, e) (find_task-update_same xs r there)
  ]

  pub find_task-update_other :
      (j : ℕ) (l : List TaskRecord)
      → (id == j) ≡ false
      → find_task j (update_task id f l) ≡ find_task j l
  unfolding find_task update_task
  find_task-update_other j [] h = refl
  find_task-update_other j (x ∷ xs) h = elim (Bool-cases (x.task_id == id)) [
    | inl e ↦
        let g : (x.task_id == j) ≡ false = ap (λ k. k == j) ((==_iff x.task_id id).0 e) ∙ h in
        let g' : ((f x).task_id == j) ≡ false = ap (λ k. k == j) (keeps_id x) ∙ g in
        rw (e, find_task, g', g) refl
    | inr e ↦
        rw (e, find_task)
          (ap (λ (o : Option TaskRecord). if x.task_id == j then some x else o)
            (find_task-update_other j xs h))
  ]

  -- Where the record is found, the write moves the board at that ID as it moves the record.
  pub update_task-Advances :
      (l : List TaskRecord) (r : TaskRecord)
      → find_task id l ≡ some r
      → Becomes (some r.state) (some (f r).state)
      → (j : ℕ) → Becomes (status l j) (status (update_task id f l) j)
  unfolding status
  update_task-Advances l r found moves j = elim (Bool-cases (id == j)) [
    | inl e ↦
        let same = (==_iff id j).0 e in
        subst (λ k. Becomes (status l k) (status (update_task id f l) k)) same
          (rw (status, found, find_task-update_same l r found) moves)
    | inr e ↦ rw (status, find_task-update_other j l e) (stays _)
  ]
