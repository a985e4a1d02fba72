-- ===== src/Cluster/Node/Evaluate.antt =====
-- backend/pkg/cluster/node.go: evaluate, which holds an election on the view and follows its result,
-- and join; and the settings that tuning.go changes.
use swarm_communication.Prelude.{
  ℕ, ◌+◌, Bool, true, false, not, ◌&&◌, ◌||◌, Option, none, some, List, [], ◌∷◌, length, keep,
  contains, ltb, ◌==◌, if◌then◌else◌,
}
use swarm_communication.Prelude.Int.{pos}
use swarm_communication.Prelude.Map.{Map, lookup}
use swarm_communication.Health.{Float64, zero_f, is_valid_score}
use swarm_communication.Cluster.Member.{
  NodeId, View, Role, worker, leader, dead, eq_role, eq_state, view_get, view_scores, view_size,
}
use swarm_communication.Cluster.Table.{set_role, snapshot, u64}
use swarm_communication.Cluster.Partition.{degraded}
use swarm_communication.Cluster.Election.{Result, elect}
use swarm_communication.Cluster.Affinity.{choose_leader, should_rehome}
use swarm_communication.Cluster.Wire.{Message}
use swarm_communication.Cluster.Node.{NodeConfig, Node, is_leader, send, broadcast, equal_ids}
use swarm_communication.Cluster.Node.Tasks.{adopt_orphans, role_changed}
use swarm_communication.Cluster.Node.Failure.{announce_self, usable_leaders, is_doubted}

abbrev pub max_rejections_per_round : ℕ
max_rejections_per_round = 3

-- `n.local[id]`: a missing entry reads 0.
unfoldable pub local_score : NodeId → Node → Float64
local_score id n = elim (lookup id n.local) [ none ↦ zero_f | some s ↦ s ]

-- A worker stays attached while it is known, not dead, and no leader.
unfoldable pub stays_attached : View → NodeId → Bool
stays_attached view id = elim (view_get view id) [
  | none ↦ false
  | some m ↦ not (eq_state m.state dead) && not (eq_role m.role leader)
]

unfoldable pub is_gone : View → NodeId → Bool
is_gone view id = elim (view_get view id) [ none ↦ true | some m ↦ eq_state m.state dead ]

-- The part of evaluate that a leader runs.
unfoldable pub lead : NodeId → View → Node → Node
unfolding stays_attached
lead self view n = record n {
  leader = self;
  hint = 0;
  attached = keep (stays_attached view) n.attached;
}

-- The part that a worker runs: it leaves a leader that it cannot use, and picks one.
unfoldable pub detach : View → List NodeId → Node → Node
unfolding is_gone is_doubted adopt_orphans
detach view usable n = if n.leader == 0 || contains usable n.leader then n else record n {
  leader = 0;
  work = if is_doubted n.leader n || is_gone view n.leader then adopt_orphans n.work else n.work;
}

unfoldable pub pick : List NodeId → Node → Option NodeId
pick usable n =
    if ltb max_rejections_per_round n.rejections
    then none
    else if not (n.hint == 0) && contains usable n.hint
    then some n.hint
    else elim (choose_leader n.local usable) [ none ↦ none | some (best, s) ↦ some best ]

unfoldable pub count_view : View → Node → Node
count_view view n =
    let size = view_size view in
    let high = if ltb n.high_water size then size else n.high_water in
    record n { high_water = high; degraded = degraded (pos size) (pos high) }

module _ (cfg : NodeConfig) where
  -- join: an envelope that cannot be encoded changes nothing, and a Send that fails detaches.
  unfoldable pub join : NodeId → Node → Node
  unfolding local_score send
  join to n =
      let score = local_score to n in
      if not (is_valid_score score)
      then n
      else (let (arrives, w) = send cfg to (Message.join_cluster cfg.self score) n.work in
          if arrives
          then record n {
            leader = to;
            join_id = cfg.message_id (length n.work.sent);
            since_beat = 0;
            work = w;
          }
          else record n { leader = 0; join_id = 0; work = w })

  -- SetRole on this node's own record, and its announcement.
  unfoldable pub claim_role : Role → Node → Node
  unfolding announce_self
  claim_role r n =
      let (t, changed) = set_role n.table cfg.self r in
      let n' : Node = record n { table = t } in if changed then announce_self cfg n' else n'

  unfoldable pub note_leaders : Result → Node → Node
  unfolding equal_ids broadcast
  note_leaders res n =
      if equal_ids res.leaders n.leaders
      then n
      else (let term' = u64 (n.term + 1) in
          record n {
            leaders = res.leaders;
            term = term';
            work =
                broadcast cfg
                  (Message.election_result
                    (record { term = term'; leaders = res.leaders; cluster_size = res.size }))
                  n.work;
          })

  unfoldable pub follow_pick : List NodeId → Option NodeId → Node → Node
  unfolding join
  follow_pick usable none n = n
  follow_pick usable (some best) n =
      if should_rehome cfg.ops n.leader best n.local usable n.rehome then join best n else n

  unfoldable pub follow : View → List NodeId → Node → Node
  unfolding detach usable_leaders pick follow_pick
  follow view leaders n =
      let usable = usable_leaders n leaders in
      let n' = detach view usable (record n { attached = [] }) in
      follow_pick usable (pick usable n') (record n' { hint = 0 })

  -- The function that evaluate defers.
  unfoldable pub settle_role : Bool → Node → Node
  unfolding is_leader role_changed
  settle_role was n =
      let now = is_leader cfg n in
      elim was [
        | true ↦ if now then n else record n { work = role_changed now n.work }
        | false ↦ if now then record n { work = role_changed now n.work } else n
      ]

  unfoldable pub take_role : View → Result → Node → Node
  unfolding lead follow
  take_role view res n =
      if contains res.leaders cfg.self then lead cfg.self view n else follow view res.leaders n

  unfoldable pub hold_election : Node → Result
  hold_election n = let view = snapshot n.table in elect cfg.ops view (view_scores view) n.election

  abbrev pub own_role : Result → Role
  own_role res = if contains res.leaders cfg.self then leader else worker

  unfoldable pub evaluate : Node → Node
  unfolding claim_role note_leaders take_role count_view settle_role hold_election
  evaluate n =
      let view = snapshot n.table in
      let res = hold_election n in
      settle_role (is_leader cfg n) (
        count_view view (
          take_role view res (
            note_leaders res
              (claim_role (own_role res) (record n { reported_scores = view_scores view })))))

  -- pruneLocal, with what membershipChanged does before it evaluates; the health strategy's own
  -- cache is not in this package.
  unfoldable pub prune : View → Map Float64 → Map Float64
  unfolding is_gone
  prune view [] = []
  prune view ((id, s) ∷ rest) =
      if is_gone view id && not (id == cfg.self) then prune view rest else (id, s) ∷ prune view rest

  unfoldable pub prune_missed : View → Map ℕ → Map ℕ
  unfolding is_gone
  prune_missed view [] = []
  prune_missed view ((id, k) ∷ rest) =
      if is_gone view id then prune_missed view rest else (id, k) ∷ prune_missed view rest

  unfoldable pub retain_live : Node → Node
  unfolding prune prune_missed
  retain_live n =
      let view = snapshot n.table in
      record n { local = prune view n.local; missed = prune_missed view n.missed }

  unfoldable pub membership_changed : Node → Node
  membership_changed n = evaluate (retain_live n)

  -- After a handler that says whether the table changed.
  abbrev pub evaluate_if : Bool × Node → Node
  evaluate_if (changed, n) = if changed then membership_changed n else n
