-- ===== src/Cluster/Node/Probes.antt =====
-- backend/pkg/cluster/heartbeat.go, the probe rounds of node.go, the tick of failure.go, and tuning.go.
pub mod Silence
use swarm_communication.Prelude.{
  ℕ, ◌+◌, ◌-◌, ◌/◌, ◌%◌, Bool, true, false, not, ◌&&◌, ◌||◌, Option, none, some, List, [], ◌∷◌,
  length, get_elem?, keep, contains, ltb, ◌==◌, if◌then◌else◌,
}
use swarm_communication.Prelude.Int.{pos, ◌-ℤ◌}
use swarm_communication.Prelude.Map.{Map, lookup, insert, erase, keys}
use swarm_communication.Prelude.Sort.{sort}
use swarm_communication.Health.{
  Float64, zero_f, score_unavailable, is_valid_score, ltb_f, leb_f, eq_f, one,
}
use swarm_communication.Cluster.Member.{
  NodeId, Member, View, leader, suspect, dead, eq_role, eq_state, view_get,
}
use swarm_communication.Cluster.Table.{set_score, revive, snapshot, u64}
use swarm_communication.Cluster.Election.{with_defaults, sort_ids}
use swarm_communication.Cluster.Wire.{Message, Heartbeat, HeartbeatAck}
use swarm_communication.Cluster.Node.{
  NodeConfig, Work, Node, is_leader, send, send_as, attached_ids, add_id, remove_id,
}
use swarm_communication.Cluster.Node.Ledger.{adopt_term}
use swarm_communication.Cluster.Node.Tasks.{adopt_orphans, reissue_if_due}
use swarm_communication.Cluster.Node.Failure.{
  get_member, announce_self, mark_silent, missed_of, probe_missed, probe_clears, expire_suspicions,
  sweep_tombstones,
}
use swarm_communication.Cluster.Node.Evaluate.{
  evaluate, evaluate_if, membership_changed, retain_live,
}

-- beat: the counters of workers that are still attached, and one beat to each.
unfoldable pub keep_counters : List NodeId → Map ℕ → Map ℕ
keep_counters attached [] = []
keep_counters attached ((id, k) ∷ rest) =
    if contains attached id
    then (id, k) ∷ keep_counters attached rest
    else keep_counters attached rest

unfoldable pub counter_of : NodeId → Map ℕ → ℕ
counter_of id counters = elim (lookup id counters) [ none ↦ 0 | some k ↦ k ]

-- selfScore: the median of the valid scores of the other peers, 0 where there is no other.
unfoldable pub other_scores : NodeId → Map Float64 → List Float64
other_scores self [] = []
other_scores self ((id, s) ∷ rest) =
    if id == self then other_scores self rest else s ∷ other_scores self rest

abbrev pub score_at : List Float64 → ℕ → Float64
score_at l i = elim (get_elem? l i) [ none ↦ score_unavailable | some s ↦ s ]

unfoldable pub median : (Float64 → Float64 → Float64) → List Float64 → Float64
median mean valid =
    let mid = length valid / 2 in
    if length valid % 2 == 1
    then score_at valid mid
    else mean (score_at valid (mid - 1)) (score_at valid mid)

-- abs
abbrev pub neg_f : Float64 → Float64
neg_f Float64.nan = Float64.nan
neg_f Float64.neg_inf = Float64.pos_inf
neg_f Float64.pos_inf = Float64.neg_inf
neg_f (Float64.finite x) = Float64.finite (pos 0 -ℤ x)

unfoldable pub abs_f : Float64 → Float64
abs_f f = if ltb_f f zero_f then neg_f f else f

-- A probe's outcome: IsCancellation of its error, another error, or a score.
pub data ProbeResult : Type 0 where
  cancelled failed : ProbeResult
  scored : Float64 → ProbeResult

-- electionTuning, with a setting where it `has` one.
pub record Tuning : Type 0 where
  pub threshold : Option Float64
  pub hysteresis : Option Float64

-- SetElectionParams, over the settings that wait.
unfoldable pub set_election_params : Float64 → Float64 → Tuning → Tuning
unfolding one
set_election_params threshold hysteresis pending = record {
  threshold =
      if ltb_f zero_f threshold && leb_f threshold one then some threshold else pending.threshold;
  hysteresis =
      if leb_f zero_f hysteresis && not (eq_f hysteresis Float64.pos_inf)
      then some hysteresis
      else pending.hysteresis;
}

-- applyTuning, as a test and a setting for each of the two.
unfoldable pub tune_threshold : Option Float64 → Node → Bool × Node
tune_threshold none n = (false, n)
tune_threshold (some t) n =
    if eq_f t n.election.threshold
    then (false, n)
    else (true, record n { election = record (n.election) { threshold = t } })

unfoldable pub tune_hysteresis : Option Float64 → Node → Bool × Node
tune_hysteresis none n = (false, n)
tune_hysteresis (some h) n =
    if eq_f h n.election.hysteresis && eq_f h n.rehome
    then (false, n)
    else (true, record n { election = record (n.election) { hysteresis = h }; rehome = h })

-- handleHeartbeatAck
unfoldable pub may_attach : Option Member → Bool
may_attach none = false
may_attach (some m) = not (eq_state m.state dead) && not (eq_role m.role leader)

module _ (cfg : NodeConfig) where
  unfoldable pub beat_each : ℕ → ℕ → List NodeId → Map ℕ × Work → Map ℕ × Work
  unfolding counter_of send
  beat_each term size [] acc = acc
  beat_each term size (id ∷ ids) (counters, w) =
      let seq = u64 (counter_of id counters + 1) in
      beat_each term size ids (
        insert id seq counters,
        (send cfg id (Message.heartbeat (record { seq = seq; term = term; cluster_size = size }))
            w).1,
      )

  unfoldable pub beat : Node → Node
  unfolding beat_each keep_counters attached_ids
  beat n =
      let workers = attached_ids n in
      let (counters, w) =
        beat_each n.term (length workers) workers (keep_counters n.attached n.beat_seq, n.work) in
      record n { beat_seq = counters; work = w }

  -- checkLeaderSilence
  unfoldable pub fail_over : ℕ → Node → Node
  unfolding adopt_orphans
  fail_over now n =
      let silent = n.leader in
      let n' : Node = record n { since_beat = 0; work = adopt_orphans n.work } in
      membership_changed cfg (record (mark_silent cfg now silent n').1 { leader = 0 })

  unfoldable pub check_leader_silence : ℕ → Node → Node
  unfolding fail_over
  check_leader_silence now n =
      let ticks = n.since_beat + 1 in
      if ltb ticks cfg.heartbeat_misses
      then record n { since_beat = ticks }
      else fail_over now (record n { since_beat = ticks })

  -- beatResumed
  unfoldable pub beat_resumed : NodeId → Node → Node
  beat_resumed from n = elim (lookup from n.suspects) [
    | none ↦ n
    | some s ↦
        if not s.silent
        then n
        else (let (t, changed) = revive n.table from s.incarnation in
            evaluate_if cfg (changed, record n { suspects = erase from n.suspects; table = t }))
  ]

  -- handleHeartbeat. The ack may leave later (sendDelayed); nothing waits for it.
  unfoldable pub hear_beat : NodeId → Heartbeat → Node → Node
  unfolding is_leader beat_resumed
  hear_beat from p n =
      if ltb p.term n.term
      then n
      else (let n' = adopt_term p.term n in
          beat_resumed from (
            if from == n'.leader && not (is_leader cfg n')
            then record n' { since_beat = 0 }
            else n'))

  unfoldable pub handle_heartbeat : NodeId → ℕ → Heartbeat → Node → Node
  unfolding hear_beat send_as
  handle_heartbeat from id p n =
      let n' = hear_beat from p n in
      record n' {
        work =
            (send_as cfg id from
              (Message.heartbeat_ack
                (record { seq = p.seq; term = n'.term; observed_leader = n'.leader }))
              n'.work).1;
      }

  unfoldable pub handle_heartbeat_ack : NodeId → HeartbeatAck → Node → Node
  unfolding is_leader may_attach get_member
  handle_heartbeat_ack from p n =
      let n' = adopt_term p.term n in
      if not (p.observed_leader == cfg.self) && contains n'.attached from
      then record n' { attached = remove_id from n'.attached }
      else if p.observed_leader == cfg.self && not (contains n'.attached from) && is_leader cfg n'
      then if may_attach (get_member from n')
        then record n' { attached = add_id from n'.attached }
        else n'
      else n'

  -- startProbeRound, whose goroutines send their results back; the targets are logged as output of
  -- nothing, since a round's results are an event of their own.
  unfoldable pub start_probe_round : Node → Node
  start_probe_round n =
      if n.probing then n else record n { probing = true; probe_seq = u64 (n.probe_seq + 1) }

  -- applyProbeRound: one result, against the view from before, and the loop in the order of the IDs.
  unfoldable pub apply_probe : ℕ → ℕ → NodeId → Member → ProbeResult → Node → Bool × Node
  unfolding probe_missed probe_clears missed_of
  apply_probe now seq id m ProbeResult.cancelled n = (false, n)
  apply_probe now seq id m ProbeResult.failed n = probe_missed cfg now id (record n {
    local = insert id score_unavailable n.local;
    missed = insert id (missed_of id n + 1) n.missed;
  })
  apply_probe now seq id m (ProbeResult.scored s) n =
      let n' : Node = record n { local = insert id s n.local; missed = insert id 0 n.missed } in
      if eq_state m.state suspect then probe_clears id seq m.incarnation n' else (false, n')

  unfoldable pub apply_probes :
      ℕ → ℕ → View → Map ProbeResult → List NodeId → Bool × Node → Bool × Node
  unfolding apply_probe
  apply_probes now seq view results [] acc = acc
  apply_probes now seq view results (id ∷ ids) (changed, n) = elim (view_get view id) [
    | none ↦ apply_probes now seq view results ids (changed, n)
    | some m ↦ elim (lookup id results) [
      | none ↦ apply_probes now seq view results ids (changed, n)
      | some r ↦
          let (c, n') =
            if eq_state m.state dead then (false, n) else apply_probe now seq id m r n in
          apply_probes now seq view results ids (changed || c, n')
    ]
  ]

  unfoldable pub self_score : Node → Float64
  unfolding other_scores median
  self_score n =
      let others = other_scores cfg.self n.local in
      let valid = sort ltb_f (keep is_valid_score others) in
      if length others == 0
      then zero_f
      else if length valid == 0
      then score_unavailable
      else median cfg.mean valid

  unfoldable pub own_score : Node → Float64
  unfolding get_member
  own_score n = elim (get_member cfg.self n) [ none ↦ score_unavailable | some m ↦ m.score ]

  -- updateSelfScore
  unfoldable pub update_self_score : Node → Node
  unfolding self_score own_score abs_f announce_self
  update_self_score n =
      let fresh = self_score n in
      let prev = own_score n in
      let n' : Node = record n { local = insert cfg.self fresh n.local } in
      if is_valid_score prev
        && is_valid_score fresh
        && ltb_f (abs_f (cfg.ops.sub fresh prev)) (with_defaults n.election).hysteresis
      then n'
      else (let (t, changed) = set_score n'.table cfg.self fresh in
          let n'' : Node = record n' { table = t } in
          if changed then announce_self cfg n'' else n'')

  unfoldable pub apply_probe_round : ℕ → ℕ → Map ProbeResult → Node → Node
  unfolding apply_probes update_self_score
  apply_probe_round now seq results n =
      let n' : Node = record n { probing = false; rejections = 0 } in
      let (changed, n'') =
        apply_probes now seq (snapshot n'.table) results (sort_ids (keys results)) (false, n') in
      update_self_score (if changed then retain_live cfg n'' else n'')

  -- controlTick
  unfoldable pub control_tick : ℕ → Node → Node
  unfolding is_leader beat check_leader_silence
  control_tick now n =
      let n1 = evaluate_if cfg (expire_suspicions cfg now n) in
      let n2 = (sweep_tombstones cfg now n1).1 in
      if is_leader cfg n2
      then reissue_if_due cfg (beat n2)
      else if not (n2.leader == 0)
      then check_leader_silence now n2
      else n2

  unfoldable pub apply_tuning : Tuning → Node → Node
  unfolding tune_threshold tune_hysteresis
  apply_tuning t n =
      let (a, n1) = tune_threshold t.threshold n in
      let (b, n2) = tune_hysteresis t.hysteresis n1 in if a || b then evaluate cfg n2 else n2
