-- ===== src/Cluster/Node/Loop/Expires.antt =====
-- The ticks of the failure detector keep what a node holds of itself, since it holds itself alive.
use swarm_communication.Prelude.{
  ℕ, ◌+◌, ◌≡◌, ◌≢◌, refl, sym, ap, ◌∙◌, subst, Bool, true, false, ◌||◌, some, none, List, [], ◌∷◌,
  ◌==◌, arith, Bool-cases, Option-cases, inl, inr, if◌then◌else◌, ltb, some_inj,
}
use swarm_communication.Health.{score_unavailable}
use swarm_communication.Prelude.Map.{Map, lookup, insert, keys}
use swarm_communication.Cluster.Member.{
  NodeId, Member, alive, dead, suspect, eq_state, view_get, View,
}
use swarm_communication.Cluster.Election.{sort_ids}
use swarm_communication.Cluster.Node.{NodeConfig, Node, Suspicion, Tombstone}
use swarm_communication.Cluster.Node.Failure.{
  probe_missed, missed_of, probe_clears, get_member, is_resolved, expire_one, expire_each,
  expire_suspicions, refresh_tombstones, collect, is_same_death, sweep_one, sweep_each,
  sweep_tombstones,
}
use swarm_communication.Cluster.Node.Probes.{ProbeResult, apply_probe, apply_probes}
use swarm_communication.Cluster.Node.Loop.Own.{lookup-remove_other}
use swarm_communication.Cluster.Node.Loop.Keeps.{
  Keeps, keeps, Keeps-trans, Keeps-if_result, mark_dead-Keeps, probe_missed-Keeps,
  probe_clears-Keeps,
}

module _ (cfg : NodeConfig) where
  -- The node's own entry, under whatever else changes.
  pub record IsUp (n : Node) : Type 0 where
    pub own : Member
    pub found : lookup cfg.self n.table.members ≡ some own
    pub state : own.state ≡ alive

  pub IsUp-Keeps : (n m : Node) → Keeps cfg n m → IsUp n → IsUp m
  IsUp-Keeps n m k h = record { own = h.own; found = k.own ∙ h.found; state = h.state }

  -- A suspicion of the node itself would count as resolved.
  expire_one-Keeps :
      (now : ℕ) (id : NodeId) (before : Node) (s : Suspicion) (n : Node)
      → IsUp before
      → Keeps cfg n (expire_one cfg now id (get_member id before) s n).1
  unfolding expire_one
  expire_one-Keeps now id before s n up = elim (Bool-cases (is_resolved (get_member id before) s)) [
    | inl e ↦
        rw (e, expire_one)
          (record {
            own = refl;
            incarnation = refl;
            leaders = refl;
            leader = refl;
            attached = λ h. h;
          })
    | inr e ↦ elim (Bool-cases (ltb now (s.since + cfg.suspicion_timeout))) [
      | inl f ↦ rw (e, f, expire_one) (keeps cfg n)
      | inr f ↦ rw (e, f, expire_one) (mark_dead-Keeps cfg id n λ same. self_resolved same e)
    ]
  ]
    where
      self_resolved : id ≡ cfg.self → is_resolved (get_member id before) s ≡ false → ⊥
      self_resolved same e =
          let e' : is_resolved (some up.own) s ≡ false =
            subst (λ o. is_resolved o s ≡ false)
              (ap (λ k. lookup k before.table.members) same ∙ up.found) e in
          ground (arith, e', up.state)

  pub expire_each-Keeps :
      (now : ℕ) (before : Node) (ids : List NodeId) (c : Bool) (n : Node)
      → IsUp before
      → Keeps cfg n (expire_each cfg now before ids (c, n)).1
  unfolding expire_each
  expire_each-Keeps now before [] c n up = keeps cfg n
  expire_each-Keeps now before (id ∷ ids) c n up = elim (Option-cases (lookup id n.suspects)) [
    | inl e ↦ rw (e, expire_each) (expire_each-Keeps now before ids c n up)
    | inr (s, e) ↦
        let one = expire_one cfg now id (get_member id before) s n in
        rw (e, expire_each)
          (Keeps-trans cfg n one.1 (expire_each cfg now before ids (c || one.0, one.1)).1
            (expire_one-Keeps now id before s n up)
            (expire_each-Keeps now before ids (c || one.0) one.1 up))
  ]

  pub expire_suspicions-Keeps :
      (now : ℕ) (n : Node) → IsUp n → Keeps cfg n (expire_suspicions cfg now n).1
  unfolding expire_suspicions
  expire_suspicions-Keeps now n up = expire_each-Keeps now n (sort_ids (keys n.suspects)) false n up

  refresh-Keeps : (now : ℕ) (n : Node) → Keeps cfg n (refresh_tombstones cfg now n)
  unfolding refresh_tombstones
  refresh-Keeps now n = elim (Bool-cases (n.table.version == n.tomb_version)) [
    | inl e ↦ rw (e, refresh_tombstones) (keeps cfg n)
    | inr e ↦
        rw (e, refresh_tombstones)
          (record {
            own = refl;
            incarnation = refl;
            leaders = refl;
            leader = refl;
            attached = λ h. h;
          })
  ]

  -- Only a dead member is collected, so never the node itself.
  sweep_one-Keeps :
      (now : ℕ) (id : NodeId) (ts : Tombstone) (n : Node)
      → IsUp n
      → Keeps cfg n (sweep_one cfg now id ts n).1
  unfolding sweep_one get_member collect
  sweep_one-Keeps now id ts n up = elim (Bool-cases (ltb now (ts.since + cfg.tombstone_ttl))) [
    | inl e ↦ rw (e, sweep_one) (keeps cfg n)
    | inr e ↦ elim (Option-cases (lookup id n.table.members)) [
      | inl g ↦
          rw (e, g, sweep_one)
            (record {
              own = refl;
              incarnation = refl;
              leaders = refl;
              leader = refl;
              attached = λ h. h;
            })
      | inr (m, g) ↦ elim (Bool-cases (is_same_death ts m)) [
        | inl d ↦
            rw (e, g, d, sweep_one)
              (record {
                own = lookup-remove_other n.table id cfg.self (λ same. not_self m g d same);
                incarnation = refl;
                leaders = refl;
                leader = refl;
                attached = λ h. h;
              })
        | inr d ↦
            rw (e, g, d, sweep_one)
              (record {
                own = refl;
                incarnation = refl;
                leaders = refl;
                leader = refl;
                attached = λ h. h;
              })
      ]
    ]
  ]
    where
      not_self :
          (m : Member)
          → lookup id n.table.members ≡ some m
          → is_same_death ts m ≡ true
          → id ≡ cfg.self
          → ⊥
      not_self m g d same =
          let e : m ≡ up.own =
            some_inj (sym g ∙ ap (λ k. lookup k n.table.members) same ∙ up.found) in
          let up' : m.state ≡ alive = ap (λ (x : Member). x.state) e ∙ up.state in
          ground (arith, d, up')

  sweep_each-Keeps :
      (now : ℕ) (tombs : Map Tombstone) (r : Bool) (n : Node)
      → IsUp n
      → Keeps cfg n (sweep_each cfg now tombs (r, n)).1
  unfolding sweep_each
  sweep_each-Keeps now [] r n up = keeps cfg n
  sweep_each-Keeps now ((id, ts) ∷ rest) r n up =
      let one = sweep_one cfg now id ts n in
      let k = sweep_one-Keeps now id ts n up in
      Keeps-trans cfg n one.1 (sweep_each cfg now rest (r || one.0, one.1)).1 k
        (sweep_each-Keeps now rest (r || one.0) one.1 (IsUp-Keeps n one.1 k up))

  pub sweep_tombstones-Keeps :
      (now : ℕ) (n : Node) → IsUp n → Keeps cfg n (sweep_tombstones cfg now n).1
  unfolding sweep_tombstones
  sweep_tombstones-Keeps now n up =
      let m = refresh_tombstones cfg now n in
      let k = refresh-Keeps now n in
      Keeps-trans cfg n m (sweep_each cfg now m.tombstones (false, m)).1 k
        (sweep_each-Keeps now m.tombstones false m (IsUp-Keeps n m k up))

  apply_probe-Keeps :
      (now seq : ℕ) (id : NodeId) (m : Member) (r : ProbeResult) (n : Node)
      → id ≢ cfg.self
      → Keeps cfg n (apply_probe cfg now seq id m r n).1
  unfolding apply_probe
  apply_probe-Keeps now seq id m ProbeResult.cancelled n other = keeps cfg n
  apply_probe-Keeps now seq id m ProbeResult.failed n other =
      let n' : Node = record n {
        local = insert id score_unavailable n.local;
        missed = insert id (missed_of id n + 1) n.missed;
      } in
      Keeps-trans cfg n n' (probe_missed cfg now id n').1
        (record {
          own = refl;
          incarnation = refl;
          leaders = refl;
          leader = refl;
          attached = λ h. h;
        })
        (probe_missed-Keeps cfg now id n' other)
  apply_probe-Keeps now seq id m (ProbeResult.scored s) n other =
      let n' : Node = record n { local = insert id s n.local; missed = insert id 0 n.missed } in
      let k : Keeps cfg n n' = record {
        own = refl;
        incarnation = refl;
        leaders = refl;
        leader = refl;
        attached = λ h. h;
      } in
      Keeps-if_result cfg (eq_state m.state suspect) n (probe_clears id seq m.incarnation n')
        (false, n')
        (Keeps-trans cfg n n' (probe_clears id seq m.incarnation n').1 k
          (probe_clears-Keeps cfg id seq m.incarnation n' other))
        k

  -- A round of probes that has no result of the node itself.
  pub apply_probes-Keeps :
      (now seq : ℕ) (view : View) (results : Map ProbeResult) (ids : List NodeId) (c : Bool)
      (n : Node)
      → lookup cfg.self results ≡ none
      → Keeps cfg n (apply_probes cfg now seq view results ids (c, n)).1
  unfolding apply_probes
  apply_probes-Keeps now seq view results [] c n others = keeps cfg n
  apply_probes-Keeps now seq view results (id ∷ ids) c n others =
      elim (Option-cases (view_get view id)) [
        | inl e ↦ rw (e, apply_probes) (apply_probes-Keeps now seq view results ids c n others)
        | inr (m, e) ↦ elim (Option-cases (lookup id results)) [
          | inl f ↦ rw (e, f, apply_probes) (apply_probes-Keeps now seq view results ids c n others)
          | inr (r, f) ↦
              let one : Bool × Node =
                if eq_state m.state dead then (false, n) else apply_probe cfg now seq id m r n in
              let k : Keeps cfg n one.1 =
                Keeps-if_result cfg (eq_state m.state dead) n (false, n)
                  (apply_probe cfg now seq id m r n) (keeps cfg n)
                  (apply_probe-Keeps now seq id m r n (λ same.
                    let clash : some r ≡ none = sym f ∙ ap (λ k. lookup k results) same ∙ others in
                    cc)) in
              rw (e, f, apply_probes)
                (Keeps-trans cfg n one.1
                  (apply_probes cfg now seq view results ids (c || one.0, one.1)).1 k
                  (apply_probes-Keeps now seq view results ids (c || one.0) one.1 others))
        ]
      ]
