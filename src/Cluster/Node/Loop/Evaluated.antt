-- ===== src/Cluster/Node/Loop/Evaluated.antt =====
-- A node after evaluate, from what it held of itself before.
use swarm_communication.Prelude.{
  ◌≡◌, ◌≢◌, refl, sym, ap, ◌∙◌, subst, Bool, true, false, List, Bool-cases, inl, inr, contains,
}
use swarm_communication.Prelude.Int.{ℤ}
use swarm_communication.Prelude.Map.{lookup}
use swarm_communication.Cluster.Member.{NodeId, Role, leader, eq_role, view_scores}
use swarm_communication.Cluster.Table.{Table, set_role, snapshot}
use swarm_communication.Cluster.Election.{Result}
use swarm_communication.Cluster.Node.{NodeConfig, Node, is_leader}
use swarm_communication.Cluster.Node.Failure.{announce_self}
use swarm_communication.Cluster.Node.Evaluate.{
  count_view, claim_role, note_leaders, settle_role, take_role, hold_election, own_role, evaluate,
}
use swarm_communication.Cluster.Node.Loop.Own.{OwnsRecord, PlaysRole, lookup-set_role_self}
use swarm_communication.Cluster.Node.Loop.Elects.{
  IsLinked, push_record-SameTable, note_leaders-leaders, take_role-SameTable,
}

module _ (cfg : NodeConfig) (floor : ℤ) where
  abbrev pub Holds : Node → Type 0
  Holds n = OwnsRecord cfg.self floor n.table n.incarnation

  -- The invariant of the loop: the node holds itself alive at its own incarnation and in the role that
  -- its leaders give it, a leader is its own leader, and a worker has another and no workers.
  pub record IsSound (n : Node) : Type 0 where
    pub own : Holds n
    pub role : PlaysRole cfg.self n.table (contains n.leaders cfg.self)
    pub link : IsLinked cfg.self (contains n.leaders cfg.self) n.leader n.attached

  claim_role-table :
      (r : Role) (n : Node)
      → ((claim_role cfg r n).table ≡ (set_role n.table cfg.self r).0)
        × ((claim_role cfg r n).incarnation ≡ n.incarnation)
  unfolding claim_role announce_self
  claim_role-table r n = elim (Bool-cases (set_role n.table cfg.self r).1) [
    | inl e ↦
        let s =
          push_record-SameTable cfg cfg.self
            (record n { table = (set_role n.table cfg.self r).0 }) in
        rw (e, claim_role) (s.table, s.incarnation)
    | inr e ↦ rw (e, claim_role) (refl, refl)
  ]

  claim_role-Holds :
      (r : Role) (n : Node)
      → Holds n
      → Holds (claim_role cfg r n)
        × PlaysRole cfg.self (claim_role cfg r n).table (eq_role r leader)
  claim_role-Holds r n h =
      let c = claim_role-table r n in
      let w = lookup-set_role_self cfg.self n.table h.own h.found r in
      let found = ap (λ (t : Table). lookup cfg.self t.members) c.0 ∙ w.1 in
      (
        record {
          own = w.0;
          found = found;
          state = w.2 ∙ h.state;
          current = w.3 ∙ h.current ∙ sym c.1;
          at_least = rw c.1 h.at_least;
        },
        record { own = w.0; found = found; role = ap (λ q. eq_role q leader) w.4 },
      )

  pub settle_role-same :
      (was : Bool) (n : Node)
      → ((settle_role cfg was n).table ≡ n.table)
        × ((settle_role cfg was n).incarnation ≡ n.incarnation)
        × ((settle_role cfg was n).leaders ≡ n.leaders)
        × ((settle_role cfg was n).leader ≡ n.leader)
        × ((settle_role cfg was n).attached ≡ n.attached)
  unfolding settle_role
  settle_role-same true n = elim (Bool-cases (is_leader cfg n)) [
    | inl e ↦ rw (e, settle_role) (refl, refl, refl, refl, refl)
    | inr e ↦ rw (e, settle_role) (refl, refl, refl, refl, refl)
  ]
  settle_role-same false n = elim (Bool-cases (is_leader cfg n)) [
    | inl e ↦ rw (e, settle_role) (refl, refl, refl, refl, refl)
    | inr e ↦ rw (e, settle_role) (refl, refl, refl, refl, refl)
  ]

  eq_role-own_role :
      (res : Result) → eq_role (own_role cfg res) leader ≡ contains res.leaders cfg.self
  eq_role-own_role res = elim (Bool-cases (contains res.leaders cfg.self)) [
    | inl e ↦ rw e refl
    | inr e ↦ rw e refl
  ]

  -- The invariant at fields that are known by equations.
  IsSound-from :
      (m : Node) (t : Table) (i : ℤ) (leads : Bool) (l : NodeId) (ws : List NodeId)
      → m.table ≡ t
      → m.incarnation ≡ i
      → contains m.leaders cfg.self ≡ leads
      → m.leader ≡ l
      → m.attached ≡ ws
      → OwnsRecord cfg.self floor t i
      → PlaysRole cfg.self t leads
      → IsLinked cfg.self leads l ws
      → IsSound m
  IsSound-from m t i leads l ws et ei ec el ea own role link = record {
    own = rw (et, ei) own;
    role = rw (et, ec) role;
    link = rw (ec, el, ea) link;
  }

  pub evaluate-IsSound : cfg.self ≢ 0 → (n : Node) → Holds n → IsSound (evaluate cfg n)
  unfolding evaluate count_view
  evaluate-IsSound named n h =
      let view = snapshot n.table in
      let res = hold_election cfg n in
      let e0 : Node = record n { reported_scores = view_scores view } in
      let e1 : Node = claim_role cfg (own_role cfg res) e0 in
      let e2 : Node = note_leaders cfg res e1 in
      let e3 : Node = take_role cfg view res e2 in
      let c = claim_role-Holds (own_role cfg res) e0 h in
      let l = note_leaders-leaders cfg res e1 in
      let k = take_role-SameTable cfg named view res e2 in
      let s = settle_role-same (is_leader cfg n) (count_view view e3) in
      IsSound-from (evaluate cfg n) e1.table e1.incarnation (contains res.leaders cfg.self)
        e3.leader e3.attached (s.0 ∙ k.0.table ∙ l.1) (s.1 ∙ k.0.incarnation ∙ l.2)
        (ap (λ ls. contains ls cfg.self) (s.2 ∙ k.0.leaders ∙ l.0)) s.3 s.4 c.0
        (subst (PlaysRole cfg.self e1.table) (eq_role-own_role res) c.1) k.1
