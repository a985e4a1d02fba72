-- ===== src/Cluster/Node/Loop/Keeps.antt =====
-- The handlers that change nothing of what a node holds of itself, nor its leader; they may only
-- shorten the list of its workers.
use swarm_communication.Prelude.{
  not, ℕ, ◌≡◌, ◌≢◌, refl, ap, ◌∙◌, Bool, true, false, ◌||◌, List, [], ◌∷◌, ◌==◌, arith, Bool-cases,
  Option-cases, inl, inr, if◌then◌else◌, contains, length, leb,
}
use swarm_communication.Prelude.Int.{ℤ}
use swarm_communication.Prelude.Map.{lookup, erase, insert}
use swarm_communication.Cluster.Member.{NodeId, NodeAddress, Member, dead, suspect, eq_state}
use swarm_communication.Cluster.Table.{Table, set_state, revive, snapshot}
use swarm_communication.Cluster.Node.{NodeConfig, Node, is_leader, remove_id}
use swarm_communication.Cluster.Node.Tasks.{reassign_from}
use swarm_communication.Cluster.Node.Failure.{
  push_record, mark_dead, raise_doubt, suspect_peer, probe_missed, probe_clears, get_member,
  missed_of, doubt,
}
use swarm_communication.Cluster.Node.Members.{connect, connect_all, is_known_address}
use swarm_communication.Cluster.Node.Loop.Own.{lookup-set_state_other, lookup-revive_other}

module _ (cfg : NodeConfig) where
  pub record Keeps (n m : Node) : Type 0 where
    pub own : lookup cfg.self m.table.members ≡ lookup cfg.self n.table.members
    pub incarnation : m.incarnation ≡ n.incarnation
    pub leaders : m.leaders ≡ n.leaders
    pub leader : m.leader ≡ n.leader
    pub attached : length n.attached ≡ 0 → length m.attached ≡ 0

  pub keeps : (n : Node) → Keeps n n
  keeps n = record {
    own = refl;
    incarnation = refl;
    leaders = refl;
    leader = refl;
    attached = λ h. h;
  }

  -- Equal fields, whatever the rest.
  pub same_fields :
      (n m : Node)
      → m.table ≡ n.table
      → m.incarnation ≡ n.incarnation
      → m.leaders ≡ n.leaders
      → m.leader ≡ n.leader
      → m.attached ≡ n.attached
      → Keeps n m
  same_fields n m t i ls l a = record {
    own = ap (λ (t : Table). lookup cfg.self t.members) t;
    incarnation = i;
    leaders = ls;
    leader = l;
    attached = λ h. ap length a ∙ h;
  }

  pub Keeps-trans : (a b c : Node) → Keeps a b → Keeps b c → Keeps a c
  Keeps-trans a b c p q = record {
    own = q.own ∙ p.own;
    incarnation = q.incarnation ∙ p.incarnation;
    leaders = q.leaders ∙ p.leaders;
    leader = q.leader ∙ p.leader;
    attached = λ h. q.attached (p.attached h);
  }

  -- A choice between two nodes.
  pub Keeps-if : (b : Bool) (n x y : Node) → Keeps n x → Keeps n y → Keeps n (if b then x else y)
  Keeps-if true n x y hx hy = hx
  Keeps-if false n x y hx hy = hy

  pub Keeps-if_result :
      (b : Bool) (n : Node) (x y : Bool × Node)
      → Keeps n x.1
      → Keeps n y.1
      → Keeps n (if b then x else y).1
  Keeps-if_result true n x y hx hy = hx
  Keeps-if_result false n x y hx hy = hy

  pub length-remove_id :
      (id : NodeId) (xs : List NodeId) → length xs ≡ 0 → length (remove_id id xs) ≡ 0
  length-remove_id id [] h = refl
  length-remove_id id (x ∷ xs) h = absurd (omega (arith, h))

  pub push_record-Keeps : (id : NodeId) (n : Node) → Keeps n (push_record cfg id n)
  unfolding push_record
  push_record-Keeps id n = elim (Option-cases (get_member id n)) [
    | inl e ↦ rw (e, push_record) (keeps n)
    | inr (m, e) ↦
        rw (e, push_record)
          (record {
            own = refl;
            incarnation = refl;
            leaders = refl;
            leader = refl;
            attached = λ h. h;
          })
  ]

  pub reassign_from-Keeps : (id : NodeId) (n : Node) → Keeps n (reassign_from cfg id n)
  unfolding reassign_from
  reassign_from-Keeps id n = elim (Bool-cases (is_leader cfg n)) [
    | inl e ↦
        rw (e, reassign_from)
          (record {
            own = refl;
            incarnation = refl;
            leaders = refl;
            leader = refl;
            attached = λ h. h;
          })
    | inr e ↦ rw (e, reassign_from) (keeps n)
  ]

  pub mark_dead-Keeps : (id : NodeId) (n : Node) → id ≢ cfg.self → Keeps n (mark_dead cfg id n).1
  unfolding mark_dead
  mark_dead-Keeps id n other =
      let t = (set_state n.table id dead).0 in
      let n' : Node = record n {
        attached = remove_id id n.attached;
        suspects = erase id n.suspects;
        table = t;
      } in
      let k : Keeps n n' = record {
        own = lookup-set_state_other n.table id cfg.self other dead;
        incarnation = refl;
        leaders = refl;
        leader = refl;
        attached = length-remove_id id n.attached;
      } in
      Keeps-if (set_state n.table id dead).1 n (reassign_from cfg id (push_record cfg id n')) n'
        (Keeps-trans n n' (reassign_from cfg id (push_record cfg id n')) k (
          Keeps-trans n' (push_record cfg id n') (reassign_from cfg id (push_record cfg id n'))
            (push_record-Keeps id n') (reassign_from-Keeps id (push_record cfg id n'))))
        k

  raise_doubt-Keeps :
      (now : ℕ) (id : NodeId) (silent : Bool) (m : Member) (n : Node)
      → id ≢ cfg.self
      → Keeps n (raise_doubt cfg now id silent m n).1
  unfolding raise_doubt
  raise_doubt-Keeps now id silent m n other =
      let t = (set_state n.table id suspect).0 in
      let n' : Node = record n {
        suspects = insert id (doubt now m silent n (lookup id n.suspects)) n.suspects;
        table = t;
      } in
      let k : Keeps n n' = record {
        own = lookup-set_state_other n.table id cfg.self other suspect;
        incarnation = refl;
        leaders = refl;
        leader = refl;
        attached = λ h. h;
      } in
      Keeps-if (set_state n.table id suspect).1 n (push_record cfg id n') n'
        (Keeps-trans n n' (push_record cfg id n') k (push_record-Keeps id n')) k

  -- suspectPeer guards itself against the node's own ID.
  pub suspect_peer-Keeps :
      (now : ℕ) (id : NodeId) (silent : Bool) (n : Node)
      → Keeps n (suspect_peer cfg now id silent n).1
  unfolding suspect_peer
  suspect_peer-Keeps now id silent n = elim (Bool-cases (id == cfg.self)) [
    | inl e ↦ rw (e, suspect_peer) (keeps n)
    | inr e ↦ elim (Option-cases (get_member id n)) [
      | inl g ↦ rw (e, g, suspect_peer) (keeps n)
      | inr (m, g) ↦ elim (Bool-cases (eq_state m.state dead)) [
        | inl d ↦ rw (e, g, d, suspect_peer) (keeps n)
        | inr d ↦
            rw (e, g, d, suspect_peer) (raise_doubt-Keeps now id silent m n (ground (arith, e)))
      ]
    ]
  ]

  pub probe_missed-Keeps :
      (now : ℕ) (id : NodeId) (n : Node) → id ≢ cfg.self → Keeps n (probe_missed cfg now id n).1
  unfolding probe_missed
  probe_missed-Keeps now id n other = elim (Bool-cases (leb cfg.dead_after (missed_of id n))) [
    | inl e ↦ rw (e, probe_missed) (mark_dead-Keeps id n other)
    | inr e ↦ elim (Bool-cases (leb cfg.suspect_after (missed_of id n))) [
      | inl f ↦ rw (e, f, probe_missed) (suspect_peer-Keeps now id false n)
      | inr f ↦ rw (e, f, probe_missed) (keeps n)
    ]
  ]

  pub probe_clears-Keeps :
      (id : NodeId) (round : ℕ) (i : ℤ) (n : Node)
      → id ≢ cfg.self
      → Keeps n (probe_clears id round i n).1
  unfolding probe_clears
  probe_clears-Keeps id round i n other =
      let k : Keeps n
          (record n { suspects = erase id n.suspects; table = (revive n.table id i).0 }) =
        record {
          own = lookup-revive_other n.table id cfg.self other i;
          incarnation = refl;
          leaders = refl;
          leader = refl;
          attached = λ h. h;
        } in
      Keeps-if_result _ n (false, n)
        (
          (revive n.table id i).1,
          record n { suspects = erase id n.suspects; table = (revive n.table id i).0 },
        )
        (keeps n) k

  pub connect-Keeps : (addr : NodeAddress) (n : Node) → Keeps n (connect cfg addr n)
  unfolding connect
  connect-Keeps addr n =
      elim (Bool-cases (addr == 0 || not cfg.has_connect || contains n.dialed addr)) [
        | inl e ↦ rw (e, connect) (keeps n)
        | inr e ↦ elim (Bool-cases (is_known_address addr (snapshot n.table).members)) [
          | inl f ↦
              rw (e, f, connect)
                (record {
                  own = refl;
                  incarnation = refl;
                  leaders = refl;
                  leader = refl;
                  attached = λ h. h;
                })
          | inr f ↦
              rw (e, f, connect)
                (record {
                  own = refl;
                  incarnation = refl;
                  leaders = refl;
                  leader = refl;
                  attached = λ h. h;
                })
        ]
      ]

  pub connect_all-Keeps : (addrs : List NodeAddress) (n : Node) → Keeps n (connect_all cfg addrs n)
  unfolding connect_all
  connect_all-Keeps [] n = keeps n
  connect_all-Keeps (addr ∷ rest) n =
      Keeps-trans n (connect cfg addr n) (connect_all cfg rest (connect cfg addr n))
        (connect-Keeps addr n) (connect_all-Keeps rest (connect cfg addr n))
