-- ===== src/Cluster/Node/Loop/Hears.antt =====
-- Peer events and gossip, as far as they go before an evaluation.
use swarm_communication.Prelude.{
  ℕ, ◌≡◌, ◌≢◌, refl, sym, ap, ◌∙◌, subst, Bool, true, false, ◌||◌, some, none, Option, List, [],
  ◌∷◌, ◌==◌, arith, Bool-cases, inl, inr, if◌then◌else◌, contains, length, ==_iff, some_inj,
}
use swarm_communication.Prelude.Int.{ℤ, ltb_ℤ, ◌≤ℤ◌, ◌+ℤ◌}
use swarm_communication.Prelude.Map.{lookup}
use swarm_communication.Cluster.Member.{
  NodeId, Member, alive, leader, eq_state, eq_role, parse_state, view_get, View,
}
use swarm_communication.Cluster.Table.{upsert, next_incarnation}
use swarm_communication.Cluster.Table.Merge.{lookup-upsert, merged_over, merged}
use swarm_communication.Cluster.Wire.{MemberRecord}
use swarm_communication.Cluster.Node.{NodeConfig, Node, add_id}
use swarm_communication.Cluster.Node.Failure.{get_member, announce_self}
use swarm_communication.Cluster.Node.Members.{
  Peer, Disposition, peer_up, peer_down, hello_record, connect, connect_all, send_view,
}
use swarm_communication.Cluster.Node.Gossip.{
  relayed_record, is_unknown_death, refute, refute_if_needed, take_record, take_any, take_records,
}
use swarm_communication.Cluster.Node.Loop.Own.{
  lookup-upsert_other, lookup-revive_other, merged-refutation,
}
use swarm_communication.Cluster.Node.Loop.Keeps.{
  Keeps, keeps, Keeps-trans, Keeps-if, push_record-Keeps, mark_dead-Keeps, suspect_peer-Keeps,
  connect-Keeps, connect_all-Keeps,
}
use swarm_communication.Cluster.Node.Loop.Evaluated.{Holds, IsSound}

module _ (cfg : NodeConfig) where
  hello_record-id : (p : Peer) (o : Option Member) → (hello_record p o).id ≡ p.id
  unfolding hello_record
  hello_record-id p none = refl
  hello_record-id p (some m) = refl

  pub peer_up-Keeps : (p : Peer) (n : Node) → p.id ≢ cfg.self → Keeps cfg n (peer_up cfg p n).1
  unfolding peer_up send_view
  peer_up-Keeps p n other =
      let hello = hello_record p (get_member p.id n) in
      let n1 : Node = record n {
        table = (upsert n.table hello).0;
        dialed = add_id p.advertise n.dialed;
      } in
      let n2 = connect_all cfg p.known_peers n1 in
      let k1 : Keeps cfg n n1 = record {
        own = lookup-upsert_other n.table p.id cfg.self other hello (hello_record-id p _);
        incarnation = refl;
        leaders = refl;
        leader = refl;
        attached = λ h. h;
      } in
      let k3 : Keeps cfg n2 (peer_up cfg p n).1 = record {
        own = lookup-revive_other n2.table p.id cfg.self other p.incarnation;
        incarnation = refl;
        leaders = refl;
        leader = refl;
        attached = λ h. h;
      } in
      Keeps-trans cfg n n1 (peer_up cfg p n).1 k1
        (Keeps-trans cfg n1 n2 (peer_up cfg p n).1 (connect_all-Keeps cfg p.known_peers n1) k3)

  pub peer_down-Keeps :
      (now : ℕ) (id : NodeId) (how : Disposition) (n : Node)
      → id ≢ cfg.self
      → Keeps cfg n (peer_down cfg now id how n).1
  unfolding peer_down
  peer_down-Keeps now id Disposition.clean_close n other = mark_dead-Keeps cfg id n other
  peer_down-Keeps now id Disposition.protocol_violation n other = mark_dead-Keeps cfg id n other
  peer_down-Keeps now id Disposition.other_end n other = suspect_peer-Keeps cfg now id false n

  take_record-Keeps :
      (from : NodeId) (before : View) (r : MemberRecord) (n : Node)
      → r.id ≢ cfg.self
      → Keeps cfg n (take_record cfg from before r n).1
  unfolding take_record relayed_record
  take_record-Keeps from before r n other = elim (Bool-cases (is_unknown_death before r)) [
    | inl e ↦ rw (e, take_record) (keeps cfg n)
    | inr e ↦
        let n' : Node =
          if eq_state (parse_state r.state) alive then connect cfg r.advertise n else n in
        rw (e, take_record)
          (Keeps-trans cfg n n'
            (record n' {
              table = (upsert n'.table (relayed_record from (view_get before r.id) r)).0;
            })
            (Keeps-if cfg (eq_state (parse_state r.state) alive) n (connect cfg r.advertise n) n
              (connect-Keeps cfg r.advertise n) (keeps cfg n))
            (record {
              own =
                  lookup-upsert_other n'.table r.id cfg.self other
                    (relayed_record from (view_get before r.id) r) refl;
              incarnation = refl;
              leaders = refl;
              leader = refl;
              attached = λ h. h;
            }))
  ]

module _ (cfg : NodeConfig) (floor : ℤ) where
  -- The invariant goes over to a node that keeps its fields.
  pub Keeps-IsSound : (n m : Node) → Keeps cfg n m → IsSound cfg floor n → IsSound cfg floor m
  Keeps-IsSound n m k h = record {
    own = record {
      own = h.own.own;
      found = k.own ∙ h.own.found;
      state = h.own.state;
      current = h.own.current ∙ sym k.incarnation;
      at_least = rw k.incarnation h.own.at_least;
    };
    role = record {
      own = h.role.own;
      found = k.own ∙ h.role.found;
      role = rw k.leaders h.role.role;
    };
    link = record {
      led = rw (k.leader, k.leaders) h.link.led;
      workers = rw k.leaders (still (contains n.leaders cfg.self) h.link.workers k.attached);
    };
  }
    where
      still :
          (b : Bool)
          → (b || length n.attached == 0) ≡ true
          → (length n.attached ≡ 0 → length m.attached ≡ 0)
          → (b || length m.attached == 0) ≡ true
      still true w f = refl
      still false w f = ground (arith, f (ground (arith, w)))

  pub Keeps-Holds : (n m : Node) → Keeps cfg n m → Holds cfg floor n → Holds cfg floor m
  Keeps-Holds n m k h = record {
    own = h.own;
    found = k.own ∙ h.found;
    state = h.state;
    current = h.current ∙ sym k.incarnation;
    at_least = rw k.incarnation h.at_least;
  }

  next_incarnation-le : (i : ℤ) → i ≤ℤ next_incarnation i
  unfolding next_incarnation ◌+ℤ◌
  next_incarnation-le i = ground arith

  le_ℤ-trans : (i j k : ℤ) → i ≤ℤ j → j ≤ℤ k → i ≤ℤ k
  le_ℤ-trans i j k p q = omega (arith, p, q)

  -- A refutation moves the node and its record on together.
  refute-IsSound :
      (r : MemberRecord) (n : Node)
      → ltb_ℤ r.incarnation n.incarnation ≡ false
      → (h : IsSound cfg floor n) → IsSound cfg floor (refute cfg r h.own.own n)
  unfolding refute announce_self merged_over
  refute-IsSound r n newer h =
      let own = h.own.own in
      let inc = next_incarnation r.incarnation in
      let m : Member = record {
        id = cfg.self;
        addr = cfg.advertise;
        incarnation = inc;
        role = own.role;
        state = alive;
        score = own.score;
        seq = own.seq;
      } in
      let n' : Node = record n { incarnation = inc; table = (upsert n.table m).0 } in
      let later : n.incarnation ≤ℤ inc = later_still n.incarnation r.incarnation newer in
      let older : own.incarnation ≤ℤ inc = subst (λ i. i ≤ℤ inc) (sym h.own.current) later in
      let found : lookup cfg.self n'.table.members ≡ some (merged own m) =
        lookup-upsert n.table m cfg.self
        ∙ rw ((==_iff cfg.self cfg.self).1 refl, h.own.found) refl in
      let w = merged-refutation own m h.own.state refl older refl refl in
      let same : h.role.own ≡ own = some_inj (sym h.role.found ∙ h.own.found) in
      Keeps-IsSound n' (refute cfg r own n) (push_record-Keeps cfg cfg.self n') (record {
        own = record {
          own = merged own m;
          found = found;
          state = w.0;
          current = w.1;
          at_least = le_ℤ-trans floor n.incarnation inc h.own.at_least later;
        };
        role = record {
          own = merged own m;
          found = found;
          role =
              ap (λ q. eq_role q leader) (w.2 ∙ ap (λ (x : Member). x.role) (sym same))
              ∙ h.role.role;
        };
        link = h.link;
      })
    where
      later_still : (i j : ℤ) → ltb_ℤ j i ≡ false → i ≤ℤ next_incarnation j
      later_still i j e =
          le_ℤ-trans i j (next_incarnation j) (ground (arith, e)) (next_incarnation-le j)

  pub refute_if_needed-IsSound :
      (r : MemberRecord) (n : Node)
      → IsSound cfg floor n
      → IsSound cfg floor (refute_if_needed cfg r n)
  unfolding refute_if_needed get_member
  refute_if_needed-IsSound r n h =
      elim (Bool-cases
        (eq_state (parse_state r.state) alive || ltb_ℤ r.incarnation n.incarnation)) [
          | inl e ↦ rw (e, refute_if_needed) h
          | inr e ↦ rw (e, h.own.found, refute_if_needed) (refute-IsSound r n (ground (arith, e)) h)
        ]

  pub take_any-IsSound :
      (from : NodeId) (before : View) (r : MemberRecord) (n : Node)
      → IsSound cfg floor n
      → IsSound cfg floor (take_any cfg from before r n).1
  unfolding take_any
  take_any-IsSound from before r n h = elim (Bool-cases (r.id == 0)) [
    | inl e ↦ rw (e, take_any) h
    | inr e ↦ elim (Bool-cases (r.id == cfg.self)) [
      | inl f ↦ rw (e, f, take_any) (refute_if_needed-IsSound r n h)
      | inr f ↦
          rw (e, f, take_any)
            (Keeps-IsSound n (take_record cfg from before r n).1
              (take_record-Keeps cfg from before r n (ground (arith, f))) h)
    ]
  ]

  -- Whatever a delta says of whom, its records leave a sound node sound.
  pub take_records-IsSound :
      (from : NodeId) (before : View) (rs : List MemberRecord) (c : Bool) (n : Node)
      → IsSound cfg floor n
      → IsSound cfg floor (take_records cfg from before rs (c, n)).1
  unfolding take_records
  take_records-IsSound from before [] c n h = h
  take_records-IsSound from before (r ∷ rs) c n h =
      let one = take_any cfg from before r n in
      take_records-IsSound from before rs (c || one.0) one.1 (take_any-IsSound from before r n h)
