-- ===== src/Cluster/Node/Probes/Silence.antt =====
-- checkLeaderSilence: a worker that hears no beat from its leader for long enough leaves it.
use swarm_communication.Prelude.{
  ℕ, ◌+◌, ◌≡◌, ◌≢◌, ◌⊎◌, ◌<◌, refl, sym, ap, ◌∙◌, subst, Bool, true, false, not, none, some, List,
  [], ◌∷◌, ◌==◌, arith, Bool-cases, Option-cases, inl, inr, if◌then◌else◌, ==_iff, contains, keep,
  length, ltb,
}
use swarm_communication.Prelude.Int.{pos}
use swarm_communication.Prelude.Map.{Map, lookup, insert, lookup-insert}
use swarm_communication.Cluster.Member.{
  NodeId, Member, View, view_scores, Role, dead, suspect, eq_state,
}
use swarm_communication.Cluster.Table.{set_role, set_state, snapshot}
use swarm_communication.Cluster.Election.{Result}
use swarm_communication.Cluster.Node.{NodeConfig, Node, Suspicion, is_leader, equal_ids}
use swarm_communication.Cluster.Node.Tasks.{adopt_orphans}
use swarm_communication.Cluster.Node.Failure.{
  get_member, is_doubted, doubt, push_record, announce_self, raise_doubt, suspect_peer, mark_silent,
  usable_leaders,
}
use swarm_communication.Cluster.Node.Evaluate.{
  lead, follow, claim_role, note_leaders, take_role, count_view, hold_election, own_role, evaluate,
  retain_live, membership_changed,
}
use swarm_communication.Cluster.Node.Probes.{fail_over, check_leader_silence}
use swarm_communication.Cluster.Node.Loop.Elects.{follow-SameTable, Follows}
use swarm_communication.Cluster.Node.Loop.Evaluated.{settle_role-same}

contains-keep_not :
    (p : NodeId → Bool) (xs : List NodeId) (id : NodeId)
    → p id ≡ false
    → contains (keep p xs) id ≡ false
contains-keep_not p [] id h = refl
contains-keep_not p (x ∷ xs) id h = elim (Bool-cases (p x)) [
  | inl e ↦ rw (e, elsewhere e (Bool-cases (x == id))) (contains-keep_not p xs id h)
  | inr e ↦ rw e (contains-keep_not p xs id h)
]
  where
    elsewhere : p x ≡ true → ((x == id) ≡ true) ⊎ ((x == id) ≡ false) → (x == id) ≡ false
    elsewhere e (inr apart) = apart
    elsewhere e (inl same) =
        let clash : true ≡ false = sym e ∙ ap p ((==_iff x id).0 same) ∙ h in absurd (cc)

module _ (cfg : NodeConfig) where
  -- A doubt of the node's is recorded.
  push_record-suspects : (id : NodeId) (n : Node) → (push_record cfg id n).suspects ≡ n.suspects
  unfolding push_record
  push_record-suspects id n = elim (Option-cases (get_member id n)) [
    | inl e ↦ rw (e, push_record) refl
    | inr (m, e) ↦ rw (e, push_record) refl
  ]

  mark_silent-doubts :
      (now : ℕ) (id : NodeId) (m : Member) (n : Node)
      → (id == cfg.self) ≡ false
      → get_member id n ≡ some m
      → eq_state m.state dead ≡ false
      → is_doubted id (mark_silent cfg now id n).1 ≡ true
  unfolding suspect_peer raise_doubt is_doubted
  mark_silent-doubts now id m n other found up =
      let d = doubt now m true n (lookup id n.suspects) in
      let n' : Node = record n {
        suspects = insert id d n.suspects;
        table = (set_state n.table id suspect).0;
      } in
      let e : lookup id n'.suspects ≡ some d = ground (arith, lookup-insert id id d n.suspects) in
      rw (other, found, up, suspect_peer) (doubted (set_state n.table id suspect).1 n' e)
    where
      doubted :
          (b : Bool) (n' : Node) {d : Suspicion}
          → lookup id n'.suspects ≡ some d
          → is_doubted id (if b then push_record cfg id n' else n') ≡ true
      doubted true n' e = rw (is_doubted, push_record-suspects id n', e) refl
      doubted false n' e = rw (is_doubted, e) refl

  claim_role-suspects : (r : Role) (n : Node) → (claim_role cfg r n).suspects ≡ n.suspects
  unfolding claim_role announce_self
  claim_role-suspects r n = elim (Bool-cases (set_role n.table cfg.self r).1) [
    | inl e ↦
        rw (e, claim_role)
          (push_record-suspects cfg.self (record n { table = (set_role n.table cfg.self r).0 }))
    | inr e ↦ rw (e, claim_role) refl
  ]

  note_leaders-suspects : (res : Result) (n : Node) → (note_leaders cfg res n).suspects ≡ n.suspects
  unfolding note_leaders
  note_leaders-suspects res n = elim (Bool-cases (equal_ids res.leaders n.leaders)) [
    | inl e ↦ rw (e, note_leaders) refl
    | inr e ↦ rw (e, note_leaders) refl
  ]

  -- Nobody follows whom they doubt.
  Follows-undoubted :
      (n : Node) (leaders : List NodeId) (id l : NodeId)
      → is_doubted id n ≡ true
      → id ≢ 0
      → Follows (usable_leaders n leaders) l
      → l ≢ id
  unfolding usable_leaders
  Follows-undoubted n leaders id l d named f same =
      let out : contains (usable_leaders n leaders) id ≡ false =
        contains-keep_not (λ x. not (is_doubted x n)) leaders id (ap not d) in
      let f' = subst (λ x. Follows (usable_leaders n leaders) x) same f in
      absurd (ground (arith, f', out, named))

  take_role-undoubted :
      (view : View) (res : Result) (id : NodeId) (n : Node)
      → is_doubted id n ≡ true
      → id ≢ 0
      → id ≢ cfg.self
      → (take_role cfg view res n).leader ≢ id
  unfolding take_role lead
  take_role-undoubted view res id n d named other =
      elim (Bool-cases (contains res.leaders cfg.self)) [
        | inl e ↦ rw (e, take_role) λ same. other (sym same)
        | inr e ↦
            rw (e, take_role)
              (Follows-undoubted n res.leaders id (follow cfg view res.leaders n).leader d named
                (follow-SameTable cfg view res.leaders n).2)
      ]

  evaluate-undoubted :
      (id : NodeId) (n : Node)
      → is_doubted id n ≡ true
      → id ≢ 0
      → id ≢ cfg.self
      → (evaluate cfg n).leader ≢ id
  unfolding evaluate count_view is_doubted
  evaluate-undoubted id n d named other =
      let view = snapshot n.table in
      let res = hold_election cfg n in
      let e0 : Node = record n { reported_scores = view_scores view } in
      let e1 = claim_role cfg (own_role cfg res) e0 in
      let e2 = note_leaders cfg res e1 in
      let e3 = take_role cfg view res e2 in
      let d' : is_doubted id e2 ≡ true =
        ap (λ (ss : Map Suspicion). elim (lookup id ss) [ none ↦ false | some s ↦ true ])
          (note_leaders-suspects res e1 ∙ claim_role-suspects (own_role cfg res) e0)
        ∙ d in
      let s = settle_role-same cfg (pos 0) (is_leader cfg n) (count_view view e3) in
      λ same. take_role-undoubted view res id e2 d' named other (sym s.3 ∙ same)

  fail_over-leaves :
      (now : ℕ) (n : Node) (m : Member)
      → n.leader ≢ 0
      → n.leader ≢ cfg.self
      → get_member n.leader n ≡ some m
      → eq_state m.state dead ≡ false
      → (fail_over cfg now n).leader ≢ n.leader
  unfolding fail_over membership_changed retain_live is_doubted get_member
  fail_over-leaves now n m named other found up =
      let n' : Node = record n { since_beat = 0; work = adopt_orphans n.work } in
      let v = (mark_silent cfg now n.leader n').1 in
      evaluate-undoubted n.leader (retain_live cfg (record v { leader = 0 }))
        (mark_silent-doubts now n.leader m n' (ground (arith, other)) found up) named other

check-waits :
    (cfg : NodeConfig) (now : ℕ) (n : Node)
    → ltb (n.since_beat + 1) cfg.heartbeat_misses ≡ true
    → check_leader_silence cfg now n ≡ record n { since_beat = n.since_beat + 1 }
unfolding check_leader_silence
check-waits cfg now n e = rw (e, check_leader_silence) refl

check-fails_over :
    (cfg : NodeConfig) (now : ℕ) (n : Node)
    → ltb (n.since_beat + 1) cfg.heartbeat_misses ≡ false
    → check_leader_silence cfg now n
      ≡ fail_over cfg now (record n { since_beat = n.since_beat + 1 })
unfolding check_leader_silence
check-fails_over cfg now n e = rw (e, check_leader_silence) refl

-- The checks of a leader that sends no beat, one at each time of the list.
unfoldable pub silence : NodeConfig → List ℕ → Node → Node
silence cfg [] n = n
silence cfg (now ∷ times) n = silence cfg times (check_leader_silence cfg now n)

-- A worker whose leader is in its table and not dead, and sends no beat any more, has left it once its
-- checks make up HeartbeatMisses: it then has another leader, or none.
pub silence-leaves :
    (cfg : NodeConfig) (times : List ℕ) (n : Node) (m : Member)
    → n.leader ≢ 0
    → n.leader ≢ cfg.self
    → get_member n.leader n ≡ some m
    → eq_state m.state dead ≡ false
    → n.since_beat < cfg.heartbeat_misses
    → length times + n.since_beat ≡ cfg.heartbeat_misses
    → (silence cfg times n).leader ≢ n.leader
unfolding silence get_member
silence-leaves cfg [] n m named other found up early count = absurd (omega (arith, early, count))
silence-leaves cfg (now ∷ []) n m named other found up early count =
    let n' : Node = record n { since_beat = n.since_beat + 1 } in
    let e : ltb (n.since_beat + 1) cfg.heartbeat_misses ≡ false = ground (arith, count) in
    rw (check-fails_over cfg now n e) (fail_over-leaves cfg now n' m named other found up)
silence-leaves cfg (now ∷ next ∷ times) n m named other found up early count =
    let n' : Node = record n { since_beat = n.since_beat + 1 } in
    let early' : n'.since_beat < cfg.heartbeat_misses = omega (arith, count) in
    let e : ltb (n.since_beat + 1) cfg.heartbeat_misses ≡ true = ground (arith, early') in
    subst (λ (x : Node). (silence cfg (next ∷ times) x).leader ≢ n.leader)
      (sym (check-waits cfg now n e))
      (silence-leaves cfg (next ∷ times) n' m named other found up early' (omega (arith, count)))
