-- ===== src/Cluster/Node/Loop/Elects.antt =====
-- What evaluate leaves behind, whatever the node's role was before.
use swarm_communication.Prelude.{
  ◌≡◌, ◌≢◌, refl, sym, ap, ◌∙◌, subst, Bool, true, false, not, ◌&&◌, ◌||◌, some, none, Option, List,
  [], ◌∷◌, ◌==◌, arith, Bool-cases, Option-cases, inl, inr, ==_iff, some_inj, contains, keep,
  length, ltb,
}
use swarm_communication.Health.{is_valid_score}
use swarm_communication.Cluster.Member.{NodeId, View}
use swarm_communication.Cluster.Election.{Result}
use swarm_communication.Cluster.Affinity.{choose_leader, should_rehome}
use swarm_communication.Cluster.Affinity.Choice.{choose_leader_best}
use swarm_communication.Cluster.Wire.{Message}
use swarm_communication.Cluster.Node.{NodeConfig, Node, equal_ids, send}
use swarm_communication.Cluster.Node.Failure.{push_record, usable_leaders, is_doubted, get_member}
use swarm_communication.Cluster.Node.Evaluate.{
  lead, detach, pick, join, note_leaders, follow_pick, follow, take_role, local_score,
  max_rejections_per_round,
}

equal_ids_sound : (xs ys : List NodeId) → equal_ids xs ys ≡ true → xs ≡ ys
unfolding equal_ids
equal_ids_sound [] [] h = refl
equal_ids_sound [] (y ∷ ys) h = cc
equal_ids_sound (x ∷ xs) [] h = cc
equal_ids_sound (x ∷ xs) (y ∷ ys) h = ground (arith, equal_ids_sound xs ys)

contains-keep :
    (p : NodeId → Bool) (xs : List NodeId) (id : NodeId)
    → contains xs id ≡ false
    → contains (keep p xs) id ≡ false
contains-keep p [] id h = refl
contains-keep p (x ∷ xs) id h = ground (arith, contains-keep p xs id)

-- A leader is its own leader; nobody else is, and has workers.
pub record IsLinked (self : NodeId) (leads : Bool) (leader : NodeId) (attached : List NodeId)
    : Type 0 where
  pub led : (leader == self) ≡ leads
  pub workers : (leads || length attached == 0) ≡ true

-- The fields that the parts of evaluate leave alone.
pub record SameTable (n m : Node) : Type 0 where
  pub table : m.table ≡ n.table
  pub incarnation : m.incarnation ≡ n.incarnation
  pub leaders : m.leaders ≡ n.leaders

same_table : (n : Node) → SameTable n n
same_table n = record { table = refl; incarnation = refl; leaders = refl }

SameTable-trans : {a b c : Node} → SameTable a b → SameTable b c → SameTable a c
SameTable-trans p q = record {
  table = q.table ∙ p.table;
  incarnation = q.incarnation ∙ p.incarnation;
  leaders = q.leaders ∙ p.leaders;
}

-- A worker follows the leader `l`: nobody, or one of the usable leaders.
abbrev pub Follows : List NodeId → NodeId → Type 0
Follows usable l = (l == 0 || contains usable l) ≡ true

module _ (cfg : NodeConfig) where
  detach-SameTable :
      (view : View) (usable : List NodeId) (n : Node)
      → SameTable n (detach view usable n)
        × ((detach view usable n).attached ≡ n.attached)
        × Follows usable (detach view usable n).leader
  unfolding detach
  detach-SameTable view usable n = elim (Bool-cases (n.leader == 0 || contains usable n.leader)) [
    | inl e ↦ rw (e, detach) (same_table n, refl, e)
    | inr e ↦
        rw (e, detach) (record { table = refl; incarnation = refl; leaders = refl }, refl, refl)
  ]

  join-SameTable :
      (usable : List NodeId) (to : NodeId) (n : Node)
      → Follows usable to
      → Follows usable n.leader
      → SameTable n (join cfg to n)
        × ((join cfg to n).attached ≡ n.attached)
        × Follows usable (join cfg to n).leader
  unfolding join
  join-SameTable usable to n ht hn = elim (Bool-cases (is_valid_score (local_score to n))) [
    | inr e ↦ rw (e, join) (same_table n, refl, hn)
    | inl e ↦
        elim (Bool-cases
          (send cfg to (Message.join_cluster cfg.self (local_score to n)) n.work).0) [
            | inl a ↦
                rw (e, a, join)
                  (record { table = refl; incarnation = refl; leaders = refl }, refl, ht)
            | inr a ↦
                rw (e, a, join)
                  (record { table = refl; incarnation = refl; leaders = refl }, refl, refl)
          ]
  ]

  contains-Follows :
      (usable : List NodeId) (id : NodeId) → contains usable id ≡ true → Follows usable id
  contains-Follows usable id h = ground (arith, h)

  -- The leader that a worker picks is usable.
  pick-Follows :
      (usable : List NodeId) (n : Node) (best : NodeId)
      → pick usable n ≡ some best
      → Follows usable best
  unfolding pick
  pick-Follows usable n best = elim (Bool-cases (ltb max_rejections_per_round n.rejections)) [
    | inl e ↦ rw (e, pick) λ h. absurd (cc)
    | inr e ↦ elim (Bool-cases (not (n.hint == 0) && contains usable n.hint)) [
      | inl hinted ↦
          rw (e, hinted, pick)
            λ h. contains-Follows usable best (
              subst (λ id. contains usable id ≡ true) (some_inj h)
                (and_right (not (n.hint == 0)) (contains usable n.hint) hinted))
      | inr plain ↦ elim (Option-cases (choose_leader n.local usable)) [
        | inl c ↦ rw (e, plain, c, pick) λ h. absurd (cc)
        | inr ((b, s), c) ↦
            rw (e, plain, c, pick)
              λ h. contains-Follows usable best (
                subst (λ id. contains usable id ≡ true) (some_inj h)
                  (choose_leader_best n.local usable b s c).0)
      ]
    ]
  ]
    where
      and_right : (a b : Bool) → (a && b) ≡ true → b ≡ true
      and_right a b h = ground arith

  follow_pick-SameTable :
      (usable : List NodeId) (o : Option NodeId) (n : Node)
      → ((best : NodeId) → o ≡ some best → Follows usable best)
      → Follows usable n.leader
      → SameTable n (follow_pick cfg usable o n)
        × ((follow_pick cfg usable o n).attached ≡ n.attached)
        × Follows usable (follow_pick cfg usable o n).leader
  unfolding follow_pick
  follow_pick-SameTable usable none n ho hn = (same_table n, refl, hn)
  follow_pick-SameTable usable (some best) n ho hn =
      elim (Bool-cases (should_rehome cfg.ops n.leader best n.local usable n.rehome)) [
        | inl e ↦ rw (e, follow_pick) (join-SameTable usable best n (ho best refl) hn)
        | inr e ↦ rw (e, follow_pick) (same_table n, refl, hn)
      ]

  pub follow-SameTable :
      (view : View) (leaders : List NodeId) (n : Node)
      → SameTable n (follow cfg view leaders n)
        × ((follow cfg view leaders n).attached ≡ [])
        × Follows (usable_leaders n leaders) (follow cfg view leaders n).leader
  unfolding follow
  follow-SameTable view leaders n =
      let usable = usable_leaders n leaders in
      let n1 : Node = detach view usable (record n { attached = [] }) in
      let d = detach-SameTable view usable (record n { attached = [] }) in
      let f =
        follow_pick-SameTable usable (pick usable n1) (record n1 { hint = 0 })
          (pick-Follows usable n1) d.2 in
      (
        record {
          table = f.0.table ∙ d.0.table;
          incarnation = f.0.incarnation ∙ d.0.incarnation;
          leaders = f.0.leaders ∙ d.0.leaders;
        },
        f.1 ∙ d.1,
        f.2,
      )

  -- A worker that follows one of the leaders follows somebody else.
  Follows-other :
      (named : cfg.self ≢ 0) (n : Node) (leaders : List NodeId) (l : NodeId)
      → contains leaders cfg.self ≡ false
      → Follows (usable_leaders n leaders) l
      → (l == cfg.self) ≡ false
  unfolding usable_leaders
  Follows-other named n leaders l h f =
      let k = contains-keep (λ id. not (is_doubted id n)) leaders cfg.self h in
      elim (Bool-cases (l == cfg.self)) [
        | inr e ↦ e
        | inl e ↦
            let same = (==_iff l cfg.self).0 e in
            let f' = subst (λ id. Follows (keep (λ id. not (is_doubted id n)) leaders) id) same f in
            absurd (ground (arith, f', k, named))
      ]

  pub take_role-SameTable :
      (named : cfg.self ≢ 0) (view : View) (res : Result) (n : Node)
      → SameTable n (take_role cfg view res n)
        × IsLinked cfg.self
            (contains res.leaders cfg.self)
            (take_role cfg view res n).leader
            (take_role cfg view res n).attached
  unfolding take_role lead
  take_role-SameTable named view res n = elim (Bool-cases (contains res.leaders cfg.self)) [
    | inl e ↦
        rw (e, take_role)
          (
            record { table = refl; incarnation = refl; leaders = refl },
            record { led = ground arith; workers = refl },
          )
    | inr e ↦
        let f = follow-SameTable view res.leaders n in
        rw (e, take_role)
          (
            f.0,
            record {
              led = Follows-other named n res.leaders _ e f.2;
              workers = ap (λ (l : List NodeId). false || length l == 0) f.1;
            },
          )
  ]

  pub note_leaders-leaders :
      (res : Result) (n : Node)
      → ((note_leaders cfg res n).leaders ≡ res.leaders)
        × ((note_leaders cfg res n).table ≡ n.table)
        × ((note_leaders cfg res n).incarnation ≡ n.incarnation)
  unfolding note_leaders
  note_leaders-leaders res n = elim (Bool-cases (equal_ids res.leaders n.leaders)) [
    | inl e ↦ rw (e, note_leaders) (sym (equal_ids_sound res.leaders n.leaders e), refl, refl)
    | inr e ↦ rw (e, note_leaders) (refl, refl, refl)
  ]

  pub push_record-SameTable : (id : NodeId) (n : Node) → SameTable n (push_record cfg id n)
  unfolding push_record
  push_record-SameTable id n = elim (Option-cases (get_member id n)) [
    | inl e ↦ rw (e, push_record) (same_table n)
    | inr (m, e) ↦ rw (e, push_record) (record { table = refl; incarnation = refl; leaders = refl })
  ]
