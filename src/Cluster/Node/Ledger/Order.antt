-- ===== src/Cluster/Node/Ledger/Order.antt =====
-- Snapshots of the ledger that overtake each other on the way to a worker.
use swarm_communication.Prelude.{
  ℕ, ◌≡◌, refl, sym, ◌∙◌, ap, Bool, true, false, not, ◌&&◌, ◌==◌, arith, Bool-cases, inl, inr,
  if◌then◌else◌, ltb,
}
use swarm_communication.Cluster.Member.{NodeId}
use swarm_communication.Cluster.Wire.{Snapshot}
use swarm_communication.Cluster.Node.{NodeConfig, Work, Node}
use swarm_communication.Cluster.Node.Ledger.{
  newer_snapshot, take_snapshot, is_foreign, is_stale, adopt_term, handle_state_sync,
}

-- Two snapshots that neither term nor version tells apart.
abbrev pub is_same_version : Snapshot → Snapshot → Bool
is_same_version p q = p.term == q.term && p.version == q.version

module _ (cfg : NodeConfig) where
  -- What the copy of a worker becomes.
  take_newer : Snapshot → Work → Work
  unfolding is_stale take_snapshot
  take_newer p w = if is_stale cfg p w then w else take_snapshot cfg p w

  stale_after :
      (p q : Snapshot) (w : Work)
      → is_stale cfg p w ≡ true
      → is_stale cfg q w ≡ false
      → is_stale cfg p (take_snapshot cfg q w) ≡ true
  unfolding is_stale take_snapshot newer_snapshot
  stale_after p q w a b = ground arith

  newer_or_stale :
      (p q : Snapshot) (w v : Work)
      → is_same_version p q ≡ false
      → is_stale cfg q (take_snapshot cfg p w) ≡ not (is_stale cfg p (take_snapshot cfg q v))
  unfolding is_stale take_snapshot newer_snapshot
  newer_or_stale p q w v differ = ground arith

  take_newer-stale : (p : Snapshot) (w : Work) → is_stale cfg p w ≡ true → take_newer p w ≡ w
  unfolding take_newer
  take_newer-stale p w a = rw a refl

  take_newer-fresh :
      (p : Snapshot) (w : Work) → is_stale cfg p w ≡ false → take_newer p w ≡ take_snapshot cfg p w
  unfolding take_newer
  take_newer-fresh p w a = rw a refl

  -- The later of two snapshots over the earlier one leaves nothing of it.
  take_newer-after :
      (p q : Snapshot) (w : Work)
      → take_newer q (take_snapshot cfg p w) ≡ (
          if is_stale cfg q (take_snapshot cfg p w)
          then take_snapshot cfg p w
          else take_snapshot cfg q w)
  unfolding take_newer take_snapshot
  take_newer-after p q w = refl

  choose : (b : Bool) (x y : Work) → (if not b then x else y) ≡ (if b then y else x)
  choose true x y = refl
  choose false x y = refl

  take_newer_comm :
      (p q : Snapshot) (w : Work)
      → is_same_version p q ≡ false
      → take_newer q (take_newer p w) ≡ take_newer p (take_newer q w)
  take_newer_comm p q w differ = elim (Bool-cases (is_stale cfg p w)) [
    | inl a ↦ elim (Bool-cases (is_stale cfg q w)) [
      | inl b ↦ rw (take_newer-stale p w a, take_newer-stale q w b, take_newer-stale p w a) refl
      | inr b ↦
          rw (take_newer-stale p w a, take_newer-fresh q w b)
            (sym (take_newer-stale p (take_snapshot cfg q w) (stale_after p q w a b)))
    ]
    | inr a ↦ elim (Bool-cases (is_stale cfg q w)) [
      | inl b ↦
          rw (take_newer-stale q w b, take_newer-fresh p w a)
            (take_newer-stale q (take_snapshot cfg p w) (stale_after q p w b a))
      | inr b ↦
          rw
            (
              take_newer-fresh p w a,
              take_newer-fresh q w b,
              take_newer-after p q w,
              take_newer-after q p w,
              newer_or_stale p q w w differ,
            )
            (choose (is_stale cfg p (take_snapshot cfg q w)) (take_snapshot cfg p w)
              (take_snapshot cfg q w))
    ]
  ]

  taken : Snapshot → Node → Node
  taken p n = record (adopt_term p.term n) { work = take_newer p n.work }

  sync-foreign :
      (from : NodeId) (p : Snapshot) (n : Node)
      → is_foreign cfg from p n ≡ true
      → handle_state_sync cfg from p n ≡ n
  unfolding handle_state_sync
  sync-foreign from p n f = rw (f, handle_state_sync) refl

  sync-taken :
      (from : NodeId) (p : Snapshot) (n : Node)
      → is_foreign cfg from p n ≡ false
      → handle_state_sync cfg from p n ≡ taken p n
  unfolding handle_state_sync take_newer taken
  sync-taken from p n f = elim (Bool-cases (is_stale cfg p n.work)) [
    | inl s ↦ rw (f, s, handle_state_sync) refl
    | inr s ↦ rw (f, s, handle_state_sync) refl
  ]

  max_comm :
      (a b t : ℕ)
      → (if ltb (if ltb t a then a else t) b then b else if ltb t a then a else t)
        ≡ (if ltb (if ltb t b then b else t) a then a else if ltb t b then b else t)
  max_comm a b t = ground arith

  taken_comm :
      (p q : Snapshot) (n : Node)
      → is_same_version p q ≡ false
      → taken q (taken p n) ≡ taken p (taken q n)
  unfolding taken
  taken_comm p q n differ =
      ap
        (λ (w : Work). record n { term = (adopt_term q.term (adopt_term p.term n)).term; work = w })
        (take_newer_comm p q n.work differ)
      ∙ ap (λ t. record n { term = t; work = take_newer p (take_newer q n.work) })
          (max_comm p.term q.term n.term)

  -- Two snapshots that differ in term or version leave a worker the same in either order, whatever it
  -- held before and whoever sent them.
  pub handle_state_sync_comm :
      (from : NodeId) (p q : Snapshot) (n : Node)
      → is_same_version p q ≡ false
      → handle_state_sync cfg from q (handle_state_sync cfg from p n)
        ≡ handle_state_sync cfg from p (handle_state_sync cfg from q n)
  unfolding is_foreign taken
  handle_state_sync_comm from p q n differ = elim (Bool-cases (is_foreign cfg from p n)) [
    | inl f ↦ elim (Bool-cases (is_foreign cfg from q n)) [
      | inl g ↦ rw (sync-foreign from p n f, sync-foreign from q n g, sync-foreign from p n f) refl
      | inr g ↦
          rw (sync-foreign from p n f, sync-taken from q n g)
            (sym (sync-foreign from p (taken q n) f))
    ]
    | inr f ↦ elim (Bool-cases (is_foreign cfg from q n)) [
      | inl g ↦
          rw (sync-foreign from q n g, sync-taken from p n f) (sync-foreign from q (taken p n) g)
      | inr g ↦
          rw (sync-taken from p n f, sync-taken from q n g)
            (sync-taken from q (taken p n) g
              ∙ taken_comm p q n differ
              ∙ sym (sync-taken from p (taken q n) f))
    ]
  ]
