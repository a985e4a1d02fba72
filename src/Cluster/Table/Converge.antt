-- ===== src/Cluster/Table/Converge.antt =====
-- Gossip converges: records that come from their authors may be merged in any order.
use mathlib.Core.List.{Permᴰ}
use swarm_communication.Prelude.{
  ℕ, ◌≡◌, refl, sym, subst, ◌∙◌, some, List, [], ◌∷◌, Bool-cases, inl, inr, Option-cases, ◌==◌,
  arith, All, ==_iff, some_inj,
}
use swarm_communication.Prelude.Int.{ℤ, eq_of_parts}
use swarm_communication.Prelude.Map.{lookup}
use swarm_communication.Prelude.Sort.{All-Permᴰ}
use swarm_communication.Health.{Float64}
use swarm_communication.Cluster.Member.{NodeId, NodeAddress, Role, rank, Member}
use swarm_communication.Cluster.Table.{Table, clamp_state, take_claims, upsert}
use swarm_communication.Cluster.Table.Merge.{
  merged, merged_over, lookup-upsert, merged-incarnation, merged-rank, merged-seq, top_comm,
  lex_comm, rank-injective,
}

-- What each node has claimed of itself: one role and score for each incarnation and Seq, and one
-- address for each incarnation.
pub record History : Type 0 where
  pub role : NodeId → ℤ → ℕ → Role
  pub score : NodeId → ℤ → ℕ → Float64
  pub home : NodeId → ℤ → NodeAddress

-- The record carries a claim of its author; its state is anybody's.
pub record IsTold (h : History) (m : Member) : Type 0 where
  pub role : m.role ≡ h.role m.id m.incarnation m.seq
  pub score : m.score ≡ h.score m.id m.incarnation m.seq
  pub home : m.addr ≡ h.home m.id m.incarnation

module _ (h : History) where
  IsTold-eq :
      (a b : Member)
      → a.id ≡ b.id
      → a.incarnation ≡ b.incarnation
      → a.state ≡ b.state
      → a.seq ≡ b.seq
      → IsTold h a
      → IsTold h b
      → a ≡ b
  IsTold-eq a b i j s q ta tb =
      ground (arith, ta.role, ta.score, ta.home, tb.role, tb.score, tb.home)

  merged-id : (e m : Member) → e.id ≡ m.id → (merged e m).id ≡ m.id
  unfolding merged take_claims clamp_state
  merged-id e m i = ground arith

  merged-IsTold : (e m : Member) → e.id ≡ m.id → IsTold h e → IsTold h m → IsTold h (merged e m)
  unfolding merged take_claims clamp_state
  merged-IsTold e m i te tm = ground (arith, eq_of_parts e.incarnation m.incarnation)

  merged_comm :
      (e a b : Member)
      → e.id ≡ a.id
      → a.id ≡ b.id
      → IsTold h e
      → IsTold h a
      → IsTold h b
      → merged (merged e a) b ≡ merged (merged e b) a
  merged_comm e a b i j te ta tb =
      let ea = merged e a in
      let eb = merged e b in
      let ia = merged-id e a i in
      let ib = merged-id e b (i ∙ j) in
      IsTold-eq (merged ea b) (merged eb a)
        (merged-id ea b (ia ∙ j) ∙ sym j ∙ sym (merged-id eb a (ib ∙ sym j)))
        (rw
          (
            merged-incarnation ea b,
            merged-incarnation eb a,
            merged-incarnation e a,
            merged-incarnation e b,
          )
          (top_comm e.incarnation a.incarnation b.incarnation))
        (rank-injective _ _ (
          rw
            (
              merged-rank ea b,
              merged-rank eb a,
              merged-rank e a,
              merged-rank e b,
              merged-incarnation e a,
              merged-incarnation e b,
            )
            (lex_comm e.incarnation a.incarnation b.incarnation (rank e.state) (rank a.state)
              (rank b.state))))
        (rw
          (
            merged-seq ea b,
            merged-seq eb a,
            merged-seq e a,
            merged-seq e b,
            merged-incarnation e a,
            merged-incarnation e b,
          )
          (lex_comm e.incarnation a.incarnation b.incarnation e.seq a.seq b.seq))
        (merged-IsTold ea b (ia ∙ j) (merged-IsTold e a i te ta) tb)
        (merged-IsTold eb a (ib ∙ sym j) (merged-IsTold e b (i ∙ j) te tb) ta)

  merged_swap : (a b : Member) → a.id ≡ b.id → IsTold h a → IsTold h b → merged a b ≡ merged b a
  merged_swap a b j ta tb =
      IsTold-eq (merged a b) (merged b a) (merged-id a b j ∙ sym j ∙ sym (merged-id b a (sym j)))
        (rw (merged-incarnation a b, merged-incarnation b a)
          (ground (arith, eq_of_parts a.incarnation b.incarnation)))
        (rank-injective _ _ (rw (merged-rank a b, merged-rank b a) (ground arith)))
        (rw (merged-seq a b, merged-seq b a) (ground arith)) (merged-IsTold a b j ta tb)
        (merged-IsTold b a (sym j) tb ta)

  -- Every entry of the table stands under its ID, and carries a claim of its author.
  abbrev pub HoldsTold : Table → Type 0
  HoldsTold t = (k : ℕ) (e : Member) → lookup k t.members ≡ some e → (e.id ≡ k) × IsTold h e

  merged_over-IsTold :
      (t : Table) (m : Member)
      → HoldsTold t
      → IsTold h m
      → ((merged_over (lookup m.id t.members) m).id ≡ m.id)
        × IsTold h (merged_over (lookup m.id t.members) m)
  unfolding merged_over
  merged_over-IsTold t m ht tm = elim (Option-cases (lookup m.id t.members)) [
    | inl o ↦ rw o (refl, tm)
    | inr (e, o) ↦
        rw o (merged-id e m (ht m.id e o).0, merged-IsTold e m (ht m.id e o).0 (ht m.id e o).1 tm)
  ]

  pub upsert-HoldsTold :
      (t : Table) (m : Member) → HoldsTold t → IsTold h m → HoldsTold (upsert t m).0
  upsert-HoldsTold t m ht tm k e o = elim (Bool-cases (m.id == k)) [
    | inl c ↦
        let new = merged_over-IsTold t m ht tm in
        subst (λ x. (x.id ≡ k) × IsTold h x) (some_inj (sym (rw (lookup-upsert t m k, c)) ∙ o))
          (new.0 ∙ (==_iff m.id k).0 c, new.1)
    | inr c ↦ ht k e (sym (rw (lookup-upsert t m k, c)) ∙ o)
  ]

  merged_over_comm :
      (t : Table) (a b : Member)
      → HoldsTold t
      → IsTold h a
      → IsTold h b
      → a.id ≡ b.id
      → merged_over (some (merged_over (lookup a.id t.members) a)) b
        ≡ merged_over (some (merged_over (lookup a.id t.members) b)) a
  unfolding merged_over
  merged_over_comm t a b ht ta tb j = elim (Option-cases (lookup a.id t.members)) [
    | inl o ↦ rw o (merged_swap a b j ta tb)
    | inr (e, o) ↦ rw o (merged_comm e a b (ht a.id e o).0 j (ht a.id e o).1 ta tb)
  ]

  -- Two records may be merged in either order.
  lookup-upsert_comm :
      (t : Table) (a b : Member)
      → HoldsTold t
      → IsTold h a
      → IsTold h b
      → (j : ℕ)
      → lookup j (upsert (upsert t a).0 b).0.members ≡ lookup j (upsert (upsert t b).0 a).0.members
  lookup-upsert_comm t a b ht ta tb j = ground (
    arith,
    lookup-upsert (upsert t a).0 b j,
    lookup-upsert (upsert t b).0 a j,
    lookup-upsert t a b.id,
    lookup-upsert t a j,
    lookup-upsert t b a.id,
    lookup-upsert t b j,
    merged_over_comm t a b ht ta tb,
  )

-- The records that reach a node, in their order of arrival.
unfoldable pub upsert_all : Table → List Member → Table
upsert_all t [] = t
upsert_all t (m ∷ ms) = upsert_all (upsert t m).0 ms

-- The same entry under every ID.
abbrev pub SameEntries : Table → Table → Type 0
SameEntries t u = (j : ℕ) → lookup j t.members ≡ lookup j u.members

SameEntries-upsert :
    (t u : Table) (m : Member) → SameEntries t u → SameEntries (upsert t m).0 (upsert u m).0
SameEntries-upsert t u m s j = ground (arith, lookup-upsert t m j, lookup-upsert u m j, s m.id, s j)

module _ (h : History) where
  HoldsTold-SameEntries : (t u : Table) → SameEntries t u → HoldsTold h t → HoldsTold h u
  HoldsTold-SameEntries t u s ht k e o = ht k e (s k ∙ o)

  upsert_all-HoldsTold :
      (t : Table) (ms : List Member)
      → HoldsTold h t
      → All (IsTold h) ms
      → HoldsTold h (upsert_all t ms)
  unfolding upsert_all
  upsert_all-HoldsTold t [] ht hs = ht
  upsert_all-HoldsTold t (m ∷ ms) ht hs =
      upsert_all-HoldsTold (upsert t m).0 ms (upsert-HoldsTold h t m ht hs.0) hs.1

  same_upsert_all :
      (t u : Table) (ms : List Member)
      → SameEntries t u
      → SameEntries (upsert_all t ms) (upsert_all u ms)
  unfolding upsert_all
  same_upsert_all t u [] s = s
  same_upsert_all t u (m ∷ ms) s =
      same_upsert_all (upsert t m).0 (upsert u m).0 ms (SameEntries-upsert t u m s)

  -- Two nodes that start from one table and hear the same records, in any two orders, hold the same
  -- entries, where the records and the table carry claims of their authors.
  pub upsert_all-perm :
      (t : Table) {xs ys : List Member}
      → Permᴰ xs ys
      → HoldsTold h t
      → All (IsTold h) xs
      → SameEntries (upsert_all t xs) (upsert_all t ys)
  unfolding upsert_all
  upsert_all-perm t Permᴰ.nil ht hs = λ j. refl
  upsert_all-perm t (Permᴰ.cons {a = a} {l₁ = k} {l₂ = l} e p) ht hs =
      subst (λ b. SameEntries (upsert_all (upsert t a).0 k) (upsert_all (upsert t b).0 l)) e
        (upsert_all-perm (upsert t a).0 p (upsert-HoldsTold h t a ht hs.0) hs.1)
  upsert_all-perm t (Permᴰ.swap {a = a} {b = b} {b' = a'} {l = l} e f) ht hs =
      subst
        (λ x.
          SameEntries (upsert_all (upsert (upsert t a).0 b).0 l)
            (upsert_all (upsert (upsert t x).0 a').0 l))
        f
        (subst
          (λ x.
            SameEntries (upsert_all (upsert (upsert t a).0 b).0 l)
              (upsert_all (upsert (upsert t b).0 x).0 l))
          e
          (same_upsert_all (upsert (upsert t a).0 b).0 (upsert (upsert t b).0 a).0 l
            (lookup-upsert_comm h t a b ht hs.0 hs.1.0)))
  upsert_all-perm t (Permᴰ.trans p q) ht hs =
      λ j. upsert_all-perm t p ht hs j ∙ upsert_all-perm t q ht (All-Permᴰ (IsTold h) p hs) j
