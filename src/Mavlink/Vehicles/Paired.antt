-- ===== src/Mavlink/Vehicles/Paired.antt =====
-- The two maps of the registry are inverses of each other, over every order of calls.
use swarm_communication.Prelude.{
  ℕ, zero, suc, ◌≡◌, ◌≤◌, refl, sym, ◌∙◌, ap, subst, Bool, true, none, some, List, [], ◌∷◌, arith,
  Bool-cases, Option-cases, some_inj, inl, inr, ◌==◌, ==_iff, ◌||◌, ltb, length, if◌then◌else◌, ◌⊎◌,
  All,
}
use swarm_communication.Prelude.Map.{Map, lookup, insert, erase, lookup-insert, lookup-erase}
use swarm_communication.Cluster.Member.{NodeId}
use swarm_communication.Mavlink.Vehicles.{
  Vehicles, new_vehicles, trailing_sys_id, trailing_digits, parse_digits, assign_locked, free_from,
  pick_sys_id, sys_id, release, Call, after, min_sys_id, max_sys_id, sys_id_of,
}

-- Each ID stands for one node and each node has one ID, between MinSysID and MaxSysID.
pub record IsPaired (v : Vehicles) : Type 0 where
  pub node_first : (node id : ℕ) → lookup node v.by_node ≡ some id → lookup id v.by_sys ≡ some node
  pub sys_first : (node id : ℕ) → lookup id v.by_sys ≡ some node → lookup node v.by_node ≡ some id
  pub in_range :
      (node id : ℕ) → lookup node v.by_node ≡ some id → (min_sys_id ≤ id) × (id ≤ max_sys_id)

-- A new entry in one of two maps that agree.
insert_agrees :
    (k v : ℕ) (m w : Map ℕ)
    → lookup v w ≡ none
    → ((a i : ℕ) → lookup a m ≡ some i → lookup i w ≡ some a)
    → (a i : ℕ) → lookup a (insert k v m) ≡ some i
    → lookup i (insert v k w) ≡ some a
insert_agrees k v m w free agrees a i h = elim (Bool-cases (k == a)) [
  | inl e ↦
      let same : v ≡ i = some_inj (sym (lookup-insert k a v m ∙ rw e refl) ∙ h) in
      let e' : (v == i) ≡ true = (==_iff v i).1 same in
      lookup-insert v i k w ∙ rw e' (ap (λ x. some x) ((==_iff k a).0 e))
  | inr e ↦
      let old : lookup a m ≡ some i = sym (lookup-insert k a v m ∙ rw e refl) ∙ h in
      let there = agrees a i old in
      elim (Bool-cases (v == i)) [
        | inr f ↦ lookup-insert v i k w ∙ rw f there
        | inl f ↦
            let clash : none ≡ some a =
              sym free ∙ ap (λ x. lookup x w) ((==_iff v i).0 f) ∙ there in
            absurd (cc)
      ]
]

-- And an entry less in both.
erase_agrees :
    (k v : ℕ) (m w : Map ℕ)
    → lookup v w ≡ some k
    → ((a i : ℕ) → lookup a m ≡ some i → lookup i w ≡ some a)
    → (a i : ℕ) → lookup a (erase k m) ≡ some i
    → lookup i (erase v w) ≡ some a
erase_agrees k v m w held agrees a i h = elim (Bool-cases (k == a)) [
  | inl e ↦ let clash : none ≡ some i = sym (lookup-erase k a m ∙ rw e refl) ∙ h in absurd (cc)
  | inr e ↦
      let old : lookup a m ≡ some i = sym (lookup-erase k a m ∙ rw e refl) ∙ h in
      let there = agrees a i old in
      elim (Bool-cases (v == i)) [
        | inr f ↦ lookup-erase v i w ∙ rw f there
        | inl f ↦
            let same : k ≡ a =
              some_inj (sym held ∙ ap (λ x. lookup x w) ((==_iff v i).0 f) ∙ there) in
            absurd (ground (arith, e, same))
      ]
]

assign_locked-IsPaired :
    (node id : ℕ) (v : Vehicles)
    → lookup node v.by_node ≡ none
    → lookup id v.by_sys ≡ none
    → (min_sys_id ≤ id) × (id ≤ max_sys_id)
    → IsPaired v
    → IsPaired (assign_locked node id v)
unfolding assign_locked
assign_locked-IsPaired node id v new free range h = record {
  node_first = insert_agrees node id v.by_node v.by_sys free h.node_first;
  sys_first = λ a i. insert_agrees id node v.by_sys v.by_node new (λ i a. h.sys_first a i) i a;
  in_range = ranged;
}
  where
    ranged :
        (a i : ℕ)
        → lookup a (insert node id v.by_node) ≡ some i
        → (min_sys_id ≤ i) × (i ≤ max_sys_id)
    ranged a i g = elim (Bool-cases (node == a)) [
      | inl e ↦
          subst (λ x. (min_sys_id ≤ x) × (x ≤ max_sys_id))
            (some_inj (sym (lookup-insert node a id v.by_node ∙ rw e refl) ∙ g)) range
      | inr e ↦ h.in_range a i (sym (lookup-insert node a id v.by_node ∙ rw e refl) ∙ g)
    ]

release-IsPaired : (node : ℕ) (v : Vehicles) → IsPaired v → IsPaired (release node v)
unfolding release
release-IsPaired node v h = elim (Option-cases (lookup node v.by_node)) [
  | inl e ↦ rw (e, release) h
  | inr (id, e) ↦
      rw (e, release)
        (record {
          node_first =
              erase_agrees node id v.by_node v.by_sys (h.node_first node id e) h.node_first;
          sys_first = λ a i. erase_agrees id node v.by_sys v.by_node e (λ i a. h.sys_first a i) i a;
          in_range = λ a i g. ranged a i g;
        })
]
  where
    ranged :
        (a i : ℕ) → lookup a (erase node v.by_node) ≡ some i → (min_sys_id ≤ i) × (i ≤ max_sys_id)
    ranged a i g = elim (Bool-cases (node == a)) [
      | inl e ↦
          let clash : none ≡ some i = sym (lookup-erase node a v.by_node ∙ rw e refl) ∙ g in
          absurd (cc)
      | inr e ↦ h.in_range a i (sym (lookup-erase node a v.by_node ∙ rw e refl) ∙ g)
    ]

-- What is picked is free and in range.
free_from-free :
    (top : ℕ) (v : Vehicles) (id : ℕ)
    → free_from top v ≡ some id
    → (lookup id v.by_sys ≡ none) × (1 ≤ id) × (id ≤ top)
unfolding free_from
free_from-free zero v id h = absurd (cc)
free_from-free (suc top) v id h = elim (Option-cases (lookup (suc top) v.by_sys)) [
  | inl e ↦
      let same : suc top ≡ id = some_inj (
        subst (λ o. elim o [ none ↦ some (suc top) | some node ↦ free_from top v ] ≡ some id) e
          h) in
      (ap (λ x. lookup x v.by_sys) (sym same) ∙ e, omega (arith, same), omega (arith, same))
  | inr (node, e) ↦
      let below = free_from-free top v id (
        subst (λ o. elim o [ none ↦ some (suc top) | some node ↦ free_from top v ] ≡ some id) e
          h) in
      (below.0, below.1, omega (arith, below.2))
]

-- The IDs from `top` down to MinSysID.
unfoldable pub ids_up_to : ℕ → List ℕ
ids_up_to zero = []
ids_up_to (suc top) = suc top ∷ ids_up_to top

abbrev pub IsHeld : Vehicles → ℕ → Type 0
IsHeld v id = (holder : NodeId) × (lookup id v.by_sys ≡ some holder)

free_from-full : (top : ℕ) (v : Vehicles) → free_from top v ≡ none → All (IsHeld v) (ids_up_to top)
unfolding free_from ids_up_to
free_from-full zero v h = tt
free_from-full (suc top) v h = elim (Option-cases (lookup (suc top) v.by_sys)) [
  | inl e ↦
      let clash : some (suc top) ≡ none =
        subst (λ o. elim o [ none ↦ some (suc top) | some node ↦ free_from top v ] ≡ none) e h in
      absurd (cc)
  | inr (node, e) ↦
      let below : free_from top v ≡ none =
        subst (λ o. elim o [ none ↦ some (suc top) | some node ↦ free_from top v ] ≡ none) e h in
      ((node, e), free_from-full top v below)
]

trailing_sys_id-range :
    (name : List ℕ) (id : ℕ)
    → trailing_sys_id name ≡ some id
    → (min_sys_id ≤ id) × (id ≤ max_sys_id)
unfolding trailing_sys_id
trailing_sys_id-range name id h =
    in_bounds (length (trailing_digits name) == 0) (parse_digits 0 (trailing_digits name)) h
  where
    in_bounds :
        (b : Bool) (n : ℕ)
        → (if b || ltb n min_sys_id || ltb max_sys_id n then none else some n) ≡ some id
        → (min_sys_id ≤ id) × (id ≤ max_sys_id)
    in_bounds b n g = elim (Bool-cases (b || ltb n min_sys_id || ltb max_sys_id n)) [
      | inl e ↦
          let clash : none ≡ some id = subst (λ x. (if x then none else some n) ≡ some id) e g in
          absurd (cc)
      | inr e ↦
          let same : n ≡ id = some_inj (subst (λ x. (if x then none else some n) ≡ some id) e g) in
          subst (λ x. (min_sys_id ≤ x) × (x ≤ max_sys_id)) same
            (ground (arith, e), ground (arith, e))
    ]

pick_sys_id-free :
    (name : List ℕ) (v : Vehicles) (id : ℕ)
    → pick_sys_id name v ≡ some id
    → (lookup id v.by_sys ≡ none) × (min_sys_id ≤ id) × (id ≤ max_sys_id)
unfolding pick_sys_id
pick_sys_id-free name v id = elim (Option-cases (trailing_sys_id name)) [
  | inl e ↦ rw (e, pick_sys_id) (free_from-free max_sys_id v id)
  | inr (wanted, e) ↦ elim (Option-cases (lookup wanted v.by_sys)) [
    | inr (node, f) ↦ rw (e, f, pick_sys_id) (free_from-free max_sys_id v id)
    | inl f ↦
        rw (e, f, pick_sys_id)
          λ h.
            let same : wanted ≡ id = some_inj h in
            let range = trailing_sys_id-range name wanted e in
            subst (λ x. (lookup x v.by_sys ≡ none) × (min_sys_id ≤ x) × (x ≤ max_sys_id)) same
              (f, range.0, range.1)
  ]
]

pick_sys_id-full :
    (name : List ℕ) (v : Vehicles) → pick_sys_id name v ≡ none → free_from max_sys_id v ≡ none
unfolding pick_sys_id
pick_sys_id-full name v = elim (Option-cases (trailing_sys_id name)) [
  | inl e ↦ rw (e, pick_sys_id) λ h. h
  | inr (wanted, e) ↦ elim (Option-cases (lookup wanted v.by_sys)) [
    | inr (node, f) ↦ rw (e, f, pick_sys_id) λ h. h
    | inl f ↦ rw (e, f, pick_sys_id) λ h. absurd (cc)
  ]
]

module _ (name : NodeId → List ℕ) where
  sys_id-IsPaired : (node : NodeId) (v : Vehicles) → IsPaired v → IsPaired (sys_id name node v).1
  unfolding sys_id
  sys_id-IsPaired node v h = elim (Option-cases (lookup node v.by_node)) [
    | inr (id, e) ↦ rw (e, sys_id) h
    | inl e ↦ elim (Option-cases (pick_sys_id (name node) v)) [
      | inl f ↦ rw (e, f, sys_id) h
      | inr (id, f) ↦
          let p = pick_sys_id-free (name node) v id f in
          rw (e, f, sys_id) (assign_locked-IsPaired node id v e p.0 (p.1, p.2) h)
    ]
  ]

  after_from : (calls : List Call) (v : Vehicles) → IsPaired v → IsPaired (after name calls v)
  unfolding after
  after_from [] v h = h
  after_from (Call.acquired node ∷ calls) v h =
      after_from calls (sys_id name node v).1 (sys_id-IsPaired node v h)
  after_from (Call.released node ∷ calls) v h =
      after_from calls (release node v) (release-IsPaired node v h)

  -- After any calls of SysID and Release on a new registry, its two maps are inverses of each other, so
  -- that no two nodes share a system ID, and every ID given out lies between MinSysID and MaxSysID.
  pub after-IsPaired : (calls : List Call) → IsPaired (after name calls new_vehicles)
  unfolding lookup
  after-IsPaired calls = after_from calls new_vehicles (record {
    node_first = λ a i h. absurd (cc);
    sys_first = λ a i h. absurd (cc);
    in_range = λ a i h. absurd (cc);
  })

  -- SysID answers with the ID that a lookup of the node finds from then on. Otherwise it changes nothing,
  -- the node had no ID, and every ID from MinSysID to MaxSysID is held by some node.
  pub sys_id_answer :
      (node : NodeId) (v : Vehicles)
      → ((id : ℕ) × ((sys_id name node v).0 ≡ some id)
          × (sys_id_of node (sys_id name node v).1 ≡ some id))
        ⊎ ((sys_id name node v ≡ (none, v))
            × (sys_id_of node v ≡ none)
            × All (IsHeld v) (ids_up_to max_sys_id))
  unfolding sys_id sys_id_of assign_locked
  sys_id_answer node v = elim (Option-cases (lookup node v.by_node)) [
    | inr (id, e) ↦ rw (e, sys_id) (inl (id, refl, e))
    | inl e ↦ elim (Option-cases (pick_sys_id (name node) v)) [
      | inl f ↦
          rw (e, f, sys_id)
            (inr (refl, refl, free_from-full max_sys_id v (pick_sys_id-full (name node) v f)))
      | inr (id, f) ↦
          rw (e, f, sys_id)
            (inl (
              id,
              refl,
              lookup-insert node node id v.by_node ∙ rw ((==_iff node node).1 refl) refl,
            ))
    ]
  ]
