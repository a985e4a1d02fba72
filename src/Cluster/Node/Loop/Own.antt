-- ===== src/Cluster/Node/Loop/Own.antt =====
-- The record that a node holds of itself, under the operations of its table.
use swarm_communication.Prelude.{
  ◌+◌, ℕ, ◌≡◌, ◌≢◌, refl, ap, ◌∙◌, Bool, true, false, ◌&&◌, some, ◌==◌, arith, Bool-cases,
  Option-cases, inl, inr, if◌then◌else◌,
}
use swarm_communication.Prelude.Int.{ℤ, ltb_ℤ, ◌≤ℤ◌, eq_ℤ, eq_of_parts}
use swarm_communication.Prelude.Map.{lookup, insert, lookup-insert, lookup-erase}
use swarm_communication.Health.{Float64}
use swarm_communication.Cluster.Member.{
  NodeId, Member, Role, State, alive, worker, leader, eq_role, eq_state,
}
use swarm_communication.Cluster.Table.{
  Table, upsert, set_state, set_role, set_score, same_score, revive, remove, clamp_state,
  take_claims, u64,
}
use swarm_communication.Cluster.Table.Merge.{merged, lookup-upsert, merged-incarnation}

-- An operation on another ID leaves the entry alone.
module _ (t : Table) (k j : NodeId) (other : k ≢ j) where
  apart : (k == j) ≡ false
  apart = ground (arith, other)

  pub lookup-upsert_other :
      (m : Member) → m.id ≡ k → lookup j (upsert t m).0.members ≡ lookup j t.members
  lookup-upsert_other m e = lookup-upsert t m j ∙ rw (ap (λ i. i == j) e ∙ apart) refl

  -- What the operations do where they find an entry: nothing, or a write under its ID.
  written :
      (b : Bool) (m : Member) (v : ℕ)
      → lookup j
          (if◌then◌else◌ {A = Table × Bool} b
            (t, false)
            (record { members = insert k m t.members; version = v }, true)).0.members
        ≡ lookup j t.members
  written b m v = ground (arith, lookup-insert k j m t.members, apart)

  pub lookup-set_state_other :
      (s : State) → lookup j (set_state t k s).0.members ≡ lookup j t.members
  unfolding set_state
  lookup-set_state_other s = elim (Option-cases (lookup k t.members)) [
    | inl e ↦ rw (e, set_state) refl
    | inr (m, e) ↦ rw (e, set_state) (written (eq_state m.state s) _ _)
  ]

  pub lookup-revive_other : (i : ℤ) → lookup j (revive t k i).0.members ≡ lookup j t.members
  unfolding revive
  lookup-revive_other i = elim (Option-cases (lookup k t.members)) [
    | inl e ↦ rw (e, revive) refl
    | inr (m, e) ↦ elim (Bool-cases (ltb_ℤ i m.incarnation)) [
      | inl old ↦ rw (e, old, revive) refl
      | inr fresh ↦
          rw (e, fresh, revive) (written (eq_state m.state alive && eq_ℤ m.incarnation i) _ _)
    ]
  ]

  pub lookup-remove_other : lookup j (remove t k).0.members ≡ lookup j t.members
  unfolding remove
  lookup-remove_other = elim (Option-cases (lookup k t.members)) [
    | inl e ↦ rw (e, remove) refl
    | inr (m, e) ↦ rw (e, remove) (rw (lookup-erase k j t.members, apart) refl)
  ]

-- The node holds itself alive, at its own incarnation, which is at least `floor`.
pub record OwnsRecord (self : NodeId) (floor : ℤ) (t : Table) (incarnation : ℤ) : Type 0 where
  pub own : Member
  pub found : lookup self t.members ≡ some own
  pub state : own.state ≡ alive
  pub current : own.incarnation ≡ incarnation
  pub at_least : floor ≤ℤ incarnation

-- And its role is the one that its leaders give it.
pub record PlaysRole (self : NodeId) (t : Table) (leads : Bool) : Type 0 where
  pub own : Member
  pub found : lookup self t.members ≡ some own
  pub role : eq_role own.role leader ≡ leads

module _ (self : NodeId) (floor : ℤ) (t t' : Table)
    (same : lookup self t'.members ≡ lookup self t.members) where
  pub OwnsRecord-same : (i : ℤ) → OwnsRecord self floor t i → OwnsRecord self floor t' i
  OwnsRecord-same i h = record {
    own = h.own;
    found = same ∙ h.found;
    state = h.state;
    current = h.current;
    at_least = h.at_least;
  }

module _ (self : NodeId) (t t' : Table)
    (same : lookup self t'.members ≡ lookup self t.members) where
  pub PlaysRole-same : (leads : Bool) → PlaysRole self t leads → PlaysRole self t' leads
  PlaysRole-same leads h = record { own = h.own; found = same ∙ h.found; role = h.role }

-- SetRole and SetScore on the node's own record.
module _ (self : NodeId) (t : Table) (own : Member) (found : lookup self t.members ≡ some own) where
  pub lookup-set_role_self :
      (r : Role)
      → (m : Member) × (lookup self (set_role t self r).0.members ≡ some m)
        × (m.state ≡ own.state)
        × (m.incarnation ≡ own.incarnation)
        × (m.role ≡ r)
  unfolding set_role
  lookup-set_role_self r = elim (Bool-cases (eq_role own.role r)) [
    | inl e ↦ rw (found, e, set_role) (own, found, refl, refl, eq_role_sound own.role r e)
    | inr e ↦
        rw (found, e, set_role)
          (
            record own { role = r; seq = u64 (own.seq + 1) },
            ground (
              arith,
              lookup-insert self self (record own { role = r; seq = u64 (own.seq + 1) }) t.members,
            ),
            refl,
            refl,
            refl,
          )
  ]
    where
      eq_role_sound : (a b : Role) → eq_role a b ≡ true → a ≡ b
      eq_role_sound worker worker h = refl
      eq_role_sound leader leader h = refl
      eq_role_sound worker leader h = cc
      eq_role_sound leader worker h = cc

  pub lookup-set_score_self :
      (x : Float64)
      → (m : Member) × (lookup self (set_score t self x).0.members ≡ some m)
        × (m.state ≡ own.state)
        × (m.incarnation ≡ own.incarnation)
        × (m.role ≡ own.role)
  unfolding set_score
  lookup-set_score_self x = elim (Bool-cases (same_score own.score x)) [
    | inl e ↦ rw (found, e, set_score) (own, found, refl, refl, refl)
    | inr e ↦
        rw (found, e, set_score)
          (
            record own { score = x; seq = u64 (own.seq + 1) },
            ground (
              arith,
              lookup-insert self self (record own { score = x; seq = u64 (own.seq + 1) }) t.members,
            ),
            refl,
            refl,
            refl,
          )
  ]

-- A refutation, at an incarnation past the rumour, replaces the node's own record or agrees with it.
module _ (e m : Member) (up : e.state ≡ alive) (stands : m.state ≡ alive) where
  pub merged-refutation :
      e.incarnation ≤ℤ m.incarnation
      → m.role ≡ e.role
      → m.seq ≡ e.seq
      → ((merged e m).state ≡ alive)
        × ((merged e m).incarnation ≡ m.incarnation)
        × ((merged e m).role ≡ e.role)
  unfolding merged clamp_state take_claims
  merged-refutation older r q = (
    ground (arith, up, stands),
    merged-incarnation e m ∙ ground (arith, eq_of_parts e.incarnation m.incarnation),
    ground (arith, r, up, stands),
  )
