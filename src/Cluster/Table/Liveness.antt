-- ===== src/Cluster/Table/Liveness.antt =====
-- Deaths, revivals and refutations: what outranks what (SetState, Revive, NextIncarnation, Upsert).
use swarm_communication.Prelude.{
  ℕ, ◌≡◌, ◌≢◌, refl, ◌∙◌, true, false, some, List, [], ◌∷◌, ◌==◌, if◌then◌else◌, arith, All, inl,
  inr, Bool-cases, ==_iff,
}
use swarm_communication.Prelude.Int.{ℤ, ◌+ℤ◌, ◌≤ℤ◌, ◌<ℤ◌, eq_of_parts}
use swarm_communication.Prelude.Map.{lookup, lookup-insert}
use swarm_communication.Cluster.Member.{NodeId, State, alive, suspect, dead, eq_state, Member}
use swarm_communication.Cluster.Table.{
  Table, max_int64, next_incarnation, set_state, revive, upsert, upsert_known, clamp_state,
  take_claims,
}
use swarm_communication.Cluster.Table.Merge.{merged, merged_over, lookup-upsert}
use swarm_communication.Cluster.Table.Converge.{upsert_all}

-- Below the ceiling NextIncarnation goes up and stays in range, and at the ceiling it stays.
pub next_incarnation_bounds :
    (i : ℤ)
    → i <ℤ max_int64
    → (i <ℤ next_incarnation i)
      × (next_incarnation i ≤ℤ max_int64)
      × (next_incarnation max_int64 ≡ max_int64)
unfolding next_incarnation ◌+ℤ◌
next_incarnation_bounds i h = (ground (arith, eq_of_parts i max_int64), ground arith, refl)

-- The entry that SetState leaves under the ID of a member that it finds in another state.
abbrev died : Member → State → Member
died m s = record m {
  state = s;
  incarnation = if eq_state s dead then next_incarnation m.incarnation else m.incarnation;
}

pub lookup-set_state :
    (t : Table) (k : NodeId) (s : State) (j : ℕ) {m : Member}
    → lookup k t.members ≡ some m
    → lookup j (set_state t k s).0.members
      ≡ (if k == j then some (if eq_state m.state s then m else died m s) else lookup j t.members)
unfolding set_state
lookup-set_state t k s j {m} h =
    rw (h, set_state) (ground (arith, h, lookup-insert k j (died m s) t.members))

-- The member is recorded dead, at incarnation `i` or a later one.
pub record IsBuried (i : ℤ) (k : NodeId) (t : Table) : Type 0 where
  pub entry : Member
  pub found : lookup k t.members ≡ some entry
  pub state : entry.state ≡ dead
  pub at_least : i ≤ℤ entry.incarnation

merged-dead :
    (e m : Member)
    → e.state ≡ dead
    → m.incarnation ≤ℤ e.incarnation
    → ((merged e m).state ≡ dead) × (e.incarnation ≤ℤ (merged e m).incarnation)
unfolding merged clamp_state take_claims
merged-dead e m d o = (ground arith, ground arith)

upsert-IsBuried :
    (i : ℤ) (k : NodeId) (t : Table) (m : Member)
    → IsBuried i k t
    → (m.id ≡ k → m.incarnation ≤ℤ i)
    → IsBuried i k (upsert t m).0
unfolding merged_over
upsert-IsBuried i k t m b older = elim (Bool-cases (m.id == k)) [
  | inl c ↦
      let same = (==_iff m.id k).0 c in
      let e = b.entry in
      let kept = merged-dead e m b.state (omega (arith, older same, b.at_least)) in
      record {
        entry = merged e m;
        found = rw (lookup-upsert t m k, c, same, b.found) refl;
        state = kept.0;
        at_least = omega (arith, kept.1, b.at_least);
      }
  | inr c ↦ record {
    entry = b.entry;
    found = rw (lookup-upsert t m k, c) b.found;
    state = b.state;
    at_least = b.at_least;
  }
]

-- A member that is dead at an incarnation or a later one stays so, whatever records arrive in any
-- number and order, where those of the member itself are no newer than that incarnation.
pub upsert_all-IsBuried :
    (i : ℤ) (k : NodeId) (t : Table) (ms : List Member)
    → IsBuried i k t
    → All (λ m. m.id ≡ k → m.incarnation ≤ℤ i) ms
    → IsBuried i k (upsert_all t ms)
unfolding upsert_all
upsert_all-IsBuried i k t [] b h = b
upsert_all-IsBuried i k t (m ∷ ms) b h =
    upsert_all-IsBuried i k (upsert t m).0 ms (upsert-IsBuried i k t m b h.0) h.1

set_state-IsBuried :
    (t : Table) (k : NodeId) {m : Member}
    → lookup k t.members ≡ some m
    → m.state ≢ dead
    → IsBuried (next_incarnation m.incarnation) k (set_state t k dead).0
set_state-IsBuried t k {m} h live = record {
  entry = died m dead;
  found = ground (arith, lookup-set_state t k dead k h);
  state = refl;
  at_least = omega arith;
}

-- A death that SetState records of a member that was not dead holds, at one incarnation past the
-- member's own, against any records that arrive later and are no newer than that, and whatever
-- arrives of other members.
pub set_state-upsert_all :
    (t : Table) (k : NodeId) (m : Member) (ms : List Member)
    → lookup k t.members ≡ some m
    → m.state ≢ dead
    → All (λ r. r.id ≡ k → r.incarnation ≤ℤ next_incarnation m.incarnation) ms
    → IsBuried (next_incarnation m.incarnation) k (upsert_all (set_state t k dead).0 ms)
set_state-upsert_all t k m ms h live older =
    upsert_all-IsBuried (next_incarnation m.incarnation) k (set_state t k dead).0 ms
      (set_state-IsBuried t k h live) older

next_incarnation_succ :
    (i j : ℤ) → i <ℤ max_int64 → (i <ℤ next_incarnation i) × (i <ℤ j → next_incarnation i ≤ℤ j)
unfolding next_incarnation ◌+ℤ◌
next_incarnation_succ i j h = (ground arith, ground arith)

revive_stale :
    (t : Table) (k : NodeId) (i : ℤ) {e : Member}
    → lookup k t.members ≡ some e
    → i <ℤ e.incarnation
    → revive t k i ≡ (t, false)
unfolding revive
revive_stale t k i h old = rw (h, revive) (ground arith)

revive_fresh :
    (t : Table) (k : NodeId) (i : ℤ) {e : Member}
    → lookup k t.members ≡ some e
    → e.incarnation ≤ℤ i
    → e.state ≢ alive
    → ((revive t k i).1 ≡ true)
      × (lookup k (revive t k i).0.members ≡ some (record e { state = alive; incarnation = i }))
unfolding revive
revive_fresh t k i {e} h new down = (
  rw (h, revive) (ground arith),
  rw (h, revive)
      (ground (arith, lookup-insert k k (record e { state = alive; incarnation = i }) t.members)),
)

-- After the death of a member that was below the ceiling and not dead, Revive refuses the
-- incarnation that it had, and makes it alive at any later one.
pub revive-set_state :
    (t : Table) (k : NodeId) (m : Member) (i : ℤ)
    → lookup k t.members ≡ some m
    → m.state ≢ dead
    → m.incarnation <ℤ max_int64
    → m.incarnation <ℤ i
    → let t' = (set_state t k dead).0 in
      (revive t' k m.incarnation ≡ (t', false))
      × ((revive t' k i).1 ≡ true)
      × (lookup k (revive t' k i).0.members ≡ some (record m { state = alive; incarnation = i }))
unfolding set_state-IsBuried
revive-set_state t k m i h live room later =
    let b = set_state-IsBuried t k h live in
    let succ = next_incarnation_succ m.incarnation i room in
    let fresh =
      revive_fresh (set_state t k dead).0 k i {e = died m dead} b.found (succ.1 later) (λ e. cc) in
    (
      revive_stale (set_state t k dead).0 k m.incarnation {e = died m dead} b.found succ.0,
      fresh.0,
      fresh.1,
    )

-- A suspicion of a live member leaves its incarnation alone, and first-hand evidence at that
-- incarnation restores the entry.
pub revive-set_state_suspect :
    (t : Table) (k : NodeId) (m : Member)
    → lookup k t.members ≡ some m
    → m.state ≡ alive
    → let t' = (set_state t k suspect).0 in
      (lookup k t'.members ≡ some (record m { state = suspect }))
      × (lookup k (revive t' k m.incarnation).0.members ≡ some m)
revive-set_state_suspect t k m h up =
    let found : lookup k (set_state t k suspect).0.members ≡ some (record m { state = suspect }) =
      ground (arith, lookup-set_state t k suspect k h) in
    (
      found,
      (revive_fresh (set_state t k suspect).0 k m.incarnation {e = record m { state = suspect }}
            found (omega arith) (λ e. cc)).1
          ∙ ground arith,
    )

lookup-upsert_newer :
    (t : Table) (r e : Member)
    → lookup r.id t.members ≡ some e
    → e.incarnation <ℤ r.incarnation
    → lookup r.id (upsert t r).0.members ≡ some r
unfolding merged_over merged
lookup-upsert_newer t r e h above = ground (arith, lookup-upsert t r r.id)

-- A record one incarnation past a rumour that is below the ceiling replaces an entry that is no newer
-- than the rumour, whatever the entry says.
pub upsert-refutation :
    (t : Table) (r e : Member) (rumour : ℤ)
    → lookup r.id t.members ≡ some e
    → e.incarnation ≤ℤ rumour
    → rumour <ℤ max_int64
    → r.incarnation ≡ next_incarnation rumour
    → ((upsert t r).1 ≡ true) × (lookup r.id (upsert t r).0.members ≡ some r)
unfolding upsert upsert_known
upsert-refutation t r e rumour h old room bump =
    let above : e.incarnation <ℤ r.incarnation =
      rw bump (omega (arith, old, (next_incarnation_succ rumour rumour room).0)) in
    (rw (h, upsert) (ground arith), lookup-upsert_newer t r e h above)
