-- ===== src/Tests/Table.antt =====
-- Runs of the membership table (backend/pkg/cluster/member.go) and of the majority test
-- (backend/pkg/cluster/partition.go).
use mathlib.Core.List.{Permᴰ}
use swarm_communication.Prelude.{ℕ, ◌≡◌, refl, true, false, some, none, [], ◌∷◌, arith}
use swarm_communication.Prelude.Int.{pos, ◌+ℤ◌}
use swarm_communication.Prelude.Map.{lookup}
use swarm_communication.Prelude.Sort.{sort, insert_sorted}
use swarm_communication.Health.{Float64}
use swarm_communication.Cluster.Member.{
  NodeId, State, alive, suspect, dead, worker, leader, Member, ids,
}
use swarm_communication.Cluster.Partition.{quorum, degraded, degraded-split}
use swarm_communication.Cluster.Table.{
  Table, new_table, upsert, set_score, set_role, set_state, revive, remove, snapshot,
  next_incarnation,
}
use swarm_communication.Cluster.Table.Converge.{
  History, IsTold, HoldsTold, SameEntries, upsert_all, upsert_all-perm,
}
use swarm_communication.Cluster.Table.Liveness.{
  IsBuried, upsert_all-IsBuried, set_state-upsert_all, revive-set_state, upsert-refutation,
}
use swarm_communication.Cluster.Table.Snapshot.{IsValid, table_ops-IsValid}

-- A member that scores as its Seq says, at an address like its ID.
abbrev told : NodeId → State → ℕ → ℕ → Member
told k s i q = record {
  id = k;
  addr = k;
  role = worker;
  state = s;
  incarnation = pos i;
  score = Float64.finite (pos q);
  seq = q;
}

abbrev one_member : Table
one_member = record { members = (1, told 1 alive 4 2) ∷ []; version = 1 }

abbrev two_members : Table
two_members = record { members = (2, told 2 alive 0 0) ∷ (1, told 1 alive 4 2) ∷ []; version = 2 }

abbrev history : History
history = record {
  role = λ k i q. worker;
  score = λ k i q. Float64.finite (pos q);
  home = λ k i. k;
}

is_told : (k i q : ℕ) (s : State) → IsTold history (told k s i q)
is_told k i q s = record { role = refl; score = refl; home = refl }

nothing_held : HoldsTold history new_table
unfolding new_table lookup
nothing_held k e h = absurd (let clash : none ≡ some e = h in cc)

upsert_all-perm_example :
    SameEntries
      (upsert_all new_table (told 1 alive 0 1 ∷ told 1 suspect 0 2 ∷ []))
      (upsert_all new_table (told 1 suspect 0 2 ∷ told 1 alive 0 1 ∷ []))
upsert_all-perm_example =
    upsert_all-perm history new_table (Permᴰ.swap refl refl) nothing_held
      (is_told 1 0 1 alive, (is_told 1 0 2 suspect, tt))

-- Member 1 died at incarnation 5.
abbrev after_death : Table
after_death = record { members = (1, told 1 dead 5 2) ∷ []; version = 2 }

after_death-IsBuried : IsBuried (pos 5) 1 after_death
unfolding lookup
after_death-IsBuried = record {
  entry = told 1 dead 5 2;
  found = refl;
  state = refl;
  at_least = omega arith;
}

upsert_all-IsBuried_example :
    IsBuried (pos 5) 1 (upsert_all after_death (told 1 alive 4 9 ∷ told 1 alive 5 9 ∷ []))
upsert_all-IsBuried_example =
    upsert_all-IsBuried (pos 5) 1 after_death (told 1 alive 4 9 ∷ told 1 alive 5 9 ∷ [])
      after_death-IsBuried (λ e. omega arith, (λ e. omega arith, tt))

one_member_found : lookup 1 one_member.members ≡ some (told 1 alive 4 2)
unfolding lookup
one_member_found = refl

set_state-upsert_all_example :
    IsBuried
      (next_incarnation (pos 4))
      1
      (upsert_all (set_state one_member 1 dead).0 (told 1 alive 5 9 ∷ []))
unfolding next_incarnation ◌+ℤ◌
set_state-upsert_all_example =
    set_state-upsert_all one_member 1 (told 1 alive 4 2) (told 1 alive 5 9 ∷ []) one_member_found
      (λ e. cc) (λ e. omega arith, tt)

revive-set_state_example :
    let t = (set_state one_member 1 dead).0 in
    (revive t 1 (pos 4) ≡ (t, false))
    × ((revive t 1 (pos 6)).1 ≡ true)
    × (lookup 1 (revive t 1 (pos 6)).0.members ≡ some (told 1 alive 6 2))
revive-set_state_example =
    revive-set_state one_member 1 (told 1 alive 4 2) (pos 6) one_member_found (λ e. cc)
      (omega arith) (omega arith)

after_death_found : lookup 1 after_death.members ≡ some (told 1 dead 5 2)
unfolding lookup
after_death_found = refl

upsert-refutation_example :
    ((upsert after_death (told 1 alive 6 3)).1 ≡ true)
    × (lookup 1 (upsert after_death (told 1 alive 6 3)).0.members ≡ some (told 1 alive 6 3))
unfolding next_incarnation ◌+ℤ◌
upsert-refutation_example =
    upsert-refutation after_death (told 1 alive 6 3) (told 1 dead 5 2) (pos 5) after_death_found
      (omega arith) (omega arith) refl

two_members-IsValid : IsValid two_members
two_members-IsValid = record { distinct = (refl, (refl, tt)); own_keys = (refl, (refl, tt)) }

table_ops-IsValid_example :
    IsValid (upsert two_members (told 3 alive 0 0)).0
    × IsValid (set_score two_members 1 Float64.nan).0
    × IsValid (set_role two_members 1 leader).0
    × IsValid (set_state two_members 1 dead).0
    × IsValid (revive two_members 1 (pos 5)).0
    × IsValid (remove two_members 1).0
table_ops-IsValid_example =
    table_ops-IsValid two_members (told 3 alive 0 0) 1 Float64.nan leader dead (pos 5)
      two_members-IsValid

-- The IDs of a snapshot, in order.
snapshot_run : ids (snapshot two_members).members ≡ 1 ∷ 2 ∷ []
unfolding snapshot sort insert_sorted
snapshot_run = refl

degraded-split_example : degraded (pos 2) (pos 5) ≡ true
unfolding degraded quorum
degraded-split_example =
    degraded-split 5 3 2 (omega arith) (omega arith) (omega arith) (omega arith) refl
