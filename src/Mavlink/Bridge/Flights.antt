-- ===== src/Mavlink/Bridge/Flights.antt =====
-- How many items a vehicle flies: the count that no event lets rise above one.
use swarm_communication.Prelude.{
  ℕ, ◌+◌, ◌≡◌, ◌≤◌, refl, ap, false, ◌&&◌, Option, none, some, List, [], ◌∷◌, arith, Bool-cases,
  inl, inr, contains, contains-append, ◌==◌, map, some_inj, if◌then◌else◌,
}
use swarm_communication.Prelude.Map.{Map, lookup, insert, erase}
use swarm_communication.Cluster.Member.{NodeId}
use swarm_communication.Mavlink.Bridge.{Item, Mission, Bridge, is_flying}
use swarm_communication.Mavlink.Bridge.Store.{freed, clear_item, abandon}
use swarm_communication.Mavlink.Bridge.Fly.{
  release_item, release_in, collect_item, collect_flying, collect_each, arrived,
}
use swarm_communication.Mavlink.Bridge.Assign.{busy_of, busy_in}

abbrev pub flies : NodeId → Item → ℕ
flies n it = if is_flying it.state && it.node == n then 1 else 0

unfoldable pub flights_of : NodeId → List Item → ℕ
flights_of n [] = 0
flights_of n (it ∷ items) = flies n it + flights_of n items

-- The items that a node flies, over all missions.
unfoldable pub flights : NodeId → Map Mission → ℕ
unfolding flights_of
flights n [] = 0
flights n ((k, ms) ∷ rest) = flights_of n ms.items + flights n rest

abbrev pub flights_at : NodeId → Option Mission → ℕ
flights_at n none = 0
flights_at n (some ms) = flights_of n ms.items

module _ (n : NodeId) where
  pub flights-insert :
      (k : ℕ) (ms : Mission) (m : Map Mission)
      → flights n (insert k ms m) + flights_at n (lookup k m) ≡ flights n m + flights_of n ms.items
  unfolding flights insert lookup
  flights-insert k ms [] = omega arith
  flights-insert k ms ((j, old) ∷ m) = elim (Bool-cases (j == k)) [
    | inl e ↦ rw e (omega arith)
    | inr e ↦ rw e (omega (arith, flights-insert k ms m))
  ]

  pub flights-erase : (k : ℕ) (m : Map Mission) → flights n (erase k m) ≤ flights n m
  unfolding flights erase
  flights-erase k [] = omega arith
  flights-erase k ((j, old) ∷ m) = ground (arith, flights-erase k m)

  -- A node that is not busy flies nothing.
  flights_of-busy :
      (items : List Item) → contains (busy_of items) n ≡ false → flights_of n items ≡ 0
  unfolding flights_of busy_of
  flights_of-busy [] h = refl
  flights_of-busy (it ∷ items) h = ground (arith, flights_of-busy items)

  pub flights-busy : (m : Map Mission) → contains (busy_in m) n ≡ false → flights n m ≡ 0
  unfolding flights busy_in
  flights-busy [] h = refl
  flights-busy ((k, ms) ∷ m) h =
      let both = contains-append (busy_of ms.items) (busy_in m) n in
      let first = flights_of-busy ms.items (ground (arith, both)) in
      let rest = flights-busy m (ground (arith, both)) in omega (arith, first, rest)

  -- The operations that give out no item.
  pub flights_of-map :
      (f : Item → Item) (less : (it : Item) → flies n (f it) ≤ flies n it) (items : List Item)
      → flights_of n (map f items) ≤ flights_of n items
  unfolding flights_of
  flights_of-map f less [] = omega arith
  flights_of-map f less (it ∷ items) = omega (arith, less it, flights_of-map f less items)

  pub flies-clear_item : (it : Item) → flies n (clear_item it) ≤ flies n it
  unfolding clear_item freed
  flies-clear_item it = ground arith

  pub flies-release_item : (node : NodeId) (it : Item) → flies n (release_item node it) ≤ flies n it
  unfolding release_item freed
  flies-release_item node it = ground arith

  pub flies-abandon : (seq : ℕ) (it : Item) → flies n (abandon seq it) ≤ flies n it
  unfolding abandon
  flies-abandon seq it = ground arith

  pub flights-release_in :
      (node : NodeId) (m : Map Mission) → flights n (release_in node m) ≤ flights n m
  unfolding flights release_in
  flights-release_in node [] = omega arith
  flights-release_in node ((k, ms) ∷ m) = omega (
    arith,
    flights_of-map (release_item node) (flies-release_item node) ms.items,
    flights-release_in node m,
  )

  flies-collect_item :
      (exec : ℕ) (it : Item) (b : Bridge) → flies n (collect_item exec it b).0 ≤ flies n it
  unfolding collect_item collect_flying arrived freed
  flies-collect_item exec it b = ground arith

  pub flights_of-collect_each :
      (exec : ℕ) (items : List Item) (b : Bridge)
      → flights_of n (collect_each exec items b).0 ≤ flights_of n items
  unfolding collect_each flights_of
  flights_of-collect_each exec [] b = omega arith
  flights_of-collect_each exec (it ∷ items) b = omega (
    arith,
    flies-collect_item exec it b,
    flights_of-collect_each exec items (collect_item exec it b).1,
  )

  pub flights-lookup :
      (k : ℕ) (m : Map Mission) {ms : Mission}
      → lookup k m ≡ some ms
      → flights_of n ms.items ≤ flights n m
  unfolding flights lookup
  flights-lookup k [] e = absurd (cc)
  flights-lookup k ((j, old) ∷ m) {ms} e = elim (Bool-cases (j == k)) [
    | inl t ↦
        let same = ap (λ (x : Mission). flights_of n x.items) (some_inj (rw t at e)) in
        omega (arith, same)
    | inr t ↦ omega (arith, flights-lookup k m (rw t at e))
  ]
