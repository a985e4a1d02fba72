-- ===== src/Mavlink/Bridge/Sound.antt =====
-- The invariant of the missions and the transfers, and what the changes of the two maps keep of it.
use swarm_communication.Prelude.{
  ℕ, suc, ◌≡◌, ◌≤◌, ◌<◌, refl, ap, ◌∙◌, false, some, List, [], ◌∷◌, arith, subst, length, All,
}
use swarm_communication.Prelude.Map.{
  Map, lookup, insert, erase, AllEntries, insert-AllEntries, erase-AllEntries, lookup-AllEntries,
}
use swarm_communication.Cluster.Member.{NodeId}
use swarm_communication.Mavlink.Bridge.{Item, Mission, Upload, Bridge, is_flying}
use swarm_communication.Mavlink.Bridge.Lifecycle.{AdvancesAll}
use swarm_communication.Mavlink.Bridge.Flights.{
  flights_of, flights, flights_at, flights-insert, flights-erase,
}

-- The sequence numbers count from a first one.
abbrev pub NumberedFrom : ℕ → List Item → Type 0
NumberedFrom i [] = Unit
NumberedFrom i (it ∷ items) = (it.seq ≡ i) × NumberedFrom (suc i) items

-- A stored mission: 1 to 500 items, numbered from 0.
pub record IsPlanned (items : List Item) : Type 0 where
  pub numbered : NumberedFrom 0 items
  pub some_item : 1 ≤ length items
  pub bounded : length items ≤ 500

-- A transfer: the items so far, numbered from 0 and in nobody's hands, fewer than announced.
pub record IsStaged (up : Upload) : Type 0 where
  pub numbered : NumberedFrom 0 up.items
  pub grounded : All (λ it. is_flying it.state ≡ false) up.items
  pub counted : length up.items ≡ up.next
  pub unfinished : up.next < up.count
  pub bounded : up.count ≤ 500

pub record IsSound (missions : Map Mission) (uploads : Map Upload) : Type 0 where
  pub planned : AllEntries (λ k ms. IsPlanned ms.items) missions
  pub staged : AllEntries (λ k up. IsStaged up) uploads
  pub one_flight : (n : NodeId) → flights n missions ≤ 1

abbrev pub IsSoundBridge : Bridge → Type 0
IsSoundBridge b = IsSound b.missions b.uploads

AdvancesAll-NumberedFrom :
    (i : ℕ) (xs ys : List Item) → AdvancesAll xs ys → NumberedFrom i xs → NumberedFrom i ys
AdvancesAll-NumberedFrom i [] [] a h = tt
AdvancesAll-NumberedFrom i (x ∷ xs) (y ∷ ys) a h =
    (a.0.same_seq ∙ h.0, AdvancesAll-NumberedFrom (suc i) xs ys a.1 h.1)
AdvancesAll-NumberedFrom i [] (y ∷ ys) a h = absurd a
AdvancesAll-NumberedFrom i (x ∷ xs) [] a h = absurd a

length-AdvancesAll : (xs ys : List Item) → AdvancesAll xs ys → length xs ≡ length ys
length-AdvancesAll [] [] a = refl
length-AdvancesAll (x ∷ xs) (y ∷ ys) a = ap suc (length-AdvancesAll xs ys a.1)
length-AdvancesAll [] (y ∷ ys) a = absurd a
length-AdvancesAll (x ∷ xs) [] a = absurd a

pub AdvancesAll-IsPlanned : (xs ys : List Item) → AdvancesAll xs ys → IsPlanned xs → IsPlanned ys
AdvancesAll-IsPlanned xs ys a h =
    let same = length-AdvancesAll xs ys a in
    record {
      numbered = AdvancesAll-NumberedFrom 0 xs ys a h.numbered;
      some_item = subst (λ k. 1 ≤ k) same h.some_item;
      bounded = subst (λ k. k ≤ 500) same h.bounded;
    }

module _ {missions : Map Mission} {uploads : Map Upload} (s : IsSound missions uploads) where
  -- A mission whose items advance, and that leaves each vehicle with at most one of all items.
  pub advanced-IsSound :
      (k : ℕ) (old new : Mission)
      → lookup k missions ≡ some old
      → AdvancesAll old.items new.items
      → ((n : NodeId) → flights n (insert k new missions) ≤ 1)
      → IsSound (insert k new missions) uploads
  advanced-IsSound k old new e a one = record {
    planned =
        insert-AllEntries (λ j ms. IsPlanned ms.items) k new missions
          (AdvancesAll-IsPlanned old.items new.items a
            (lookup-AllEntries (λ j ms. IsPlanned ms.items) k missions s.planned e))
          s.planned;
    staged = s.staged;
    one_flight = one;
  }

  -- A mission whose items advance, and of which no vehicle flies more than before.
  pub eased-IsSound :
      (k : ℕ) (old new : Mission)
      → lookup k missions ≡ some old
      → AdvancesAll old.items new.items
      → ((n : NodeId) → flights_of n new.items ≤ flights_of n old.items)
      → IsSound (insert k new missions) uploads
  eased-IsSound k old new e a less = advanced-IsSound k old new e a (λ n.
      omega (arith, s.one_flight n, less n, flights-insert n k new missions, ap (flights_at n) e))

  -- A new mission, that nobody flies.
  pub fresh-IsSound :
      (k : ℕ) (new : Mission)
      → IsPlanned new.items
      → ((n : NodeId) → flights_of n new.items ≡ 0)
      → IsSound (insert k new missions) uploads
  fresh-IsSound k new p none_flies = record {
    planned = insert-AllEntries (λ j ms. IsPlanned ms.items) k new missions p s.planned;
    staged = s.staged;
    one_flight = λ n. omega (arith, s.one_flight n, none_flies n, flights-insert n k new missions);
  }

  pub erased-IsSound : (k : ℕ) → IsSound (erase k missions) uploads
  erased-IsSound k = record {
    planned = erase-AllEntries (λ j ms. IsPlanned ms.items) k missions s.planned;
    staged = s.staged;
    one_flight = λ n. omega (arith, s.one_flight n, flights-erase n k missions);
  }

  pub begun-IsSound : (k : ℕ) (up : Upload) → IsStaged up → IsSound missions (insert k up uploads)
  begun-IsSound k up p = record {
    planned = s.planned;
    staged = insert-AllEntries (λ j u. IsStaged u) k up uploads p s.staged;
    one_flight = s.one_flight;
  }

  pub ended-IsSound : (k : ℕ) → IsSound missions (erase k uploads)
  ended-IsSound k = record {
    planned = s.planned;
    staged = erase-AllEntries (λ j u. IsStaged u) k uploads s.staged;
    one_flight = s.one_flight;
  }
