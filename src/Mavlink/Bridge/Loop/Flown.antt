-- ===== src/Mavlink/Bridge/Loop/Flown.antt =====
-- A pass over the missions keeps the invariant.
use swarm_communication.Prelude.{
  ℕ, ◌+◌, ◌-◌, ◌≡◌, ◌≤◌, sym, ap, ◌∙◌, some, List, [], ◌∷◌, arith, Bool-cases, Option-cases, inl,
  inr, subst, contains,
}
use swarm_communication.Prelude.Map.{lookup, lookup-insert_self}
use swarm_communication.Cluster.Member.{NodeId}
use swarm_communication.Mavlink.Mover.{World}
use swarm_communication.Mavlink.Bridge.{Mission, Bridge, BridgeConfig, sorted_keys}
use swarm_communication.Mavlink.Bridge.Fly.{collect_each, collect_arrivals, migrate_to, migrate}
use swarm_communication.Mavlink.Bridge.Assign.{
  exec_members, busy_in, assign_items, put_mission, followed_mission, pursued_mission, run_mission,
  run_each, run_missions,
}
use swarm_communication.Mavlink.Bridge.Assign.Single.{assign_each-one}
use swarm_communication.Mavlink.Bridge.Flights.{
  flights_of, flights, flights_at, flights_of-collect_each, flights-insert, flights-busy,
  flights-lookup,
}
use swarm_communication.Mavlink.Bridge.Lifecycle.{
  AdvancesAll, AdvancesAll-refl, collect_each-Advances, assign_each-Advances,
}
use swarm_communication.Mavlink.Bridge.Sound.{IsSoundBridge, eased-IsSound, advanced-IsSound}
use swarm_communication.Mavlink.Bridge.Loop.Stored.{send_current-items}
use swarm_communication.Mavlink.Bridge.Loop.Elsewhere.{
  Elsewhere, Elsewhere-trans, collect_each-Elsewhere, migrate-Elsewhere, assigned-Elsewhere,
  send_current-Elsewhere,
}

migrate-items : (ms : Mission) (b : Bridge) → (migrate ms b).0.items ≡ ms.items
unfolding migrate migrate_to
migrate-items ms b = ground arith

pub put_mission_there :
    (k : ℕ) (ms : Mission) (b : Bridge) → lookup k (put_mission k (ms, b)).missions ≡ some ms
unfolding put_mission
put_mission_there k ms b = lookup-insert_self k ms b.missions

pub followed-Elsewhere : (ms : Mission) (b : Bridge) → Elsewhere b (followed_mission ms b).1
unfolding followed_mission collect_arrivals
followed-Elsewhere ms b =
    Elsewhere-trans (collect_each-Elsewhere ms.exec ms.items b)
      (migrate-Elsewhere (collect_arrivals ms b).0 (collect_arrivals ms b).1)

followed-items :
    (ms : Mission) (b : Bridge)
    → (followed_mission ms b).0.items ≡ (collect_each ms.exec ms.items b).0
unfolding followed_mission collect_arrivals
followed-items ms b = migrate-items (collect_arrivals ms b).0 (collect_arrivals ms b).1

pub followed-Advances :
    (ms : Mission) (b : Bridge) → AdvancesAll ms.items (followed_mission ms b).0.items
followed-Advances ms b =
    subst (AdvancesAll ms.items) (sym (followed-items ms b))
      (collect_each-Advances ms.exec ms.items b)

put_followed-IsSound :
    (k : ℕ) (ms : Mission) (b : Bridge)
    → lookup k b.missions ≡ some ms
    → IsSoundBridge b
    → IsSoundBridge (put_mission k (followed_mission ms b))
unfolding put_mission
put_followed-IsSound k ms b e s =
    let kept = followed-Elsewhere ms b in
    rw (kept.same_missions, kept.same_uploads)
      (eased-IsSound s k ms (followed_mission ms b).0 e (followed-Advances ms b) (λ n. omega (
        arith,
        ap (flights_of n) (followed-items ms b),
        flights_of-collect_each n ms.exec ms.items b,
      )))

module _ (w : World) where
  pub assigned-Advances :
      (ms : Mission) (b : Bridge) → AdvancesAll ms.items (assign_items w ms b).0.items
  unfolding assign_items
  assigned-Advances ms b = elim (Bool-cases ms.started) [
    | inr e ↦ rw e (AdvancesAll-refl ms.items)
    | inl e ↦
        rw e (assign_each-Advances w (exec_members ms b) ms.exec (busy_in b.missions) ms.items b)
  ]

  assigned_one :
      (n : NodeId) (ms : Mission) (b : Bridge) (others : ℕ)
      → flights_of n ms.items + others ≡ flights n b.missions
      → flights n b.missions ≤ 1
      → flights_of n (assign_items w ms b).0.items + others ≤ 1
  unfolding assign_items
  assigned_one n ms b others sum one = elim (Bool-cases ms.started) [
    | inr e ↦ rw e (omega arith)
    | inl e ↦ rw e (
        assign_each-one w n (exec_members ms b) ms.exec (busy_in b.missions) ms.items b others (
          elim (Bool-cases (contains (busy_in b.missions) n)) [
            | inl f ↦ inl f
            | inr f ↦ inr (sum ∙ flights-busy n b.missions f)
          ],
          omega arith,
        ))
  ]

  pursued-items :
      (ms : Mission) (b : Bridge) → (pursued_mission w ms b).0.items ≡ (assign_items w ms b).0.items
  unfolding pursued_mission
  pursued-items ms b = send_current-items (assign_items w ms b).0 (assign_items w ms b).1

  pub pursued-Advances :
      (ms : Mission) (b : Bridge) → AdvancesAll ms.items (pursued_mission w ms b).0.items
  pursued-Advances ms b =
      subst (AdvancesAll ms.items) (sym (pursued-items ms b)) (assigned-Advances ms b)

  pub pursued-Elsewhere : (ms : Mission) (b : Bridge) → Elsewhere b (pursued_mission w ms b).1
  unfolding pursued_mission
  pursued-Elsewhere ms b =
      Elsewhere-trans (assigned-Elsewhere w ms b)
        (send_current-Elsewhere w (assign_items w ms b).0 (assign_items w ms b).1)

  put_pursued-IsSound :
      (k : ℕ) (ms : Mission) (b : Bridge)
      → lookup k b.missions ≡ some ms
      → IsSoundBridge b
      → IsSoundBridge (put_mission k (pursued_mission w ms b))
  unfolding put_mission
  put_pursued-IsSound k ms b e s =
      let kept = pursued-Elsewhere ms b in
      let new = (pursued_mission w ms b).0 in
      rw (kept.same_missions, kept.same_uploads)
        (advanced-IsSound s k ms new e (pursued-Advances ms b) (λ n.
          let own = flights-lookup n k b.missions e in
          let law = flights-insert n k new b.missions in
          let others = flights n b.missions - flights_of n ms.items in
          omega (
            arith,
            law,
            own,
            ap (flights_at n) e,
            ap (flights_of n) (pursued-items ms b),
            assigned_one n ms b others (omega (arith, own)) (s.one_flight n),
          )))

  run_mission-IsSound : (k : ℕ) (b : Bridge) → IsSoundBridge b → IsSoundBridge (run_mission w k b)
  unfolding run_mission
  run_mission-IsSound k b s = elim (Option-cases (lookup k b.missions)) [
    | inl e ↦ rw (e, run_mission) s
    | inr (ms, e) ↦
        let followed = followed_mission ms b in
        rw (e, run_mission)
          (put_pursued-IsSound k followed.0 (put_mission k followed)
            (put_mission_there k followed.0 followed.1) (put_followed-IsSound k ms b e s))
  ]

  run_each-IsSound :
      (ids : List ℕ) (b : Bridge) → IsSoundBridge b → IsSoundBridge (run_each w ids b)
  unfolding run_each
  run_each-IsSound [] b s = s
  run_each-IsSound (id ∷ ids) b s =
      run_each-IsSound ids (run_mission w id b) (run_mission-IsSound id b s)

pub run_missions-IsSound :
    (cfg : BridgeConfig) (b : Bridge) → IsSoundBridge b → IsSoundBridge (run_missions cfg b)
unfolding run_missions
run_missions-IsSound cfg b s = run_each-IsSound cfg.world (sorted_keys b.missions) b s
