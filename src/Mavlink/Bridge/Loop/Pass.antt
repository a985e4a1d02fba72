-- ===== src/Mavlink/Bridge/Loop/Pass.antt =====
-- A pass over the missions loses none and reopens nothing.
use swarm_communication.Prelude.{
  ℕ, ◌≡◌, refl, sym, ap, ◌∙◌, some, List, [], ◌∷◌, Bool-cases, Option-cases, some_inj, inl, inr,
  subst, ◌==◌, ==_iff,
}
use swarm_communication.Prelude.Map.{Map, lookup, insert, lookup-insert}
use swarm_communication.Mavlink.Mover.{World}
use swarm_communication.Mavlink.Bridge.{Mission, Bridge, BridgeConfig, sorted_keys}
use swarm_communication.Mavlink.Bridge.Assign.{
  put_mission, followed_mission, pursued_mission, run_mission, run_each, run_missions,
}
use swarm_communication.Mavlink.Bridge.Lifecycle.{AdvancesAll, AdvancesAll-refl, AdvancesAll-trans}
use swarm_communication.Mavlink.Bridge.Loop.Flown.{
  followed-Advances, followed-Elsewhere, put_mission_there, pursued-Advances, pursued-Elsewhere,
}

-- The mission under a key is still there, with the same items, which have advanced.
pub record StillFlown (k : ℕ) (ms : Mission) (m : Map Mission) : Type 0 where
  pub mission : Mission
  pub is_there : lookup k m ≡ some mission
  pub advances : AdvancesAll ms.items mission.items

StillFlown-trans :
    (k : ℕ) (ms : Mission) (m m' : Map Mission) (s : StillFlown k ms m)
    → StillFlown k s.mission m'
    → StillFlown k ms m'
StillFlown-trans k ms m m' s t = record {
  mission = t.mission;
  is_there = t.is_there;
  advances = AdvancesAll-trans ms.items s.mission.items t.mission.items s.advances t.advances;
}

-- A mission in the place of one whose items it advances.
insert-StillFlown :
    (j k : ℕ) (old new ms : Mission) (m : Map Mission)
    → lookup j m ≡ some old
    → AdvancesAll old.items new.items
    → lookup k m ≡ some ms
    → StillFlown k ms (insert j new m)
insert-StillFlown j k old new ms m there a e = elim (Bool-cases (j == k)) [
  | inr f ↦ record {
    mission = ms;
    is_there = lookup-insert j k new m ∙ rw f e;
    advances = AdvancesAll-refl ms.items;
  }
  | inl t ↦
      let same : old ≡ ms = some_inj (sym there ∙ ap (λ i. lookup i m) ((==_iff j k).0 t) ∙ e) in
      record {
        mission = new;
        is_there = lookup-insert j k new m ∙ rw t refl;
        advances = subst (λ (x : Mission). AdvancesAll x.items new.items) same a;
      }
]

put_mission-StillFlown :
    (j k : ℕ) (old ms : Mission) (b : Bridge) (r : Mission × Bridge)
    → lookup j b.missions ≡ some old
    → AdvancesAll old.items r.0.items
    → r.1.missions ≡ b.missions
    → lookup k b.missions ≡ some ms
    → StillFlown k ms (put_mission j r).missions
unfolding put_mission
put_mission-StillFlown j k old ms b (new, b') there a same e =
    subst (λ m. StillFlown k ms (insert j new m)) (sym same)
      (insert-StillFlown j k old new ms b.missions there a e)

module _ (w : World) (k : ℕ) where
  run_mission-StillFlown :
      (j : ℕ) (ms : Mission) (b : Bridge)
      → lookup k b.missions ≡ some ms
      → StillFlown k ms (run_mission w j b).missions
  unfolding run_mission
  run_mission-StillFlown j ms b e = elim (Option-cases (lookup j b.missions)) [
    | inl f ↦
        rw (f, run_mission)
          (record { mission = ms; is_there = e; advances = AdvancesAll-refl ms.items })
    | inr (own, f) ↦
        let followed = followed_mission own b in
        let b1 = put_mission j followed in
        let first =
          put_mission-StillFlown j k own ms b followed f (followed-Advances own b)
            (followed-Elsewhere own b).same_missions e in
        let second =
          put_mission-StillFlown j k followed.0 first.mission b1 (pursued_mission w followed.0 b1)
            (put_mission_there j followed.0 followed.1) (pursued-Advances w followed.0 b1)
            (pursued-Elsewhere w followed.0 b1).same_missions first.is_there in
        rw (f, run_mission)
          (StillFlown-trans k ms b1.missions
            (put_mission j (pursued_mission w followed.0 b1)).missions first second)
  ]

  run_each-StillFlown :
      (ids : List ℕ) (ms : Mission) (b : Bridge)
      → lookup k b.missions ≡ some ms
      → StillFlown k ms (run_each w ids b).missions
  unfolding run_each
  run_each-StillFlown [] ms b e = record {
    mission = ms;
    is_there = e;
    advances = AdvancesAll-refl ms.items;
  }
  run_each-StillFlown (j ∷ ids) ms b e =
      let b' = run_mission w j b in
      let s = run_mission-StillFlown j ms b e in
      StillFlown-trans k ms b'.missions (run_each w ids b').missions s
        (run_each-StillFlown ids s.mission b' s.is_there)

-- A pass over the missions keeps each of them, with the items that were uploaded, in their order, and
-- an item that is done stays done.
pub run_missions-StillFlown :
    (cfg : BridgeConfig) (k : ℕ) (ms : Mission) (b : Bridge)
    → lookup k b.missions ≡ some ms
    → StillFlown k ms (run_missions cfg b).missions
unfolding run_missions
run_missions-StillFlown cfg k ms b e =
    run_each-StillFlown cfg.world k (sorted_keys b.missions) ms b e
