-- ===== src/Mavlink/Bridge/Assign/Order.antt =====
-- Items are given out in their order, each to a vehicle that then flies to it.
use swarm_communication.Prelude.{
  ℕ, ◌≡◌, refl, ap, ◌⊎◌, true, false, Option, none, some, List, [], ◌∷◌, ◌++◌, arith, Bool-cases,
  Option-cases, inl, inr, subst, length, drop, All, contains,
}
use swarm_communication.Prelude.Map.{lookup, lookup-insert_self}
use swarm_communication.Cluster.Member.{NodeId}
use swarm_communication.Mavlink.Vector.Cube.{InCube, clamp_position-InCube}
use swarm_communication.Mavlink.Mover.{World, Mover, flying, set_target}
use swarm_communication.Mavlink.Bridge.{
  Item, ItemKind, ItemState, Vehicle, Bridge, is_pending, send, statusf,
}
use swarm_communication.Mavlink.Bridge.Assign.{
  goal_for, is_idle, nearest_idle, given, give_item, skip_item, assign_item, assign_each, is_skip,
}
use swarm_communication.Mavlink.Bridge.Assign.Single.{IdleIn, nearest_idle-IdleIn}

-- The items are a front with nothing pending, and a back that is as before.
pub record InOrder (items items' : List Item) : Type 0 where
  pub front : List Item
  pub back : List Item
  pub split : items' ≡ front ++ back
  pub settled : All (λ it. is_pending it.state ≡ false) front
  pub untouched : back ≡ drop (length front) items

-- What assigning one item gives, where it gives anything, is not pending.
abbrev Settles : Option (Item × List NodeId × Bridge) → Type 0
Settles none = Unit
Settles (some (it, busy, b)) = is_pending it.state ≡ false

module _ (w : World) where
  give_item-Settles :
      (busy : List NodeId) (id : NodeId) (it : Item) (b : Bridge) → Settles (give_item busy id it b)
  unfolding give_item given
  give_item-Settles busy id it b = elim (Option-cases (lookup id b.vs)) [
    | inl e ↦ rw (e, give_item) tt
    | inr (v, e) ↦ rw (e, give_item) refl
  ]

  assign_item-Settles :
      (members : List NodeId) (exec : ℕ) (busy : List NodeId) (it : Item) (b : Bridge)
      → Settles (assign_item w members exec busy it b)
  unfolding assign_item skip_item
  assign_item-Settles members exec busy it b = elim (Bool-cases (is_pending it.state)) [
    | inr e ↦ rw e e
    | inl e ↦ rw e (elim (Bool-cases (is_skip it.kind)) [
      | inl f ↦ rw f refl
      | inr f ↦ rw f (elim (Option-cases (nearest_idle w members busy it b.vs)) [
        | inl g ↦ rw (g, assign_item) tt
        | inr (id, g) ↦ rw (g, assign_item) (give_item-Settles busy id it b)
      ])
    ])
  ]

  -- Handing out items leaves a front of the mission with nothing pending, and does not touch an item
  -- behind it. So no item is given out or skipped while an earlier one waits for a vehicle.
  pub assign_each-InOrder :
      (members : List NodeId) (exec : ℕ) (busy : List NodeId) (items : List Item) (b : Bridge)
      → InOrder items (assign_each w members exec busy items b).0
  unfolding assign_each
  assign_each-InOrder members exec busy [] b = record {
    front = [];
    back = [];
    split = refl;
    settled = tt;
    untouched = refl;
  }
  assign_each-InOrder members exec busy (it ∷ items) b =
      elim (Option-cases (assign_item w members exec busy it b)) [
        | inl e ↦
            rw (e, assign_each)
              (record {
                front = [];
                back = it ∷ items;
                split = refl;
                settled = tt;
                untouched = refl;
              })
        | inr (r, e) ↦
            let later = assign_each-InOrder members exec r.1 items r.2 in
            rw (e, assign_each)
              (record {
                front = r.0 ∷ later.front;
                back = later.back;
                split = ap (λ l. r.0 ∷ l) later.split;
                settled =
                    (subst Settles e (assign_item-Settles members exec busy it b), later.settled);
                untouched = later.untouched;
              })
      ]

-- An item that was given to a vehicle that was not busy, was connected, and had no target. The vehicle is
-- now armed and busy, and flies to the item's goal, which is in the cube.
pub record IsGiven (busy : List NodeId) (b : Bridge) (it it' : Item) (busy' : List NodeId)
    (b' : Bridge) : Type 0 where
  pub before : Vehicle
  pub vehicle : Vehicle
  pub same_item : it' ≡ record it { state = ItemState.flying; node = it'.node; goal = it'.goal }
  pub was_there : lookup it'.node b.vs ≡ some before
  pub was_free : contains busy it'.node ≡ false
  pub was_connected : before.connected ≡ true
  pub had_no_target : before.mover.target ≡ none
  pub is_there : lookup it'.node b'.vs ≡ some vehicle
  pub armed : vehicle.armed ≡ true
  pub aims : vehicle.mover.target ≡ some it'.goal
  pub in_cube : InCube it'.goal
  pub is_busy : contains busy' it'.node ≡ true

-- An item that is as it was, since it does not wait, or a pending one of an unknown command that is done.
-- Neither takes a vehicle.
abbrev pub IsPassed : List NodeId → Bridge → Item → Item → List NodeId → Bridge → Type 0
IsPassed busy b it it' busy' b' =
    (b'.vs ≡ b.vs)
    × (busy' ≡ busy)
    × (((is_pending it.state ≡ false) × (it' ≡ it))
        ⊎ ((it.kind ≡ ItemKind.skip) × (it' ≡ record it { state = ItemState.done })))

-- The outcomes of assigning one item: a pending one stays, one is passed over, or one is given.
abbrev pub Assigned : List NodeId → Bridge → Item → Option (Item × List NodeId × Bridge) → Type 0
Assigned busy b it none = is_pending it.state ≡ true
Assigned busy b it (some (it', busy', b')) =
    IsPassed busy b it it' busy' b' ⊎ IsGiven busy b it it' busy' b'

not_flying : (m : Mover) → flying m ≡ false → m.target ≡ none
not_flying m h = elim (Option-cases m.target) [
  | inl e ↦ e
  | inr (p, e) ↦ absurd (ground (arith, e, h))
]

skips : (k : ItemKind) → is_skip k ≡ true → k ≡ ItemKind.skip
skips ItemKind.fly h = cc
skips ItemKind.land h = cc
skips ItemKind.home h = cc
skips ItemKind.skip h = refl

give_item-Assigned :
    (busy : List NodeId) (id : NodeId) (it : Item) (b : Bridge)
    → IdleIn busy b.vs (some id)
    → Assigned busy b it (give_item busy id it b)
unfolding give_item given set_target is_idle
give_item-Assigned busy id it b (v, e, idle) =
    let v' = (given id v it).1 in
    rw (e, give_item)
      (inr (record {
        before = v;
        vehicle = v';
        same_item = refl;
        was_there = e;
        was_free = ground (arith, idle);
        was_connected = ground (arith, idle);
        had_no_target = not_flying v.mover (ground (arith, idle));
        is_there = lookup-insert_self id v' b.vs;
        armed = refl;
        aims = refl;
        in_cube = clamp_position-InCube (goal_for v it);
        is_busy = ground arith;
      }))

-- Assigning one item leaves a pending one waiting, or takes no vehicle and changes no item but a pending
-- one of an unknown command, which is done, or gives the item to a vehicle that was not busy, was
-- connected and had no target, and that is then armed and on its way to the item's goal in the cube.
pub assign_item-Assigned :
    (w : World) (members : List NodeId) (exec : ℕ) (busy : List NodeId) (it : Item) (b : Bridge)
    → Assigned busy b it (assign_item w members exec busy it b)
unfolding assign_item skip_item send statusf
assign_item-Assigned w members exec busy it b = elim (Bool-cases (is_pending it.state)) [
  | inr e ↦ rw e (inl (refl, refl, inl (e, refl)))
  | inl e ↦ rw e (elim (Bool-cases (is_skip it.kind)) [
    | inl f ↦ rw f (inl (refl, refl, inr (skips it.kind f, refl)))
    | inr f ↦ rw f (elim (Option-cases (nearest_idle w members busy it b.vs)) [
      | inl g ↦ rw (g, assign_item) e
      | inr (id, g) ↦
          rw (g, assign_item)
            (give_item-Assigned busy id it b
              (subst (IdleIn busy b.vs) g (nearest_idle-IdleIn w members busy it b.vs)))
    ])
  ])
]
