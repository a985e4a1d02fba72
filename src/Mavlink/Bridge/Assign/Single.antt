-- ===== src/Mavlink/Bridge/Assign/Single.antt =====
-- Only an idle vehicle is given an item, so no vehicle is given a second one.
use swarm_communication.Prelude.{
  ℕ, ◌+◌, ◌≡◌, ◌≤◌, refl, ◌⊎◌, true, false, Option, none, some, List, [], ◌∷◌, arith, Bool-cases,
  Option-cases, inl, inr, subst, contains, ◌==◌, ==_iff,
}
use swarm_communication.Prelude.Map.{Map, lookup}
use swarm_communication.Health.{Float64, ltb_f}
use swarm_communication.Cluster.Member.{NodeId}
use swarm_communication.Mavlink.Mover.{World}
use swarm_communication.Mavlink.Vector.{sub_p, len_p}
use swarm_communication.Mavlink.Bridge.{Item, ItemState, Vehicle, Bridge, is_pending, is_flying}
use swarm_communication.Mavlink.Bridge.Assign.{
  closer, is_idle, goal_for, nearest_from, nearest_idle, Nearest, given, give_item, skip_item,
  assign_item, assign_each, is_skip,
}
use swarm_communication.Mavlink.Bridge.Flights.{flies, flights_of}

-- A node that is chosen is idle.
abbrev pub IdleIn : List NodeId → Map Vehicle → Option NodeId → Type 0
IdleIn busy vs none = Unit
IdleIn busy vs (some id) = (v : Vehicle) × (lookup id vs ≡ some v) × (is_idle busy id v ≡ true)

module _ (w : World) where
  closer-IdleIn :
      (busy : List NodeId) (it : Item) (vs : Map Vehicle) (id : NodeId) (best : Option NodeId)
      (d : Float64)
      → IdleIn busy vs best
      → IdleIn busy vs (closer w busy it vs id (best, d)).0
  unfolding closer
  closer-IdleIn busy it vs id best d h = elim (Option-cases (lookup id vs)) [
    | inl e ↦ rw (e, closer) h
    | inr (v, e) ↦
        rw (e, closer)
          (elim (Bool-cases (is_idle busy id v)) [
            | inr f ↦ rw f h
            | inl f ↦
                rw f
                  (elim (Bool-cases
                    (ltb_f (len_p w.fm (sub_p w.fm (goal_for v it) v.mover.at)) d)) [
                      | inl g ↦ rw g (v, e, f)
                      | inr g ↦ rw g h
                    ])
          ])
  ]

  nearest_from-IdleIn :
      (busy : List NodeId) (it : Item) (vs : Map Vehicle) (ids : List NodeId) (best : Nearest)
      → IdleIn busy vs best.0
      → IdleIn busy vs (nearest_from w busy it vs ids best).0
  unfolding nearest_from
  nearest_from-IdleIn busy it vs [] best h = h
  nearest_from-IdleIn busy it vs (id ∷ ids) best h =
      nearest_from-IdleIn busy it vs ids (closer w busy it vs id best)
        (closer-IdleIn busy it vs id best.0 best.1 h)

  pub nearest_idle-IdleIn :
      (members busy : List NodeId) (it : Item) (vs : Map Vehicle)
      → IdleIn busy vs (nearest_idle w members busy it vs)
  unfolding nearest_idle
  nearest_idle-IdleIn members busy it vs =
      nearest_from-IdleIn busy it vs members (none, Float64.pos_inf) tt

  nearest_idle-NotBusy :
      (members busy : List NodeId) (it : Item) (vs : Map Vehicle) {id : NodeId}
      → nearest_idle w members busy it vs ≡ some id
      → contains busy id ≡ false
  unfolding is_idle
  nearest_idle-NotBusy members busy it vs e =
      let (v, there, idle) = subst (IdleIn busy vs) e (nearest_idle-IdleIn members busy it vs) in
      ground (arith, idle)

  -- What `n` flies is at most one item, and none where it is not busy.
  abbrev pub AtMostOne : NodeId → List NodeId → ℕ → Type 0
  AtMostOne n busy k = ((contains busy n ≡ true) ⊎ (k ≡ 0)) × (k ≤ 1)

  given-AtMostOne :
      (n : NodeId) (busy : List NodeId) (id : NodeId) (it : Item) (v : Vehicle) (others : ℕ)
      → contains busy id ≡ false
      → is_flying it.state ≡ false
      → AtMostOne n busy (flies n it + others)
      → AtMostOne n (id ∷ busy) (flies n (given id v it).0 + others)
  unfolding given
  given-AtMostOne n busy id it v others idle wait h = elim (Bool-cases (id == n)) [
    | inr e ↦ rw e (ground (arith, wait, h.0, h.1))
    | inl e ↦
        let free : contains busy n ≡ false =
          subst (λ i. contains busy i ≡ false) ((==_iff id n).0 e) idle in
        rw e (inl refl, ground (arith, free, wait, h.0))
  ]

  -- The same of what assigning one item gives.
  abbrev Ensures : NodeId → ℕ → Option (Item × List NodeId × Bridge) → Type 0
  Ensures n others none = Unit
  Ensures n others (some (it, busy, b)) = AtMostOne n busy (flies n it + others)

  give_item-Ensures :
      (n : NodeId) (busy : List NodeId) (id : NodeId) (it : Item) (b : Bridge) (others : ℕ)
      → contains busy id ≡ false
      → is_flying it.state ≡ false
      → AtMostOne n busy (flies n it + others)
      → Ensures n others (give_item busy id it b)
  unfolding give_item
  give_item-Ensures n busy id it b others idle wait h = elim (Option-cases (lookup id b.vs)) [
    | inl e ↦ rw (e, give_item) tt
    | inr (v, e) ↦ rw (e, give_item) (given-AtMostOne n busy id it v others idle wait h)
  ]

  waits : (s : ItemState) → is_pending s ≡ true → is_flying s ≡ false
  waits ItemState.pending h = refl
  waits ItemState.flying h = cc
  waits ItemState.done h = cc

  assign_item-Ensures :
      (n : NodeId) (members : List NodeId) (exec : ℕ) (busy : List NodeId) (it : Item) (b : Bridge)
      (others : ℕ)
      → AtMostOne n busy (flies n it + others)
      → Ensures n others (assign_item w members exec busy it b)
  unfolding assign_item skip_item
  assign_item-Ensures n members exec busy it b others h = elim (Bool-cases (is_pending it.state)) [
    | inr e ↦ rw e h
    | inl e ↦ rw e (elim (Bool-cases (is_skip it.kind)) [
      | inl f ↦ rw f (ground (arith, waits it.state e, h.0), ground (arith, waits it.state e, h.1))
      | inr f ↦ rw f (elim (Option-cases (nearest_idle w members busy it b.vs)) [
        | inl g ↦ rw (g, assign_item) tt
        | inr (id, g) ↦
            rw (g, assign_item)
              (give_item-Ensures n busy id it b others (nearest_idle-NotBusy members busy it b.vs g)
                (waits it.state e) h)
      ])
    ])
  ]

  pub assign_each-one :
      (n : NodeId) (members : List NodeId) (exec : ℕ) (busy : List NodeId) (items : List Item)
      (b : Bridge) (others : ℕ)
      → AtMostOne n busy (flights_of n items + others)
      → flights_of n (assign_each w members exec busy items b).0 + others ≤ 1
  unfolding assign_each flights_of
  assign_each-one n members exec busy [] b others h = h.1
  assign_each-one n members exec busy (it ∷ items) b others h =
      let sure : Ensures n (flights_of n items + others) (assign_item w members exec busy it b) =
        assign_item-Ensures n members exec busy it b (flights_of n items + others)
          (subst (AtMostOne n busy) (omega arith) h) in
      elim (Option-cases (assign_item w members exec busy it b)) [
        | inl e ↦ rw (e, assign_each) h.1
        | inr (r, e) ↦
            let now : AtMostOne n r.1 (flies n r.0 + (flights_of n items + others)) =
              subst (Ensures n (flights_of n items + others)) e sure in
            rw (e, assign_each)
              (omega (
                arith,
                assign_each-one n members exec r.1 items r.2 (flies n r.0 + others)
                    (subst (AtMostOne n r.1) (omega arith) now),
              ))
      ]
