-- ===== src/Mavlink/Bridge/Lifecycle.antt =====
-- The life of an item: nothing but its state, its node and its goal changes, and what is done stays done.
use swarm_communication.Prelude.{
  ℕ, ◌≡◌, refl, ◌∙◌, ◌⊎◌, true, false, Option, none, some, List, [], ◌∷◌, arith, Bool-cases,
  Option-cases, inl, inr, subst, map,
}
use swarm_communication.Prelude.Map.{lookup}
use swarm_communication.Cluster.Member.{NodeId}
use swarm_communication.Mavlink.Mover.{World}
use swarm_communication.Mavlink.Bridge.{ItemState, Item, Bridge, is_pending, is_done}
use swarm_communication.Mavlink.Bridge.Store.{freed, clear_item, abandon}
use swarm_communication.Mavlink.Bridge.Fly.{
  release_item, collect_item, collect_flying, collect_each, arrived,
}
use swarm_communication.Mavlink.Bridge.Assign.{
  nearest_idle, given, give_item, skip_item, assign_item, assign_each, is_skip,
}

pub record Advances (it it' : Item) : Type 0 where
  pub same_seq : it'.seq ≡ it.seq
  pub same_cmd : it'.cmd ≡ it.cmd
  pub same_kind : it'.kind ≡ it.kind
  pub same_raw : it'.raw ≡ it.raw
  pub stays_done : (is_done it.state ≡ false) ⊎ (is_done it'.state ≡ true)

abbrev pub AdvancesAll : List Item → List Item → Type 0
AdvancesAll [] [] = Unit
AdvancesAll (it ∷ items) (it' ∷ items') = Advances it it' × AdvancesAll items items'
AdvancesAll _ _ = ⊥

pub Advances-refl : (it : Item) → Advances it it
Advances-refl it = record {
  same_seq = refl;
  same_cmd = refl;
  same_kind = refl;
  same_raw = refl;
  stays_done = ground arith;
}

pub Advances-trans : (a b c : Item) → Advances a b → Advances b c → Advances a c
Advances-trans a b c p q = record {
  same_seq = q.same_seq ∙ p.same_seq;
  same_cmd = q.same_cmd ∙ p.same_cmd;
  same_kind = q.same_kind ∙ p.same_kind;
  same_raw = q.same_raw ∙ p.same_raw;
  stays_done = ground arith;
}

pub AdvancesAll-refl : (items : List Item) → AdvancesAll items items
AdvancesAll-refl [] = tt
AdvancesAll-refl (it ∷ items) = (Advances-refl it, AdvancesAll-refl items)

pub AdvancesAll-trans :
    (xs ys zs : List Item) → AdvancesAll xs ys → AdvancesAll ys zs → AdvancesAll xs zs
AdvancesAll-trans [] [] [] p q = tt
AdvancesAll-trans (x ∷ xs) (y ∷ ys) (z ∷ zs) p q =
    (Advances-trans x y z p.0 q.0, AdvancesAll-trans xs ys zs p.1 q.1)
AdvancesAll-trans [] [] (z ∷ zs) p q = absurd q
AdvancesAll-trans [] (y ∷ ys) zs p q = absurd p
AdvancesAll-trans (x ∷ xs) [] zs p q = absurd p
AdvancesAll-trans (x ∷ xs) (y ∷ ys) [] p q = absurd q

pub AdvancesAll-map :
    (f : Item → Item)
    → ((it : Item) → Advances it (f it))
    → (items : List Item) → AdvancesAll items (map f items)
AdvancesAll-map f step [] = tt
AdvancesAll-map f step (it ∷ items) = (step it, AdvancesAll-map f step items)

pub clear_item-Advances : (it : Item) → Advances it (clear_item it)
unfolding clear_item freed
clear_item-Advances it = ground arith

pub release_item-Advances : (node : NodeId) (it : Item) → Advances it (release_item node it)
unfolding release_item freed
release_item-Advances node it = ground arith

pub abandon-Advances : (seq : ℕ) (it : Item) → Advances it (abandon seq it)
unfolding abandon
abandon-Advances seq it = ground arith

collect_item-Advances : (exec : ℕ) (it : Item) (b : Bridge) → Advances it (collect_item exec it b).0
unfolding collect_item collect_flying arrived freed
collect_item-Advances exec it b = ground arith

pub collect_each-Advances :
    (exec : ℕ) (items : List Item) (b : Bridge) → AdvancesAll items (collect_each exec items b).0
unfolding collect_each
collect_each-Advances exec [] b = tt
collect_each-Advances exec (it ∷ items) b =
    (collect_item-Advances exec it b, collect_each-Advances exec items (collect_item exec it b).1)

-- What assigning one item gives, where it gives anything.
abbrev Onward : Item → Option (Item × List NodeId × Bridge) → Type 0
Onward it none = Unit
Onward it (some (it', busy, b)) = Advances it it'

pending_again : (s : ItemState) → is_pending s ≡ true → is_done s ≡ false
pending_again ItemState.pending h = refl
pending_again ItemState.flying h = cc
pending_again ItemState.done h = cc

module _ (w : World) where
  give_item-Onward :
      (busy : List NodeId) (id : NodeId) (it : Item) (b : Bridge)
      → is_done it.state ≡ false
      → Onward it (give_item busy id it b)
  unfolding give_item given
  give_item-Onward busy id it b h = elim (Option-cases (lookup id b.vs)) [
    | inl e ↦ rw (e, give_item) tt
    | inr (v, e) ↦
        rw (e, give_item)
          (record {
            same_seq = refl;
            same_cmd = refl;
            same_kind = refl;
            same_raw = refl;
            stays_done = inl h;
          })
  ]

  assign_item-Onward :
      (members : List NodeId) (exec : ℕ) (busy : List NodeId) (it : Item) (b : Bridge)
      → Onward it (assign_item w members exec busy it b)
  unfolding assign_item skip_item
  assign_item-Onward members exec busy it b = elim (Bool-cases (is_pending it.state)) [
    | inr e ↦ rw e (Advances-refl it)
    | inl e ↦ rw e (elim (Bool-cases (is_skip it.kind)) [
      | inl f ↦ rw f (record {
        same_seq = refl;
        same_cmd = refl;
        same_kind = refl;
        same_raw = refl;
        stays_done = inr refl;
      })
      | inr f ↦ rw f (elim (Option-cases (nearest_idle w members busy it b.vs)) [
        | inl g ↦ rw (g, assign_item) tt
        | inr (id, g) ↦
            rw (g, assign_item) (give_item-Onward busy id it b (pending_again it.state e))
      ])
    ])
  ]

  pub assign_each-Advances :
      (members : List NodeId) (exec : ℕ) (busy : List NodeId) (items : List Item) (b : Bridge)
      → AdvancesAll items (assign_each w members exec busy items b).0
  unfolding assign_each
  assign_each-Advances members exec busy [] b = tt
  assign_each-Advances members exec busy (it ∷ items) b =
      elim (Option-cases (assign_item w members exec busy it b)) [
        | inl e ↦ rw (e, assign_each) (AdvancesAll-refl (it ∷ items))
        | inr (r, e) ↦
            rw (e, assign_each)
              (
                subst (Onward it) e (assign_item-Onward members exec busy it b),
                assign_each-Advances members exec r.1 items r.2,
              )
      ]
