-- ===== src/Mavlink/Bridge/Transfer/Frame.antt =====
-- What the handlers of the mission protocol leave alone of the vehicles.
use swarm_communication.Prelude.{
  ℕ, ◌≡◌, refl, sym, ap, ◌∙◌, some, List, [], ◌∷◌, Bool-cases, Option-cases, some_inj, inl, inr,
  subst, ◌==◌, ==_iff,
}
use swarm_communication.Prelude.Map.{Map, lookup, insert, lookup-insert}
use swarm_communication.Cluster.Member.{NodeId}
use swarm_communication.Mavlink.Mover.{clear_target}
use swarm_communication.Mavlink.Bridge.{
  Item, Vehicle, Bridge, is_flying, vehicle_by_node, holds_goal,
}
use swarm_communication.Mavlink.Bridge.Store.{stop_mover, stop_item, stop_items, clear_assignments}

-- A vehicle is still there, with its system ID.
pub record Stays (node : NodeId) (sys_id : ℕ) (vs : Map Vehicle) : Type 0 where
  pub vehicle : Vehicle
  pub is_there : lookup node vs ≡ some vehicle
  pub same_id : vehicle.sys_id ≡ sys_id

module _ (node : NodeId) (sys_id : ℕ) where
  pub insert-Stays :
      (id : NodeId) (old new : Vehicle) (vs : Map Vehicle)
      → lookup id vs ≡ some old
      → new.sys_id ≡ old.sys_id
      → Stays node sys_id vs
      → Stays node sys_id (insert id new vs)
  insert-Stays id old new vs e same s = elim (Bool-cases (id == node)) [
    | inl t ↦
        let same_node = (==_iff id node).0 t in
        let there = subst (λ i. lookup i vs ≡ some old) same_node e in
        let same_old = some_inj (sym there ∙ s.is_there) in
        record {
          vehicle = new;
          is_there = lookup-insert id node new vs ∙ rw t refl;
          same_id = same ∙ ap (λ (v : Vehicle). v.sys_id) same_old ∙ s.same_id;
        }
    | inr f ↦ record {
      vehicle = s.vehicle;
      is_there = lookup-insert id node new vs ∙ rw f s.is_there;
      same_id = s.same_id;
    }
  ]

  stop_mover-Stays :
      (id : NodeId) (vs : Map Vehicle) → Stays node sys_id vs → Stays node sys_id (stop_mover id vs)
  unfolding stop_mover
  stop_mover-Stays id vs s = elim (Option-cases (lookup id vs)) [
    | inl e ↦ rw (e, stop_mover) s
    | inr (v, e) ↦
        rw (e, stop_mover)
          (insert-Stays id v (record v { mover = clear_target v.mover }) vs e refl s)
  ]

  stop_item-Stays :
      (it : Item) (vs : Map Vehicle) → Stays node sys_id vs → Stays node sys_id (stop_item it vs)
  unfolding stop_item
  stop_item-Stays it vs s = elim (Bool-cases (is_flying it.state)) [
    | inr f ↦ rw f s
    | inl t ↦ rw t (elim (Option-cases (vehicle_by_node it.node vs)) [
      | inl e ↦ rw e s
      | inr (v, e) ↦ rw e (elim (Bool-cases (holds_goal v it)) [
        | inl h ↦ rw h (stop_mover-Stays it.node vs s)
        | inr h ↦ rw h s
      ])
    ])
  ]

  pub stop_items-Stays :
      (items : List Item) (vs : Map Vehicle)
      → Stays node sys_id vs
      → Stays node sys_id (stop_items items vs)
  unfolding stop_items
  stop_items-Stays [] vs s = s
  stop_items-Stays (it ∷ items) vs s =
      stop_items-Stays items (stop_item it vs) (stop_item-Stays it vs s)

  pub clear_assignments-Stays :
      (id : ℕ) (b : Bridge) → Stays node sys_id b.vs → Stays node sys_id (clear_assignments id b).vs
  unfolding clear_assignments
  clear_assignments-Stays id b s = elim (Option-cases (lookup id b.missions)) [
    | inl e ↦ rw (e, clear_assignments) s
    | inr (ms, e) ↦ rw (e, clear_assignments) (stop_items-Stays ms.items b.vs s)
  ]
