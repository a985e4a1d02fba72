-- ===== src/Mavlink/Bridge/Loop/Elsewhere.antt =====
-- backend/pkg/mavlink/mission.go: what the parts of runMissions leave alone.
use swarm_communication.Prelude.{
  ℕ, ◌≡◌, refl, ◌∙◌, some, List, [], ◌∷◌, arith, Bool-cases, Option-cases, inl, inr,
}
use swarm_communication.Cluster.Member.{NodeId}
use swarm_communication.Mavlink.Mover.{World}
use swarm_communication.Mavlink.Bridge.{Item, Mission, Bridge, send, statusf, queue_task}
use swarm_communication.Mavlink.Bridge.Store.{send_current}
use swarm_communication.Mavlink.Bridge.Fly.{
  collect_item, collect_flying, collect_each, arrived, migrate_to, migrate,
}
use swarm_communication.Mavlink.Bridge.Assign.{
  exec_members, busy_in, given, give_item, skip_item, assign_item, assign_each, assign_items,
}
use swarm_communication.Mavlink.Bridge.Sound.{IsSoundBridge}

-- What the parts of a pass leave alone beside the mission that they are about.
pub record Elsewhere (b b' : Bridge) : Type 0 where
  pub same_missions : b'.missions ≡ b.missions
  pub same_uploads : b'.uploads ≡ b.uploads

pub Elsewhere-IsSound : {b b' : Bridge} → Elsewhere b b' → IsSoundBridge b → IsSoundBridge b'
Elsewhere-IsSound e s = rw (e.same_missions, e.same_uploads) s

pub Elsewhere-trans : {a b c : Bridge} → Elsewhere a b → Elsewhere b c → Elsewhere a c
Elsewhere-trans p q = record {
  same_missions = q.same_missions ∙ p.same_missions;
  same_uploads = q.same_uploads ∙ p.same_uploads;
}

collect_item-Elsewhere :
    (exec : ℕ) (it : Item) (b : Bridge) → Elsewhere b (collect_item exec it b).1
unfolding collect_item collect_flying arrived queue_task send
collect_item-Elsewhere exec it b = record {
  same_missions = ground arith;
  same_uploads = ground arith;
}

pub collect_each-Elsewhere :
    (exec : ℕ) (items : List Item) (b : Bridge) → Elsewhere b (collect_each exec items b).1
unfolding collect_each
collect_each-Elsewhere exec [] b = record { same_missions = refl; same_uploads = refl }
collect_each-Elsewhere exec (it ∷ items) b =
    Elsewhere-trans (collect_item-Elsewhere exec it b)
      (collect_each-Elsewhere exec items (collect_item exec it b).1)

pub migrate-Elsewhere : (ms : Mission) (b : Bridge) → Elsewhere b (migrate ms b).1
unfolding migrate migrate_to statusf send
migrate-Elsewhere ms b = record { same_missions = ground arith; same_uploads = ground arith }

module _ (w : World) where
  assign_item-Elsewhere :
      (members : List NodeId) (exec : ℕ) (busy : List NodeId) (it : Item) (b : Bridge)
      (r : Item × List NodeId × Bridge)
      → assign_item w members exec busy it b ≡ some r
      → Elsewhere b r.2
  unfolding assign_item skip_item give_item given send statusf
  assign_item-Elsewhere members exec busy it b r e = record {
    same_missions = ground (arith, e);
    same_uploads = ground (arith, e);
  }

  assign_each-Elsewhere :
      (members : List NodeId) (exec : ℕ) (busy : List NodeId) (items : List Item) (b : Bridge)
      → Elsewhere b (assign_each w members exec busy items b).1
  unfolding assign_each
  assign_each-Elsewhere members exec busy [] b = record {
    same_missions = refl;
    same_uploads = refl;
  }
  assign_each-Elsewhere members exec busy (it ∷ items) b =
      elim (Option-cases (assign_item w members exec busy it b)) [
        | inl e ↦ rw (e, assign_each) (record { same_missions = refl; same_uploads = refl })
        | inr (r, e) ↦
            rw (e, assign_each)
              (Elsewhere-trans (assign_item-Elsewhere members exec busy it b r e)
                (assign_each-Elsewhere members exec r.1 items r.2))
      ]

  pub assigned-Elsewhere : (ms : Mission) (b : Bridge) → Elsewhere b (assign_items w ms b).1
  unfolding assign_items
  assigned-Elsewhere ms b = elim (Bool-cases ms.started) [
    | inr e ↦ rw e (record { same_missions = refl; same_uploads = refl })
    | inl e ↦
        rw e (assign_each-Elsewhere (exec_members ms b) ms.exec (busy_in b.missions) ms.items b)
  ]

  pub send_current-Elsewhere : (ms : Mission) (b : Bridge) → Elsewhere b (send_current ms b).1
  unfolding send_current send
  send_current-Elsewhere ms b = record { same_missions = ground arith; same_uploads = ground arith }
