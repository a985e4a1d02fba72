-- ===== src/Mavlink/Bridge/Fly/Elected.antt =====
-- What it takes for a mission to move to another vehicle.
use swarm_communication.Prelude.{
  ℕ, ◌≡◌, ◌⊎◌, refl, ◌∙◌, true, false, some, List, [], ◌∷◌, arith, Bool-cases, Option-cases,
  some_inj, inl, inr, subst, ◌==◌,
}
use swarm_communication.Prelude.Map.{Map, lookup}
use swarm_communication.Cluster.Member.{NodeId}
use swarm_communication.Mavlink.Bridge.{Mission, Vehicle, Bridge, vehicle_by_sys_id}
use swarm_communication.Mavlink.Bridge.Fly.{
  leads, followed, leader_of_members, first_leader, elected_leader_for, still_leads, migrate_to,
  migrate,
}

-- Leaders are connected and lead.
followed-leads :
    (vs : Map Vehicle) (id : NodeId) {l : NodeId}
    → followed vs id ≡ some l
    → leads (lookup l vs) ≡ true
unfolding followed
followed-leads vs id {l} e = elim (Option-cases (lookup id vs)) [
  | inl f ↦ absurd (ground (arith, e, f))
  | inr (v, f) ↦
      let same : v.leader_id ≡ l = ground (arith, e, f) in
      subst (λ i. leads (lookup i vs) ≡ true) same (ground (arith, e, f))
]

leader_of_members-leads :
    (vs : Map Vehicle) (ids : List NodeId) {l : NodeId}
    → leader_of_members vs ids ≡ some l
    → leads (lookup l vs) ≡ true
unfolding leader_of_members
leader_of_members-leads vs [] e = absurd (cc)
leader_of_members-leads vs (id ∷ ids) {l} e = elim (Option-cases (followed vs id)) [
  | inl f ↦ leader_of_members-leads vs ids (ground (arith, e, f))
  | inr (l', f) ↦ followed-leads vs id (f ∙ ground (arith, e, f))
]

first_leader-leads :
    (vs : Map Vehicle) (ids : List NodeId) {l : NodeId}
    → first_leader vs ids ≡ some l
    → leads (lookup l vs) ≡ true
unfolding first_leader
first_leader-leads vs [] e = absurd (cc)
first_leader-leads vs (id ∷ ids) {l} e = elim (Bool-cases (leads (lookup id vs))) [
  | inl f ↦ subst (λ i. leads (lookup i vs) ≡ true) (some_inj (rw f at e)) f
  | inr f ↦ first_leader-leads vs ids (rw f at e)
]

elected-leads :
    (ms : Mission) (b : Bridge) {v : Vehicle}
    → elected_leader_for ms b ≡ some v
    → (l : NodeId) × (lookup l b.vs ≡ some v) × (v.connected ≡ true) × (v.leader ≡ true)
unfolding elected_leader_for
elected-leads ms b {v} e = elim (Option-cases (leader_of_members b.vs ms.members)) [
  | inr (l, f) ↦
      let there : lookup l b.vs ≡ some v = ground (arith, e, f) in
      let lead = leader_of_members-leads b.vs ms.members f in
      (l, there, ground (arith, there, lead), ground (arith, there, lead))
  | inl f ↦ elim (Option-cases (first_leader b.vs b.order)) [
    | inl g ↦ absurd (ground (arith, e, f, g))
    | inr (l, g) ↦
        let there : lookup l b.vs ≡ some v = ground (arith, e, f, g) in
        let lead = first_leader-leads b.vs b.order g in
        (l, there, ground (arith, there, lead), ground (arith, there, lead))
  ]
]

-- The mission was a leader's, its vehicle no longer leads, and a connected leader takes it over.
pub record Moves (ms : Mission) (b : Bridge) (exec : ℕ) : Type 0 where
  pub leader : NodeId
  pub vehicle : Vehicle
  pub is_there : lookup leader b.vs ≡ some vehicle
  pub connected : vehicle.connected ≡ true
  pub leads_swarm : vehicle.leader ≡ true
  pub for_cluster : ms.leader_mission ≡ true
  pub deposed : still_leads (vehicle_by_sys_id ms.exec b) ≡ false
  pub is_exec : exec ≡ vehicle.sys_id

-- A mission stays with its vehicle, unless it was uploaded to a leader, that vehicle is gone or leads no
-- longer, and a vehicle that is connected and leads takes over. Its items are as before in any case.
pub migrate-Moves :
    (ms : Mission) (b : Bridge)
    → (((migrate ms b).0.exec ≡ ms.exec) ⊎ Moves ms b (migrate ms b).0.exec)
      × ((migrate ms b).0.items ≡ ms.items)
unfolding migrate migrate_to
migrate-Moves ms b = (
  elim (Bool-cases ms.leader_mission) [
    | inr e ↦ rw e (inl refl)
    | inl e ↦ rw e (elim (Bool-cases (still_leads (vehicle_by_sys_id ms.exec b))) [
      | inl f ↦ rw f (inl refl)
      | inr f ↦ rw f (elim (Option-cases (elected_leader_for ms b)) [
        | inl g ↦ rw (g, migrate) (inl refl)
        | inr (v, g) ↦
            let (l, there, on, lead) = elected-leads ms b g in
            rw (g, migrate)
              (elim (Bool-cases (v.sys_id == ms.exec)) [
                | inl h ↦ rw h (inl refl)
                | inr h ↦ rw h (
                    inr (record {
                      leader = l;
                      vehicle = v;
                      is_there = there;
                      connected = on;
                      leads_swarm = lead;
                      for_cluster = refl;
                      deposed = f;
                      is_exec = refl;
                    }))
              ])
      ])
    ])
  ],
  ground arith,
)
