-- ===== src/Mavlink/Bridge/Transfer/Abandon.antt =====
-- A transfer that fails or stalls leaves the stored missions as they were.
use swarm_communication.Prelude.{
  ℕ, ◌+◌, ◌-◌, ◌%◌, ◌≡◌, ◌∙◌, refl, sym, ◌⊎◌, false, Option, none, some, List, [], ◌∷◌, ◌++◌, arith,
  Bool-cases, Option-cases, inl, inr, subst, contains, ltb, ◌==◌, ==_iff, if◌then◌else◌,
}
use swarm_communication.Prelude.Map.{Map, lookup, erase, keys, lookup-erase}
use swarm_communication.Prelude.Sort.{sort, sort-Permᴰ}
use swarm_communication.Prelude.Distinct.{contains-Permᴰ}
use swarm_communication.Cluster.Member.{NodeId}
use swarm_communication.Mavlink.Bridge.{
  MissionItemInt, Sender, Item, Upload, Vehicle, Bridge, BridgeConfig, send, statusf, sorted_keys,
}
use swarm_communication.Mavlink.Bridge.Answer.{mission_target, mission_ack, request_item}
use swarm_communication.Mavlink.Bridge.Store.{install_mission}
use swarm_communication.Mavlink.Bridge.Transfer.{
  accept_item, staged, take_item, end_upload, continue_upload, on_mission_item_int, expire_upload,
  expire_each, expire_uploads,
}

-- The missions and the vehicles are as before.
pub record Untouched (b b' : Bridge) : Type 0 where
  pub same_missions : b'.missions ≡ b.missions
  pub same_vehicles : b'.vs ≡ b.vs

-- The item is the last one of the transfer, at its place, and the whole list of items is installed.
pub record Completes (cfg : BridgeConfig) (m : MissionItemInt) (b b' : Bridge) : Type 0 where
  pub node : NodeId
  pub vehicle : Vehicle
  pub up : Upload
  pub item : Item
  pub is_target : mission_target m.target_system m.target_component b ≡ some (node, vehicle)
  pub is_open : lookup vehicle.sys_id b.uploads ≡ some up
  pub same_type : m.mission_type ≡ up.typ
  pub in_sequence : m.seq ≡ up.next
  pub is_last : ltb ((up.next + 1) % 65536) up.count ≡ false
  pub is_accepted : accept_item cfg m ≡ some item
  pub installed :
      b'.missions
      ≡ (install_mission vehicle
          (up.items ++ item ∷ [])
          (record b { uploads = erase vehicle.sys_id b.uploads })).missions

abbrev Outcome : BridgeConfig → MissionItemInt → Bridge → Bridge → Type 0
Outcome cfg m b b' = Untouched b b' ⊎ Completes cfg m b b'

module _ (cfg : BridgeConfig) (now : ℕ) (from : Sender) (m : MissionItemInt) (b : Bridge) where
  module _ (node : NodeId) (v : Vehicle) (up : Upload)
      (found : mission_target m.target_system m.target_component b ≡ some (node, v))
      (is_open : lookup v.sys_id b.uploads ≡ some up) where
    last_item :
        (it : Item)
        → m.mission_type ≡ up.typ
        → m.seq ≡ up.next
        → accept_item cfg m ≡ some it
        → Outcome cfg m b (take_item now from m v it up b)
    unfolding take_item staged mission_ack request_item send
    last_item it typ sq acc = elim (Bool-cases (ltb ((up.next + 1) % 65536) up.count)) [
      | inl e ↦ rw e (inl (record { same_missions = refl; same_vehicles = refl }))
      | inr e ↦ rw e (
          inr (record {
            node = node;
            vehicle = v;
            up = up;
            item = it;
            is_target = found;
            is_open = is_open;
            same_type = typ;
            in_sequence = sq;
            is_last = e;
            is_accepted = acc;
            installed = refl;
          }))
    ]

    end-Untouched : (result : ℕ) → Untouched b (end_upload v.sys_id from m.mission_type result b)
    unfolding end_upload mission_ack send
    end-Untouched result = record { same_missions = refl; same_vehicles = refl }

    continue-Outcome : Outcome cfg m b (continue_upload cfg now from m v up b)
    unfolding continue_upload request_item send
    continue-Outcome = elim (Bool-cases (m.mission_type == up.typ)) [
      | inr e ↦ rw e (inl (end-Untouched 5))
      | inl e ↦ rw e (elim (Bool-cases (ltb m.seq up.next)) [
        | inl f ↦ rw f (inl (record { same_missions = refl; same_vehicles = refl }))
        | inr f ↦ rw f (elim (Bool-cases (ltb up.next m.seq)) [
          | inl g ↦ rw g (inl (end-Untouched 13))
          | inr g ↦ rw g (elim (Option-cases (accept_item cfg m)) [
            | inl h ↦ rw (h, continue_upload) (inl (end-Untouched 2))
            | inr (it, h) ↦
                rw (h, continue_upload) (last_item it ((==_iff _ _).0 e) (ground (arith, f, g)) h)
          ])
        ])
      ])
    ]

  -- One item of a transfer: the missions and the vehicles stay as they are, unless it is the last item of
  -- the transfer, of its type, in sequence and accepted. Then all items of the transfer are installed.
  pub item-Untouched :
      Untouched b (on_mission_item_int cfg now from m b)
      ⊎ Completes cfg m b (on_mission_item_int cfg now from m b)
  unfolding on_mission_item_int mission_ack send
  item-Untouched = elim (Option-cases (mission_target m.target_system m.target_component b)) [
    | inl e ↦
        rw (e, on_mission_item_int) (inl (record { same_missions = refl; same_vehicles = refl }))
    | inr (target, e) ↦
        rw (e, on_mission_item_int)
          (elim (Option-cases (lookup (target.1).sys_id b.uploads)) [
            | inl f ↦
                rw (f, on_mission_item_int)
                  (inl (record { same_missions = refl; same_vehicles = refl }))
            | inr (up, f) ↦ rw (f, on_mission_item_int) (continue-Outcome target.0 target.1 up e f)
          ])
  ]

-- What the clock leaves of a transfer.
unfoldable pub live : ℕ → ℕ → Option Upload → Option Upload
live timeout now none = none
live timeout now (some up) = if ltb (now - up.last) timeout then some up else none

live_twice :
    (timeout now : ℕ) (o : Option Upload)
    → live timeout now (live timeout now o) ≡ live timeout now o
unfolding live
live_twice timeout now none = refl
live_twice timeout now (some up) = elim (Bool-cases (ltb (now - up.last) timeout)) [
  | inl e ↦ rw e (rw e refl)
  | inr e ↦ rw e refl
]

lookup_missing : {V : Type 0} (k : ℕ) (m : Map V) → contains (keys m) k ≡ false → lookup k m ≡ none
unfolding lookup
lookup_missing k [] h = refl
lookup_missing k ((j, v) ∷ m) h = ground (arith, lookup_missing k m)

module _ (timeout now : ℕ) where
  lookup-expire_upload :
      (k id : ℕ) (b : Bridge)
      → lookup k (expire_upload timeout now id b).uploads
        ≡ (if id == k then live timeout now (lookup k b.uploads) else lookup k b.uploads)
  unfolding expire_upload live statusf send
  lookup-expire_upload k id b = elim (Bool-cases (id == k)) [
    | inr f ↦ rw f (ground (arith, f, lookup-erase id k b.uploads))
    | inl t ↦ rw t (
        subst
          (λ i.
            lookup k (expire_upload timeout now i b).uploads
            ≡ live timeout now (lookup k b.uploads))
          (sym ((==_iff id k).0 t)) (own_upload k b))
  ]
    where
      own_upload :
          (i : ℕ) (c : Bridge)
          → lookup i (expire_upload timeout now i c).uploads ≡ live timeout now (lookup i c.uploads)
      own_upload i c = ground (arith, lookup-erase i i c.uploads)

  lookup-expire_each :
      (k : ℕ) (ids : List ℕ) (b : Bridge)
      → lookup k (expire_each timeout now ids b).uploads
        ≡ (if contains ids k then live timeout now (lookup k b.uploads) else lookup k b.uploads)
  unfolding expire_each
  lookup-expire_each k [] b = refl
  lookup-expire_each k (id ∷ ids) b = ground (
    arith,
    lookup-expire_each k ids (expire_upload timeout now id b),
    lookup-expire_upload k id b,
    live_twice timeout now (lookup k b.uploads),
  )

  expire_upload-Untouched : (id : ℕ) (b : Bridge) → Untouched b (expire_upload timeout now id b)
  unfolding expire_upload statusf send
  expire_upload-Untouched id b = record {
    same_missions = ground arith;
    same_vehicles = ground arith;
  }

  expire_each-Untouched : (ids : List ℕ) (b : Bridge) → Untouched b (expire_each timeout now ids b)
  unfolding expire_each
  expire_each-Untouched [] b = record { same_missions = refl; same_vehicles = refl }
  expire_each-Untouched (id ∷ ids) b =
      let u = expire_upload-Untouched id b in
      let r = expire_each-Untouched ids (expire_upload timeout now id b) in
      record {
        same_missions = r.same_missions ∙ u.same_missions;
        same_vehicles = r.same_vehicles ∙ u.same_vehicles;
      }

-- A check of the transfers forgets exactly those that have made no progress for the timeout, whatever
-- their vehicles, and leaves the missions and the vehicles as they are.
pub lookup-expire_uploads :
    (cfg : BridgeConfig) (now : ℕ) (b : Bridge)
    → ((k : ℕ)
        → lookup k (expire_uploads cfg now b).uploads
          ≡ live cfg.mission_upload_timeout now (lookup k b.uploads))
      × Untouched b (expire_uploads cfg now b)
unfolding expire_uploads sorted_keys live
lookup-expire_uploads cfg now b = (
  λ k.
      let same = contains-Permᴰ (sort-Permᴰ ltb (keys b.uploads)) k in
      lookup-expire_each cfg.mission_upload_timeout now k (sort ltb (keys b.uploads)) b
      ∙ ground (arith, same, lookup_missing k b.uploads),
  expire_each-Untouched cfg.mission_upload_timeout now (sort ltb (keys b.uploads)) b,
)
