-- ===== src/Mavlink/Bridge/Transfer/Steps.antt =====
-- One item of an upload that goes well: the transfer is one item further, or the mission is stored.
use swarm_communication.Prelude.{
  ℕ, suc, ◌≡◌, ◌≤◌, ◌<◌, refl, sym, ap, ◌∙◌, true, false, some, List, [], ◌∷◌, ◌++◌, arith, subst,
  length, length-append, map, ltb,
}
use swarm_communication.Prelude.Map.{lookup, insert, erase, lookup-insert_self}
use swarm_communication.Cluster.Member.{NodeId}
use swarm_communication.Mavlink.Vehicles.{node_of}
use swarm_communication.Mavlink.Bridge.{
  MissionItemInt, Sender, Item, Upload, Vehicle, Bridge, BridgeConfig, send,
}
use swarm_communication.Mavlink.Bridge.Answer.{
  type_mission, mission_target, mission_ack, request_item,
}
use swarm_communication.Mavlink.Bridge.Store.{install_mission}
use swarm_communication.Mavlink.Bridge.Transfer.{
  accept_item, staged, take_item, continue_upload, on_mission_item_int,
}
use swarm_communication.Mavlink.Bridge.Transfer.Frame.{Stays}
use swarm_communication.Mavlink.Bridge.Transfer.Installed.{
  raw_of, Stored, accept_item-raw, install_mission-Stored, install_mission-Stays,
  install_mission-vehicles,
}
use swarm_communication.Mavlink.Bridge.Transfer.Reached.{Reaches, mission_target_found}

module _ (target comp : ℕ) (node : NodeId) (sys_id : ℕ) where
  -- The transfer to a vehicle, and how far it is.
  pub record InTransfer (total : ℕ) (taken : List MissionItemInt) (b : Bridge) : Type 0 where
    pub reaches : Reaches target comp node b
    pub stays : Stays node sys_id b.vs
    pub up : Upload
    pub is_open : lookup sys_id b.uploads ≡ some up
    pub for_mission : up.typ ≡ type_mission
    pub counted : up.count ≡ total
    pub at_next : up.next ≡ length taken
    pub raws_taken : map raw_of up.items ≡ taken

  module _ (cfg : BridgeConfig) (now : ℕ) (from : Sender) where
    -- An item at its place goes to take_item.
    continue-taken :
        (m : MissionItemInt) (v : Vehicle) (up : Upload) (b : Bridge) (it : Item)
        → m.mission_type ≡ up.typ
        → m.seq ≡ up.next
        → accept_item cfg m ≡ some it
        → continue_upload cfg now from m v up b ≡ take_item now from m v it up b
    unfolding continue_upload
    continue-taken m v up b it typ sq acc = ground (arith, acc)

    pub item-taken :
        (total : ℕ) (taken : List MissionItemInt) (m : MissionItemInt) (b : Bridge)
        (t : InTransfer total taken b) (it : Item)
        → m.target_system ≡ target
        → m.target_component ≡ comp
        → m.mission_type ≡ type_mission
        → m.seq ≡ length taken
        → accept_item cfg m ≡ some it
        → on_mission_item_int cfg now from m b ≡ take_item now from m t.stays.vehicle it t.up b
    unfolding on_mission_item_int
    item-taken total taken m b t it ts tc mt sq acc =
        let v = t.stays.vehicle in
        let found : mission_target m.target_system m.target_component b ≡ some (node, v) =
          ap (λ i. mission_target i m.target_component b) ts
          ∙ ap (λ i. mission_target target i b) tc
          ∙ mission_target_found target comp node v b t.reaches t.stays.is_there in
        let open_here : lookup v.sys_id b.uploads ≡ some t.up =
          ap (λ i. lookup i b.uploads) t.stays.same_id ∙ t.is_open in
        rw (found, on_mission_item_int)
          (rw (open_here, on_mission_item_int)
            (continue-taken m v t.up b it (mt ∙ sym t.for_mission) (sq ∙ sym t.at_next) acc))

    raws_append :
        (items : List Item) (it : Item)
        → map raw_of (items ++ it ∷ []) ≡ map raw_of items ++ it.raw ∷ []
    raws_append [] it = refl
    raws_append (i ∷ items) it = ap (λ l. i.raw ∷ l) (raws_append items it)

    raws_staged :
        (total : ℕ) (taken : List MissionItemInt) (m : MissionItemInt) (b : Bridge)
        (t : InTransfer total taken b) (it : Item)
        → accept_item cfg m ≡ some it
        → map raw_of (t.up.items ++ it ∷ []) ≡ taken ++ m ∷ []
    raws_staged total taken m b t it acc =
        raws_append t.up.items it
        ∙ ap (λ l. l ++ it.raw ∷ []) t.raws_taken
        ∙ ap (λ r. taken ++ r ∷ []) (accept_item-raw cfg m acc)

    pub take-open :
        (total : ℕ) (taken : List MissionItemInt) (m : MissionItemInt) (b : Bridge)
        (t : InTransfer total taken b) (it : Item)
        → accept_item cfg m ≡ some it
        → suc (length taken) < total
        → total ≤ 500
        → InTransfer total (taken ++ m ∷ []) (take_item now from m t.stays.vehicle it t.up b)
    unfolding take_item staged request_item send
    take-open total taken m b t it acc more small =
        let up' = staged now it t.up in
        let next : up'.next ≡ suc (length taken) = ground (arith, t.at_next) in
        let test : ltb up'.next up'.count ≡ true = ground (arith, next, t.counted) in
        rw test (record {
          reaches = record {
            comp_ok = t.reaches.comp_ok;
            target_ok = t.reaches.target_ok;
            registered = t.reaches.registered;
          };
          stays = t.stays;
          up = up';
          is_open =
              subst (λ i. lookup sys_id (insert i up' b.uploads) ≡ some up') (sym t.stays.same_id)
                (lookup-insert_self sys_id up' b.uploads);
          for_mission = t.for_mission;
          counted = t.counted;
          at_next = next ∙ omega (arith, length-append taken (m ∷ []));
          raws_taken = raws_staged total taken m b t it acc;
        })

    pub record Arrived (raws : List MissionItemInt) (b : Bridge) : Type 0 where
      pub reaches : Reaches target comp node b
      pub stays : Stays node sys_id b.vs
      pub stored : Stored sys_id raws b

    pub take-last :
        (total : ℕ) (taken : List MissionItemInt) (m : MissionItemInt) (b : Bridge)
        (t : InTransfer total taken b) (it : Item)
        → accept_item cfg m ≡ some it
        → suc (length taken) ≡ total
        → total ≤ 500
        → Arrived (taken ++ m ∷ []) (take_item now from m t.stays.vehicle it t.up b)
    unfolding take_item staged mission_ack send
    take-last total taken m b t it acc last small =
        let up' = staged now it t.up in
        let v = t.stays.vehicle in
        let next : up'.next ≡ suc (length taken) = ground (arith, t.at_next) in
        let test : ltb up'.next up'.count ≡ false = ground (arith, next, t.counted) in
        let b' : Bridge = record b { uploads = erase v.sys_id b.uploads } in
        let kept = install_mission-vehicles v up'.items b' in
        let held = install_mission-Stored v up'.items b' in
        rw test (record {
          reaches = record {
            comp_ok = t.reaches.comp_ok;
            target_ok = t.reaches.target_ok;
            registered = ap (λ r. node_of target r) kept ∙ t.reaches.registered;
          };
          stays = install_mission-Stays node sys_id v up'.items b' t.stays;
          stored = record {
            mission = held.mission;
            is_stored =
                subst (λ i. lookup i (install_mission v up'.items b').missions ≡ some held.mission)
                  t.stays.same_id held.is_stored;
            same_raws = held.same_raws ∙ raws_staged total taken m b t it acc;
          };
        })
