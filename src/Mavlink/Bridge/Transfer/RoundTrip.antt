-- ===== src/Mavlink/Bridge/Transfer/RoundTrip.antt =====
-- A mission comes back from a download as it was uploaded.
use swarm_communication.Prelude.{
  ℕ, zero, suc, ◌+◌, ◌≡◌, ◌≢◌, ◌≤◌, ◌<◌, refl, sym, ap, ◌∙◌, false, none, some, List, [], ◌∷◌, ◌++◌,
  arith, Option-cases, some_inj, inl, inr, subst, length, length-append, get_elem?, map,
  append_assoc, ◌==◌, ltb,
}
use swarm_communication.Prelude.Map.{lookup-insert_self}
use swarm_communication.Cluster.Member.{NodeId}
use swarm_communication.Mavlink.Bridge.{
  Message, MissionItemInt, Sender, Item, Vehicle, Bridge, BridgeConfig, send,
}
use swarm_communication.Mavlink.Bridge.Answer.{
  type_mission, mission_target, request_item, echoed, on_mission_request, mission_item,
}
use swarm_communication.Mavlink.Bridge.Transfer.{
  accept_item, on_mission_item_int, on_mission_count, begin_upload,
}
use swarm_communication.Mavlink.Bridge.Transfer.Installed.{raw_of}
use swarm_communication.Mavlink.Bridge.Transfer.Reached.{
  mission_target-Reaches, mission_target_there, mission_target_found,
}
use swarm_communication.Mavlink.Bridge.Transfer.Steps.{
  InTransfer, Arrived, item-taken, take-open, take-last,
}

-- The items one after another.
unfoldable pub items_arrive : BridgeConfig → ℕ → Sender → List MissionItemInt → Bridge → Bridge
unfolding on_mission_item_int
items_arrive cfg now from [] b = b
items_arrive cfg now from (m ∷ ms) b =
    items_arrive cfg now from ms (on_mission_item_int cfg now from m b)

-- A list of items that a ground station uploads to a vehicle: numbered from `first`, for the mission,
-- and none in a frame that the projection cannot read.
abbrev pub IsPlan : BridgeConfig → ℕ → ℕ → ℕ → List MissionItemInt → Type 0
IsPlan cfg target comp first [] = Unit
IsPlan cfg target comp first (m ∷ ms) =
    (m.seq ≡ first)
    × (m.mission_type ≡ type_mission)
    × (m.target_system ≡ target)
    × (m.target_component ≡ comp)
    × (accept_item cfg m ≢ none)
    × IsPlan cfg target comp (suc first) ms

module _ (cfg : BridgeConfig) (target comp : ℕ) (node : NodeId) (sys_id : ℕ) where
  items-Arrived :
      (now : ℕ) (from : Sender) (total : ℕ) (taken : List MissionItemInt) (m : MissionItemInt)
      (ms : List MissionItemInt) (b : Bridge)
      → InTransfer target comp node sys_id total taken b
      → IsPlan cfg target comp (length taken) (m ∷ ms)
      → length taken + suc (length ms) ≡ total
      → total ≤ 500
      → Arrived target comp node sys_id cfg now from
          (taken ++ m ∷ ms)
          (items_arrive cfg now from (m ∷ ms) b)
  unfolding items_arrive
  items-Arrived now from total taken m [] b t (sq, mt, ts, tc, acc, later) sum small =
      elim (Option-cases (accept_item cfg m)) [
        | inl e ↦ absurd (acc e)
        | inr (it, e) ↦
            subst (Arrived target comp node sys_id cfg now from (taken ++ m ∷ []))
              (sym (
                item-taken target comp node sys_id cfg now from total taken m b t it ts tc mt sq e))
              (take-last target comp node sys_id cfg now from total taken m b t it e (omega arith)
                small)
      ]
  items-Arrived now from total taken m (m' ∷ ms) b t (sq, mt, ts, tc, acc, later) sum small =
      elim (Option-cases (accept_item cfg m)) [
        | inl e ↦ absurd (acc e)
        | inr (it, e) ↦
            let one_more : suc (length taken) ≡ length (taken ++ m ∷ []) =
              omega (arith, length-append taken (m ∷ [])) in
            let next =
              subst (InTransfer target comp node sys_id total (taken ++ m ∷ []))
                (sym (
                  item-taken target comp node sys_id cfg now from total taken m b t it ts tc mt sq
                    e))
                (take-open target comp node sys_id cfg now from total taken m b t it e (omega arith)
                  small) in
            subst
              (λ l.
                Arrived target comp node sys_id cfg now from l
                  (items_arrive cfg now from (m ∷ m' ∷ ms) b))
              (append_assoc taken (m ∷ []) (m' ∷ ms))
              (items-Arrived now from total (taken ++ m ∷ []) m' ms
                (on_mission_item_int cfg now from m b) next
                (subst (λ k. IsPlan cfg target comp k (m' ∷ ms)) one_more later)
                (omega (arith, one_more)) small)
      ]

-- An upload whose messages all arrive: the count, and then each item.
unfoldable pub uploaded : BridgeConfig → ℕ → Sender → ℕ → ℕ → List MissionItemInt → Bridge → Bridge
unfolding on_mission_count items_arrive
uploaded cfg now from target comp raws b =
    items_arrive cfg now from raws
      (on_mission_count now from target comp (length raws) type_mission b)

module _ (target comp : ℕ) (node : NodeId) (v : Vehicle) (b : Bridge) where
  begun :
      (now : ℕ) (from : Sender) (total : ℕ)
      → mission_target target comp b ≡ some (node, v)
      → 0 < total
      → total ≤ 500
      → InTransfer target comp node v.sys_id total []
          (on_mission_count now from target comp total type_mission b)
  unfolding on_mission_count request_item send begin_upload
  begun now from total found more small =
      let reaches = mission_target-Reaches target comp node v b found in
      let up = begin_upload now from type_mission total in
      let fits : ltb 500 total ≡ false = ground arith in
      let some_item : (total == 0) ≡ false = ground arith in
      rw (found, on_mission_count)
        (rw (fits, some_item)
          (record {
            reaches = record {
              comp_ok = reaches.comp_ok;
              target_ok = reaches.target_ok;
              registered = reaches.registered;
            };
            stays = record {
              vehicle = v;
              is_there = mission_target_there target comp node v b found;
              same_id = refl;
            };
            up = up;
            is_open = lookup-insert_self v.sys_id up b.uploads;
            for_mission = refl;
            counted = refl;
            at_next = refl;
            raws_taken = refl;
          }))

-- MISSION_ITEM_INT with every field of the item that was uploaded, in its own place, and addressed to
-- who asks.
abbrev pub answer_with : Sender → MissionItemInt → Message
answer_with asker raw = Message.mission_item_int (record {
  param1 = raw.param1;
  param2 = raw.param2;
  param3 = raw.param3;
  param4 = raw.param4;
  x = raw.x;
  y = raw.y;
  z = raw.z;
  seq = raw.seq;
  command = raw.command;
  target_system = asker.sys_id;
  target_component = asker.comp_id;
  frame = raw.frame;
  current = raw.current;
  autocontinue = raw.autocontinue;
  mission_type = type_mission;
})

get_elem?-raws :
    (items : List Item) (i : ℕ) {raw : MissionItemInt}
    → get_elem? (map raw_of items) i ≡ some raw
    → (it : Item) × (get_elem? items i ≡ some it) × (it.raw ≡ raw)
get_elem?-raws [] i h = absurd (cc)
get_elem?-raws (it ∷ items) zero h = (it, refl, some_inj h)
get_elem?-raws (it ∷ items) (suc i) h = get_elem?-raws items i h

request-Arrived :
    (cfg : BridgeConfig) (target comp : ℕ) (node : NodeId) (sys_id now : ℕ) (from asker : Sender)
    (raws : List MissionItemInt) (b : Bridge) (i : ℕ) (raw : MissionItemInt)
    → Arrived target comp node sys_id cfg now from raws b
    → get_elem? raws i ≡ some raw
    → (on_mission_request asker target comp i type_mission b).sent
      ≡ (sys_id, answer_with asker raw) ∷ b.sent
unfolding on_mission_request mission_item echoed send
request-Arrived cfg target comp node sys_id now from asker raws b i raw a at =
    let v = a.stays.vehicle in
    let found = mission_target_found target comp node v b a.reaches a.stays.is_there in
    let (it, here, same) =
      get_elem?-raws a.stored.mission.items i (ap (λ l. get_elem? l i) a.stored.same_raws ∙ at) in
    let item : mission_item type_mission v.sys_id i b ≡ some it =
      ap (λ s. mission_item type_mission s i b) a.stays.same_id
      ∙ rw (a.stored.is_stored, mission_item) here in
    rw (found, on_mission_request) (rw (item, on_mission_request) (rw (a.stays.same_id, same) refl))

-- A ground station uploads a plan of 1 to 500 items to a vehicle of ours: the count, and each item in
-- order, in frames that the projection reads. Whoever then asks for item `i` is answered by the vehicle
-- with a MISSION_ITEM_INT addressed to who asks, whose other fields are, one by one, those that were
-- uploaded.
pub request-uploaded :
    (cfg : BridgeConfig) (now : ℕ) (from asker : Sender) (target comp : ℕ) (node : NodeId)
    (v : Vehicle) (b : Bridge) (m : MissionItemInt) (ms : List MissionItemInt)
    → mission_target target comp b ≡ some (node, v)
    → IsPlan cfg target comp 0 (m ∷ ms)
    → suc (length ms) ≤ 500
    → (i : ℕ) (raw : MissionItemInt) → get_elem? (m ∷ ms) i ≡ some raw
    → (on_mission_request asker target comp i type_mission
        (uploaded cfg now from target comp (m ∷ ms) b)).sent
      ≡ (v.sys_id, answer_with asker raw) ∷ (uploaded cfg now from target comp (m ∷ ms) b).sent
unfolding uploaded
request-uploaded cfg now from asker target comp node v b m ms found plan small i raw at =
    let total = suc (length ms) in
    let b1 = on_mission_count now from target comp total type_mission b in
    request-Arrived cfg target comp node v.sys_id now from asker (m ∷ ms)
      (items_arrive cfg now from (m ∷ ms) b1) i raw
      (items-Arrived cfg target comp node v.sys_id now from total [] m ms b1
        (begun target comp node v b now from total found (omega arith) small) plan (omega arith)
        small)
      at
