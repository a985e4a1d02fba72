-- ===== src/Mavlink/Bridge/Loop/Stored.antt =====
-- The mission protocol keeps the invariant.
use swarm_communication.Prelude.{
  ℕ, suc, ◌+◌, ◌%◌, ◌≡◌, refl, sym, ap, ◌∙◌, false, some, List, [], ◌∷◌, ◌++◌, arith, Bool-cases,
  Option-cases, inl, inr, subst, length, length-append, map, ltb, All, All-append, ◌==◌,
}
use swarm_communication.Prelude.Map.{lookup, erase, lookup-AllEntries}
use swarm_communication.Cluster.Member.{NodeId}
use swarm_communication.Mavlink.Bridge.{
  MissionItemInt, Sender, Item, Mission, Upload, Vehicle, Bridge, BridgeConfig, is_flying, send,
}
use swarm_communication.Mavlink.Bridge.Answer.{mission_target, mission_ack, request_item}
use swarm_communication.Mavlink.Bridge.Store.{
  clear_item, clear_assignments, clear_mission, send_current, new_mission, install_mission,
}
use swarm_communication.Mavlink.Bridge.Transfer.{
  accept_item, new_item, staged, take_item, end_upload, continue_upload, on_mission_item_int,
}
use swarm_communication.Mavlink.Bridge.Flights.{flights_of, flights_of-map, flies-clear_item}
use swarm_communication.Mavlink.Bridge.Lifecycle.{AdvancesAll-map, clear_item-Advances}
use swarm_communication.Mavlink.Bridge.Sound.{
  NumberedFrom, IsPlanned, IsStaged, IsSoundBridge, eased-IsSound, fresh-IsSound, erased-IsSound,
  begun-IsSound, ended-IsSound,
}

-- Clearing.
clear_assignments-IsSound :
    (id : ℕ) (b : Bridge) → IsSoundBridge b → IsSoundBridge (clear_assignments id b)
unfolding clear_assignments
clear_assignments-IsSound id b s = elim (Option-cases (lookup id b.missions)) [
  | inl e ↦ rw (e, clear_assignments) s
  | inr (ms, e) ↦
      rw (e, clear_assignments)
        (eased-IsSound s id ms (record ms { items = map clear_item ms.items }) e
          (AdvancesAll-map clear_item clear_item-Advances ms.items)
          (λ n. flights_of-map n clear_item (flies-clear_item n) ms.items))
]

pub clear_mission-IsSound :
    (id : ℕ) (b : Bridge) → IsSoundBridge b → IsSoundBridge (clear_mission id b)
unfolding clear_mission
clear_mission-IsSound id b s =
    ended-IsSound (erased-IsSound (clear_assignments-IsSound id b s) id) id

-- Installing what is staged.
send_current-missions : (ms : Mission) (b : Bridge) → (send_current ms b).1.missions ≡ b.missions
unfolding send_current send
send_current-missions ms b = ground arith

send_current-uploads : (ms : Mission) (b : Bridge) → (send_current ms b).1.uploads ≡ b.uploads
unfolding send_current send
send_current-uploads ms b = ground arith

pub send_current-items : (ms : Mission) (b : Bridge) → (send_current ms b).0.items ≡ ms.items
unfolding send_current
send_current-items ms b = ground arith

pub send_current-IsSound :
    (ms : Mission) (b : Bridge) → IsSoundBridge b → IsSoundBridge (send_current ms b).1
send_current-IsSound ms b s = rw (send_current-missions ms b, send_current-uploads ms b) s

flights_of-grounded :
    (n : NodeId) (items : List Item)
    → All (λ it. is_flying it.state ≡ false) items
    → flights_of n items ≡ 0
unfolding flights_of
flights_of-grounded n [] h = refl
flights_of-grounded n (it ∷ items) h = ground (arith, h.0, flights_of-grounded n items h.1)

install_mission-IsSound :
    (v : Vehicle) (items : List Item) (b : Bridge)
    → IsPlanned items
    → All (λ it. is_flying it.state ≡ false) items
    → IsSoundBridge b
    → IsSoundBridge (install_mission v items b)
unfolding install_mission
install_mission-IsSound v items b p g s =
    let b' = clear_assignments v.sys_id b in
    let ms = new_mission v items in
    let same : (send_current ms b').0.items ≡ items = send_current-items ms b' in
    fresh-IsSound (send_current-IsSound ms b' (clear_assignments-IsSound v.sys_id b s)) v.sys_id
      (send_current ms b').0 (subst IsPlanned (sym same) p)
      (λ n. ap (flights_of n) same ∙ flights_of-grounded n items g)

-- One more item in its place.
NumberedFrom-append :
    (i : ℕ) (items : List Item) (it : Item)
    → NumberedFrom i items
    → it.seq ≡ i + length items
    → NumberedFrom i (items ++ it ∷ [])
NumberedFrom-append i [] it h e = (e ∙ omega arith, tt)
NumberedFrom-append i (x ∷ items) it h e =
    (h.0, NumberedFrom-append (suc i) items it h.1 (e ∙ omega arith))

accept_item-seq :
    (cfg : BridgeConfig) (m : MissionItemInt) {it : Item}
    → accept_item cfg m ≡ some it
    → (it.seq ≡ m.seq) × (is_flying it.state ≡ false)
unfolding accept_item new_item
accept_item-seq cfg m e = (ground arith, ground arith)

module _ (cfg : BridgeConfig) (now : ℕ) (from : Sender) where
  take_item-IsSound :
      (m : MissionItemInt) (v : Vehicle) (it : Item) (up : Upload) (b : Bridge)
      → IsStaged up
      → it.seq ≡ up.next
      → is_flying it.state ≡ false
      → IsSoundBridge b
      → IsSoundBridge (take_item now from m v it up b)
  unfolding take_item staged request_item mission_ack send
  take_item-IsSound m v it up b p sq g s =
      let next : (up.next + 1) % 65536 ≡ suc up.next = omega (arith, p.unfinished, p.bounded) in
      let longer = length-append up.items (it ∷ []) in
      let numbered =
        NumberedFrom-append 0 up.items it p.numbered (sq ∙ sym p.counted ∙ omega arith) in
      let grounded =
        All-append (λ (x : Item). is_flying x.state ≡ false) up.items (it ∷ []) p.grounded
          (g, tt) in
      elim (Bool-cases (ltb ((up.next + 1) % 65536) up.count)) [
        | inl e ↦ rw e (
            begun-IsSound s v.sys_id (staged now it up) (record {
              numbered = numbered;
              grounded = grounded;
              counted = omega (arith, longer, p.counted, next);
              unfinished = ground (arith, e);
              bounded = p.bounded;
            }))
        | inr e ↦ rw e (
            install_mission-IsSound v (up.items ++ it ∷ [])
              (record b { uploads = erase v.sys_id b.uploads })
              (record {
                numbered = numbered;
                some_item = omega (arith, longer);
                bounded = omega (arith, longer, p.counted, p.unfinished, p.bounded);
              })
              grounded (ended-IsSound s v.sys_id))
      ]

  continue_upload-IsSound :
      (m : MissionItemInt) (v : Vehicle) (up : Upload) (b : Bridge)
      → IsStaged up
      → IsSoundBridge b
      → IsSoundBridge (continue_upload cfg now from m v up b)
  unfolding continue_upload end_upload mission_ack request_item send
  continue_upload-IsSound m v up b p s = elim (Bool-cases (m.mission_type == up.typ)) [
    | inr e ↦ rw e (ended-IsSound s v.sys_id)
    | inl e ↦ rw e (elim (Bool-cases (ltb m.seq up.next)) [
      | inl f ↦ rw f (
          begun-IsSound s v.sys_id (record up { last = now })
            (record {
              numbered = p.numbered;
              grounded = p.grounded;
              counted = p.counted;
              unfinished = p.unfinished;
              bounded = p.bounded;
            }))
      | inr f ↦ rw f (elim (Bool-cases (ltb up.next m.seq)) [
        | inl g ↦ rw g (ended-IsSound s v.sys_id)
        | inr g ↦ rw g (elim (Option-cases (accept_item cfg m)) [
          | inl h ↦ rw (h, continue_upload) (ended-IsSound s v.sys_id)
          | inr (it, h) ↦
              let new = accept_item-seq cfg m h in
              rw (h, continue_upload)
                (take_item-IsSound m v it up b p (new.0 ∙ ground (arith, f, g)) new.1 s)
        ])
      ])
    ])
  ]

  pub item-IsSound :
      (m : MissionItemInt) (b : Bridge)
      → IsSoundBridge b
      → IsSoundBridge (on_mission_item_int cfg now from m b)
  unfolding on_mission_item_int mission_ack send
  item-IsSound m b s = elim (Option-cases (mission_target m.target_system m.target_component b)) [
    | inl e ↦ rw (e, on_mission_item_int) s
    | inr (r, e) ↦
        rw (e, on_mission_item_int)
          (elim (Option-cases (lookup (r.1).sys_id b.uploads)) [
            | inl f ↦ rw (f, on_mission_item_int) s
            | inr (up, f) ↦
                rw (f, on_mission_item_int)
                  (continue_upload-IsSound m r.1 up b
                    (lookup-AllEntries (λ k u. IsStaged u) (r.1).sys_id b.uploads s.staged f) s)
          ])
  ]
