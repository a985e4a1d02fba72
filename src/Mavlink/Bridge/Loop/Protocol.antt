-- ===== src/Mavlink/Bridge/Loop/Protocol.antt =====
-- The other handlers of the mission protocol, and the clock's check of the transfers, keep the
-- invariant.
use swarm_communication.Prelude.{
  ℕ, ◌≤◌, ◌<◌, refl, true, List, [], ◌∷◌, arith, Bool-cases, Option-cases, inl, inr, length, map,
  ltb, leb, ◌-◌, ◌==◌,
}
use swarm_communication.Prelude.Map.{lookup}
use swarm_communication.Mavlink.Bridge.{Sender, Bridge, BridgeConfig, send, statusf, sorted_keys}
use swarm_communication.Mavlink.Bridge.Answer.{
  type_mission, mission_target, mission_ack, request_item, on_mission_request,
  on_mission_request_list, mission_item,
}
use swarm_communication.Mavlink.Bridge.Store.{
  on_mission_clear_all, on_mission_set_current, jump, abandon,
}
use swarm_communication.Mavlink.Bridge.Transfer.{
  begin_upload, on_mission_count, expire_upload, expire_each, expire_uploads,
}
use swarm_communication.Mavlink.Bridge.Flights.{flights_of-map, flies-abandon}
use swarm_communication.Mavlink.Bridge.Lifecycle.{AdvancesAll-map, abandon-Advances}
use swarm_communication.Mavlink.Bridge.Sound.{
  IsStaged, IsSoundBridge, eased-IsSound, begun-IsSound, ended-IsSound,
}
use swarm_communication.Mavlink.Bridge.Loop.Stored.{clear_mission-IsSound}

pub list-IsSound :
    (from : Sender) (target comp typ : ℕ) (b : Bridge)
    → IsSoundBridge b
    → IsSoundBridge (on_mission_request_list from target comp typ b)
unfolding on_mission_request_list send
list-IsSound from target comp typ b s = elim (Option-cases (mission_target target comp b)) [
  | inl e ↦ rw (e, on_mission_request_list) s
  | inr (r, e) ↦ rw (e, on_mission_request_list) s
]

pub request-IsSound :
    (from : Sender) (target comp seq typ : ℕ) (b : Bridge)
    → IsSoundBridge b
    → IsSoundBridge (on_mission_request from target comp seq typ b)
unfolding on_mission_request mission_ack send
request-IsSound from target comp seq typ b s = elim (Option-cases (mission_target target comp b)) [
  | inl e ↦ rw (e, on_mission_request) s
  | inr (r, e) ↦
      rw (e, on_mission_request)
        (elim (Option-cases (mission_item typ (r.1).sys_id seq b)) [
          | inl f ↦ rw (f, on_mission_request) s
          | inr (it, f) ↦ rw (f, on_mission_request) s
        ])
]

begin_upload-IsStaged :
    (now : ℕ) (from : Sender) (typ count : ℕ)
    → 0 < count
    → count ≤ 500
    → IsStaged (begin_upload now from typ count)
unfolding begin_upload
begin_upload-IsStaged now from typ count more small = record {
  numbered = tt;
  grounded = tt;
  counted = refl;
  unfinished = more;
  bounded = small;
}

pub count-IsSound :
    (now : ℕ) (from : Sender) (target comp count typ : ℕ) (b : Bridge)
    → IsSoundBridge b
    → IsSoundBridge (on_mission_count now from target comp count typ b)
unfolding on_mission_count mission_ack request_item send
count-IsSound now from target comp count typ b s =
    elim (Option-cases (mission_target target comp b)) [
      | inl e ↦ rw (e, on_mission_count) s
      | inr (r, e) ↦
          rw (e, on_mission_count)
            (elim (Bool-cases (typ == type_mission)) [
              | inr f ↦ rw f s
              | inl f ↦ rw f (elim (Bool-cases (ltb 500 count)) [
                | inl g ↦ rw g s
                | inr g ↦ rw g (elim (Bool-cases (count == 0)) [
                  | inl z ↦ rw z (clear_mission-IsSound (r.1).sys_id b s)
                  | inr z ↦ rw z (
                      begun-IsSound s (r.1).sys_id (begin_upload now from typ count) (
                        begin_upload-IsStaged now from typ count (ground (arith, z))
                          (ground (arith, g))))
                ])
              ])
            ])
    ]

pub clear_all-IsSound :
    (from : Sender) (target comp typ : ℕ) (b : Bridge)
    → IsSoundBridge b
    → IsSoundBridge (on_mission_clear_all from target comp typ b)
unfolding on_mission_clear_all mission_ack send
clear_all-IsSound from target comp typ b s = elim (Option-cases (mission_target target comp b)) [
  | inl e ↦ rw (e, on_mission_clear_all) s
  | inr (r, e) ↦
      rw (e, on_mission_clear_all)
        (elim (Bool-cases (typ == type_mission)) [
          | inl f ↦ rw f (clear_mission-IsSound (r.1).sys_id b s)
          | inr f ↦ rw f s
        ])
]

pub set_current-IsSound :
    (from : Sender) (target comp seq : ℕ) (b : Bridge)
    → IsSoundBridge b
    → IsSoundBridge (on_mission_set_current from target comp seq b)
unfolding on_mission_set_current mission_ack send jump
set_current-IsSound from target comp seq b s = elim (Option-cases (mission_target target comp b)) [
  | inl e ↦ rw (e, on_mission_set_current) s
  | inr (r, e) ↦
      rw (e, on_mission_set_current)
        (elim (Option-cases (lookup (r.1).sys_id b.missions)) [
          | inl f ↦ rw (f, on_mission_set_current) s
          | inr (ms, f) ↦
              rw (f, on_mission_set_current)
                (elim (Bool-cases (leb (length ms.items) seq)) [
                  | inl g ↦ rw g s
                  | inr g ↦ rw g (
                      eased-IsSound s (r.1).sys_id ms
                        (record ms {
                          items = map (abandon seq) ms.items;
                          current = seq;
                          sent_current = true;
                        })
                        f (AdvancesAll-map (abandon seq) (abandon-Advances seq) ms.items)
                        (λ n. flights_of-map n (abandon seq) (flies-abandon n seq) ms.items))
                ])
        ])
]

expire_upload-IsSound :
    (timeout now id : ℕ) (b : Bridge)
    → IsSoundBridge b
    → IsSoundBridge (expire_upload timeout now id b)
unfolding expire_upload send statusf
expire_upload-IsSound timeout now id b s = elim (Option-cases (lookup id b.uploads)) [
  | inl e ↦ rw (e, expire_upload) s
  | inr (up, e) ↦
      rw (e, expire_upload)
        (elim (Bool-cases (ltb (now - up.last) timeout)) [
          | inl f ↦ rw f s
          | inr f ↦ rw f (ended-IsSound s id)
        ])
]

expire_each-IsSound :
    (timeout now : ℕ) (ids : List ℕ) (b : Bridge)
    → IsSoundBridge b
    → IsSoundBridge (expire_each timeout now ids b)
unfolding expire_each
expire_each-IsSound timeout now [] b s = s
expire_each-IsSound timeout now (id ∷ ids) b s =
    expire_each-IsSound timeout now ids (expire_upload timeout now id b)
      (expire_upload-IsSound timeout now id b s)

pub expire_uploads-IsSound :
    (cfg : BridgeConfig) (now : ℕ) (b : Bridge)
    → IsSoundBridge b
    → IsSoundBridge (expire_uploads cfg now b)
unfolding expire_uploads
expire_uploads-IsSound cfg now b s =
    expire_each-IsSound cfg.mission_upload_timeout now (sorted_keys b.uploads) b s
