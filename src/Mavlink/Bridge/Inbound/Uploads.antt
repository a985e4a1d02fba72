-- ===== src/Mavlink/Bridge/Inbound/Uploads.antt =====
-- backend/pkg/mavlink/mission.go: the answers of an upload.
use swarm_communication.Prelude.{
  ℕ, ◌≡◌, ◌≤◌, ap, some, List, arith, Bool-cases, Option-cases, inl, inr, length, ltb, ◌==◌,
  if◌then◌else◌,
}
use swarm_communication.Prelude.Map.{lookup}
use swarm_communication.Cluster.Member.{NodeId}
use swarm_communication.Mavlink.Bridge.{
  MissionItemInt, Sender, Item, Mission, Upload, Vehicle, Bridge, BridgeConfig, send,
}
use swarm_communication.Mavlink.Bridge.Answer.{type_mission, mission_target}
use swarm_communication.Mavlink.Bridge.Store.{
  clear_assignments, clear_mission, send_current, new_mission, install_mission,
}
use swarm_communication.Mavlink.Bridge.Transfer.{
  accept_item, staged, take_item, end_upload, continue_upload, on_mission_item_int,
  on_mission_count,
}
use swarm_communication.Mavlink.Bridge.Inbound.Reply.{
  HasAnswer, ack-HasAnswer, request-HasAnswer, ack,
}

send_current-sent : (ms : Mission) (b : Bridge) → length b.sent ≤ length (send_current ms b).1.sent
unfolding send_current send
send_current-sent ms b = ground arith

clear_assignments-sent : (id : ℕ) (b : Bridge) → (clear_assignments id b).sent ≡ b.sent
unfolding clear_assignments
clear_assignments-sent id b = ground arith

pub clear_mission-sent : (id : ℕ) (b : Bridge) → (clear_mission id b).sent ≡ b.sent
unfolding clear_mission
clear_mission-sent id b = clear_assignments-sent id b

install_mission-sent :
    (v : Vehicle) (items : List Item) (b : Bridge)
    → length b.sent ≤ length (install_mission v items b).sent
unfolding install_mission
install_mission-sent v items b = omega (
  arith,
  ap length (clear_assignments-sent v.sys_id b),
  send_current-sent (new_mission v items) (clear_assignments v.sys_id b),
)

module _ (from : Sender) (node : NodeId) (v : Vehicle) (b : Bridge) where
  pub count-HasAnswer :
      (now target comp count typ : ℕ)
      → mission_target target comp b ≡ some (node, v)
      → HasAnswer from v.sys_id b (on_mission_count now from target comp count typ b)
  unfolding on_mission_count
  count-HasAnswer now target comp count typ found =
      rw (found, on_mission_count)
        (elim (Bool-cases (typ == type_mission)) [
          | inr e ↦ rw e (ack from node v b typ (if ltb 0 count then 3 else 0))
          | inl e ↦ rw e (elim (Bool-cases (ltb 500 count)) [
            | inl f ↦ rw f (ack from node v b typ 4)
            | inr f ↦ rw f (elim (Bool-cases (count == 0)) [
              | inl z ↦ rw z (
                  ack-HasAnswer from v.sys_id typ 0 b (clear_mission v.sys_id b)
                    (omega (arith, ap length (clear_mission-sent v.sys_id b))))
              | inr z ↦ rw z (request-HasAnswer from v.sys_id 0 b _ (omega arith))
            ])
          ])
        ])

  end-HasAnswer :
      (typ result : ℕ) → HasAnswer from v.sys_id b (end_upload v.sys_id from typ result b)
  unfolding end_upload
  end-HasAnswer typ result =
      let a = ack from node v b typ result in
      record {
        speaker = a.speaker;
        answer = a.answer;
        older = a.older;
        is_sent = a.is_sent;
        is_new = a.is_new;
        answers = a.answers;
      }

  take-HasAnswer :
      (now : ℕ) (m : MissionItemInt) (it : Item) (up : Upload)
      → HasAnswer from v.sys_id b (take_item now from m v it up b)
  unfolding take_item
  take-HasAnswer now m it up =
      elim (Bool-cases (ltb (staged now it up).next (staged now it up).count)) [
        | inl e ↦ rw e (request-HasAnswer from v.sys_id (staged now it up).next b _ (omega arith))
        | inr e ↦ rw e (
            ack-HasAnswer from v.sys_id m.mission_type 0 b _
              (install_mission-sent v (staged now it up).items _))
      ]

  continue-HasAnswer :
      (cfg : BridgeConfig) (now : ℕ) (m : MissionItemInt) (up : Upload)
      → HasAnswer from v.sys_id b (continue_upload cfg now from m v up b)
  unfolding continue_upload
  continue-HasAnswer cfg now m up = elim (Bool-cases (m.mission_type == up.typ)) [
    | inr e ↦ rw e (end-HasAnswer m.mission_type 5)
    | inl e ↦ rw e (elim (Bool-cases (ltb m.seq up.next)) [
      | inl f ↦ rw f (request-HasAnswer from v.sys_id up.next b _ (omega arith))
      | inr f ↦ rw f (elim (Bool-cases (ltb up.next m.seq)) [
        | inl g ↦ rw g (end-HasAnswer m.mission_type 13)
        | inr g ↦ rw g (elim (Option-cases (accept_item cfg m)) [
          | inl h ↦ rw (h, continue_upload) (end-HasAnswer m.mission_type 2)
          | inr (it, h) ↦ rw (h, continue_upload) (take-HasAnswer now m it up)
        ])
      ])
    ])
  ]

  pub item-HasAnswer :
      (cfg : BridgeConfig) (now : ℕ) (m : MissionItemInt)
      → mission_target m.target_system m.target_component b ≡ some (node, v)
      → HasAnswer from v.sys_id b (on_mission_item_int cfg now from m b)
  unfolding on_mission_item_int
  item-HasAnswer cfg now m found =
      rw (found, on_mission_item_int)
        (elim (Option-cases (lookup v.sys_id b.uploads)) [
          | inl e ↦ rw (e, on_mission_item_int) (ack from node v b m.mission_type 1)
          | inr (up, e) ↦ rw (e, on_mission_item_int) (continue-HasAnswer cfg now m up)
        ])
