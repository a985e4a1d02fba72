-- ===== src/Mavlink/Bridge/Inbound/Reply.antt =====
-- backend/pkg/mavlink/mission.go: what an answer to a mission message is, and those of the download.
use swarm_communication.Prelude.{
  ℕ, ◌≡◌, ◌≤◌, refl, Bool, true, false, ◌&&◌, Option, none, some, List, ◌∷◌, arith, Option-cases,
  inl, inr, ◌⊎◌, length, ◌==◌,
}
use swarm_communication.Cluster.Member.{NodeId}
use swarm_communication.Mavlink.Bridge.{Message, Sender, Vehicle, Bridge, send}
use swarm_communication.Mavlink.Bridge.Answer.{
  mission_target, mission_ack, request_item, echoed, on_mission_request, mission_item,
  on_mission_request_list,
}
use swarm_communication.Mavlink.Bridge.Inbound.{Inbound}

-- A message that names who asked as its target.
unfoldable pub addressed_to : Sender → Message → Bool
addressed_to from (Message.mission_count m) =
    m.target_system == from.sys_id && m.target_component == from.comp_id
addressed_to from (Message.mission_request_int m) =
    m.target_system == from.sys_id && m.target_component == from.comp_id
addressed_to from (Message.mission_item_int m) =
    m.target_system == from.sys_id && m.target_component == from.comp_id
addressed_to from (Message.mission_ack m) =
    m.target_system == from.sys_id && m.target_component == from.comp_id
addressed_to from _ = false

unfoldable pub is_current : Message → Bool
is_current (Message.mission_current m) = true
is_current _ = false

-- The newest message names who asked and comes from the vehicle with that system ID, or it is
-- MISSION_CURRENT, which has no target: every station hears it.
pub record HasAnswer (from : Sender) (sys_id : ℕ) (b b' : Bridge) : Type 0 where
  pub speaker : ℕ
  pub answer : Message
  pub older : List (ℕ × Message)
  pub is_sent : b'.sent ≡ (speaker, answer) ∷ older
  pub is_new : length b.sent ≤ length older
  pub answers :
      ((speaker ≡ sys_id) × (addressed_to from answer ≡ true)) ⊎ (is_current answer ≡ true)

-- The vehicle that a message of the mission protocol asks something of. MISSION_ACK asks nothing.
unfoldable pub addressee : Inbound → Bridge → Option (NodeId × Vehicle)
addressee (Inbound.mission_request_list target comp typ) b = mission_target target comp b
addressee (Inbound.mission_request_int target comp seq typ) b = mission_target target comp b
addressee (Inbound.mission_request target comp seq typ) b = mission_target target comp b
addressee (Inbound.mission_count target comp count typ) b = mission_target target comp b
addressee (Inbound.mission_item_int m) b = mission_target m.target_system m.target_component b
addressee (Inbound.mission_item lat lon m) b = mission_target m.target_system m.target_component b
addressee (Inbound.mission_clear_all target comp typ) b = mission_target target comp b
addressee (Inbound.mission_set_current target comp seq) b = mission_target target comp b
addressee _ b = none

module _ (from : Sender) (sys_id : ℕ) where
  pub ack-HasAnswer :
      (typ result : ℕ) (b b' : Bridge)
      → length b.sent ≤ length b'.sent
      → HasAnswer from sys_id b (mission_ack sys_id from typ result b')
  unfolding mission_ack send addressed_to
  ack-HasAnswer typ result b b' le = record {
    speaker = sys_id;
    answer = _;
    older = b'.sent;
    is_sent = refl;
    is_new = le;
    answers = inl (refl, ground arith);
  }

  pub request-HasAnswer :
      (seq : ℕ) (b b' : Bridge)
      → length b.sent ≤ length b'.sent
      → HasAnswer from sys_id b (request_item sys_id from seq b')
  unfolding request_item send addressed_to
  request-HasAnswer seq b b' le = record {
    speaker = sys_id;
    answer = _;
    older = b'.sent;
    is_sent = refl;
    is_new = le;
    answers = inl (refl, ground arith);
  }

module _ (from : Sender) (node : NodeId) (v : Vehicle) (b : Bridge) where
  pub ack : (typ result : ℕ) → HasAnswer from v.sys_id b (mission_ack v.sys_id from typ result b)
  ack typ result = ack-HasAnswer from v.sys_id typ result b b (omega arith)

  pub list-HasAnswer :
      (target comp typ : ℕ)
      → mission_target target comp b ≡ some (node, v)
      → HasAnswer from v.sys_id b (on_mission_request_list from target comp typ b)
  unfolding on_mission_request_list send addressed_to
  list-HasAnswer target comp typ found =
      rw (found, on_mission_request_list)
        (record {
          speaker = v.sys_id;
          answer = _;
          older = b.sent;
          is_sent = refl;
          is_new = omega arith;
          answers = inl (refl, ground arith);
        })

  pub request_item-HasAnswer :
      (target comp seq typ : ℕ)
      → mission_target target comp b ≡ some (node, v)
      → HasAnswer from v.sys_id b (on_mission_request from target comp seq typ b)
  unfolding on_mission_request send addressed_to echoed
  request_item-HasAnswer target comp seq typ found =
      rw (found, on_mission_request)
        (elim (Option-cases (mission_item typ v.sys_id seq b)) [
          | inl e ↦ rw (e, on_mission_request) (ack typ 13)
          | inr (it, e) ↦
              rw (e, on_mission_request)
                (record {
                  speaker = v.sys_id;
                  answer = Message.mission_item_int (echoed from it.raw);
                  older = b.sent;
                  is_sent = refl;
                  is_new = omega arith;
                  answers = inl (refl, ground arith);
                })
        ])
