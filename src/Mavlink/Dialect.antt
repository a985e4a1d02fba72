-- ===== src/Mavlink/Dialect.antt =====
-- backend/pkg/mavlink/message.go: what the framing uses of the generated dialect (dialect.go). The
-- messages are an interface: their identifiers, layouts and extra bytes, and how they are laid out.
use swarm_communication.Prelude.{ℕ, ◌≡◌, ◌<◌, ◌≤◌, Option, some, List, length}

-- The operations of the Message interface and of NewMessage.
pub record Dialect : Type 1 where
  pub Message : Type 0
  -- MsgID, CRCExtra and PayloadLen, the last two by the identifier.
  pub msg_id : Message → ℕ
  pub crc_extra : ℕ → ℕ
  pub payload_len : ℕ → ℕ
  pub marshal : Message → List ℕ
  -- NewMessage knows the identifier.
  pub known : ℕ → Option (Unit {0})
  -- Unmarshal into a new message of that identifier, from a payload that is long enough.
  pub unmarshal : ℕ → List ℕ → Option Message

-- What a generated dialect keeps: identifiers of 24 bits, payloads of a fixed length that fits the
-- length byte, made of bytes, and read back as they were written.
pub record IsGenerated (d : Dialect) : Type 0 where
  pub id_fits : (m : d.Message) → d.msg_id m < 16777216
  pub is_known : (m : d.Message) → d.known (d.msg_id m) ≡ some tt
  pub fixed_length : (m : d.Message) → length (d.marshal m) ≡ d.payload_len (d.msg_id m)
  pub fits : (m : d.Message) → length (d.marshal m) ≤ 255
  pub reads_back : (m : d.Message) → d.unmarshal (d.msg_id m) (d.marshal m) ≡ some m
