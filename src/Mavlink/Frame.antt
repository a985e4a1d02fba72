-- ===== src/Mavlink/Frame.antt =====
-- backend/pkg/mavlink/frame.go: MAVLink frames, as lists of bytes (numbers below 256).
pub mod Payload
pub mod RoundTrip
pub mod Parser
pub mod Sequence
use Prim.Native.Nat.{bit_and, max}
use swarm_communication.Prelude.{
  ℕ, zero, suc, ◌+◌, ◌-◌, ◌*◌, ◌/◌, ◌%◌, ◌≡◌, Bool, true, false, not, ◌||◌, Option, none, some,
  List, [], ◌∷◌, ◌++◌, length, take, drop, replicate, get_elem?, ltb, ◌==◌, if◌then◌else◌,
}
use swarm_communication.Prelude.Map.{Map, lookup, insert}
use swarm_communication.Mavlink.Crc.{frame_crc}
use swarm_communication.Mavlink.Dialect.{Dialect}

abbrev pub magic_v2 : ℕ
magic_v2 = 0xFD

abbrev pub magic_v1 : ℕ
magic_v1 = 0xFE

abbrev pub header_len_v2 : ℕ
header_len_v2 = 10

abbrev pub header_len_v1 : ℕ
header_len_v1 = 6

abbrev pub crc_len : ℕ
crc_len = 2

abbrev pub signature_len : ℕ
signature_len = 13

-- headerLenV2 + MaxPayloadLen + crcLen + signatureLen
abbrev pub max_frame_len : ℕ
max_frame_len = 280

pub data FrameError : Type 0 where
  truncated : FrameError
  bad_magic : FrameError
  unknown_msg_id : FrameError
  bad_crc : FrameError
  unsupported_incompat_flags : FrameError
  short_payload : FrameError

-- The byte at an index, 0 past the end, where the source panics: every use below is guarded by a
-- test of the length.
unfoldable pub byte_at : List ℕ → ℕ → ℕ
byte_at [] i = 0
byte_at (b ∷ bs) zero = b
byte_at (b ∷ bs) (suc i) = byte_at bs i

-- The loop of Encode that shortens the payload: the bytes up to the last one that is not zero.
unfoldable pub cons_unless_zero : ℕ → List ℕ → List ℕ
cons_unless_zero b [] = if b == 0 then [] else b ∷ []
cons_unless_zero b (c ∷ rest) = b ∷ c ∷ rest

unfoldable pub trim : List ℕ → List ℕ
unfolding cons_unless_zero
trim [] = []
trim (b ∷ bs) = cons_unless_zero b (trim bs)

-- decodeFrame's make and copy: the payload, with zeroes up to the length of the message.
unfoldable pub zero_extend : ℕ → List ℕ → List ℕ
zero_extend n payload = payload ++ replicate (n - length payload) 0

-- binary.LittleEndian on two bytes.
unfoldable pub put_uint16 : ℕ → List ℕ
put_uint16 n = (n % 256) ∷ (n / 256 % 256) ∷ []

unfoldable pub get_uint16 : List ℕ → ℕ
get_uint16 bs = byte_at bs 0 + byte_at bs 1 * 256

-- The bytes of a frame between the marker and the checksum.
unfoldable pub frame_body : ℕ → ℕ → ℕ → ℕ → List ℕ → List ℕ
frame_body seq sys_id comp_id id payload =
    (length payload % 256)
    ∷ 0
    ∷ 0
    ∷ seq
    ∷ sys_id
    ∷ comp_id
    ∷ (id % 256)
    ∷ (id / 256 % 256)
    ∷ (id / 65536 % 256)
    ∷ payload

-- What decodeFrame reads from a header; the message identifier is kept beside the message.
pub record Header : Type 0 where
  pub version : ℕ
  pub incompat_flags : ℕ
  pub compat_flags : ℕ
  pub seq : ℕ
  pub sys_id : ℕ
  pub comp_id : ℕ
  pub id : ℕ
  pub signed : Bool
  pub header_len : ℕ
  pub pay_len : ℕ

unfoldable pub header_v2 : List ℕ → Header
unfolding byte_at
header_v2 b = record {
  version = 2;
  incompat_flags = byte_at b 2;
  compat_flags = byte_at b 3;
  seq = byte_at b 4;
  sys_id = byte_at b 5;
  comp_id = byte_at b 6;
  id = byte_at b 7 + byte_at b 8 * 256 + byte_at b 9 * 65536;
  signed = not (bit_and (byte_at b 2) 1 == 0);
  header_len = header_len_v2;
  pay_len = byte_at b 1;
}

unfoldable pub header_v1 : List ℕ → Header
unfolding byte_at
header_v1 b = record {
  version = 1;
  incompat_flags = 0;
  compat_flags = 0;
  seq = byte_at b 2;
  sys_id = byte_at b 3;
  comp_id = byte_at b 4;
  id = byte_at b 5;
  signed = false;
  header_len = header_len_v1;
  pay_len = byte_at b 1;
}

-- `total`: the length of the frame by its own header.
unfoldable pub total_len : Header → ℕ
total_len h = h.header_len + h.pay_len + crc_len + (if h.signed then signature_len else 0)

module _ (d : Dialect) where
  -- Encode appends to a slice; the frame it appends.
  unfoldable pub encode_frame : ℕ → ℕ → ℕ → d.Message → List ℕ
  encode_frame seq sys_id comp_id m =
      let body = frame_body seq sys_id comp_id (d.msg_id m) (trim (d.marshal m)) in
      magic_v2 ∷ body ++ put_uint16 (frame_crc body (d.crc_extra (d.msg_id m)))

  unfoldable pub encode : List ℕ → ℕ → ℕ → ℕ → d.Message → List ℕ
  encode dst seq sys_id comp_id m = dst ++ encode_frame seq sys_id comp_id m

  pub record Frame : Type 0 where
    pub header : Header
    pub payload : List ℕ
    pub msg : d.Message

  -- A frame and the bytes it took, or the bytes to skip and what is wrong.
  pub data Decoded : Type 0 where
    ok : Frame → ℕ → Decoded
    err : FrameError → ℕ → Decoded

  -- decodeFrame, from its end: the checked payload, the checksum and the flags, the message and the
  -- length, and the header.
  unfoldable pub decoded : Header → List ℕ → Option d.Message → Decoded
  decoded h payload none = Decoded.err short_payload (total_len h)
  decoded h payload (some m) =
      Decoded.ok (record { header = h; payload = payload; msg = m }) (total_len h)

  unfoldable pub decode_payload : List ℕ → Header → Decoded
  decode_payload b h =
      let payload = take h.pay_len (drop h.header_len b) in
      decoded h payload (d.unmarshal h.id (zero_extend (d.payload_len h.id) payload))

  unfoldable pub check_crc : List ℕ → Header → Decoded
  check_crc b h =
      let crc_at = h.header_len + h.pay_len in
      if frame_crc (take (crc_at - 1) (drop 1 b)) (d.crc_extra h.id) == get_uint16 (drop crc_at b)
      then if bit_and h.incompat_flags 0xFE == 0
        then decode_payload b h
        else Decoded.err unsupported_incompat_flags (total_len h)
      else Decoded.err bad_crc 1

  unfoldable pub decode_body : List ℕ → Header → Decoded
  decode_body b h =
      if ltb (length b) (total_len h) then Decoded.err truncated 0 else elim (d.known h.id) [
        | none ↦ Decoded.err unknown_msg_id h.header_len
        | some _ ↦ check_crc b h
      ]

  unfoldable pub decode_frame : List ℕ → Decoded
  decode_frame b =
      if byte_at b 0 == magic_v2
      then if ltb (length b) header_len_v2
        then Decoded.err truncated 0
        else decode_body b (header_v2 b)
      else if byte_at b 0 == magic_v1
      then if ltb (length b) header_len_v1
        then Decoded.err truncated 0
        else decode_body b (header_v1 b)
      else Decoded.err bad_magic 1

  unfoldable pub decode_datagram : List ℕ → Decoded
  decode_datagram [] = Decoded.err truncated 0
  decode_datagram (b ∷ bs) =
      if b == magic_v2 || b == magic_v1 then decode_frame (b ∷ bs) else Decoded.err bad_magic 0

-- A Go map of bytes reads 0 where a key is missing.
unfoldable pub seq_of : ℕ → Map ℕ → ℕ
seq_of key next = elim (lookup key next) [ none ↦ 0 | some n ↦ n ]

-- Sequencer.Next: the number for this frame, and the counters after it. A byte wraps at 256; the
-- mutex makes a call one step.
unfoldable pub next_seq : Map ℕ → ℕ → ℕ → ℕ × Map ℕ
next_seq next sys_id comp_id =
    let key = sys_id * 256 + comp_id in
    let seq = seq_of key next in (seq, insert key ((seq + 1) % 256) next)
