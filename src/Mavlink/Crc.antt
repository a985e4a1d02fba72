-- ===== src/Mavlink/Crc.antt =====
-- backend/pkg/mavlink/frame.go, lines 45 to 86: the checksum of a frame. A byte is a number below
-- 256, and a uint16 one below 65536.
use Prim.Native.Nat.{bit_xor}
use swarm_communication.Prelude.{ℕ, ◌*◌, ◌/◌, ◌%◌, ◌<◌, ◌≡◌, refl, List, [], ◌∷◌, arith}

abbrev pub crc_init : ℕ
crc_init = 0xFFFF

-- crcAccumulate: `<<` drops the bits past the width of its operand.
unfoldable pub crc_accumulate : ℕ → ℕ → ℕ
crc_accumulate crc b =
    let low = bit_xor b (crc % 256) in
    let tmp = bit_xor low (low * 16 % 256) in
    bit_xor (bit_xor (bit_xor (crc / 256) (tmp * 256 % 65536)) (tmp * 8 % 65536)) (tmp / 16) % 65536

-- The loop of frameCRC.
unfoldable pub crc_from : ℕ → List ℕ → ℕ
unfolding crc_accumulate
crc_from crc [] = crc
crc_from crc (b ∷ bs) = crc_from (crc_accumulate crc b) bs

-- frameCRC: the body, then the extra byte of the message's definition.
unfoldable pub frame_crc : List ℕ → ℕ → ℕ
unfolding crc_from
frame_crc body crc_extra = crc_accumulate (crc_from crc_init body) crc_extra

-- A checksum fits the two bytes that carry it.
pub frame_crc-lt : (body : List ℕ) (crc_extra : ℕ) → frame_crc body crc_extra < 65536
unfolding frame_crc
frame_crc-lt body crc_extra = omega arith

-- The check value of CRC-16/MCRF4XX, over the digits "123456789".
check_value : crc_from crc_init (49 ∷ 50 ∷ 51 ∷ 52 ∷ 53 ∷ 54 ∷ 55 ∷ 56 ∷ 57 ∷ []) ≡ 0x6F91
unfolding crc_from
check_value = refl
