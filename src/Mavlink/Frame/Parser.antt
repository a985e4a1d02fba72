-- ===== src/Mavlink/Frame/Parser.antt =====
-- backend/pkg/mavlink/frame.go, lines 351 to 505: the parser of a byte stream. The state keeps the
-- bytes that are not yet consumed, buf[off:]; Feed moves them to the front, which changes nothing
-- that is read of them.
pub mod Progress
pub mod Drain
pub mod Resync
use swarm_communication.Prelude.{
  ℕ, zero, suc, ◌+◌, ◌-◌, ◌%◌, ◌≡◌, Bool, true, false, ◌||◌, Option, none, some, List, [], ◌∷◌,
  ◌++◌, length, drop, ◌==◌, if◌then◌else◌,
}
use swarm_communication.Mavlink.Dialect.{Dialect}
use swarm_communication.Mavlink.Frame.{magic_v1, magic_v2, FrameError, Decoded, Frame, decode_frame}

-- The counters are uint64.
abbrev pub uint64 : ℕ → ℕ
uint64 n = n % 18446744073709551616

pub record Stats : Type 0 where
  pub frames : ℕ
  pub garbage_bytes : ℕ
  pub bad_crc : ℕ
  pub unknown : ℕ

pub record Parser : Type 0 where
  pub buf : List ℕ
  pub stats : Stats

unfoldable pub feed : List ℕ → Parser → Parser
feed b p = record p { buf = p.buf ++ b }

unfoldable pub buffered : Parser → ℕ
buffered p = length p.buf

unfoldable pub reset : Parser → Parser
reset p = record p { buf = [] }

unfoldable pub is_magic : ℕ → Bool
is_magic b = b == magic_v2 || b == magic_v1

-- indexMagic, with the length of the buffer where no byte can start a frame.
unfoldable pub index_magic : List ℕ → ℕ
unfolding is_magic
index_magic [] = 0
index_magic (b ∷ bs) = if is_magic b then 0 else suc (index_magic bs)

unfoldable pub skip : ℕ → Parser → Parser
skip n p = record p { buf = drop n p.buf }

-- Bytes before the first marker are dropped and counted.
unfoldable pub drop_garbage : Parser → Parser
unfolding index_magic skip
drop_garbage p =
    let n = index_magic p.buf in
    record (skip n p) {
      stats = record (p.stats) { garbage_bytes = uint64 (p.stats.garbage_bytes + n) };
    }

-- The counter of an error: errors.Is(err, ErrBadCRC), and everything else.
unfoldable pub count_error : FrameError → Stats → Stats
count_error FrameError.bad_crc s = record s { bad_crc = uint64 (s.bad_crc + 1) }
count_error _ s = record s { unknown = uint64 (s.unknown + 1) }

unfoldable pub count_frame : Stats → Stats
count_frame s = record s { frames = uint64 (s.frames + 1) }

module _ (d : Dialect) where
  pub data Result : Type 0 where
    frame : Frame d → Result
    need_more : Result
    bad_frame : FrameError → Result

  -- The switch of Next, on what decodeFrame said of the buffer.
  unfoldable pub consume : Parser → Decoded d → Result × Parser
  unfolding skip count_frame count_error
  consume p (Decoded.ok f n) = (Result.frame f, record (skip n p) { stats = count_frame (p.stats) })
  consume p (Decoded.err e zero) = (Result.need_more, p)
  consume p (Decoded.err e (suc n)) =
      (Result.bad_frame e, record (skip (suc n) p) { stats = count_error e (p.stats) })

  -- The part of Next behind the search for a marker. The loop of Next returns in its first round.
  unfoldable pub next_from : Parser → Result × Parser
  next_from p = elim (p.buf) as (λ b. Result × Parser) [
    | [] ↦ (Result.need_more, p)
    | b ∷ bs ↦ consume p (decode_frame d (b ∷ bs))
  ]

  unfoldable pub next : Parser → Result × Parser
  next p = next_from (drop_garbage p)
