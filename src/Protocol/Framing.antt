-- ===== src/Protocol/Framing.antt =====
-- backend/pkg/protocol/framing.go: length-prefixed frames on a byte stream. A stream that is read is
-- the bytes that still arrive and the error with which it ends; the mutex of the encoder makes a call
-- of write_envelope one step. The JSON of an envelope (message.go and encoding/json) is a parameter.
pub mod Read
pub mod RoundTrip
use swarm_communication.Prelude.{
  ℕ, zero, suc, ◌+◌, ◌*◌, ◌/◌, ◌%◌, ◌≡◌, ◌≤◌, ◌<◌, Bool, true, false, Option, none, some, List, [],
  ◌∷◌, ◌++◌, length, take, drop, ltb, ◌==◌, if◌then◌else◌,
}

abbrev pub header_size : ℕ
header_size = 4

-- 1 << 20
unfoldable pub max_frame_size : ℕ
max_frame_size = 1048576

abbrev pub current_version : ℕ
current_version = 1

-- The errors of both directions. Ended stands for io.EOF, Interrupted for io.ErrUnexpectedEOF, and
-- Broken for any other error of the connection, a passed deadline among them.
pub data FrameError : Type 0 where
  frame_too_large : FrameError
  zero_length_frame : FrameError
  unsupported_version : FrameError
  malformed_frame : FrameError
  ended : FrameError
  interrupted : FrameError
  broken : FrameError
  nil_envelope : FrameError
  unmarshalable : FrameError
  write_failed : FrameError

-- IsProtocolViolation
unfoldable pub is_protocol_violation : FrameError → Bool
is_protocol_violation frame_too_large = true
is_protocol_violation zero_length_frame = true
is_protocol_violation unsupported_version = true
is_protocol_violation malformed_frame = true
is_protocol_violation _ = false

-- What the framing uses of Envelope and of encoding/json.
pub record Codec : Type 1 where
  pub Envelope : Type 0
  pub version : Envelope → ℕ
  pub set_version : ℕ → Envelope → Envelope
  pub marshal : Envelope → Option (List ℕ)
  pub unmarshal : List ℕ → Option Envelope

-- What encoding/json keeps of an envelope: it compacts a json.RawMessage and escapes '<', '>', '&' in it,
-- and puts U+FFFD for bytes that are not UTF-8. What is decoded is `normal` of what was encoded; that
-- leaves the version, a number, and changes nothing more a second time.
pub record IsJson (c : Codec) : Type 0 where
  pub normal : c.Envelope → c.Envelope
  pub reads_back :
      (e : c.Envelope) (body : List ℕ)
      → c.marshal e ≡ some body
      → c.unmarshal body ≡ some (normal e)
  pub keeps_version : (e : c.Envelope) → c.version (normal e) ≡ c.version e
  pub settles : (e : c.Envelope) → normal (normal e) ≡ normal e

-- Outcome of a call: the value it returns and what is left of the stream.
pub data Outcome (A : Type 0) : Type 0 where
  ok : A → List ℕ → Outcome A
  err : FrameError → List ℕ → Outcome A

-- binary.BigEndian
unfoldable pub put_uint32 : ℕ → List ℕ
put_uint32 n = (n / 16777216 % 256) ∷ (n / 65536 % 256) ∷ (n / 256 % 256) ∷ (n % 256) ∷ []

unfoldable pub get_uint32 : List ℕ → ℕ
get_uint32 (a ∷ b ∷ c ∷ d ∷ rest) = a * 16777216 + b * 65536 + c * 256 + d
get_uint32 _ = 0

-- The error of an io.ReadFull that finds too few bytes: io.EOF becomes io.ErrUnexpectedEOF when
-- some bytes came before it, and any other error is handed on.
unfoldable pub short_read : ℕ → FrameError → FrameError
short_read zero ending = ending
short_read (suc n) ended = interrupted
short_read (suc n) ending = ending

-- io.ReadFull of n bytes from a stream that ends in an error.
unfoldable pub read_full : ℕ → FrameError → List ℕ → Outcome (List ℕ)
read_full n ending bytes =
    if ltb (length bytes) n
    then err (short_read (length bytes) ending) []
    else ok (take n bytes) (drop n bytes)

-- A stream that ends inside the payload never reports a clean close.
unfoldable pub mid_frame : FrameError → FrameError
mid_frame ended = interrupted
mid_frame e = e

-- The end of WriteEnvelope: what the writer holds afterwards. The Write of the io.Writer is a
-- parameter: how many bytes go out before it fails, or none where it takes them all.
unfoldable pub put_frame : Option ℕ → List ℕ → List ℕ → Outcome (Unit {0})
put_frame none written frame = ok tt (written ++ frame)
put_frame (some n) written frame = err write_failed (written ++ take n frame)

unfoldable pub write_body : Option ℕ → List ℕ → List ℕ → Outcome (Unit {0})
write_body failure written body =
    if length body == 0
    then err zero_length_frame written
    else if ltb max_frame_size (length body)
    then err frame_too_large written
    else put_frame failure written (put_uint32 (length body) ++ body)

module _ (c : Codec) where
  -- The end of ReadFrame: the payload is in the buffer.
  unfoldable pub check_version : c.Envelope → List ℕ → Outcome c.Envelope
  check_version env rest =
      if c.version env == current_version then ok env rest else err unsupported_version rest

  unfoldable pub decode_body : List ℕ → List ℕ → Outcome c.Envelope
  decode_body body rest = elim (c.unmarshal body) [
    | none ↦ err malformed_frame rest
    | some env ↦ check_version env rest
  ]

  -- The payload of a frame whose length has passed the checks.
  unfoldable pub read_body : ℕ → FrameError → List ℕ → Outcome c.Envelope
  read_body n ending bytes = elim (read_full n ending bytes) [
    | err e rest ↦ err (mid_frame e) rest
    | ok body rest ↦ decode_body body rest
  ]

  unfoldable pub check_length : ℕ → FrameError → List ℕ → Outcome c.Envelope
  check_length n ending rest =
      if n == 0
      then err zero_length_frame rest
      else if ltb max_frame_size n
      then err frame_too_large rest
      else read_body n ending rest

  unfoldable pub read_frame : FrameError → List ℕ → Outcome c.Envelope
  read_frame ending bytes = elim (read_full header_size ending bytes) [
    | err e rest ↦ err e rest
    | ok header rest ↦ check_length (get_uint32 header) ending rest
  ]

  -- WriteEnvelope fills a missing version in.
  unfoldable pub versioned : c.Envelope → c.Envelope
  versioned env = if c.version env == 0 then c.set_version current_version env else env

  unfoldable pub write_envelope : Option ℕ → List ℕ → Option c.Envelope → Outcome (Unit {0})
  write_envelope failure written none = err nil_envelope written
  write_envelope failure written (some env) = elim (c.marshal (versioned env)) [
    | none ↦ err unmarshalable written
    | some body ↦ write_body failure written body
  ]
