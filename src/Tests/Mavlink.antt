-- ===== src/Tests/Mavlink.antt =====
-- Runs of the MAVLink framing (backend/pkg/mavlink/frame.go), over a dialect of one message that is a
-- byte between two zeroes.
use swarm_communication.Prelude.{
  ℕ, ◌≡◌, refl, Option, some, none, List, [], ◌∷◌, ◌++◌, length, arith, ◌==◌, if◌then◌else◌,
}
use swarm_communication.Mavlink.Dialect.{Dialect, IsGenerated}
use swarm_communication.Mavlink.Frame.{encode, decode_frame, Decoded}
use swarm_communication.Mavlink.Frame.RoundTrip.{sent, decode_frame-encode}
use swarm_communication.Mavlink.Frame.Parser.{
  Parser, Stats, Result, feed, reset, next, buffered, is_magic,
}
use swarm_communication.Mavlink.Frame.Parser.Drain.{Drains, next-Drains}
use swarm_communication.Mavlink.Frame.Parser.Resync.{found_after, next-encode}

abbrev read_middle : List ℕ → Option ℕ
read_middle (x ∷ b ∷ rest) = some b
read_middle _ = none

abbrev pub one_byte : Dialect
one_byte = record {
  Message = ℕ;
  msg_id = λ m. 70000;
  crc_extra = λ id. 50;
  payload_len = λ id. 3;
  marshal = λ m. 0 ∷ m ∷ 0 ∷ [];
  known = λ id. if id == 70000 then some tt else none;
  unmarshal = λ id bs. read_middle bs;
}

one_byte-IsGenerated : IsGenerated one_byte
one_byte-IsGenerated = record {
  id_fits = λ m. omega arith;
  is_known = λ m. refl;
  fixed_length = λ m. refl;
  fits = λ m. omega arith;
  reads_back = λ m. refl;
}

decode_frame-encode_example :
    decode_frame one_byte (encode one_byte [] 4 1 1 9 ++ (8 ∷ []))
    ≡ Decoded.ok (sent one_byte 4 1 1 9) (length (encode one_byte [] 4 1 1 9))
decode_frame-encode_example = decode_frame-encode one_byte 4 1 1 9 one_byte-IsGenerated (8 ∷ [])

abbrev no_frames : Stats
no_frames = record { frames = 0; garbage_bytes = 0; bad_crc = 0; unknown = 0 }

-- A marker of version 1 behind some garbage, and a header that is cut.
abbrev busy : Parser
busy = record { buf = 1 ∷ 2 ∷ 0xFE ∷ 9 ∷ []; stats = no_frames }

next-encode_example :
    next one_byte (feed (encode one_byte (1 ∷ 2 ∷ []) 4 1 1 9 ++ (8 ∷ [])) (reset busy)) ≡ (
      Result.frame (sent one_byte 4 1 1 9),
      record { buf = 8 ∷ []; stats = found_after 2 no_frames },
    )
unfolding is_magic
next-encode_example =
    next-encode one_byte 4 1 1 9 one_byte-IsGenerated busy (1 ∷ 2 ∷ []) (8 ∷ []) (refl, (refl, tt))

next-Drains_example : Drains one_byte (buffered busy) busy
next-Drains_example =
    next-Drains one_byte busy (omega arith, (omega arith, (omega arith, (omega arith, tt))))
