-- ===== src/Mavlink/Frame/RoundTrip.antt =====
-- Frames from Encode to decodeFrame (frame.go, lines 122 to 168 and 232 to 349).
use mathlib.Core.Path.{ap₂}
use swarm_communication.Prelude.{
  ℕ, ◌+◌, ◌-◌, ◌≡◌, ◌≤◌, ◌<◌, true, false, List, [], ◌∷◌, ◌++◌, length, take, drop, sym, ap, ◌∙◌,
  arith, ◌==◌, ltb, append_assoc, take-length, drop-length, length-append,
}
use swarm_communication.Mavlink.Crc.{frame_crc, frame_crc-lt}
use swarm_communication.Mavlink.Dialect.{Dialect, IsGenerated}
use swarm_communication.Mavlink.Frame.{
  trim, byte_at, zero_extend, put_uint16, get_uint16, frame_body, Header, header_v2, total_len,
  encode, encode_frame, Frame, Decoded, decoded, decode_payload, check_crc, decode_body,
  decode_frame, magic_v2,
}
use swarm_communication.Mavlink.Frame.Payload.{length-trim, zero_extend-trim}

-- The checksum is read as it was written.
pub get_uint16-put_uint16 :
    (n : ℕ) (rest : List ℕ) → n < 65536 → get_uint16 (put_uint16 n ++ rest) ≡ n
unfolding get_uint16 put_uint16 byte_at
get_uint16-put_uint16 n rest h = omega (arith, h)

-- The header that a sender writes.
unfoldable pub sent_header : ℕ → ℕ → ℕ → ℕ → ℕ → Header
sent_header seq sys_id comp_id id n = record {
  version = 2;
  incompat_flags = 0;
  compat_flags = 0;
  seq = seq;
  sys_id = sys_id;
  comp_id = comp_id;
  id = id;
  signed = false;
  header_len = 10;
  pay_len = n;
}

module _ (seq sys_id comp_id id : ℕ) (t : List ℕ) where
  header_v2-frame_body :
      (rest : List ℕ)
      → id < 16777216
      → length t ≤ 255
      → header_v2 (magic_v2 ∷ (frame_body seq sys_id comp_id id t ++ rest))
        ≡ sent_header seq sys_id comp_id id (length t)
  unfolding header_v2 frame_body byte_at sent_header
  header_v2-frame_body rest h0 h1 =
      ap₂ (sent_header seq sys_id comp_id) (omega (arith, h0)) (omega (arith, h1))

  length-frame_body : length (frame_body seq sys_id comp_id id t) ≡ 9 + length t
  unfolding frame_body
  length-frame_body = omega arith

  -- The marker and a header are enough to leave the search for them behind.
  decode_frame-v2 :
      (d : Dialect) (rest : List ℕ)
      → id < 16777216
      → length t ≤ 255
      → decode_frame d (magic_v2 ∷ (frame_body seq sys_id comp_id id t ++ rest))
        ≡ decode_body d
            (magic_v2 ∷ (frame_body seq sys_id comp_id id t ++ rest))
            (sent_header seq sys_id comp_id id (length t))
  unfolding decode_frame byte_at
  decode_frame-v2 d rest h0 h1 =
      rw (long, decode_frame)
        (ap (decode_body d (magic_v2 ∷ (frame_body seq sys_id comp_id id t ++ rest)))
          (header_v2-frame_body rest h0 h1))
    where
      long : ltb (length (magic_v2 ∷ (frame_body seq sys_id comp_id id t ++ rest))) 10 ≡ false
      long =
          ground (arith, length-append (frame_body seq sys_id comp_id id t) rest, length-frame_body)

-- The frame of a message, and what its receiver makes of it.
module _ (d : Dialect) (seq sys_id comp_id : ℕ) (m : d.Message) where
  abbrev wire_payload : List ℕ
  wire_payload = trim (d.marshal m)

  abbrev body : List ℕ
  body = frame_body seq sys_id comp_id (d.msg_id m) wire_payload

  abbrev crc : ℕ
  crc = frame_crc body (d.crc_extra (d.msg_id m))

  unfoldable pub sent : Frame d
  sent = record {
    header = sent_header seq sys_id comp_id (d.msg_id m) (length (trim (d.marshal m)));
    payload = trim (d.marshal m);
    msg = m;
  }

  abbrev wire : List ℕ → List ℕ
  wire rest = magic_v2 ∷ (body ++ (put_uint16 crc ++ rest))

  abbrev wire_header : Header
  wire_header = sent_header seq sys_id comp_id (d.msg_id m) (length wire_payload)

  encode_frame-wire : (rest : List ℕ) → encode_frame d seq sys_id comp_id m ++ rest ≡ wire rest
  unfolding encode_frame
  encode_frame-wire rest = ap (λ l. magic_v2 ∷ l) (append_assoc body (put_uint16 crc) rest)

  payload_read : (rest : List ℕ) → take (length wire_payload) (drop 10 (wire rest)) ≡ wire_payload
  unfolding frame_body
  payload_read rest = take-length wire_payload (put_uint16 crc ++ rest)

  decode_payload-sent :
      IsGenerated d
      → (rest : List ℕ)
      → decode_payload d (wire rest) wire_header ≡ Decoded.ok sent (total_len wire_header)
  unfolding decode_payload decoded sent_header sent
  decode_payload-sent law rest =
      ap
        (λ p.
          decoded d wire_header p
            (d.unmarshal (d.msg_id m) (zero_extend (d.payload_len (d.msg_id m)) p)))
        (payload_read rest)
      ∙ ap (decoded d wire_header wire_payload) (
          ap (λ n. d.unmarshal (d.msg_id m) (zero_extend n wire_payload)) (sym (law.fixed_length m))
          ∙ ap (d.unmarshal (d.msg_id m)) (zero_extend-trim (d.marshal m))
          ∙ law.reads_back m)

  -- The checksum that the receiver computes, and the one that it reads.
  body_read : (rest : List ℕ) → take (10 + length wire_payload - 1) (drop 1 (wire rest)) ≡ body
  body_read rest =
      ap (λ n. take n (body ++ (put_uint16 crc ++ rest)))
        (let e = length-frame_body seq sys_id comp_id (d.msg_id m) wire_payload in omega (arith, e))
      ∙ take-length body (put_uint16 crc ++ rest)

  crc_read : (rest : List ℕ) → get_uint16 (drop (10 + length wire_payload) (wire rest)) ≡ crc
  crc_read rest =
      ap (λ n. get_uint16 (drop n (wire rest))) header_and_payload
      ∙ ap get_uint16 (drop-length (magic_v2 ∷ body) (put_uint16 crc ++ rest))
      ∙ get_uint16-put_uint16 crc rest (frame_crc-lt body (d.crc_extra (d.msg_id m)))
    where
      header_and_payload : 10 + length wire_payload ≡ length (magic_v2 ∷ body)
      header_and_payload =
          let e = length-frame_body seq sys_id comp_id (d.msg_id m) wire_payload in omega (arith, e)

  check_crc-sent :
      IsGenerated d
      → (rest : List ℕ)
      → check_crc d (wire rest) wire_header ≡ Decoded.ok sent (total_len wire_header)
  unfolding check_crc sent_header
  check_crc-sent law rest =
      rw (body_read rest, crc_read rest, check_crc) (rw (same crc) (decode_payload-sent law rest))
    where
      same : (n : ℕ) → (n == n) ≡ true
      same n = ground arith

  decode_body-sent :
      IsGenerated d
      → (rest : List ℕ)
      → decode_body d (wire rest) wire_header ≡ Decoded.ok sent (total_len wire_header)
  unfolding decode_body sent_header total_len put_uint16
  decode_body-sent law rest = rw (long, law.is_known m, decode_body) (check_crc-sent law rest)
    where
      long : ltb (length (wire rest)) (total_len wire_header) ≡ false
      long = ground (
        arith,
        length-append body (put_uint16 crc ++ rest),
        length-frame_body seq sys_id comp_id (d.msg_id m) wire_payload,
      )

  length-encode : length (encode_frame d seq sys_id comp_id m) ≡ total_len wire_header
  unfolding encode_frame total_len sent_header put_uint16
  length-encode =
      let e = length-frame_body seq sys_id comp_id (d.msg_id m) wire_payload in
      omega (arith, length-append body (put_uint16 crc), e)

  -- For a generated dialect, a frame that Encode appends is decoded to the message it carries, with the
  -- header it was sent with and the payload of the wire, whatever follows it; its length is what is
  -- consumed.
  pub decode_frame-encode :
      IsGenerated d
      → (rest : List ℕ)
      → decode_frame d (encode d [] seq sys_id comp_id m ++ rest)
        ≡ Decoded.ok sent (length (encode d [] seq sys_id comp_id m))
  unfolding encode
  decode_frame-encode law rest =
      ap (decode_frame d) (encode_frame-wire rest)
      ∙ decode_frame-v2 seq sys_id comp_id (d.msg_id m) wire_payload d (put_uint16 crc ++ rest)
          (law.id_fits m)
          (let short = length-trim (d.marshal m) in let fits = law.fits m in omega arith)
      ∙ decode_body-sent law rest
      ∙ ap (Decoded.ok sent) (sym length-encode)
