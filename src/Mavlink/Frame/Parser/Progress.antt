-- ===== src/Mavlink/Frame/Parser/Progress.antt =====
-- How far Parser.Next gets in a stream (frame.go, lines 232 to 283 and 426 to 505).
use Prim.Native.Nat.{bit_and}
use swarm_communication.Prelude.{
  ℕ, zero, suc, ◌+◌, ◌-◌, ◌≡◌, ◌≤◌, ◌<◌, true, Option, none, some, List, [], ◌∷◌, length, take,
  ltb→lt, drop, arith, ltb, ◌==◌, Bool-cases, inl, inr, All,
}
use swarm_communication.Mavlink.Crc.{frame_crc}
use swarm_communication.Mavlink.Dialect.{Dialect}
use swarm_communication.Mavlink.Frame.{
  byte_at, Header, header_v1, header_v2, total_len, FrameError, Decoded, decoded, decode_payload,
  check_crc, decode_body, decode_frame, get_uint16, zero_extend,
}

-- What is consumed of a frame: at least a byte, unless the frame is cut, and then fewer than the
-- most that a frame can have are there.
abbrev pub Advances : (d : Dialect) → ℕ → Decoded d → Type 0
Advances d n (Decoded.ok f k) = 0 < k
Advances d n (Decoded.err e zero) = n < 280
Advances d n (Decoded.err e (suc k)) = Unit

-- Every byte of the buffer is a byte.
abbrev pub AreBytes : List ℕ → Type 0
AreBytes bs = All (λ b. b < 256) bs

total_len-le : (h : Header) → h.header_len ≤ 10 → h.pay_len ≤ 255 → total_len h ≤ 280
unfolding total_len
total_len-le h h0 h1 = ground (arith, h0, h1)

module _ (d : Dialect) where
  err-Advances : (n k : ℕ) (e : FrameError) → 0 < k → Advances d n (Decoded.err e k)
  err-Advances n zero e h = absurd (omega (arith, h))
  err-Advances n (suc k) e h = tt

  total_len-pos : (h : Header) → 0 < h.header_len → 0 < total_len h
  unfolding total_len
  total_len-pos h h0 = omega (arith, h0)

  decoded-Advances :
      (h : Header) (n : ℕ) (p : List ℕ) (o : Option d.Message)
      → 0 < h.header_len
      → Advances d n (decoded d h p o)
  unfolding decoded
  decoded-Advances h n p none h0 =
      err-Advances n (total_len h) FrameError.short_payload (total_len-pos h h0)
  decoded-Advances h n p (some m) h0 = total_len-pos h h0

  check_crc-Advances :
      (b : List ℕ) (h : Header) (n : ℕ) → 0 < h.header_len → Advances d n (check_crc d b h)
  unfolding check_crc decode_payload
  check_crc-Advances b h n h0 =
      elim (Bool-cases (
        frame_crc (take (h.header_len + h.pay_len - 1) (drop 1 b)) (d.crc_extra h.id)
        == get_uint16 (drop (h.header_len + h.pay_len) b))) [
          | inl e ↦ elim (Bool-cases (bit_and h.incompat_flags 0xFE == 0)) [
            | inl f ↦
                rw (e, f, check_crc)
                  (decoded-Advances h n (take h.pay_len (drop h.header_len b))
                    (d.unmarshal h.id
                      (zero_extend (d.payload_len h.id) (take h.pay_len (drop h.header_len b))))
                    h0)
            | inr f ↦
                rw (e, f, check_crc)
                  (err-Advances n (total_len h) FrameError.unsupported_incompat_flags
                    (total_len-pos h h0))
          ]
          | inr e ↦ rw (e, check_crc) tt
        ]

  decode_body-Advances :
      (b : List ℕ) (h : Header)
      → 0 < h.header_len
      → h.header_len ≤ 10
      → h.pay_len ≤ 255
      → Advances d (length b) (decode_body d b h)
  unfolding decode_body
  decode_body-Advances b h h0 h1 h2 = elim (Bool-cases (ltb (length b) (total_len h))) [
    | inl e ↦ rw (e, decode_body) (cut e)
    | inr e ↦ rw (e, decode_body) (found (d.known h.id))
  ]
    where
      cut : ltb (length b) (total_len h) ≡ true → length b < 280
      cut e = let short = ltb→lt (length b) (total_len h) e in omega (arith, total_len-le h h1 h2)

      found :
          (o : Option (Unit {0}))
          → Advances d (length b) (elim o [
            | none ↦ Decoded.err FrameError.unknown_msg_id h.header_len
            | some _ ↦ check_crc d b h
          ])
      found none = err-Advances (length b) h.header_len FrameError.unknown_msg_id h0
      found (some _) = check_crc-Advances b h (length b) h0

  byte_at-lt : (bs : List ℕ) (i : ℕ) → AreBytes bs → byte_at bs i ≤ 255
  unfolding byte_at
  byte_at-lt [] i h = omega arith
  byte_at-lt (b ∷ bs) zero h = omega (arith, h.0)
  byte_at-lt (b ∷ bs) (suc i) h = byte_at-lt bs i h.1

  pub decode_frame-Advances : (b : List ℕ) → AreBytes b → Advances d (length b) (decode_frame d b)
  unfolding decode_frame header_v1 header_v2
  decode_frame-Advances b hb = elim (Bool-cases (byte_at b 0 == 0xFD)) [
    | inl e ↦ elim (Bool-cases (ltb (length b) 10)) [
      | inl f ↦ rw (e, f, decode_frame) (let short = ltb→lt (length b) 10 f in omega arith)
      | inr f ↦
          rw (e, f, decode_frame)
            (decode_body-Advances b (header_v2 b) (omega arith) (omega arith) (byte_at-lt b 1 hb))
    ]
    | inr e ↦ elim (Bool-cases (byte_at b 0 == 0xFE)) [
      | inl f ↦ elim (Bool-cases (ltb (length b) 6)) [
        | inl g ↦ rw (e, f, g, decode_frame) (let short = ltb→lt (length b) 6 g in omega arith)
        | inr g ↦
            rw (e, f, g, decode_frame)
              (decode_body-Advances b (header_v1 b) (omega arith) (omega arith) (byte_at-lt b 1 hb))
      ]
      | inr f ↦ rw (e, f, decode_frame) tt
    ]
  ]
