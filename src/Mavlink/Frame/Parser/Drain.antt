-- ===== src/Mavlink/Frame/Parser/Drain.antt =====
-- Draining the parser (frame.go, the buffering contract of Parser, lines 382 to 389, and Next).
use swarm_communication.Prelude.{
  ℕ, zero, suc, ◌≡◌, ◌≤◌, ◌<◌, ◌⊎◌, inl, inr, List, [], ◌∷◌, length, drop, refl, arith, length-drop,
}
use swarm_communication.Mavlink.Dialect.{Dialect}
use swarm_communication.Mavlink.Frame.{Decoded, decode_frame}
use swarm_communication.Mavlink.Frame.Parser.{
  Parser, Result, buffered, drop_garbage, next, next_from, consume, skip, index_magic,
}
use swarm_communication.Mavlink.Frame.Parser.Progress.{Advances, AreBytes, decode_frame-Advances}

AreBytes-drop : (n : ℕ) (bs : List ℕ) → AreBytes bs → AreBytes (drop n bs)
AreBytes-drop zero bs h = h
AreBytes-drop (suc n) [] h = tt
AreBytes-drop (suc n) (b ∷ bs) h = AreBytes-drop n bs h.1

module _ (d : Dialect) where
  -- A call of Next waits, and few bytes are left, or it has consumed something.
  abbrev pub Settles : ℕ → Result d × Parser → Type 0
  Settles n res = ((res.0 ≡ Result.need_more) × (buffered res.1 < 280)) ⊎ (buffered res.1 < n)

  consume-Settles :
      (p : Parser) (r : Decoded d)
      → 0 < length p.buf
      → Advances d (length p.buf) r
      → Settles (length p.buf) (consume d p r)
  unfolding consume buffered skip
  consume-Settles p (Decoded.ok f n) h0 h = inr (omega (arith, length-drop n p.buf))
  consume-Settles p (Decoded.err e zero) h0 h = inl (refl, h)
  consume-Settles p (Decoded.err e (suc n)) h0 h = inr (omega (arith, length-drop (suc n) p.buf))

  next_from-Settles : (p : Parser) → AreBytes p.buf → Settles (length p.buf) (next_from d p)
  unfolding next_from buffered
  next_from-Settles p h = settled (p.buf) h
    where
      settled :
          (bs : List ℕ) → AreBytes bs → Settles (length bs) (next_from d (record p { buf = bs }))
      settled [] hb = inl (refl, omega arith)
      settled (b ∷ bs) hb =
          consume-Settles (record p { buf = b ∷ bs }) (decode_frame d (b ∷ bs)) (omega arith)
            (decode_frame-Advances d (b ∷ bs) hb)

  -- A call of Next on a buffer of bytes either asks for more, and then fewer than the 280 bytes of
  -- the longest frame are kept, or it leaves fewer bytes than it found.
  pub next-Settles : (p : Parser) → AreBytes p.buf → Settles (buffered p) (next d p)
  unfolding next drop_garbage skip buffered
  next-Settles p h =
      elim (next_from-Settles (drop_garbage p) (AreBytes-drop (index_magic p.buf) p.buf h)) [
        | inl waits ↦ inl waits
        | inr less ↦ inr (omega (arith, length-drop (index_magic p.buf) p.buf, less))
      ]

  AreBytes-consume :
      (p : Parser) (r : Decoded d) → AreBytes p.buf → AreBytes ((consume d p r).1).buf
  unfolding consume skip
  AreBytes-consume p (Decoded.ok f n) h = AreBytes-drop n p.buf h
  AreBytes-consume p (Decoded.err e zero) h = h
  AreBytes-consume p (Decoded.err e (suc n)) h = AreBytes-drop (suc n) p.buf h

  AreBytes-next_from : (p : Parser) → AreBytes p.buf → AreBytes ((next_from d p).1).buf
  unfolding next_from
  AreBytes-next_from p h = kept (p.buf) h
    where
      kept : (bs : List ℕ) → AreBytes bs → AreBytes ((next_from d (record p { buf = bs })).1).buf
      kept [] hb = hb
      kept (b ∷ bs) hb = AreBytes-consume (record p { buf = b ∷ bs }) (decode_frame d (b ∷ bs)) hb

  AreBytes-next : (p : Parser) → AreBytes p.buf → AreBytes ((next d p).1).buf
  unfolding next drop_garbage skip
  AreBytes-next p h =
      AreBytes-next_from (drop_garbage p) (AreBytes-drop (index_magic p.buf) p.buf h)

  -- The parser after so many calls of Next.
  abbrev pub nexts : ℕ → Parser → Parser
  nexts zero p = p
  nexts (suc k) p = nexts k (next d p).1

  abbrev pub Drains : ℕ → Parser → Type 0
  Drains n p =
      (k : ℕ) × (k ≤ n)
      × ((next d (nexts k p)).0 ≡ Result.need_more)
      × (buffered (next d (nexts k p)).1 < 280)

  Drains-within : (n : ℕ) (p : Parser) → buffered p ≤ n → AreBytes p.buf → Drains n p
  Drains-within zero p h hb = elim (next-Settles p hb) [
    | inl waits ↦ (0, omega arith, waits.0, waits.1)
    | inr less ↦ absurd (omega (arith, h, less))
  ]
  Drains-within (suc n) p h hb = elim (next-Settles p hb) [
    | inl waits ↦ (0, omega arith, waits.0, waits.1)
    | inr less ↦
        let later = Drains-within n (next d p).1 (omega (arith, h, less)) (AreBytes-next p hb) in
        (suc later.0, (let k = later.1 in omega arith), later.2, later.3)
  ]

  -- A caller that goes on calling Next on a buffer of bytes is asked for more after at most as many
  -- calls as there were bytes, and then fewer than the 280 bytes of the longest frame are kept.
  pub next-Drains : (p : Parser) → AreBytes p.buf → Drains (buffered p) p
  next-Drains p hb = Drains-within (buffered p) p (omega arith) hb
