-- ===== src/Protocol/Framing/RoundTrip.antt =====
-- Frames written by write_envelope and read by read_frame (framing.go, lines 165 to 231 and 290 to
-- 393).
use mathlib.Core.Path.{ap₂}
use swarm_communication.Prelude.{
  append_assoc, take-length, drop-length, Bool-cases, inl, inr, ◌==◌, ℕ, zero, suc, ◌+◌, ◌≡◌, ◌≢◌,
  ◌≤◌, ◌<◌, List, [], ◌∷◌, ◌++◌, length, take, refl, ap, ◌∙◌, Option, none, some, Option-cases,
  subst, arith, ltb, length-append, length-take,
}
use swarm_communication.Protocol.Framing.{
  Codec, IsJson, FrameError, Outcome, put_uint32, get_uint32, max_frame_size, read_frame, read_body,
  check_length, check_version, decode_body, versioned, put_frame, write_body, write_envelope,
  short_read, mid_frame,
}
use swarm_communication.Protocol.Framing.Read.{
  read_frame_long, read_frame_short, read_full_short, read_full_enough,
}

-- The length header is read as it was written.
pub get_uint32-put_uint32 :
    (n : ℕ) (rest : List ℕ) → n < 4294967296 → get_uint32 (put_uint32 n ++ rest) ≡ n
unfolding get_uint32 put_uint32
get_uint32-put_uint32 n rest h = omega (arith, h)

-- What a write that succeeds sends.
pub write_body-ok :
    (failure : Option ℕ) (written body out : List ℕ)
    → write_body failure written body ≡ Outcome.ok tt out
    → (0 < length body)
      × (length body ≤ max_frame_size)
      × (out ≡ written ++ (put_uint32 (length body) ++ body))
unfolding write_body put_frame
write_body-ok failure written body out = elim (Bool-cases (length body == 0)) [
  | inl e0 ↦ rw (e0, write_body) λ h. absurd (err≢ok h)
  | inr e0 ↦ elim (Bool-cases (ltb max_frame_size (length body))) [
    | inl e1 ↦ rw (e0, e1, write_body) λ h. absurd (err≢ok h)
    | inr e1 ↦ rw (e0, e1, write_body) λ h. (ground (arith, e0), ground (arith, e1), sent failure h)
  ]
]
  where
    err≢ok : {e : FrameError} → Outcome.err e written ≢ Outcome.ok tt out
    err≢ok h = cc

    sent :
        (f : Option ℕ)
        → put_frame f written (put_uint32 (length body) ++ body) ≡ Outcome.ok tt out
        → out ≡ written ++ (put_uint32 (length body) ++ body)
    sent none h = cc
    sent (some n) h = cc

-- A call that fails before the write leaves the writer as it was.
pub write_body-err :
    (failure : Option ℕ) (e : FrameError) (written body out : List ℕ)
    → write_body failure written body ≡ Outcome.err e out
    → e ≢ FrameError.write_failed
    → out ≡ written
unfolding write_body put_frame
write_body-err none e written body out h sent = ground (arith, h)
write_body-err (some n) e written body out h sent = ground (arith, h, sent)

module _ (c : Codec) where
  -- A length that passes the checks.
  pub check_length-body :
      (n : ℕ) (ending : FrameError) (bytes : List ℕ)
      → 0 < n
      → n ≤ max_frame_size
      → check_length c n ending bytes ≡ read_body c n ending bytes
  unfolding check_length
  check_length-body n ending bytes h0 h1 = ground (arith, h0, h1)

  read_body-body :
      (ending : FrameError) (body rest : List ℕ)
      → read_body c (length body) ending (body ++ rest) ≡ decode_body c body rest
  unfolding read_body
  read_body-body ending body rest =
      rw
        (
          read_full_enough (length body) ending (body ++ rest)
              (omega (arith, length-append body rest)),
          read_body,
        )
        (ap₂ (decode_body c) (take-length body rest) (drop-length body rest))

  -- A whole frame at the front of the stream.
  pub read_frame-frame :
      (ending : FrameError) (body rest : List ℕ)
      → 0 < length body
      → length body ≤ max_frame_size
      → read_frame c ending (put_uint32 (length body) ++ (body ++ rest)) ≡ decode_body c body rest
  unfolding put_uint32 max_frame_size
  read_frame-frame ending body rest h0 h1 =
      read_frame_long c ending (put_uint32 (length body) ++ (body ++ rest)) (omega arith)
      ∙ ap (λ n. check_length c n ending (body ++ rest))
          (get_uint32-put_uint32 (length body) [] (omega (arith, h1)))
      ∙ check_length-body (length body) ending (body ++ rest) h0 h1
      ∙ read_body-body ending body rest

  decode_body-ok :
      (body rest : List ℕ) (env : c.Envelope)
      → c.unmarshal body ≡ some env
      → c.version env ≡ 1
      → decode_body c body rest ≡ Outcome.ok env rest
  unfolding check_version decode_body
  decode_body-ok body rest env h v = rw (h, decode_body) (ground (arith, v))

  -- What went out is a frame, which reads as that envelope and leaves what is behind it.
  abbrev pub Carries : List ℕ → List ℕ → c.Envelope → FrameError → List ℕ → Type 0
  Carries written out env ending rest =
      (frame : List ℕ) × (out ≡ written ++ frame)
      × (read_frame c ending (frame ++ rest) ≡ Outcome.ok env rest)

  sent-Carries :
      (law : IsJson c) (failure : Option ℕ) (ending : FrameError) (written out rest : List ℕ)
      (env : c.Envelope)
      → c.version (versioned c env) ≡ 1
      → write_envelope c failure written (some env) ≡ Outcome.ok tt out
      → Carries written out (law.normal (versioned c env)) ending rest
  unfolding write_envelope
  sent-Carries law failure ending written out rest env v =
      elim (Option-cases (c.marshal (versioned c env))) [
        | inl e ↦
            rw (e, write_envelope)
              λ h. absurd (
                let clash : Outcome.err FrameError.unmarshalable written ≡ Outcome.ok tt out = h in
                cc)
        | inr (body, e) ↦
            rw (e, write_envelope)
              λ h.
                let sent = write_body-ok failure written body out h in
                (
                  put_uint32 (length body) ++ body,
                  sent.2,
                  ap (read_frame c ending) (append_assoc (put_uint32 (length body)) body rest)
                      ∙ read_frame-frame ending body rest sent.0 sent.1
                      ∙ decode_body-ok body rest (law.normal (versioned c env))
                          (law.reads_back (versioned c env) body e)
                          (law.keeps_version (versioned c env) ∙ v),
                )
      ]

  versioned-current : (e : c.Envelope) → c.version e ≡ 1 → versioned c e ≡ e
  unfolding versioned
  versioned-current e v = ground (arith, v)

  -- Under the laws of IsJson, an envelope of the current version, or of none, that write_envelope sent is
  -- read by read_frame with its version filled in, as encoding/json keeps it, and the bytes behind its
  -- frame are left for the next call. Where a relay writes what it read, the next reader reads exactly that.
  pub read_frame-write_envelope :
      (law : IsJson c) (failure failure' : Option ℕ) (ending : FrameError)
      (written out written' out' rest : List ℕ) (env : c.Envelope)
      → c.version (versioned c env) ≡ 1
      → write_envelope c failure written (some env) ≡ Outcome.ok tt out
      → write_envelope c failure' written' (some (law.normal (versioned c env)))
        ≡ Outcome.ok tt out'
      → Carries written out (law.normal (versioned c env)) ending rest
        × Carries written' out' (law.normal (versioned c env)) ending rest
  read_frame-write_envelope law failure failure' ending written out written' out' rest env v h h' =
      let read = law.normal (versioned c env) in
      let v' : c.version read ≡ 1 = law.keeps_version (versioned c env) ∙ v in
      let same = versioned-current read v' in
      (
        sent-Carries law failure ending written out rest env v h,
        subst (λ e. Carries written' out' e ending rest)
            (ap law.normal same ∙ law.settles (versioned c env))
            (sent-Carries law failure' ending written' out' rest read (ap c.version same ∙ v') h'),
      )

  -- A call of write_envelope that fails in any way but in the write itself leaves the stream as it
  -- was.
  pub write_envelope-keeps :
      (failure : Option ℕ) (e : FrameError) (written out : List ℕ) (env : Option c.Envelope)
      → write_envelope c failure written env ≡ Outcome.err e out
      → e ≢ FrameError.write_failed
      → out ≡ written
  unfolding write_envelope
  write_envelope-keeps failure e written out none = λ h sent. cc
  write_envelope-keeps failure e written out (some env) = after (c.marshal (versioned c env)) refl
    where
      after :
          (o : Option (List ℕ))
          → c.marshal (versioned c env) ≡ o
          → write_envelope c failure written (some env) ≡ Outcome.err e out
          → e ≢ FrameError.write_failed
          → out ≡ written
      after none eq = rw (eq, write_envelope) λ h sent. cc
      after (some body) eq =
          rw (eq, write_envelope) λ h sent. write_body-err failure e written body out h sent

  -- The payload is cut.
  read_body-cut :
      (n : ℕ) (bytes : List ℕ)
      → length bytes < n
      → read_body c n FrameError.ended bytes ≡ Outcome.err FrameError.interrupted []
  unfolding read_body mid_frame short_read
  read_body-cut n bytes h = rw (read_full_short n FrameError.ended bytes h, read_body) (after bytes)
    where
      after :
          (bs : List ℕ)
          → ◌≡◌ {A = Outcome c.Envelope}
              (Outcome.err (mid_frame (short_read (length bs) FrameError.ended)) [])
              (Outcome.err FrameError.interrupted [])
      after [] = refl
      after (b ∷ bs) = refl

  -- A stream that ends inside a frame of a legal size, in its header or its payload, is an interruption
  -- and never a clean close.
  pub read_frame-cut :
      (body : List ℕ) (k : ℕ)
      → 0 < length body
      → length body ≤ max_frame_size
      → 0 < k
      → k < 4 + length body
      → read_frame c FrameError.ended (take k (put_uint32 (length body) ++ body))
        ≡ Outcome.err FrameError.interrupted []
  unfolding put_uint32 short_read max_frame_size
  read_frame-cut body zero h0 h1 hk hcut = absurd (omega (arith, hk))
  read_frame-cut body (suc zero) h0 h1 hk hcut =
      read_frame_short c FrameError.ended (take 1 (put_uint32 (length body) ++ body)) (omega arith)
  read_frame-cut body (suc (suc zero)) h0 h1 hk hcut =
      read_frame_short c FrameError.ended (take 2 (put_uint32 (length body) ++ body)) (omega arith)
  read_frame-cut body (suc (suc (suc zero))) h0 h1 hk hcut =
      read_frame_short c FrameError.ended (take 3 (put_uint32 (length body) ++ body)) (omega arith)
  read_frame-cut body (suc (suc (suc (suc j)))) h0 h1 hk hcut =
      read_frame_long c FrameError.ended
        (take (suc (suc (suc (suc j)))) (put_uint32 (length body) ++ body)) (omega arith)
      ∙ ap (λ n. check_length c n FrameError.ended (take j body))
          (get_uint32-put_uint32 (length body) [] (omega (arith, h1)))
      ∙ check_length-body (length body) FrameError.ended (take j body) h0 h1
      ∙ read_body-cut (length body) (take j body) (omega (arith, length-take j body, hcut))
