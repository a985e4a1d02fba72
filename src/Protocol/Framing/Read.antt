-- ===== src/Protocol/Framing/Read.antt =====
-- What a reader learns from an error of read_frame (framing.go, lines 90 to 117 and 290 to 393).
use swarm_communication.Prelude.{
  ℕ, ◌≡◌, ◌≤◌, ◌<◌, List, [], ◌∷◌, length, arith, refl, Bool-cases, inl, inr, take, drop, ◌⊎◌, ◌≢◌,
  sym, ◌∙◌, leb, Option, none, some, tests,
}
use swarm_communication.Protocol.Framing.{
  Codec, FrameError, Outcome, read_full, read_frame, decode_body, check_length, check_version,
  read_body, mid_frame, short_read, get_uint32,
}

le_or_lt : (a b : ℕ) → (a ≤ b) ⊎ (b < a)
le_or_lt a b = elim (Bool-cases (leb a b)) [
  | inl h ↦ inl (omega tests)
  | inr h ↦ inr (ground (arith, h))
]

pub read_full_short :
    (n : ℕ) (ending : FrameError) (bytes : List ℕ)
    → length bytes < n
    → read_full n ending bytes ≡ Outcome.err (short_read (length bytes) ending) []
unfolding read_full
read_full_short n ending bytes h = ground (arith, h)

pub read_full_enough :
    (n : ℕ) (ending : FrameError) (bytes : List ℕ)
    → n ≤ length bytes
    → read_full n ending bytes ≡ Outcome.ok (take n bytes) (drop n bytes)
unfolding read_full
read_full_enough n ending bytes h = ground (arith, h)

-- The decoded payload never reports the end of the stream, since a payload follows its header.
module _ (c : Codec) where
  mid_frame-ended : (e : FrameError) → mid_frame e ≢ FrameError.ended
  unfolding mid_frame
  mid_frame-ended FrameError.frame_too_large h = cc
  mid_frame-ended FrameError.zero_length_frame h = cc
  mid_frame-ended FrameError.unsupported_version h = cc
  mid_frame-ended FrameError.malformed_frame h = cc
  mid_frame-ended FrameError.ended h = cc
  mid_frame-ended FrameError.interrupted h = cc
  mid_frame-ended FrameError.broken h = cc
  mid_frame-ended FrameError.nil_envelope h = cc
  mid_frame-ended FrameError.unmarshalable h = cc
  mid_frame-ended FrameError.write_failed h = cc

  check_version-ended :
      (env : c.Envelope) (bytes rest : List ℕ)
      → check_version c env bytes ≢ Outcome.err FrameError.ended rest
  unfolding check_version
  check_version-ended env bytes rest h = ground (arith, h)

  decode_body-ended :
      (body bytes rest : List ℕ) → decode_body c body bytes ≢ Outcome.err FrameError.ended rest
  unfolding decode_body
  decode_body-ended body bytes rest = after (c.unmarshal body) refl
    where
      after :
          (o : Option c.Envelope)
          → c.unmarshal body ≡ o
          → decode_body c body bytes ≢ Outcome.err FrameError.ended rest
      after none e = rw (e, decode_body) λ h. cc
      after (some env) e = rw (e, decode_body) (check_version-ended env bytes rest)

  read_body-ended :
      (n : ℕ) (ending : FrameError) (bytes rest : List ℕ)
      → read_body c n ending bytes ≢ Outcome.err FrameError.ended rest
  unfolding read_body
  read_body-ended n ending bytes rest = after (read_full n ending bytes) refl
    where
      after :
          (o : Outcome (List ℕ))
          → read_full n ending bytes ≡ o
          → read_body c n ending bytes ≢ Outcome.err FrameError.ended rest
      after (Outcome.err e left) eq = rw (eq, read_body) λ h. mid_frame-ended e cc
      after (Outcome.ok body left) eq = rw (eq, read_body) (decode_body-ended body left rest)

  check_length-ended :
      (n : ℕ) (ending : FrameError) (bytes rest : List ℕ)
      → check_length c n ending bytes ≢ Outcome.err FrameError.ended rest
  unfolding check_length
  check_length-ended n ending bytes rest h = ground (arith, read_body-ended n ending bytes rest, h)

  short_read-ended :
      (bytes : List ℕ) (ending : FrameError)
      → short_read (length bytes) ending ≡ FrameError.ended
      → (bytes ≡ []) × (ending ≡ FrameError.ended)
  unfolding short_read
  short_read-ended [] ending h = (refl, h)
  short_read-ended (b ∷ bs) FrameError.frame_too_large h = cc
  short_read-ended (b ∷ bs) FrameError.zero_length_frame h = cc
  short_read-ended (b ∷ bs) FrameError.unsupported_version h = cc
  short_read-ended (b ∷ bs) FrameError.malformed_frame h = cc
  short_read-ended (b ∷ bs) FrameError.ended h = cc
  short_read-ended (b ∷ bs) FrameError.interrupted h = cc
  short_read-ended (b ∷ bs) FrameError.broken h = cc
  short_read-ended (b ∷ bs) FrameError.nil_envelope h = cc
  short_read-ended (b ∷ bs) FrameError.unmarshalable h = cc
  short_read-ended (b ∷ bs) FrameError.write_failed h = cc

  pub read_frame_long :
      (ending : FrameError) (bytes : List ℕ)
      → 4 ≤ length bytes
      → read_frame c ending bytes ≡ check_length c (get_uint32 (take 4 bytes)) ending (drop 4 bytes)
  unfolding read_frame
  read_frame_long ending bytes h = rw (read_full_enough 4 ending bytes h, read_frame) refl

  pub read_frame_short :
      (ending : FrameError) (bytes : List ℕ)
      → length bytes < 4
      → read_frame c ending bytes ≡ Outcome.err (short_read (length bytes) ending) []
  unfolding read_frame
  read_frame_short ending bytes h = rw (read_full_short 4 ending bytes h, read_frame) refl

  -- read_frame reports a clean close only where not a byte has arrived and the peer has closed.
  pub read_frame_closed :
      (ending : FrameError) (bytes rest : List ℕ)
      → read_frame c ending bytes ≡ Outcome.err FrameError.ended rest
      → (bytes ≡ []) × (ending ≡ FrameError.ended)
  read_frame_closed ending bytes rest h = elim (le_or_lt 4 (length bytes)) [
    | inl long ↦ absurd (
        check_length-ended (get_uint32 (take 4 bytes)) ending (drop 4 bytes) rest
          (sym (read_frame_long ending bytes long) ∙ h))
    | inr short ↦
        short_read-ended bytes ending (let e = sym (read_frame_short ending bytes short) ∙ h in cc)
  ]
