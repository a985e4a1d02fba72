-- ===== src/Tests/Protocol.antt =====
-- Runs of the framing (backend/pkg/protocol/framing.go), over envelopes that are their version and
-- a payload, of which the encoding drops the blanks.
use swarm_communication.Prelude.{
  subst, some_inj, ℕ, ◌≡◌, refl, ap, Bool-cases, inl, inr, ◌==◌, if◌then◌else◌, Option, some, none,
  List, [], ◌∷◌, ◌++◌, take, arith,
}
use swarm_communication.Protocol.Framing.{
  Codec, IsJson, FrameError, Outcome, read_frame, write_envelope, versioned, write_body, put_frame,
  put_uint32, max_frame_size,
}
use swarm_communication.Protocol.Framing.RoundTrip.{
  Carries, read_frame-write_envelope, read_frame-cut,
}

-- JSON drops the blanks of a payload.
abbrev compact : List ℕ → List ℕ
compact [] = []
compact (b ∷ bs) = if b == 32 then compact bs else b ∷ compact bs

compact_twice : (bs : List ℕ) → compact (compact bs) ≡ compact bs
compact_twice [] = refl
compact_twice (b ∷ bs) = elim (Bool-cases (b == 32)) [
  | inl e ↦ rw e (compact_twice bs)
  | inr e ↦ rw (e, e) (ap (λ l. b ∷ l) (compact_twice bs))
]

abbrev unpack : List ℕ → Option (ℕ × List ℕ)
unpack [] = none
unpack (v ∷ bs) = some (v, bs)

abbrev blanks : Codec
blanks = record {
  Envelope = ℕ × List ℕ;
  version = λ e. e.0;
  set_version = λ v e. (v, e.1);
  marshal = λ e. some (e.0 ∷ compact e.1);
  unmarshal = unpack;
}

abbrev blanks-IsJson : IsJson blanks
blanks-IsJson = record {
  normal = λ e. (e.0, compact e.1);
  reads_back = λ e body h. subst (λ b. unpack b ≡ some (e.0, compact e.1)) (some_inj h) refl;
  keeps_version = λ e. refl;
  settles = λ e. ap (λ (l : List ℕ). (e.0, l)) (compact_twice e.1);
}

-- A payload with a blank in it, and the relay of what was read.
read_frame-write_envelope_example :
    Carries blanks (7 ∷ []) (7 ∷ put_uint32 2 ++ (1 ∷ 9 ∷ [])) (1, 9 ∷ []) FrameError.ended (5 ∷ [])
    × Carries blanks [] (put_uint32 2 ++ (1 ∷ 9 ∷ [])) (1, 9 ∷ []) FrameError.ended (5 ∷ [])
unfolding write_envelope versioned write_body put_frame put_uint32 max_frame_size
read_frame-write_envelope_example =
    read_frame-write_envelope blanks blanks-IsJson none none FrameError.ended (7 ∷ [])
      (7 ∷ put_uint32 2 ++ (1 ∷ 9 ∷ [])) [] (put_uint32 2 ++ (1 ∷ 9 ∷ [])) (5 ∷ []) (0, 32 ∷ 9 ∷ [])
      refl refl refl

read_frame-cut_example :
    read_frame blanks FrameError.ended (take 5 (put_uint32 2 ++ (1 ∷ 9 ∷ [])))
    ≡ Outcome.err FrameError.interrupted []
unfolding max_frame_size
read_frame-cut_example =
    read_frame-cut blanks (1 ∷ 9 ∷ []) 5 (omega arith) (omega arith) (omega arith) (omega arith)
