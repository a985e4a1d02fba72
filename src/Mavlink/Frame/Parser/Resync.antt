-- ===== src/Mavlink/Frame/Parser/Resync.antt =====
-- Parser.Next on a stream that holds garbage before a frame (frame.go, lines 399 to 505).
use swarm_communication.Prelude.{
  ℕ, suc, ◌+◌, ◌≡◌, false, List, [], ◌∷◌, ◌++◌, length, drop, refl, ap, ◌∙◌, All, drop-length,
  append_assoc,
}
use swarm_communication.Mavlink.Dialect.{Dialect, IsGenerated}
use swarm_communication.Mavlink.Frame.{encode, encode_frame}
use swarm_communication.Mavlink.Frame.RoundTrip.{sent, decode_frame-encode}
use swarm_communication.Mavlink.Frame.Parser.{
  Parser, Stats, Result, feed, reset, drop_garbage, next, next_from, consume, skip, index_magic,
  is_magic, count_frame, uint64,
}

abbrev pub IsGarbage : List ℕ → Type 0
IsGarbage bs = All (λ b. is_magic b ≡ false) bs

index_magic-garbage :
    (garbage rest : List ℕ)
    → IsGarbage garbage
    → index_magic (garbage ++ (0xFD ∷ rest)) ≡ length garbage
unfolding index_magic is_magic
index_magic-garbage [] rest h = refl
index_magic-garbage (b ∷ bs) rest h =
    rw (h.0, index_magic) (ap suc (index_magic-garbage bs rest h.1))

-- What the counters say once a frame was found behind so many bytes.
abbrev pub found_after : ℕ → Stats → Stats
found_after n s = record s {
  frames = uint64 (s.frames + 1);
  garbage_bytes = uint64 (s.garbage_bytes + n);
}

module _ (d : Dialect) (seq sys_id comp_id : ℕ) (m : d.Message) where
  drop_garbage-found :
      (s : Stats) (garbage rest : List ℕ)
      → IsGarbage garbage
      → drop_garbage (record { buf = garbage ++ (0xFD ∷ rest); stats = s }) ≡ record {
        buf = 0xFD ∷ rest;
        stats = record s { garbage_bytes = uint64 (s.garbage_bytes + length garbage) };
      }
  unfolding drop_garbage skip
  drop_garbage-found s garbage rest h =
      rw (index_magic-garbage garbage rest h, drop_garbage)
        (rw (drop-length garbage (0xFD ∷ rest)) refl)

  next_from-frame :
      IsGenerated d
      → (s : Stats) (rest : List ℕ)
      → next_from d (record { buf = encode d [] seq sys_id comp_id m ++ rest; stats = s })
        ≡ (Result.frame (sent d seq sys_id comp_id m), record { buf = rest; stats = count_frame s })
  unfolding next_from encode encode_frame consume skip
  next_from-frame law s rest =
      ap (consume d (record { buf = encode d [] seq sys_id comp_id m ++ rest; stats = s }))
        (decode_frame-encode d seq sys_id comp_id m law rest)
      ∙ ap with_buf (drop-length (encode d [] seq sys_id comp_id m) rest)
    where
      with_buf : List ℕ → Result d × Parser
      with_buf b =
          (Result.frame (sent d seq sys_id comp_id m), record { buf = b; stats = count_frame s })

  -- For a generated dialect, a parser that was reset and is fed bytes without a marker, a frame that
  -- Encode appended to them and whatever follows it, returns that frame, counts the frame and the
  -- garbage in counters that wrap at 2 ^ 64, and keeps what follows.
  pub next-encode :
      IsGenerated d
      → (p : Parser) (garbage rest : List ℕ) → IsGarbage garbage
      → next d (feed (encode d garbage seq sys_id comp_id m ++ rest) (reset p)) ≡ (
        Result.frame (sent d seq sys_id comp_id m),
        record { buf = rest; stats = found_after (length garbage) (p.stats) },
      )
  unfolding next encode encode_frame feed reset count_frame
  next-encode law p garbage rest h =
      ap (λ b. next d (record { buf = b; stats = p.stats }))
        (append_assoc garbage (encode_frame d seq sys_id comp_id m) rest)
      ∙ ap (next_from d) (drop_garbage-found (p.stats) garbage (rest_of rest) h)
      ∙ next_from-frame law
          (record (p.stats) { garbage_bytes = uint64 (p.stats.garbage_bytes + length garbage) })
          rest
    where
      rest_of : List ℕ → List ℕ
      rest_of r = drop 1 (encode_frame d seq sys_id comp_id m) ++ r
