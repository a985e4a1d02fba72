-- ===== src/Mavlink/Frame/Payload.antt =====
-- The payload of a frame (frame.go, lines 146 to 164 of Encode and 320 to 344 of decodeFrame): a
-- sender leaves the trailing zeroes out, and the receiver restores them.
use swarm_communication.Prelude.{ℕ, suc, ◌≡◌, ◌≤◌, List, [], ◌∷◌, length, refl, ap, arith}
use native.Mathlib.Numerals.{unary_clauses}
use swarm_communication.Mavlink.Frame.{trim, cons_unless_zero, zero_extend}

pub length-trim : (bs : List ℕ) → length (trim bs) ≤ length bs
unfolding trim cons_unless_zero
length-trim [] = omega arith
length-trim (b ∷ bs) = shorter (trim bs) (length-trim bs)
  where
    shorter : (t : List ℕ) → length t ≤ length bs → length (cons_unless_zero b t) ≤ suc (length bs)
    shorter [] h = ground arith
    shorter (c ∷ rest) h = omega (arith, h)

-- The receiver reads the payload as the sender's message laid it out.
pub zero_extend-trim : (bs : List ℕ) → zero_extend (length bs) (trim bs) ≡ bs
unfolding trim zero_extend cons_unless_zero
zero_extend-trim [] = refl
zero_extend-trim (b ∷ bs) = restored (trim bs) (zero_extend-trim bs)
  where
    restored :
        (t : List ℕ)
        → zero_extend (length bs) t ≡ bs
        → zero_extend (suc (length bs)) (cons_unless_zero b t) ≡ b ∷ bs
    restored [] h = ground (arith, h)
    restored (c ∷ rest) h = simp unary_clauses (ap (λ l. b ∷ l) (simp unary_clauses at h))

-- Nothing is left to trim.
pub trim-trim : (bs : List ℕ) → trim (trim bs) ≡ trim bs
unfolding trim cons_unless_zero
trim-trim [] = refl
trim-trim (b ∷ bs) = again (trim bs) (trim-trim bs)
  where
    again : (t : List ℕ) → trim t ≡ t → trim (cons_unless_zero b t) ≡ cons_unless_zero b t
    again [] h = ground arith
    again (c ∷ rest) h = ap (cons_unless_zero b) h
