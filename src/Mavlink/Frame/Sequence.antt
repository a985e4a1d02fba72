-- ===== src/Mavlink/Frame/Sequence.antt =====
-- Sequencer.Next over a run of frames of any senders (frame.go, lines 170 to 206).
use swarm_communication.Prelude.{
  ℕ, ◌+◌, ◌*◌, ◌%◌, ◌≡◌, ◌<◌, ◌&&◌, List, [], ◌∷◌, refl, ap, ◌∙◌, arith, ◌==◌, if◌then◌else◌, All,
  Bool-cases, inl, inr,
}
use swarm_communication.Prelude.Map.{Map, lookup, insert, lookup-insert}
use swarm_communication.Mavlink.Frame.{next_seq, seq_of}

-- The counters after a run of calls, one for each sender in the list.
abbrev pub after_calls : List (ℕ × ℕ) → Map ℕ → Map ℕ
after_calls [] next = next
after_calls (s ∷ senders) next = after_calls senders (next_seq next s.0 s.1).1

-- How many of the calls were of one sender.
abbrev pub calls_of : ℕ → ℕ → List (ℕ × ℕ) → ℕ
calls_of sys_id comp_id [] = 0
calls_of sys_id comp_id (s ∷ senders) =
    (if s.0 == sys_id && s.1 == comp_id then 1 else 0) + calls_of sys_id comp_id senders

-- A system and a component are bytes.
abbrev pub AreSenders : List (ℕ × ℕ) → Type 0
AreSenders senders = All (λ s. (s.0 < 256) × (s.1 < 256)) senders

seq_of-insert :
    (k j v : ℕ) (next : Map ℕ) → seq_of j (insert k v next) ≡ (if k == j then v else seq_of j next)
unfolding seq_of
seq_of-insert k j v next = rw (lookup-insert k j v next, seq_of) (ground arith)

seq_of-empty : (k : ℕ) → seq_of k [] ≡ 0
unfolding seq_of lookup
seq_of-empty k = refl

same_key :
    (a b c e : ℕ)
    → a < 256
    → b < 256
    → c < 256
    → e < 256
    → (a * 256 + b == c * 256 + e) ≡ (a == c && b == e)
same_key a b c e h0 h1 h2 h3 = ground (arith, h0, h1, h2, h3)

bumped :
    (next : Map ℕ) (i j : ℕ)
    → (if i == j then (seq_of i next + 1) % 256 else seq_of j next)
      ≡ (if i == j then (seq_of j next + 1) % 256 else seq_of j next)
bumped next i j = elim (Bool-cases (i == j)) [
  | inl e ↦ rw e (ap (λ k. (seq_of k next + 1) % 256) (ground (arith, e)))
  | inr e ↦ rw e refl
]

-- One call: the sender's own counter moves by one, every other stays.
next_seq-step :
    (next : Map ℕ) (s : ℕ × ℕ) (sys_id comp_id : ℕ)
    → s.0 < 256
    → s.1 < 256
    → sys_id < 256
    → comp_id < 256
    → seq_of (sys_id * 256 + comp_id) (next_seq next s.0 s.1).1 ≡ (
        if s.0 == sys_id && s.1 == comp_id
        then (seq_of (sys_id * 256 + comp_id) next + 1) % 256
        else seq_of (sys_id * 256 + comp_id) next)
unfolding next_seq
next_seq-step next s sys_id comp_id h0 h1 h2 h3 =
    seq_of-insert (s.0 * 256 + s.1) (sys_id * 256 + comp_id)
      ((seq_of (s.0 * 256 + s.1) next + 1) % 256) next
    ∙ bumped next (s.0 * 256 + s.1) (sys_id * 256 + comp_id)
    ∙ ap
        (λ b.
          if b
          then (seq_of (sys_id * 256 + comp_id) next + 1) % 256
          else seq_of (sys_id * 256 + comp_id) next)
        (same_key s.0 s.1 sys_id comp_id h0 h1 h2 h3)

seq_of-after_calls :
    (senders : List (ℕ × ℕ)) (next : Map ℕ) (sys_id comp_id : ℕ)
    → AreSenders senders
    → sys_id < 256
    → comp_id < 256
    → seq_of (sys_id * 256 + comp_id) next < 256
    → seq_of (sys_id * 256 + comp_id) (after_calls senders next)
      ≡ (seq_of (sys_id * 256 + comp_id) next + calls_of sys_id comp_id senders) % 256
seq_of-after_calls [] next sys_id comp_id hs h0 h1 hn = omega (arith, hn)
seq_of-after_calls (s ∷ senders) next sys_id comp_id hs h0 h1 hn =
    let step = next_seq-step next s sys_id comp_id hs.0.0 hs.0.1 h0 h1 in
    let small : seq_of (sys_id * 256 + comp_id) (next_seq next s.0 s.1).1 < 256 =
      ground (arith, step, hn) in
    let later =
      seq_of-after_calls senders (next_seq next s.0 s.1).1 sys_id comp_id hs.1 h0 h1 small in
    ground (arith, step, later, hn)

-- From empty counters, the number that a sender's next frame gets is how many frames that sender has
-- had, modulo 256, whatever other senders sent in between; systems and components are bytes.
pub next_seq-after_calls :
    (senders : List (ℕ × ℕ)) (sys_id comp_id : ℕ)
    → AreSenders senders
    → sys_id < 256
    → comp_id < 256
    → (next_seq (after_calls senders []) sys_id comp_id).0 ≡ calls_of sys_id comp_id senders % 256
unfolding next_seq
next_seq-after_calls senders sys_id comp_id hs h0 h1 =
    seq_of-after_calls senders [] sys_id comp_id hs h0 h1
      (let e = seq_of-empty (sys_id * 256 + comp_id) in omega arith)
    ∙ ap (λ n. (n + calls_of sys_id comp_id senders) % 256) (seq_of-empty (sys_id * 256 + comp_id))
    ∙ unpadded (calls_of sys_id comp_id senders)
  where
    unpadded : (n : ℕ) → (0 + n) % 256 ≡ n % 256
    unpadded n = omega arith
