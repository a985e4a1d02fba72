-- ===== src/Cluster/Partition.antt =====
-- backend/pkg/cluster/partition.go: the majority test of a node that may be cut off.
use swarm_communication.Prelude.{
  ℕ, ◌+◌, ◌/◌, ◌≤◌, ◌<◌, ◌≡◌, Bool, true, false, ◌||◌, arith, if◌then◌else◌,
}
use swarm_communication.Prelude.Int.{ℤ, pos, negsuc, ltb_ℤ, leb_ℤ, ◌≤ℤ◌}

-- Quorum: 0 for n <= 0, else the smallest strict majority.
unfoldable pub quorum : ℤ → ℤ
quorum (pos n) = if leb_ℤ (pos n) (pos 0) then pos 0 else pos (n / 2 + 1)
quorum (negsuc n) = pos 0

-- Degraded
unfoldable pub degraded : ℤ → ℤ → Bool
unfolding quorum
degraded seen last_known =
    if leb_ℤ seen (pos 0) || leb_ℤ last_known (pos 1) then false else ltb_ℤ seen (quorum last_known)

-- Two groups of at least a quorum of the same positive size together exceed that size, so they
-- overlap.
pub quorum_overlap :
    (n : ℕ) (a b : ℕ) → 0 < n → quorum (pos n) ≤ℤ pos a → quorum (pos n) ≤ℤ pos b → n < a + b
unfolding quorum
quorum_overlap n a b h p q = ground arith

-- When a swarm of more than one node is split in two, and each side sees somebody, both sides cannot
-- be healthy at once: where one is not degraded, the other is.
pub degraded-split :
    (n a b : ℕ)
    → 1 < n
    → 0 < a
    → 0 < b
    → a + b ≤ n
    → degraded (pos a) (pos n) ≡ false
    → degraded (pos b) (pos n) ≡ true
unfolding degraded
degraded-split n a b h ha hb s healthy = ground arith
