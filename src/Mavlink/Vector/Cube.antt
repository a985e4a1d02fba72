-- ===== src/Mavlink/Vector/Cube.antt =====
-- The cube: what ClampPosition makes of a position, and that it leaves a position in the cube alone.
use swarm_communication.Prelude.{ℕ, ◌*◌, ◌^◌, ◌≡◌, true, arith}
use swarm_communication.Prelude.Int.{pos}
use swarm_communication.Health.{Float64, zero_f, leb_f}
use swarm_communication.Mavlink.Vector.{Position, size, clamp, clamp_position}

abbrev pub InRange : Float64 → Type 0
InRange f = (leb_f zero_f f ≡ true) × (leb_f f size ≡ true)

abbrev pub InCube : Position → Type 0
InCube p = InRange p.x × InRange p.y × InRange p.z

module _ (k : ℕ) where
  clamp_range :
      (v : Float64)
      → (leb_f zero_f (clamp v zero_f (Float64.finite (pos k))) ≡ true)
        × (leb_f (clamp v zero_f (Float64.finite (pos k))) (Float64.finite (pos k)) ≡ true)
  unfolding clamp
  clamp_range Float64.nan = (ground arith, ground arith)
  clamp_range Float64.neg_inf = (ground arith, ground arith)
  clamp_range Float64.pos_inf = (ground arith, ground arith)
  clamp_range (Float64.finite x) = (ground arith, ground arith)

  clamp_in_range :
      (v : Float64)
      → leb_f zero_f v ≡ true
      → leb_f v (Float64.finite (pos k)) ≡ true
      → clamp v zero_f (Float64.finite (pos k)) ≡ v
  unfolding clamp
  clamp_in_range Float64.nan h g = cc
  clamp_in_range Float64.neg_inf h g = cc
  clamp_in_range Float64.pos_inf h g = cc
  clamp_in_range (Float64.finite x) h g = ground arith

clamp-InRange : (v : Float64) → InRange (clamp v zero_f size)
unfolding size
clamp-InRange v = clamp_range (100 * 2 ^ 1074) v

clamp_self : (v : Float64) → InRange v → clamp v zero_f size ≡ v
unfolding size
clamp_self v h = clamp_in_range (100 * 2 ^ 1074) v h.0 h.1

pub clamp_position-InCube : (p : Position) → InCube (clamp_position p)
unfolding clamp_position
clamp_position-InCube p = (clamp-InRange p.x, clamp-InRange p.y, clamp-InRange p.z)

pub clamp_position_self : (p : Position) → InCube p → clamp_position p ≡ p
unfolding clamp_position
clamp_position_self p h =
    let ex = clamp_self p.x h.0 in
    let ey = clamp_self p.y h.1 in
    let ez = clamp_self p.z h.2 in λ i. record { x = ex i; y = ey i; z = ez i }
