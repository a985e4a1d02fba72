-- ===== src/Health.antt =====
-- backend/pkg/health/strategy.go: scores, and which of two is better.
--
-- A float64 is a NaN, an infinity, or a finite value. Every finite float64 is a whole multiple of
-- 2 ^ -1074, so `finite k` stands for k * 2 ^ -1074, and order and equality are exact. (The two
-- zeros are one value, which no comparison of Go tells apart.)
use swarm_communication.Prelude.{
  ℕ, ◌*◌, ◌^◌, ◌≡◌, Bool, true, false, not, ◌||◌, arith, if◌then◌else◌,
}
use swarm_communication.Prelude.Int.{ℤ, pos, ltb_ℤ, eq_ℤ}

pub data Float64 : Type 0 where
  nan neg_inf pos_inf : Float64
  finite : ℤ → Float64

-- Go's `a < b`, `a <= b` and `a == b`: false where a side is a NaN.
abbrev pub ltb_f : Float64 → Float64 → Bool
ltb_f nan b = false
ltb_f neg_inf nan = false
ltb_f neg_inf neg_inf = false
ltb_f neg_inf pos_inf = true
ltb_f neg_inf (finite y) = true
ltb_f pos_inf b = false
ltb_f (finite x) nan = false
ltb_f (finite x) neg_inf = false
ltb_f (finite x) pos_inf = true
ltb_f (finite x) (finite y) = ltb_ℤ x y

abbrev pub eq_f : Float64 → Float64 → Bool
eq_f neg_inf neg_inf = true
eq_f pos_inf pos_inf = true
eq_f (finite x) (finite y) = eq_ℤ x y
eq_f a b = false

abbrev pub leb_f : Float64 → Float64 → Bool
leb_f a b = ltb_f a b || eq_f a b

-- 1.0, 0.5, and the double that the literal 0.3 denotes, which is 5404319552844595 * 2 ^ -54.
unfoldable pub one : Float64
one = finite (pos (2 ^ 1074))

unfoldable pub half : Float64
half = finite (pos (2 ^ 1073))

unfoldable pub three_tenths : Float64
three_tenths = finite (pos (5404319552844595 * 2 ^ 1020))

abbrev pub zero_f : Float64
zero_f = finite (pos 0)

-- Subtraction, and the rounded product under a ceiling, of the machine. They round, so they are
-- parameters of what uses them, and a theorem names the law that it needs.
pub record FloatOps : Type 0 where
  -- `a - b`
  pub sub : Float64 → Float64 → Float64
  -- `int(math.Ceil(float64(n) * t))`
  pub ceil_mul : ℕ → Float64 → ℤ

-- ScoreUnavailable
abbrev pub score_unavailable : Float64
score_unavailable = nan

-- IsValidScore
unfoldable pub is_valid_score : Float64 → Bool
is_valid_score (finite x) = true
is_valid_score _ = false

-- Better: an invalid score never beats another, and loses to every valid one.
unfoldable pub better : Float64 → Float64 → Bool
unfolding is_valid_score
better a b =
    if not (is_valid_score a) then false else if not (is_valid_score b) then true else ltb_f a b

pub better_trans : (a b c : Float64) → better a b ≡ true → better b c ≡ true → better a c ≡ true
unfolding better
better_trans a b c p q = ground arith
