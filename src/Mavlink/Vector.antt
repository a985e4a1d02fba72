-- ===== src/Mavlink/Vector.antt =====
-- backend/pkg/mavlink/project.go, the vector helpers of mover.go, and the clamping of
-- backend/pkg/geo/geo.go: positions in the cube, and on the earth.
--
-- A float64 is that of Health: every finite value exactly. What the machine rounds, and the functions of
-- package math, are operations that the definitions take.
pub mod Cube
use swarm_communication.Prelude.{
  ℕ, suc, ◌+◌, ◌*◌, ◌/◌, ◌^◌, Bool, true, ◌&&◌, ◌||◌, not, if◌then◌else◌,
}
use swarm_communication.Prelude.Int.{ℤ, pos, negsuc, ◌-ℤ◌}
use swarm_communication.Health.{Float64, zero_f, ltb_f, leb_f, eq_f}

-- `a + b`, `a - b`, `a * b`, `a / b` on float64, and the functions of package math.
pub record FloatMath : Type 0 where
  pub add : Float64 → Float64 → Float64
  pub sub : Float64 → Float64 → Float64
  pub mul : Float64 → Float64 → Float64
  pub div : Float64 → Float64 → Float64
  pub sqrt : Float64 → Float64
  pub sin : Float64 → Float64
  pub cos : Float64 → Float64
  -- math.Mod, math.Hypot and math.Atan2
  pub mod_f : Float64 → Float64 → Float64
  pub hypot : Float64 → Float64 → Float64
  pub atan2 : Float64 → Float64 → Float64
  -- float32(a)
  pub to_float32 : Float64 → Float64

-- The double of an integer that it holds exactly, and of `n * 2 ^ -(1074 - e)`.
unfoldable pub of_int : ℤ → Float64
of_int (pos n) = Float64.finite (pos (n * 2 ^ 1074))
of_int (negsuc n) = Float64.finite (pos 0 -ℤ pos (suc n * 2 ^ 1074))

unfoldable pub literal : ℕ → ℕ → Float64
literal n e = Float64.finite (pos (n * 2 ^ e))

unfoldable pub of_nat : ℕ → Float64
unfolding of_int
of_nat n = of_int (pos n)

-- math.Round, half away from zero, and the conversion of a finite value to an integer.
unfoldable pub round : Float64 → Float64
unfolding of_int
round (Float64.finite (pos n)) = of_int (pos ((n + 2 ^ 1073) / 2 ^ 1074))
round (Float64.finite (negsuc n)) = of_int (pos 0 -ℤ pos ((suc n + 2 ^ 1073) / 2 ^ 1074))
round f = f

unfoldable pub truncate : Float64 → ℤ
truncate (Float64.finite (pos n)) = pos (n / 2 ^ 1074)
truncate (Float64.finite (negsuc n)) = pos 0 -ℤ pos (suc n / 2 ^ 1074)
truncate f = pos 0

-- math.MaxInt32 and math.MinInt32
abbrev pub max_int32 : ℤ
max_int32 = pos 2147483647

abbrev pub min_int32 : ℤ
min_int32 = negsuc 2147483647

unfoldable pub to_int32 : Float64 → ℤ
unfolding of_int truncate
to_int32 Float64.nan = pos 0
to_int32 f =
    if ltb_f (of_int max_int32) f
    then max_int32
    else if ltb_f f (of_int min_int32)
    then min_int32
    else truncate f

-- protocol.Position
pub record Position : Type 0 where
  pub x : Float64
  pub y : Float64
  pub z : Float64

abbrev pub origin : Position
origin = record { x = zero_f; y = zero_f; z = zero_f }

-- `==` on the struct
abbrev pub eq_p : Position → Position → Bool
eq_p a b = eq_f a.x b.x && eq_f a.y b.y && eq_f a.z b.z

-- geo.Size, geo.clamp and ClampPosition. `max` and `min` are those of values that are no NaN.
unfoldable pub size : Float64
unfolding of_nat
size = of_nat 100

abbrev pub max_f : Float64 → Float64 → Float64
max_f a b = if ltb_f a b then b else a

abbrev pub min_f : Float64 → Float64 → Float64
min_f a b = if ltb_f b a then b else a

unfoldable pub clamp : Float64 → Float64 → Float64 → Float64
clamp Float64.nan lo hi = lo
clamp v lo hi = min_f (max_f v lo) hi

unfoldable pub clamp_position : Position → Position
unfolding clamp
clamp_position p = record {
  x = clamp p.x zero_f size;
  y = clamp p.y zero_f size;
  z = clamp p.z zero_f size;
}

-- Global and Projection
pub record Global : Type 0 where
  pub lat_e7 : ℤ
  pub lon_e7 : ℤ
  pub alt_mm : ℤ

pub record Projection : Type 0 where
  pub origin_lat : Float64
  pub origin_lon : Float64
  pub origin_alt_m : Float64
  pub metres_per_unit : Float64

-- math.Pi, 180 / math.Pi and 180 / math.Pi / EarthRadiusM as the compiler rounds them, EarthRadiusM,
-- and 1e-9.
unfoldable pub pi : Float64
unfolding literal
pi = literal 884279719003555 1026

unfoldable pub degrees_per_radian : Float64
unfolding literal
degrees_per_radian = literal 1007958012753983 1030

unfoldable pub deg_per_metre_lat : Float64
unfolding literal
deg_per_metre_lat = literal 2651358742984719 1006

unfoldable pub earth_radius_m : Float64
unfolding of_nat
earth_radius_m = of_nat 6378137

unfoldable pub min_cos : Float64
unfolding literal
min_cos = literal 4835703278458517 992

module _ (fm : FloatMath) where
  -- addP, subP, scaleP, lenP and normP
  unfoldable pub add_p : Position → Position → Position
  add_p a b = record { x = fm.add a.x b.x; y = fm.add a.y b.y; z = fm.add a.z b.z }

  unfoldable pub sub_p : Position → Position → Position
  sub_p a b = record { x = fm.sub a.x b.x; y = fm.sub a.y b.y; z = fm.sub a.z b.z }

  unfoldable pub scale_p : Position → Float64 → Position
  scale_p a k = record { x = fm.mul a.x k; y = fm.mul a.y k; z = fm.mul a.z k }

  unfoldable pub len_p : Position → Float64
  len_p a = fm.sqrt (fm.add (fm.add (fm.mul a.x a.x) (fm.mul a.y a.y)) (fm.mul a.z a.z))

  abbrev pub is_infinite : Float64 → Bool
  is_infinite f = eq_f f Float64.pos_inf || eq_f f Float64.neg_inf

  unfoldable pub norm_p : Position → Position
  unfolding len_p scale_p literal of_nat
  norm_p a =
      let l = len_p a in
      if ltb_f l (literal 4951760157141521 982) || not (eq_f l l) || is_infinite l
      then origin
      else scale_p a (fm.div (of_nat 1) l)

  -- degPerMetreLon, ProjectFloat, Project, UnprojectFloat and Unproject
  unfoldable pub deg_per_metre_lon : Projection → Float64
  unfolding pi of_nat min_cos degrees_per_radian earth_radius_m
  deg_per_metre_lon p =
      let c = fm.cos (fm.div (fm.mul p.origin_lat pi) (of_nat 180)) in
      let floored = if ltb_f c min_cos then min_cos else c in
      fm.div degrees_per_radian (fm.mul earth_radius_m floored)

  unfoldable pub project_float : Projection → Position → Float64 × Float64 × Float64
  unfolding deg_per_metre_lon deg_per_metre_lat
  project_float p a = (
    fm.add p.origin_lat (fm.mul (fm.mul a.y p.metres_per_unit) deg_per_metre_lat),
    fm.add p.origin_lon (fm.mul (fm.mul a.x p.metres_per_unit) (deg_per_metre_lon p)),
    fm.add p.origin_alt_m (fm.mul a.z p.metres_per_unit),
  )

  unfoldable pub project : Projection → Position → Global
  unfolding project_float to_int32 round of_nat
  project p a =
      let (lat, lon, alt) = project_float p a in
      record {
        lat_e7 = to_int32 (round (fm.mul lat (of_nat 10000000)));
        lon_e7 = to_int32 (round (fm.mul lon (of_nat 10000000)));
        alt_mm = to_int32 (round (fm.mul alt (of_nat 1000)));
      }

  unfoldable pub unproject_float : Projection → Float64 → Float64 → Float64 → Position
  unfolding deg_per_metre_lon deg_per_metre_lat
  unproject_float p lat lon alt = if eq_f p.metres_per_unit zero_f then origin else record {
    x = fm.div (fm.div (fm.sub lon p.origin_lon) (deg_per_metre_lon p)) p.metres_per_unit;
    y = fm.div (fm.div (fm.sub lat p.origin_lat) deg_per_metre_lat) p.metres_per_unit;
    z = fm.div (fm.sub alt p.origin_alt_m) p.metres_per_unit;
  }

  unfoldable pub unproject : Projection → Global → Position
  unfolding unproject_float of_int of_nat
  unproject p g =
      unproject_float p (fm.div (of_int g.lat_e7) (of_nat 10000000))
        (fm.div (of_int g.lon_e7) (of_nat 10000000)) (fm.div (of_int g.alt_mm) (of_nat 1000))
