-- ===== src/Mavlink/Mover.antt =====
-- backend/pkg/mavlink/mover.go: one vehicle's simulated motion.
--
-- The generator is the node that seeds it and the number of its draws: `draw node i` is the i-th value of
-- rng.Float64(). A duration is in nanoseconds, and `seconds` is its Seconds().
pub mod Arrival
use swarm_communication.Prelude.{
  ℕ, zero, suc, ◌+◌, Bool, true, false, not, ◌&&◌, ◌||◌, Option, none, some, List, [], ◌∷◌,
  if◌then◌else◌,
}
use swarm_communication.Prelude.Int.{ℤ, pos, leb_ℤ}
use swarm_communication.Health.{Float64, zero_f, ltb_f, leb_f, eq_f}
use swarm_communication.Cluster.Member.{NodeId}
use swarm_communication.Mavlink.Vector.{
  FloatMath, Position, origin, literal, of_nat, min_f, eq_p, clamp_position, pi, add_p, sub_p,
  scale_p, len_p, norm_p,
}

-- IdleMode, with the values outside its three constants.
pub data IdleMode : Type 0 where
  drift patrol still unknown : IdleMode

-- ParseIdleMode of a text: the empty one, one of the three, or another.
pub data IdleText : Type 0 where
  empty : IdleText
  named : IdleMode → IdleText

unfoldable pub parse_idle_mode : IdleText → Option IdleMode
parse_idle_mode IdleText.empty = some IdleMode.drift
parse_idle_mode (IdleText.named IdleMode.unknown) = none
parse_idle_mode (IdleText.named m) = some m

pub record MoveConfig : Type 0 where
  pub speed_units_per_sec : Float64
  pub idle : IdleMode
  pub drift_disabled : Bool
  pub drift_radius : Float64
  pub drift_speed : Float64

-- DefaultSpeedUnitsPerSec, DefaultDriftRadius, DefaultDriftSpeed and driftTurnRate
unfoldable pub default_speed : Float64
unfolding of_nat
default_speed = of_nat 3

unfoldable pub default_drift_radius : Float64
unfolding of_nat
default_drift_radius = of_nat 4

unfoldable pub default_drift_speed : Float64
unfolding literal
default_drift_speed = literal 3602879701896397 1021

unfoldable pub drift_turn_rate : Float64
unfolding literal
drift_turn_rate = literal 3 1073

abbrev pub positive_or : Float64 → Float64 → Float64
positive_or f default = if leb_f f zero_f then default else f

abbrev pub normal_idle : IdleMode → IdleMode
normal_idle IdleMode.patrol = IdleMode.patrol
normal_idle IdleMode.still = IdleMode.still
normal_idle m = IdleMode.drift

-- MoveConfig.withDefaults
unfoldable pub move_defaults : MoveConfig → MoveConfig
unfolding default_speed default_drift_radius default_drift_speed
move_defaults c = record {
  speed_units_per_sec = positive_or c.speed_units_per_sec default_speed;
  idle = if c.drift_disabled then IdleMode.still else normal_idle c.idle;
  drift_disabled = c.drift_disabled;
  drift_radius = positive_or c.drift_radius default_drift_radius;
  drift_speed = positive_or c.drift_speed default_drift_speed;
}

pub record Mover : Type 0 where
  pub cfg : MoveConfig
  pub seed : NodeId
  pub draws : ℕ
  pub home : Position
  pub at : Position
  pub vel : Position
  pub dir : Position
  pub target : Option Position
  pub has_reached : Bool
  pub heading : Float64
  pub angle : Float64

-- Target, Flying and Reached. Pos, Home, Vel and Heading are the fields.
abbrev pub flying : Mover → Bool
flying m = elim m.target [ none ↦ false | some p ↦ true ]

unfoldable pub reached : Mover → Bool
reached m = flying m && m.has_reached

-- SetTarget, ClearTarget and Adopt
unfoldable pub set_target : Position → Mover → Mover
set_target p m = record m { target = some (clamp_position p); has_reached = false }

unfoldable pub clear_target : Mover → Mover
clear_target m = record m { target = none; has_reached = false }

unfoldable pub adopt : Position → Mover → Mover
adopt p m = record m {
  home = clamp_position p;
  at = clamp_position p;
  vel = origin;
  target = none;
  has_reached = false;
}

-- The machine, and the generators.
pub record World : Type 0 where
  pub fm : FloatMath
  pub draw : NodeId → ℕ → Float64
  pub seconds : ℤ → Float64

module _ (w : World) where
  -- randomUnit: a direction and the draws made, within so many tries.
  unfoldable pub draw_signed : NodeId → ℕ → Float64
  unfolding of_nat
  draw_signed node i = w.fm.sub (w.fm.mul (w.draw node i) (of_nat 2)) (of_nat 1)

  unfoldable pub random_unit : ℕ → NodeId → ℕ → Position × ℕ
  unfolding draw_signed len_p scale_p literal of_nat
  random_unit zero node i = (record origin { x = of_nat 1 }, i)
  random_unit (suc tries) node i =
      let p : Position = record {
        x = draw_signed node i;
        y = draw_signed node (i + 1);
        z = draw_signed node (i + 2);
      } in
      let l = len_p w.fm p in
      let again = random_unit tries node (i + 3) in
      if ltb_f (literal 4722366482869645 1002) l && leb_f l (of_nat 1)
      then (scale_p w.fm p (w.fm.div (of_nat 1) l), i + 3)
      else again

  -- NewMover
  unfoldable pub new_mover : NodeId → Position → MoveConfig → Mover
  unfolding random_unit norm_p move_defaults pi of_nat
  new_mover node home cfg =
      let (unit, i) = random_unit 16 node 0 in
      record {
        cfg = move_defaults cfg;
        seed = node;
        draws = i + 1;
        home = home;
        at = home;
        vel = origin;
        dir = norm_p w.fm unit;
        target = none;
        has_reached = false;
        heading = zero_f;
        angle = w.fm.mul (w.fm.mul (w.draw node i) (of_nat 2)) pi;
      }

  -- A move of at most `step` towards a point, and whether it arrives.
  unfoldable pub approach : Position → Float64 → Position → Position × Bool
  unfolding add_p sub_p scale_p len_p
  approach goal step at =
      let d = sub_p w.fm goal at in
      let dist = len_p w.fm d in
      if leb_f dist step || eq_f dist zero_f
      then (goal, true)
      else (add_p w.fm at (scale_p w.fm d (w.fm.div step dist)), false)

  -- flyStep
  unfoldable pub fly_step : Float64 → Position → Mover → Mover
  unfolding approach
  fly_step secs goal m =
      let (p, arrives) = approach goal (w.fm.mul m.cfg.speed_units_per_sec secs) m.at in
      record m { at = p; has_reached = m.has_reached || arrives }

  -- The position that driftStep bounds by the radius around the home.
  unfoldable pub bounded_drift : Mover → Position → Position
  unfolding add_p sub_p scale_p len_p
  bounded_drift m p =
      let off = sub_p w.fm p m.home in
      let d = len_p w.fm off in
      if ltb_f m.cfg.drift_radius d
      then add_p w.fm m.home (scale_p w.fm off (w.fm.div m.cfg.drift_radius d))
      else p

  abbrev pub no_drift : MoveConfig → Bool
  no_drift c = leb_f c.drift_speed zero_f || leb_f c.drift_radius zero_f

  -- driftStep
  unfoldable pub drift_wish : Mover → Position → Position
  unfolding sub_p scale_p len_p norm_p of_nat
  drift_wish m unit =
      let off = sub_p w.fm m.at m.home in
      let far = w.fm.div (len_p w.fm off) m.cfg.drift_radius in
      let k = if ltb_f (of_nat 1) far then of_nat 1 else far in
      let kk = w.fm.mul k k in
      let want = scale_p w.fm unit (w.fm.sub (of_nat 1) kk) in
      if ltb_f zero_f k then sub_p w.fm want (scale_p w.fm (norm_p w.fm off) kk) else want

  unfoldable pub drift_step : Float64 → Mover → Mover
  unfolding random_unit drift_wish bounded_drift norm_p add_p sub_p scale_p drift_turn_rate of_nat
  drift_step secs m =
      let (unit, i) = random_unit 16 m.seed m.draws in
      let want = drift_wish m unit in
      let blend = min_f (of_nat 1) (w.fm.mul drift_turn_rate secs) in
      let dir = norm_p w.fm (add_p w.fm m.dir (scale_p w.fm (sub_p w.fm want m.dir) blend)) in
      let m' : Mover = record m { draws = i; dir = dir } in
      if no_drift m.cfg then m else if eq_p dir origin then m' else record m' {
        at = bounded_drift m (add_p w.fm m.at (scale_p w.fm dir (w.fm.mul m.cfg.drift_speed secs)));
      }

  -- patrolStep
  unfoldable pub patrol_step : Float64 → Mover → Mover
  unfolding approach pi of_nat
  patrol_step secs m =
      let turned =
        w.fm.add m.angle (w.fm.mul (w.fm.div m.cfg.drift_speed m.cfg.drift_radius) secs) in
      let a = w.fm.mod_f turned (w.fm.mul (of_nat 2) pi) in
      let want : Position = record {
        x = w.fm.add m.home.x (w.fm.mul m.cfg.drift_radius (w.fm.sin a));
        y = w.fm.add m.home.y (w.fm.mul m.cfg.drift_radius (w.fm.cos a));
        z = m.home.z;
      } in
      if no_drift m.cfg
      then m
      else record m { angle = a; at = (approach want (w.fm.mul m.cfg.drift_speed secs) m.at).0 }

  -- headingOf
  unfoldable pub heading_of : Position → Option Float64
  unfolding literal pi of_nat
  heading_of vel =
      let deg = w.fm.div (w.fm.mul (w.fm.atan2 vel.x vel.y) (of_nat 180)) pi in
      if ltb_f (w.fm.hypot vel.x vel.y) (literal 4835703278458517 992)
      then none
      else some (if ltb_f deg zero_f then w.fm.add deg (of_nat 360) else deg)

  -- Step: the three ways to move without a target, and the way to move with one.
  unfoldable pub idle_step : IdleMode → Float64 → Mover → Mover
  unfolding drift_step patrol_step
  idle_step IdleMode.still secs m = m
  idle_step IdleMode.patrol secs m = patrol_step secs m
  idle_step IdleMode.drift secs m = drift_step secs m
  idle_step IdleMode.unknown secs m = drift_step secs m

  unfoldable pub move : Option Position → Float64 → Mover → Mover
  unfolding fly_step idle_step
  move (some goal) secs m = fly_step secs goal m
  move none secs m = idle_step m.cfg.idle secs m

  unfoldable pub measured : Float64 → Position → Mover → Mover
  unfolding scale_p sub_p heading_of of_nat
  measured secs prev m =
      let vel = scale_p w.fm (sub_p w.fm m.at prev) (w.fm.div (of_nat 1) secs) in
      record m { vel = vel; heading = elim (heading_of vel) [ none ↦ m.heading | some h ↦ h ] }

  unfoldable pub step : ℤ → Mover → Mover
  unfolding move measured
  step dt m =
      if leb_ℤ dt (pos 0)
      then m
      else (let m' = move m.target (w.seconds dt) m in
          measured (w.seconds dt) m.at (record m' { at = clamp_position m'.at }))

-- The calls on a mover, in any order.
pub data Call : Type 0 where
  told : Position → Call
  cleared : Call
  adopted : Position → Call
  stepped : ℤ → Call

unfoldable pub called : World → Call → Mover → Mover
unfolding set_target clear_target adopt step
called w (Call.told p) m = set_target p m
called w Call.cleared m = clear_target m
called w (Call.adopted p) m = adopt p m
called w (Call.stepped dt) m = step w dt m
