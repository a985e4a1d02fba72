-- ===== src/Mavlink/Mover/Arrival.antt =====
-- What every order of calls keeps of a mover: it stays in the cube, and it reports an arrival only
-- where it stands on its target.
use swarm_communication.Prelude.{
  ◌≡◌, refl, sym, ap, Bool, true, false, ◌&&◌, Option, none, some, List, [], ◌∷◌, arith, Bool-cases,
  inl, inr, subst,
}
use swarm_communication.Prelude.Int.{ℤ, pos, leb_ℤ}
use swarm_communication.Health.{Float64, zero_f, eq_f}
use swarm_communication.Cluster.Member.{NodeId}
use swarm_communication.Mavlink.Vector.{Position, clamp_position, sub_p, len_p}
use swarm_communication.Mavlink.Vector.Cube.{InCube, clamp_position-InCube, clamp_position_self}
use swarm_communication.Mavlink.Mover.{
  MoveConfig, Mover, World, Call, called, step, move, fly_step, approach, drift_step, patrol_step,
  measured, idle_step, set_target, clear_target, adopt, new_mover, reached, IdleMode,
}

-- The calls one after another.
unfoldable pub after : World → List Call → Mover → Mover
unfolding called
after w [] m = m
after w (c ∷ calls) m = after w calls (called w c m)

abbrev TargetInCube : Option Position → Type 0
TargetInCube none = Unit
TargetInCube (some p) = InCube p

pub record IsInside (m : Mover) : Type 0 where
  pub at_inside : InCube m.at
  pub home_inside : InCube m.home
  pub target_inside : TargetInCube m.target

-- A step moves nothing but the position and what is derived from it.
record Holds (m m' : Mover) : Type 0 where
  home_kept : m'.home ≡ m.home
  target_kept : m'.target ≡ m.target

-- A mover that has reached its target stands on it.
abbrev StandsAt : Option Position → Bool → Position → Type 0
StandsAt none arrived at = Unit
StandsAt (some goal) arrived at = arrived ≡ true → at ≡ goal

abbrev StandsOn : Mover → Type 0
StandsOn m = StandsAt m.target m.has_reached m.at

module _ (w : World) where
  drift_step-Holds : (s : Float64) (m : Mover) → Holds m (drift_step w s m)
  unfolding drift_step
  drift_step-Holds s m = record { home_kept = ground arith; target_kept = ground arith }

  patrol_step-Holds : (s : Float64) (m : Mover) → Holds m (patrol_step w s m)
  unfolding patrol_step
  patrol_step-Holds s m = record { home_kept = ground arith; target_kept = ground arith }

  idle_step-Holds : (i : IdleMode) (s : Float64) (m : Mover) → Holds m (idle_step w i s m)
  unfolding idle_step
  idle_step-Holds IdleMode.still s m = record { home_kept = refl; target_kept = refl }
  idle_step-Holds IdleMode.patrol s m = patrol_step-Holds s m
  idle_step-Holds IdleMode.drift s m = drift_step-Holds s m
  idle_step-Holds IdleMode.unknown s m = drift_step-Holds s m

  move-Holds : (t : Option Position) (s : Float64) (m : Mover) → Holds m (move w t s m)
  unfolding move fly_step
  move-Holds none s m = idle_step-Holds m.cfg.idle s m
  move-Holds (some goal) s m = record { home_kept = refl; target_kept = refl }

  step-IsInside : (dt : ℤ) (m : Mover) → IsInside m → IsInside (step w dt m)
  unfolding step measured
  step-IsInside dt m h = elim (Bool-cases (leb_ℤ dt (pos 0))) [
    | inl e ↦ rw e h
    | inr e ↦
        let kept = move-Holds m.target (w.seconds dt) m in
        rw e (record {
          at_inside = clamp_position-InCube (move w m.target (w.seconds dt) m).at;
          home_inside = rw kept.home_kept h.home_inside;
          target_inside = rw kept.target_kept h.target_inside;
        })
  ]

  called-IsInside : (c : Call) (m : Mover) → IsInside m → IsInside (called w c m)
  unfolding called set_target clear_target adopt
  called-IsInside (Call.told p) m h = record {
    at_inside = h.at_inside;
    home_inside = h.home_inside;
    target_inside = clamp_position-InCube p;
  }
  called-IsInside Call.cleared m h = record {
    at_inside = h.at_inside;
    home_inside = h.home_inside;
    target_inside = tt;
  }
  called-IsInside (Call.adopted p) m h = record {
    at_inside = clamp_position-InCube p;
    home_inside = clamp_position-InCube p;
    target_inside = tt;
  }
  called-IsInside (Call.stepped dt) m h = step-IsInside dt m h

  -- A mover in the cube stays in it, with its home and its target, whatever it is told to do and
  -- however the machine rounds.
  pub after-IsInside : (calls : List Call) (m : Mover) → IsInside m → IsInside (after w calls m)
  unfolding after
  after-IsInside [] m h = h
  after-IsInside (c ∷ calls) m h = after-IsInside calls (called w c m) (called-IsInside c m h)

  new_mover-IsInside :
      (node : NodeId) (home : Position) (cfg : MoveConfig)
      → InCube home
      → IsInside (new_mover w node home cfg)
  unfolding new_mover
  new_mover-IsInside node home cfg h = record { at_inside = h; home_inside = h; target_inside = tt }

  new_mover_stands :
      (node : NodeId) (home : Position) (cfg : MoveConfig) → StandsOn (new_mover w node home cfg)
  unfolding new_mover
  new_mover_stands node home cfg = tt

  -- The distance from a place to itself is zero.
  abbrev pub ZeroLength : Type 0
  ZeroLength = (p : Position) → InCube p → eq_f (len_p w.fm (sub_p w.fm p p)) zero_f ≡ true

  approach_arrived :
      (p at : Position) (s : Float64) → (approach w p s at).1 ≡ true → (approach w p s at).0 ≡ p
  unfolding approach
  approach_arrived p at s h = ground arith

  module _ (zero_length : ZeroLength) where
    approach_here : (p : Position) (s : Float64) → InCube p → (approach w p s p).0 ≡ p
    unfolding approach
    approach_here p s h = ground (arith, zero_length p h)

    fly_stands :
        (goal : Position) (s : Float64) (m : Mover)
        → InCube goal
        → (m.has_reached ≡ true → m.at ≡ goal)
        → (fly_step w s goal m).has_reached ≡ true
        → (fly_step w s goal m).at ≡ goal
    unfolding fly_step
    fly_stands goal s m inside stood r = elim (Bool-cases m.has_reached) [
      | inl e ↦ rw (stood e) (approach_here goal (w.fm.mul m.cfg.speed_units_per_sec s) inside)
      | inr e ↦ approach_arrived goal m.at (w.fm.mul m.cfg.speed_units_per_sec s) (ground arith)
    ]

    move_stands :
        (t : Option Position) (s : Float64) (m : Mover)
        → TargetInCube t
        → StandsAt t m.has_reached m.at
        → StandsAt t (move w t s m).has_reached (clamp_position (move w t s m).at)
    unfolding move
    move_stands none s m inside stood = tt
    move_stands (some goal) s m inside stood =
        λ r. rw (fly_stands goal s m inside stood r) (clamp_position_self goal inside)

    step_stands : (dt : ℤ) (m : Mover) → IsInside m → StandsOn m → StandsOn (step w dt m)
    unfolding step measured
    step_stands dt m h stood = elim (Bool-cases (leb_ℤ dt (pos 0))) [
      | inl e ↦ rw e stood
      | inr e ↦
          let s = w.seconds dt in
          rw e (
            subst
              (λ t.
                StandsAt t (move w m.target s m).has_reached
                  (clamp_position (move w m.target s m).at))
              (sym (move-Holds m.target s m).target_kept)
              (move_stands m.target s m h.target_inside stood))
    ]

    called_stands : (c : Call) (m : Mover) → IsInside m → StandsOn m → StandsOn (called w c m)
    unfolding called set_target clear_target adopt
    called_stands (Call.told p) m h stood = λ r. cc
    called_stands Call.cleared m h stood = tt
    called_stands (Call.adopted p) m h stood = tt
    called_stands (Call.stepped dt) m h stood = step_stands dt m h stood

    after_stands :
        (calls : List Call) (m : Mover) → IsInside m → StandsOn m → StandsOn (after w calls m)
    unfolding after
    after_stands [] m h stood = stood
    after_stands (c ∷ calls) m h stood =
        after_stands calls (called w c m) (called-IsInside c m h) (called_stands c m h stood)

    reached_stands :
        (t : Option Position) (r : Bool) (at : Position)
        → StandsAt t r at
        → (elim t [ none ↦ false | some p ↦ true ] && r) ≡ true
        → t ≡ some at
    reached_stands none r at h e = cc
    reached_stands (some goal) r at h e = ap (λ p. some p) (sym (h (ground arith)))

    -- Where a new mover starts in the cube, and the distance from a place to itself is zero on the
    -- machine, it reports an arrival only while it stands exactly on its target, after any calls.
    pub reached-at :
        (node : NodeId) (home : Position) (cfg : MoveConfig) (calls : List Call)
        → InCube home
        → reached (after w calls (new_mover w node home cfg)) ≡ true
        → (after w calls (new_mover w node home cfg)).target
          ≡ some (after w calls (new_mover w node home cfg)).at
    unfolding reached
    reached-at node home cfg calls inside r =
        let m = after w calls (new_mover w node home cfg) in
        reached_stands m.target m.has_reached m.at
          (after_stands calls (new_mover w node home cfg) (new_mover-IsInside node home cfg inside)
            (new_mover_stands node home cfg))
          r
