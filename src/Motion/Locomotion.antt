-- ===== src/Motion/Locomotion.antt =====
-- The movement of InputHandler's loop in src/motion/input_handler.cpp: the body height, the facing,
-- the stick and the navigation command.
use gearsonic_inference.Common.{ℕ, ◌&&◌, Option, none, some, if◌then◌else◌, leb, ◌==◌}
use gearsonic_inference.Common.Float.{Float, nil, one, fmax, fmin, fabs}
use gearsonic_inference.Pico.{Controller}
use gearsonic_inference.Control.Arbiter.{Mode, normal, is_mode}
use gearsonic_inference.Motion.Handler.{
  idle_mode, slow_walk, walk, run_mode, crouch_first, crouch_last, NavCommand, MovementState,
  Handler, dead_zone, loop_dt, mode_default,
}

module _ (f : Float) where
  open f use {Real, ratio, neg, add, sub, mul, div, lt, le, hypot, cos, sin}

  -- The crouch modes hold the seed height, the others none.
  unfoldable pub height_step : Handler Real → Handler Real
  height_step h = record h {
    height =
        if leb crouch_first h.mode_index && leb h.mode_index crouch_last
        then (if lt h.height (nil f) then ratio 8 10 else h.height)
        else mode_default f;
  }

  unfoldable pub facing_step : Handler Real → Controller Real → Handler Real
  facing_step h c = record h {
    facing_angle =
        if lt (dead_zone f) (fabs f c.right_x)
        then sub h.facing_angle (mul (mul (ratio 15 10) c.right_x) (loop_dt f))
        else h.facing_angle;
  }

  abbrev pub facing : Real → Real × Real × Real
  facing angle = (cos angle, sin angle, nil f)

  abbrev pub standing : Real × Real × Real
  standing = (nil f, nil f, nil f)

  -- IDLE with the facing kept, at the given height.
  abbrev pub stand_still : Real → Real → MovementState Real
  stand_still angle height = record {
    locomotion_mode = idle_mode;
    movement_direction = standing;
    facing_direction = facing angle;
    movement_speed = mode_default f;
    height = height;
  }

  -- (fwd, left) of the body turned into the world.
  abbrev pub rotate : Real → Real → Real → Real × Real × Real
  rotate angle left fwd = (
    add (mul (neg (sin angle)) left) (mul (cos angle) fwd),
    add (mul (cos angle) left) (mul (sin angle) fwd),
    nil f,
  )

  -- A fresh navigation command with the stick neutral, at the new facing angle.
  unfoldable pub nav_movement : Real → NavCommand Real → MovementState Real
  nav_movement angle nav =
      let v = hypot nav.vx nav.vy in
      let slow = le v (ratio 6 10) in
      if le (ratio 5 100) v
      then record {
        locomotion_mode = if slow then slow_walk else walk;
        movement_direction = rotate angle (div nav.vy v) (div nav.vx v);
        facing_direction = facing angle;
        movement_speed = if slow then fmax f v (ratio 1 10) else mode_default f;
        height = mode_default f;
      }
      else stand_still angle (mode_default f)

  unfoldable pub stick_speed : ℕ → Real → Real
  stick_speed mode mag =
      if mode == slow_walk
      then add (ratio 1 10) (mul (ratio 5 10) mag)
      else if mode == walk
      then mode_default f
      else if mode == run_mode
      then add (ratio 15 10) (mul (ratio 3 1) mag)
      else mag

  unfoldable pub stick_movement : Handler Real → Controller Real → Real → MovementState Real
  unfolding stick_speed
  stick_movement h c raw =
      let mag = fmin f (div (sub raw (dead_zone f)) (sub (one f) (dead_zone f))) (one f) in
      let scale = div mag raw in
      record {
        locomotion_mode = h.mode_index;
        movement_direction = rotate h.facing_angle (mul (neg c.left_x) scale) (mul c.left_y scale);
        facing_direction = facing h.facing_angle;
        movement_speed = stick_speed h.mode_index mag;
        height = h.height;
      }

  -- `nav.HasData() && nav.GetAgeMs() < kNavStaleMs`, with the origin mode.
  unfoldable pub nav_drives : Mode → Option (NavCommand Real × Real) → Option (NavCommand Real)
  nav_drives mode none = none
  nav_drives mode (some (nav, age_ms)) =
      if is_mode mode normal && lt age_ms (ratio 300 1) then some nav else none

  unfoldable pub neutral_step :
      Handler Real → Option (NavCommand Real) → Handler Real × MovementState Real
  unfolding nav_movement
  neutral_step h none = (h, stand_still h.facing_angle h.height)
  neutral_step h (some nav) =
      let angle = add h.facing_angle (mul nav.vyaw (loop_dt f)) in
      (record h { facing_angle = angle }, nav_movement angle nav)

  unfoldable pub movement_step :
      Handler Real
      → Controller Real
      → Mode
      → Option (NavCommand Real × Real)
      → Handler Real × MovementState Real
  unfolding neutral_step stick_movement nav_drives
  movement_step h c mode nav =
      let raw = hypot c.left_x c.left_y in
      if lt raw (dead_zone f)
      then neutral_step h (nav_drives mode nav)
      else (h, stick_movement h c raw)
