-- ===== src/Planner/Replan/Timer.antt =====
-- When the planner plans again without a new command.
use gearsonic_inference.Common.{true, ◌==◌, ◌&&◌, not, ◌≡◌, refl, if◌then◌else◌, arith}
use gearsonic_inference.Common.Float.{Float, nil}
use gearsonic_inference.Motion.Handler.{MovementState}
use gearsonic_inference.Planner.Replan.{
  is_static_motion_mode, replan_interval, need_replan, differs,
}

module _ (f : Float) where
  open f use {Real, le}

  -- No component is a NaN.
  pub record IsProper (ms : MovementState Real) : Type 0 where
    pub move_x : le ms.movement_direction.0 ms.movement_direction.0 ≡ true
    pub move_y : le ms.movement_direction.1 ms.movement_direction.1 ≡ true
    pub move_z : le ms.movement_direction.2 ms.movement_direction.2 ≡ true
    pub face_x : le ms.facing_direction.0 ms.facing_direction.0 ≡ true
    pub face_y : le ms.facing_direction.1 ms.facing_direction.1 ≡ true
    pub face_z : le ms.facing_direction.2 ms.facing_direction.2 ≡ true
    pub speed : le ms.movement_speed ms.movement_speed ≡ true
    pub height : le ms.height ms.height ≡ true

  -- While the command does not change, a static mode is never planned again, and another mode
  -- exactly when its interval is over and the speed is not 0; the counter starts over whenever the
  -- interval is over.
  timer_replans :
      (ms : MovementState Real) (counter : Real)
      → IsProper ms
      → need_replan f ms ms counter ≡ (
        if le (replan_interval f ms.locomotion_mode) counter then nil f else counter,
        not (is_static_motion_mode ms.locomotion_mode)
            && (le (replan_interval f ms.locomotion_mode) counter
                && differs f ms.movement_speed (nil f)),
      )
  unfolding need_replan
  timer_replans ms counter p =
      let same : (ms.locomotion_mode == ms.locomotion_mode) ≡ true = ground arith in
      rw (same, p.move_x, p.move_y, p.move_z, p.face_x, p.face_y, p.face_z, p.speed, p.height) refl
