-- ===== src/Planner/Replan.antt =====
-- need_replan of src/planner/planner_inference.cpp, and is_static_motion_mode of
-- include/motion/movement_state.hpp.
pub mod Timer
use gearsonic_inference.Common.{ℕ, Bool, true, false, ◌&&◌, ◌||◌, not, if◌then◌else◌, leb, ◌==◌}
use gearsonic_inference.Common.Float.{Float, nil, one}
use gearsonic_inference.Motion.Handler.{MovementState}

-- IDLE, the squat and kneel modes, lying face down, boxing.
unfoldable pub is_static_motion_mode : ℕ → Bool
is_static_motion_mode mode =
    mode == 0 || mode == 4 || mode == 5 || mode == 6 || mode == 7 || mode == 9

module _ (f : Float) where
  open f use {Real, ratio, le}

  -- `a != b`: true where an operand is a NaN.
  abbrev pub differs : Real → Real → Bool
  differs a b = not (le a b && le b a)

  abbrev pub vector_differs : Real × Real × Real → Real × Real × Real → Bool
  vector_differs (a, b, c) (x, y, z) = differs a x || differs b y || differs c z

  -- RUN, CRAWLING, the punches and hooks, and the rest.
  unfoldable pub replan_interval : ℕ → Real
  replan_interval mode =
      let is_boxing = mode == 11 || mode == 12 || mode == 13 || mode == 15 || mode == 16 in
      if mode == 3
      then ratio 1 10
      else if mode == 8
      then ratio 2 10
      else if is_boxing
      then ratio 1 1
      else ratio 1 1

  -- The counter after the call, and whether to plan again.
  unfoldable pub need_replan : MovementState Real → MovementState Real → Real → Real × Bool
  unfolding is_static_motion_mode replan_interval
  need_replan ms last counter =
      let due = le (replan_interval ms.locomotion_mode) counter in
      let mode_changed = not (ms.locomotion_mode == last.locomotion_mode) in
      (
        if due then nil f else counter,
        mode_changed
            || vector_differs ms.facing_direction last.facing_direction
            || differs ms.height last.height
            || (not (is_static_motion_mode ms.locomotion_mode)
                && (differs ms.movement_speed last.movement_speed
                    || vector_differs ms.movement_direction last.movement_direction
                    || (due && differs ms.movement_speed (nil f)))),
      )
