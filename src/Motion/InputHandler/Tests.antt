-- ===== src/Motion/InputHandler/Tests.antt =====
-- InputHandler at concrete inputs, in thousandths.
use gearsonic_inference.Common.{
  ℕ, ◌+◌, ◌*◌, ◌≤◌, Bool, true, false, ◌≡◌, refl, ◌≢◌, ◌⊎◌, none, some, [], ◌∷◌, arith,
}
use gearsonic_inference.Common.Float.{milli, nil, one}
use gearsonic_inference.Pico.{Controller}
use gearsonic_inference.Control.Arbiter.{normal}
use gearsonic_inference.Motion.HoldTrigger
use gearsonic_inference.Motion.Handler.{
  Handler, NavCommand, init, n_face, idle_mode, button_step, a_step, y_step, y_hold_step, x_step,
  estop_step, combo, trigger_held, tap_step,
}
use gearsonic_inference.Motion.Locomotion.{movement_step, stick_movement, height_step, facing_step}
use gearsonic_inference.Motion.InputHandler.{tick, linked}
use gearsonic_inference.Motion.InputHandler.Estop.{
  Event, loops, disarms, run, estop_latched, estop_needs_500, estop_after_500,
}
use gearsonic_inference.Motion.InputHandler.Buttons.{alone_ticks, hard_steps_cost}
use gearsonic_inference.Motion.InputHandler.Movement.{
  IsDeflected, IsNavigated, walking_needs_command,
}

-- A, B, X, Y, and the stick to the right.
abbrev buttons : Bool → Bool → Bool → Bool → milli.Real → Controller milli.Real
buttons a b x y stick = record {
  left_x = stick;
  left_y = nil milli;
  right_x = nil milli;
  right_y = nil milli;
  btn_a = a;
  btn_b = b;
  btn_x = x;
  btn_y = y;
  left_trigger = nil milli;
  right_trigger = nil milli;
  left_grip = nil milli;
  right_grip = nil milli;
}

abbrev all_four : Event milli.Real
all_four = loops (record {
  controller = some (buttons true true true true (nil milli));
  mode = normal;
  nav = none;
})

abbrev y_only : Event milli.Real
y_only = loops (record {
  controller = some (buttons false false false true (nil milli));
  mode = normal;
  nav = none;
})

-- The start, with n ticks of all four buttons, a mode and the stop set or not.
abbrev started : ℕ → ℕ → Bool → Handler milli.Real
started n mode stop = record (init milli) { hold_ticks = n; mode_index = mode; estop = stop }

estop_latched_example :
    (run milli (started 0 0 true) (y_only ∷ disarms ∷ all_four ∷ [])).estop ≡ true
estop_latched_example =
    estop_latched milli (started 0 0 true) (y_only ∷ disarms ∷ all_four ∷ []) refl

estop_needs_500_example : (run milli (started 498 0 false) (all_four ∷ y_only ∷ [])).estop ≡ false
unfolding n_face
estop_needs_500_example =
    estop_needs_500 milli (started 498 0 false) (all_four ∷ y_only ∷ []) refl (omega arith)

estop_after_500_example : (run milli (started 498 0 false) (all_four ∷ all_four ∷ [])).estop ≡ true
unfolding n_face
estop_after_500_example =
    estop_after_500 milli (started 498 0 false) (all_four ∷ all_four ∷ []) (refl, (refl, tt))
      (omega arith) (omega arith)

hard_steps_cost_example :
    ((run milli (init milli) (y_only ∷ disarms ∷ y_only ∷ [])).mode_index ≤ 19)
    × (500 * (run milli (init milli) (y_only ∷ disarms ∷ y_only ∷ [])).mode_index
        ≤ 1000 + alone_ticks milli (y_only ∷ disarms ∷ y_only ∷ []))
hard_steps_cost_example = hard_steps_cost milli (y_only ∷ disarms ∷ y_only ∷ [])

-- 1 m/s ahead, 20 ms old.
abbrev ahead : NavCommand milli.Real × milli.Real
ahead = (record { vx = one milli; vy = nil milli; vyaw = nil milli }, milli.ratio 20 1)

walks :
    (tick milli
      (started 0 2 false)
      (some (buttons false false false false (one milli)))
      normal
      none).movement.locomotion_mode
    ≢ idle_mode
unfolding tick linked movement_step stick_movement milli button_step a_step y_step y_hold_step
    x_step estop_step n_face combo trigger_held height_step facing_step tap_step HoldTrigger.tick
walks e = absurd (ground arith)

walking_needs_command_example :
    (k : Controller milli.Real) × (some (buttons false false false false (one milli)) ≡ some k)
    × (IsDeflected milli k ⊎ IsNavigated milli normal none)
walking_needs_command_example =
    walking_needs_command milli (started 0 2 false)
      (some (buttons false false false false (one milli))) normal none walks
