-- ===== src/Motion/InputHandler.antt =====
-- InputHandler of include/motion/input_handler.hpp and src/motion/input_handler.cpp: the body of its
-- 500 Hz loop, as a function of the handler, the controllers' state (`none` when the VR link is
-- lost), the arbiter's mode and the newest navigation command with its age.
pub mod Movement
pub mod Buttons
pub mod Estop
pub mod Chords
mod Tests
use gearsonic_inference.Common.{
  ℕ, zero, suc, ◌+◌, ◌-◌, Bool, true, false, ◌&&◌, ◌||◌, not, Option, none, some, List, [], ◌∷◌,
  ◌++◌, if◌then◌else◌, ltb, leb, ◌==◌, of_bool,
}
use gearsonic_inference.Common.Float.{Float, nil, one, fmax, fmin, fabs}
use gearsonic_inference.Pico.{Controller}
use gearsonic_inference.Collector.RecordControl.{TapButton, a_button, b_button, TapKind}
use gearsonic_inference.Motion.HoldTrigger.{HoldTrigger, released}
use gearsonic_inference.Motion.HoldTrigger
use gearsonic_inference.Motion.TapDetector.{TapDetector}
use gearsonic_inference.Motion.TapDetector
use gearsonic_inference.Control.Arbiter.{Mode, normal, is_mode}
use gearsonic_inference.Motion.Handler.{
  NavCommand, MovementState, Handler, Tick, mode_default, button_step, estop_step,
}
use gearsonic_inference.Motion.Locomotion.{height_step, facing_step, movement_step, stand_still}

module _ (f : Float) where
  open f use {Real, ratio, neg, add, sub, mul, div, lt, le, hypot, cos, sin}

  -- A tick with the VR link up.
  unfoldable pub linked :
      Handler Real → Controller Real → Mode → Option (NavCommand Real × Real) → Tick Real
  unfolding estop_step
  linked h c mode nav =
      let (h1, taps) = button_step f (estop_step Real h c) c in
      let (h2, movement) = movement_step f (facing_step f (height_step f h1) c) c mode nav in
      record { handler = h2; taps = taps; movement = movement }

  -- A tick with the VR link lost.
  unfoldable pub unlinked : Handler Real → Tick Real
  unlinked h = record {
    handler = record h { a_tap = TapDetector.fresh f; b_tap = TapDetector.fresh f };
    taps = [];
    movement = stand_still f h.facing_angle (mode_default f);
  }

  unfoldable pub tick :
      Handler Real → Option (Controller Real) → Mode → Option (NavCommand Real × Real) → Tick Real
  tick h none mode nav = unlinked h
  tick h (some c) mode nav = linked h c mode nav
