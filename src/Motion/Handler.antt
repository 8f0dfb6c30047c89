-- ===== src/Motion/Handler.antt =====
-- The state of InputHandler (include/motion/input_handler.hpp) and the buttons of its loop in
-- src/motion/input_handler.cpp: the emergency stop, the mode selection and the taps.
use gearsonic_inference.Common.{
  ℕ, ◌+◌, ◌-◌, Bool, false, ◌&&◌, ◌||◌, not, Option, none, some, List, [], ◌∷◌, ◌++◌, if◌then◌else◌,
  ltb, leb, ◌==◌, of_bool,
}
use gearsonic_inference.Common.Float.{Float, nil, one}
use gearsonic_inference.Pico.{Controller}
use gearsonic_inference.Collector.RecordControl.{TapButton, a_button, b_button, TapKind}
use gearsonic_inference.Motion.HoldTrigger.{HoldTrigger, released}
use gearsonic_inference.Motion.HoldTrigger
use gearsonic_inference.Motion.TapDetector.{TapDetector}
use gearsonic_inference.Motion.TapDetector

-- The values of LocomotionMode that the handler names (include/motion/movement_state.hpp).
abbrev pub idle_mode : ℕ
idle_mode = 0

abbrev pub slow_walk : ℕ
slow_walk = 1

abbrev pub walk : ℕ
walk = 2

abbrev pub run_mode : ℕ
run_mode = 3

abbrev pub basic_mode_max : ℕ
basic_mode_max = 2

abbrev pub full_mode_max : ℕ
full_mode_max = 19

abbrev pub crouch_first : ℕ
crouch_first = 4

abbrev pub crouch_last : ℕ
crouch_last = 6

abbrev pub estop_hold_ticks : ℕ
estop_hold_ticks = 500

abbrev pub single_hold_ticks : ℕ
single_hold_ticks = 15

abbrev pub hard_hold_ticks : ℕ
hard_hold_ticks = 500

pub record NavCommand (Real : Type 0) : Type 0 where
  pub vx : Real
  pub vy : Real
  pub vyaw : Real

pub record MovementState (Real : Type 0) : Type 0 where
  pub locomotion_mode : ℕ
  pub movement_direction : Real × Real × Real
  pub facing_direction : Real × Real × Real
  pub movement_speed : Real
  pub height : Real

pub record Handler (Real : Type 0) : Type 0 where
  pub facing_angle : Real
  pub height : Real
  pub mode_index : ℕ
  pub a_press : HoldTrigger
  pub x_press : HoldTrigger
  pub y_press : HoldTrigger
  pub y_hold : HoldTrigger
  pub a_tap : TapDetector Real
  pub b_tap : TapDetector Real
  pub hold_ticks : ℕ  -- estop_hold_ticks_
  pub estop : Bool

-- What a tick leaves: the handler, the taps handed to the sink in order, the published movement.
pub record Tick (Real : Type 0) : Type 0 where
  pub handler : Handler Real
  pub taps : List (TapButton × TapKind)
  pub movement : MovementState Real

-- `disarm`, called by the control loop.
unfoldable pub disarm : (R : Type 0) → Handler R → Handler R
disarm R h = record h { mode_index = idle_mode }

module _ (R : Type 0) where
  unfoldable pub n_face : Controller R → ℕ
  n_face c = of_bool c.btn_a + of_bool c.btn_b + of_bool c.btn_x + of_bool c.btn_y

  unfoldable pub combo : Controller R → Bool
  unfolding n_face
  combo c = leb 2 (n_face c)

  -- The emergency stop.
  unfoldable pub estop_step : Handler R → Controller R → Handler R
  unfolding n_face
  estop_step h c =
      if n_face c == 4
      then record h {
        hold_ticks = h.hold_ticks + 1;
        estop = h.estop || leb estop_hold_ticks (h.hold_ticks + 1);
      }
      else record h { hold_ticks = 0 }

  -- A: back to IDLE.
  unfoldable pub a_step : Handler R → Bool → Handler R
  unfolding HoldTrigger.tick
  a_step h a_alone =
      let (t, fires) = HoldTrigger.tick h.a_press a_alone single_hold_ticks in
      record h { a_press = t; mode_index = if fires then idle_mode else h.mode_index }

  -- Y, short: up within the basic range.
  unfoldable pub y_step : Handler R → Bool → Handler R
  unfolding HoldTrigger.tick
  y_step h y_alone =
      let (t, fires) = HoldTrigger.tick h.y_press y_alone single_hold_ticks in
      record h {
        y_press = t;
        mode_index =
            if fires && ltb h.mode_index basic_mode_max then h.mode_index + 1 else h.mode_index;
      }

  -- Y, held: up one hard step.
  unfoldable pub y_hold_step : Handler R → Bool → Handler R
  unfolding HoldTrigger.tick
  y_hold_step h y_alone =
      let (t, fires) = HoldTrigger.tick h.y_hold y_alone hard_hold_ticks in
      record h {
        y_hold = t;
        mode_index =
            if fires && ltb h.mode_index full_mode_max then h.mode_index + 1 else h.mode_index;
      }

  -- X: down; the test keeps the subtraction above 0.
  unfoldable pub x_step : Handler R → Bool → Handler R
  unfolding HoldTrigger.tick
  x_step h x_alone =
      let (t, fires) = HoldTrigger.tick h.x_press x_alone single_hold_ticks in
      record h {
        x_press = t;
        mode_index = if fires && ltb 0 h.mode_index then h.mode_index - 1 else h.mode_index;
      }

abbrev pub tap_call : TapButton → Option TapKind → List (TapButton × TapKind)
tap_call button none = []
tap_call button (some kind) = (button, kind) ∷ []

module _ (f : Float) where
  open f use {Real, ratio, neg, add, sub, mul, div, lt, le, hypot, cos, sin}

  abbrev pub dead_zone : Real
  dead_zone = ratio 15 100

  abbrev pub loop_dt : Real
  loop_dt = ratio 2 1000

  abbrev pub mode_default : Real
  mode_default = neg (one f)

  abbrev pub init : Handler Real
  init = record {
    facing_angle = nil f;
    height = mode_default;
    mode_index = idle_mode;
    a_press = released;
    x_press = released;
    y_press = released;
    y_hold = released;
    a_tap = TapDetector.fresh f;
    b_tap = TapDetector.fresh f;
    hold_ticks = 0;
    estop = false;
  }

  unfoldable pub trigger_held : Controller Real → Bool
  trigger_held c = lt (ratio 1 2) c.left_trigger || lt (ratio 1 2) c.right_trigger

  -- A and B, short presses.
  unfoldable pub tap_step :
      Handler Real → Controller Real → Handler Real × List (TapButton × TapKind)
  tap_step h c =
      let (ta, ea) = TapDetector.update f h.a_tap c.btn_a (c.btn_b || c.btn_x || c.btn_y) loop_dt in
      let (tb, eb) = TapDetector.update f h.b_tap c.btn_b (c.btn_a || c.btn_x || c.btn_y) loop_dt in
      (record h { a_tap = ta; b_tap = tb }, tap_call a_button ea ++ tap_call b_button eb)

  -- The single-button actions, in the order of the loop. The taps come between A and Y.
  unfoldable pub button_step :
      Handler Real → Controller Real → Handler Real × List (TapButton × TapKind)
  unfolding a_step y_step y_hold_step x_step combo trigger_held
  button_step h c =
      let alone = not (combo Real c) in
      let h1 = a_step Real h (c.btn_a && alone && not (trigger_held c)) in
      let (h2, taps) = tap_step h1 c in
      let h3 = y_step Real h2 (c.btn_y && alone) in
      let h4 = y_hold_step Real h3 (c.btn_y && alone) in (x_step Real h4 (c.btn_x && alone), taps)
