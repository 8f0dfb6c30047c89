-- ===== src/Teleop/Tracker/Gestures.antt =====
-- The reset and the two gestures of TeleopTracker (src/teleop/teleop_tracker.cpp).
use gearsonic_inference.Common.{
  ◌+◌, Bool, true, false, ◌&&◌, ◌||◌, not, Option, none, some, if◌then◌else◌, leb,
}
use gearsonic_inference.Common.Float.{Float}
use gearsonic_inference.Pico.{Controller}
use gearsonic_inference.Channels.DataBuffer.{clear}
use gearsonic_inference.Control.Arbiter.{Mode, vla, recovering, is_mode}
use gearsonic_inference.Teleop.ArmReach.{fresh_reach}
use gearsonic_inference.Teleop.Resampler.{Resampler}
use gearsonic_inference.Teleop.Resampler
use gearsonic_inference.Teleop.Tracker.{
  calib_hold_ticks, GestureReads, Tracker, request_calibration,
}

module _ (f : Float) where
  open f use {Real}

  unfoldable pub disengage_fullbody : Tracker Real → Tracker Real
  disengage_fullbody t = record t {
    fullbody_engaged = false;
    hist_count = 0;
    smpl_window_buf = clear t.smpl_window_buf;
  }

  -- have_neck_calib_ and calibrated_ cleared, and the three points.
  abbrev drop_calibration : Tracker Real → Tracker Real
  drop_calibration t = record t {
    calibration = record (t.calibration) { have_neck_calib = false };
    calibrated = false;
    vr3point_buf = clear t.vr3point_buf;
  }

  unfoldable pub handle_reset : Tracker Real → Tracker Real
  unfolding disengage_fullbody
  handle_reset t =
      let dropped = drop_calibration (record t { reset_request = false }) in
      if t.reset_request
      then (if t.fullbody_engaged then disengage_fullbody dropped else dropped)
      else t

  abbrev pub is_blocked : Mode → Bool
  is_blocked mode = is_mode mode vla || is_mode mode recovering

  abbrev pub b_alone : Option (Controller Real) → Bool
  b_alone none = false
  b_alone (some c) = c.btn_b && not c.btn_a && not c.btn_x && not c.btn_y

  abbrev pub a_alone : Option (Controller Real) → Bool
  a_alone none = false
  a_alone (some c) = c.btn_a && not c.btn_b && not c.btn_x && not c.btn_y

  -- The hold is over, or the gesture is blocked.
  abbrev rest_calib : Tracker Real → Tracker Real
  rest_calib t = record t { hold_ticks = 0; gesture_latched = false }

  abbrev rest_full : Tracker Real → Tracker Real
  rest_full t = record t { fb_hold_ticks = 0; fb_gesture_latched = false }

  unfoldable pub check_calibration_gesture : Tracker Real → GestureReads Real → Tracker Real
  check_calibration_gesture t r =
      let counted = record t { hold_ticks = t.hold_ticks + 1 } in
      let latched = record counted { gesture_latched = true } in
      if is_blocked r.arb_mode || t.fullbody_engaged
      then rest_calib t
      else if not (b_alone r.ctrl)
      then rest_calib t
      else if t.gesture_latched
      then t
      else if not (leb calib_hold_ticks (t.hold_ticks + 1))
      then counted
      else if t.calibrated
      then drop_calibration latched
      else request_calibration f latched

  unfoldable pub engage_fullbody : Tracker Real → Tracker Real
  engage_fullbody t = record t {
    hist_count = 0;
    arm_reach = fresh_reach f;
    fb_resampler = Resampler.reset f t.fb_resampler;
    fullbody_engaged = true;
  }

  unfoldable pub check_fullbody_gesture : Tracker Real → GestureReads Real → Tracker Real
  unfolding disengage_fullbody engage_fullbody
  check_fullbody_gesture t r =
      let counted = record t { fb_hold_ticks = t.fb_hold_ticks + 1 } in
      let latched = record counted { fb_gesture_latched = true } in
      if is_blocked r.arb_mode || t.calibrated
      then rest_full t
      else if not (a_alone r.ctrl)
      then rest_full t
      else if t.fb_gesture_latched
      then t
      else if not (leb calib_hold_ticks (t.fb_hold_ticks + 1))
      then counted
      else if t.fullbody_engaged
      then disengage_fullbody latched
      else if not r.idle
      then latched
      else if not r.has_body
      then latched
      else engage_fullbody latched
