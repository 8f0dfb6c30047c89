-- ===== src/Teleop/Tracker.antt =====
-- TeleopTracker (include/teleop/teleop_tracker.hpp, src/teleop/teleop_tracker.cpp): its fields and
-- what a round of the 50 Hz loop reads. Times are nanoseconds of the steady clock.
pub mod Gestures
pub mod Round
pub mod DelayLine
pub mod Outputs
pub mod Arming
pub mod Sizes
mod Tests
use gearsonic_inference.Common.{ℕ, Bool, true, false, ◌||◌, Option, List, replicate}
use gearsonic_inference.Common.Float.{Float}
use gearsonic_inference.Pico.{Controller}
use gearsonic_inference.Channels.DataBuffer.{DataBuffer, empty}
use gearsonic_inference.Control.Arbiter.{Mode}
use gearsonic_inference.Teleop.Pose.{SmplPose, Window, Vr3Point}
use gearsonic_inference.Teleop.Body.{Body}
use gearsonic_inference.Teleop.ArmReach.{ArmReachState, fresh_reach}
use gearsonic_inference.Teleop.Calibration.{Calibration, no_calibration}
use gearsonic_inference.Teleop.Resampler.{Resampler, default_params, blank_pose}
use gearsonic_inference.Teleop.Resampler

-- kCalibHoldTicks, kHistory and kLookaheadTicks.
abbrev pub calib_hold_ticks : ℕ
calib_hold_ticks = 50

abbrev pub history_slots : ℕ
history_slots = 16

abbrev pub lookahead_ticks : ℕ
lookahead_ticks = 5

-- What a gesture check reads: the arbiter's mode, the controllers, whether the locomotion mode is
-- IDLE and whether there is body data.
pub record GestureReads (Real : Type 0) : Type 0 where
  pub arb_mode : Mode
  pub ctrl : Option (Controller Real)
  pub idle : Bool
  pub has_body : Bool

-- What a tick reads: for the two checks, the body with its receive time, the measured joints of the
-- provider, and the clock at the tick's start and when the age and the buffers take it.
pub record Reads (Real : Type 0) : Type 0 where
  pub calib : GestureReads Real
  pub full : GestureReads Real
  pub body : Option (Body Real × ℕ)
  pub measured : Option (List Real)
  pub t0 : ℕ
  pub now : ℕ

pub record Tracker (Real : Type 0) : Type 0 where
  pub calibration : Calibration Real
  pub last_body_time : ℕ
  pub hold_ticks : ℕ  -- calib_hold_ticks_
  pub gesture_latched : Bool  -- calib_gesture_latched_
  pub fb_hold_ticks : ℕ
  pub fb_gesture_latched : Bool
  pub fb_resampler : Resampler Real
  pub history : List (SmplPose Real)
  pub hist_count : ℕ
  pub hist_head : ℕ
  pub fullbody_engaged : Bool
  pub arm_reach : ArmReachState Real
  pub calibrated : Bool
  pub calibrate_request : Bool
  pub reset_request : Bool
  pub vr3point_buf : DataBuffer (Vr3Point Real)
  pub smpl_window_buf : DataBuffer (Window Real)

module _ (f : Float) where
  open f use {Real}

  abbrev pub fresh : Tracker Real
  fresh = record {
    calibration = no_calibration f;
    last_body_time = 0;
    hold_ticks = 0;
    gesture_latched = false;
    fb_hold_ticks = 0;
    fb_gesture_latched = false;
    fb_resampler = Resampler.new f (default_params f);
    history = replicate history_slots (blank_pose f);
    hist_count = 0;
    hist_head = 0;
    fullbody_engaged = false;
    arm_reach = fresh_reach f;
    calibrated = false;
    calibrate_request = false;
    reset_request = false;
    vr3point_buf = empty;
    smpl_window_buf = empty;
  }

  -- calibrated(): either flavor.
  abbrev pub is_engaged : Tracker Real → Bool
  is_engaged t = t.calibrated || t.fullbody_engaged

  abbrev pub request_calibration : Tracker Real → Tracker Real
  request_calibration t = record t { calibrate_request = true }

  abbrev pub reset_calibration : Tracker Real → Tracker Real
  reset_calibration t = record t { reset_request = true }
