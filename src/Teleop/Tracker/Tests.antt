-- ===== src/Teleop/Tracker/Tests.antt =====
-- TeleopTracker at concrete inputs, in thousandths.
use gearsonic_inference.Common.{
  ℕ, ◌≡◌, refl, true, false, ◌&&◌, not, none, some, List, [], ◌∷◌, map, arith,
}
use gearsonic_inference.Common.Float.{milli}
use gearsonic_inference.Control.Arbiter.{vla}
use gearsonic_inference.Teleop.Resampler.{blank_pose}
use gearsonic_inference.Teleop.Tracker.{
  Tracker, Reads, GestureReads, fresh, is_engaged, request_calibration,
}
use gearsonic_inference.Teleop.Tracker.Gestures.{engage_fullbody}
use gearsonic_inference.Teleop.Tracker.Round.{shift_window, frames}
use gearsonic_inference.Teleop.Tracker.DelayLine.{
  shift_all, newest_first, frame_of, window_is_delayed,
}
use gearsonic_inference.Teleop.Tracker.Outputs.{
  Action, ticks, requests_calibration, requests_reset, run, tick_publishes, has_data,
}
use gearsonic_inference.Teleop.Tracker.Arming.{run_ticks, arrives, only_pending_arms}
use gearsonic_inference.Teleop.Tracker.Round.{tick}

abbrev R : Type 0
R = milli.Real

-- The VLA has the robot and nothing is held.
abbrev under_vla : GestureReads R
under_vla = record { arb_mode = vla; ctrl = none; idle = true; has_body = true }

-- A tick with a body sample of a receive time.
abbrev reads : ℕ → Reads R
reads time = record {
  calib = under_vla;
  full = under_vla;
  body = some ([], time);
  measured = none;
  t0 = time;
  now = time;
}

abbrev pending : Tracker R
pending = request_calibration milli (fresh milli)

only_pending_arms_example :
    is_engaged milli (run_ticks milli pending (reads 7 ∷ reads 7 ∷ []))
    ≡ (pending.calibrate_request && arrives milli pending.last_body_time (reads 7 ∷ reads 7 ∷ []))
only_pending_arms_example =
    only_pending_arms milli pending (reads 7 ∷ reads 7 ∷ []) refl ((refl, refl), ((refl, refl), tt))

-- It arms.
pending_arms :
    (pending.calibrate_request && arrives milli pending.last_body_time (reads 7 ∷ reads 7 ∷ []))
    ≡ true
pending_arms = refl

abbrev actions : List (Action R)
actions = requests_calibration ∷ ticks (reads 7) ∷ requests_reset ∷ []

abbrev after : Tracker R
after = tick milli (run milli (fresh milli) actions) (reads 9)

tick_publishes_example :
    (has_data after.smpl_window_buf ≡ after.fullbody_engaged)
    × ((has_data after.vr3point_buf && not after.calibrated) ≡ false)
tick_publishes_example = tick_publishes milli actions (reads 9)

window_is_delayed_example :
    (shift_window milli
      (shift_all milli (engage_fullbody milli (fresh milli)) ((blank_pose milli, 20) ∷ []))
      (blank_pose milli)
      40).smpl_window_buf
    ≡ record {
      content = some (
          map
            (frame_of milli
              (blank_pose milli ∷ newest_first milli ((blank_pose milli, 20) ∷ []) []))
            frames);
      last_update_time = 40;
    }
window_is_delayed_example =
    window_is_delayed milli (fresh milli) ((blank_pose milli, 20) ∷ []) (blank_pose milli) 40 refl
      (omega arith)
