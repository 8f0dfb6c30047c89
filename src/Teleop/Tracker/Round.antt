-- ===== src/Teleop/Tracker/Round.antt =====
-- One round of TeleopTracker::loop (src/teleop/teleop_tracker.cpp), with the calibration, the three
-- points, the delay line and the window, and stop.
use gearsonic_inference.Common.{
  ℕ, ◌+◌, ◌-◌, ◌%◌, min, Bool, true, false, not, Option, none, some, List, [], ◌∷◌, map, set,
  get_or, if◌then◌else◌, ltb, ◌==◌,
}
use gearsonic_inference.Common.Float.{Float, of_nat}
use gearsonic_inference.Channels.DataBuffer.{set_data, clear, get_age_ms}
use gearsonic_inference.Teleop.Pose.{SmplPose}
use gearsonic_inference.Teleop.Body.{Body}
use gearsonic_inference.Teleop.SmplFk.{smpl_fk}
use gearsonic_inference.Teleop.ArmReach.{smpl_arms_from_tracked_wrists}
use gearsonic_inference.Teleop.Calibration.{extract_raw, capture_calibration, apply_calibration}
use gearsonic_inference.Teleop.Resampler.{Resampler, blank_pose}
use gearsonic_inference.Teleop.Resampler
use gearsonic_inference.Teleop.Tracker.{history_slots, lookahead_ticks, Reads, Tracker}
use gearsonic_inference.Teleop.Tracker.Gestures.{
  disengage_fullbody, handle_reset, check_calibration_gesture, check_fullbody_gesture,
}

-- The frame f of the window: the pose so many places behind the newest.
abbrev pub depth : ℕ → ℕ → ℕ
depth count frame = min (lookahead_ticks - frame) (count - 1)

abbrev pub frames : List ℕ
frames = 0 ∷ 1 ∷ 2 ∷ 3 ∷ 4 ∷ 5 ∷ 6 ∷ 7 ∷ 8 ∷ 9 ∷ []

module _ (f : Float) where
  open f use {Real, lt}

  unfoldable pub ingest_fullbody_sample : Tracker Real → Body Real → ℕ → Tracker Real
  ingest_fullbody_sample t body time =
      let (pose, reach) = smpl_arms_from_tracked_wrists f (smpl_fk f body) body t.arm_reach in
      record t { arm_reach = reach; fb_resampler = Resampler.push f t.fb_resampler pose time }

  -- The pose goes into the delay line, and the window is published.
  unfoldable pub shift_window : Tracker Real → SmplPose Real → ℕ → Tracker Real
  shift_window t pose now =
      let head = if t.hist_count == 0 then 0 else (t.hist_head + 1) % history_slots in
      let history = set t.history head pose in
      let count = if ltb t.hist_count history_slots then t.hist_count + 1 else t.hist_count in
      record t {
        hist_head = head;
        history = history;
        hist_count = count;
        smpl_window_buf =
            set_data t.smpl_window_buf
              (map
                (λ frame.
                  get_or history ((head + history_slots - depth count frame) % history_slots)
                    (blank_pose f))
                frames)
              now;
      }

  unfoldable pub process_fullbody : Tracker Real → ℕ → ℕ → Tracker Real
  unfolding shift_window
  process_fullbody t t0 now = elim (Resampler.sample f t.fb_resampler t0) [
    | none ↦ t
    | some pose ↦ shift_window t pose now
  ]

  unfoldable pub process : Tracker Real → Body Real → Option (List Real) → ℕ → Tracker Real
  process t body measured now =
      let raw = extract_raw f body in
      let t1 =
        if t.calibrate_request
        then record t {
          calibrate_request = false;
          calibration = capture_calibration f t.calibration raw measured;
          calibrated = true;
        }
        else t in
      if t1.calibrated
      then record t1 {
        vr3point_buf = set_data t1.vr3point_buf (apply_calibration f t1.calibration raw) now;
      }
      else t1

  -- The part of a tick for the body, when it is new.
  unfoldable pub take_body : Tracker Real → Reads Real → Tracker Real
  unfolding process ingest_fullbody_sample
  take_body t r = elim r.body [
    | none ↦ record t { vr3point_buf = clear t.vr3point_buf }
    | some (body, time) ↦
        let processed = process (record t { last_body_time = time }) body r.measured r.now in
        if time == t.last_body_time
        then t
        else if processed.fullbody_engaged
        then ingest_fullbody_sample processed body time
        else processed
  ]

  -- kFullBodyStaleMs.
  abbrev pub is_stale : Reads Real → Bool
  is_stale r = lt (of_nat f 500) (get_age_ms f r.body r.now)

  -- The part for the full-body flavor.
  unfoldable pub track_fullbody : Tracker Real → Reads Real → Tracker Real
  unfolding disengage_fullbody ingest_fullbody_sample process_fullbody
  track_fullbody t r = elim r.body [
    | none ↦ if t.fullbody_engaged then disengage_fullbody f t else t
    | some (body, time) ↦
        let seeded = if t.fb_resampler.count == 0 then ingest_fullbody_sample t body time else t in
        if not t.fullbody_engaged
        then t
        else if is_stale r
        then disengage_fullbody f t
        else process_fullbody seeded r.t0 r.now
  ]

  -- One round of loop().
  unfoldable pub tick : Tracker Real → Reads Real → Tracker Real
  unfolding handle_reset check_calibration_gesture check_fullbody_gesture take_body track_fullbody
  tick t r =
      let t1 = handle_reset f t in
      let t2 = check_calibration_gesture f t1 r.calib in
      let t3 = check_fullbody_gesture f t2 r.full in track_fullbody (take_body t3 r) r

  -- stop() after the loop has ended.
  abbrev pub stop : Tracker Real → Tracker Real
  stop t = record t {
    vr3point_buf = clear t.vr3point_buf;
    smpl_window_buf = clear t.smpl_window_buf;
  }
