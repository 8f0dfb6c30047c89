-- ===== src/Teleop/Tracker/Sizes.antt =====
-- The windows that TeleopTracker publishes have full poses, as the encoder's observation wants them.
use gearsonic_inference.Common.{
  ℕ, ◌+◌, ◌-◌, ◌%◌, ◌≡◌, refl, Bool, true, false, not, Option, none, some, List, [], ◌∷◌, map, set,
  get_or, if◌then◌else◌, ltb, ◌==◌, arith,
}
use gearsonic_inference.Common.Float.{Float}
use gearsonic_inference.Teleop.Pose.{SmplPose, Window}
use gearsonic_inference.Teleop.Body.{Body}
use gearsonic_inference.Teleop.Full.{
  is_full, all_full, all_full-set, is_full-get_or, is_full-blank, is_full-arms, sampled_full,
  sample_lem, push_lem,
}
use gearsonic_inference.Teleop.Resampler.{blank_pose}
use gearsonic_inference.Teleop.Resampler
use gearsonic_inference.Teleop.Tracker.{
  Tracker, Reads, GestureReads, fresh, request_calibration, reset_calibration, history_slots,
}
use gearsonic_inference.Teleop.Tracker.Gestures.{
  handle_reset, disengage_fullbody, check_calibration_gesture, check_fullbody_gesture,
  engage_fullbody,
}
use gearsonic_inference.Teleop.Tracker.Round.{
  ingest_fullbody_sample, shift_window, process_fullbody, process, take_body, track_fullbody, tick,
  is_stale, frames, depth,
}
use gearsonic_inference.Teleop.Tracker.Outputs.{
  Action, ticks, requests_calibration, requests_reset, run,
}

abbrev window_full : {Real : Type 0} → Option (Window Real) → Bool
window_full none = true
window_full (some w) = all_full w

module _ (f : Float) where
  open f use {Real}

  record Sizes (t : Tracker Real) : Type 0 where
    pub samples : all_full t.fb_resampler.poses ≡ true
    pub line : all_full t.history ≡ true
    pub window : window_full t.smpl_window_buf.content ≡ true

  map_full :
      (g : ℕ → SmplPose Real) (xs : List ℕ)
      → ((x : ℕ) → is_full (g x) ≡ true)
      → all_full (map g xs) ≡ true
  map_full g [] h = refl
  map_full g (x ∷ xs) h = ground (arith, h x, map_full g xs h)

  reset-Sizes : (t : Tracker Real) → Sizes t → Sizes (handle_reset f t)
  unfolding handle_reset disengage_fullbody
  reset-Sizes t s = record {
    samples = ground (arith, s.samples);
    line = ground (arith, s.line);
    window = ground (arith, s.window);
  }

  calib-Sizes :
      (t : Tracker Real) (r : GestureReads Real) → Sizes t → Sizes (check_calibration_gesture f t r)
  unfolding check_calibration_gesture
  calib-Sizes t r s = record {
    samples = ground (arith, s.samples);
    line = ground (arith, s.line);
    window = ground (arith, s.window);
  }

  full-Sizes :
      (t : Tracker Real) (r : GestureReads Real) → Sizes t → Sizes (check_fullbody_gesture f t r)
  unfolding check_fullbody_gesture disengage_fullbody engage_fullbody Resampler.reset
  full-Sizes t r s = record {
    samples = ground (arith, s.samples);
    line = ground (arith, s.line);
    window = ground (arith, s.window);
  }

  ingest-Sizes :
      (t : Tracker Real) (body : Body Real) (time : ℕ)
      → Sizes t
      → Sizes (ingest_fullbody_sample f t body time)
  unfolding ingest_fullbody_sample
  ingest-Sizes t body time s = record {
    samples = push_lem f t.fb_resampler _ time s.samples (is_full-arms f body t.arm_reach);
    line = s.line;
    window = s.window;
  }

  if-Sizes : (b : Bool) (t u : Tracker Real) → Sizes t → Sizes u → Sizes (if b then t else u)
  if-Sizes true t u s s' = s
  if-Sizes false t u s s' = s'

  process-Sizes :
      (t : Tracker Real) (body : Body Real) (measured : Option (List Real)) (now : ℕ)
      → Sizes t
      → Sizes (process f t body measured now)
  unfolding process
  process-Sizes t body measured now s = record {
    samples = ground (arith, s.samples);
    line = ground (arith, s.line);
    window = ground (arith, s.window);
  }

  body-Sizes :
      (t : Tracker Real) (r : Reads Real) (body : Option (Body Real × ℕ))
      → Sizes t
      → Sizes (take_body f t (record r { body = body }))
  unfolding take_body
  body-Sizes t r none s = record { samples = s.samples; line = s.line; window = s.window }
  body-Sizes t r (some (body, time)) s =
      let processed = process f (record t { last_body_time = time }) body r.measured r.now in
      let sized =
        process-Sizes (record t { last_body_time = time }) body r.measured r.now
          (record { samples = s.samples; line = s.line; window = s.window }) in
      if-Sizes (time == t.last_body_time) t _ s (
        if-Sizes processed.fullbody_engaged (ingest_fullbody_sample f processed body time) processed
          (ingest-Sizes processed body time sized) sized)

  shift-Sizes :
      (t : Tracker Real) (pose : SmplPose Real) (now : ℕ)
      → Sizes t
      → is_full pose ≡ true
      → Sizes (shift_window f t pose now)
  unfolding shift_window
  shift-Sizes t pose now s h =
      let head = if t.hist_count == 0 then 0 else (t.hist_head + 1) % history_slots in
      let count = if ltb t.hist_count history_slots then t.hist_count + 1 else t.hist_count in
      let place_of = λ (frame : ℕ). (head + history_slots - depth count frame) % history_slots in
      let line = all_full-set t.history head pose s.line h in
      record {
        samples = s.samples;
        line = line;
        window =
            map_full (λ frame. get_or (set t.history head pose) (place_of frame) (blank_pose f))
              frames
              (λ frame.
                is_full-get_or (set t.history head pose) (place_of frame) (blank_pose f) line
                  (is_full-blank f));
      }

  answer-Sizes :
      (t : Tracker Real) (answer : Option (SmplPose Real)) (now : ℕ)
      → Sizes t
      → sampled_full f answer ≡ true
      → Sizes (elim answer [ none ↦ t | some pose ↦ shift_window f t pose now ])
  answer-Sizes t none now s h = s
  answer-Sizes t (some pose) now s h = shift-Sizes t pose now s h

  track-Sizes :
      (t : Tracker Real) (r : Reads Real) (body : Option (Body Real × ℕ))
      → Sizes t
      → Sizes (track_fullbody f t (record r { body = body }))
  unfolding track_fullbody process_fullbody disengage_fullbody
  track-Sizes t r none s = record {
    samples = ground (arith, s.samples);
    line = ground (arith, s.line);
    window = ground (arith, s.window);
  }
  track-Sizes t r (some (body, time)) s =
      let seeded = if t.fb_resampler.count == 0 then ingest_fullbody_sample f t body time else t in
      let sized = if-Sizes (t.fb_resampler.count == 0) _ t (ingest-Sizes t body time s) s in
      if-Sizes (not t.fullbody_engaged) t _ s (
        if-Sizes (is_stale f (record r { body = some (body, time) })) (disengage_fullbody f t) _
          (record { samples = s.samples; line = s.line; window = refl })
          (answer-Sizes seeded (Resampler.sample f seeded.fb_resampler r.t0) r.now sized
            (sample_lem f seeded.fb_resampler r.t0 sized.samples)))

  tick-Sizes : (t : Tracker Real) (r : Reads Real) → Sizes t → Sizes (tick f t r)
  unfolding tick
  tick-Sizes t r s =
      track-Sizes _ r r.body
        (body-Sizes _ r r.body (full-Sizes _ r.full (calib-Sizes _ r.calib (reset-Sizes t s))))

  fresh-Sizes : Sizes (fresh f)
  unfolding Resampler.new is_full blank_pose
  fresh-Sizes = record { samples = refl; line = refl; window = refl }

  run-Sizes : (t : Tracker Real) (actions : List (Action Real)) → Sizes t → Sizes (run f t actions)
  unfolding run
  run-Sizes t [] s = s
  run-Sizes t (ticks r ∷ rest) s = run-Sizes (tick f t r) rest (tick-Sizes t r s)
  run-Sizes t (requests_calibration ∷ rest) s =
      run-Sizes (request_calibration f t) rest
        (record { samples = s.samples; line = s.line; window = s.window })
  run-Sizes t (requests_reset ∷ rest) s =
      run-Sizes (reset_calibration f t) rest
        (record { samples = s.samples; line = s.line; window = s.window })

  windows_full :
      (actions : List (Action Real))
      → window_full (run f (fresh f) actions).smpl_window_buf.content ≡ true
  windows_full actions = (run-Sizes (fresh f) actions fresh-Sizes).window
