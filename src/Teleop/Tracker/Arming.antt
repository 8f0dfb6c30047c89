-- ===== src/Teleop/Tracker/Arming.antt =====
-- TeleopTracker while the VLA or the recovery has the robot.
use gearsonic_inference.Common.{
  ℕ, ◌≡◌, refl, ◌∙◌, Bool, true, false, ◌&&◌, ◌||◌, not, Option, none, some, List, [], ◌∷◌, ◌==◌,
  All, arith,
}
use gearsonic_inference.Common.Float.{Float}
use gearsonic_inference.Teleop.Body.{Body}
use gearsonic_inference.Teleop.Tracker.{Tracker, Reads, GestureReads, is_engaged}
use gearsonic_inference.Teleop.Tracker.Gestures.{
  is_blocked, handle_reset, disengage_fullbody, check_calibration_gesture, check_fullbody_gesture,
}
use gearsonic_inference.Teleop.Tracker.Round.{
  ingest_fullbody_sample, process, take_body, track_fullbody, tick,
}

module _ (f : Float) where
  open f use {Real}

  unfoldable pub run_ticks : Tracker Real → List (Reads Real) → Tracker Real
  run_ticks t [] = t
  run_ticks t (r ∷ rest) = run_ticks (tick f t r) rest

  -- Both gesture checks of the tick read a mode in which gestures are blocked.
  abbrev pub IsBlocked : Reads Real → Type 0
  IsBlocked r = (is_blocked f r.calib.arb_mode ≡ true) × (is_blocked f r.full.arb_mode ≡ true)

  -- A body sample with another receive time than the last.
  abbrev pub is_new : ℕ → Option (Body Real × ℕ) → Bool
  is_new last none = false
  is_new last (some (body, time)) = not (time == last)

  abbrev pub next_time : ℕ → Option (Body Real × ℕ) → ℕ
  next_time last none = last
  next_time last (some (body, time)) = time

  -- A body sample arrives in the ticks.
  abbrev pub arrives : ℕ → List (Reads Real) → Bool
  arrives last [] = false
  arrives last (r ∷ rest) = is_new last r.body || arrives (next_time last r.body) rest

  calib_lem :
      (t : Tracker Real) (r : GestureReads Real)
      → is_blocked f r.arb_mode ≡ true
      → check_calibration_gesture f t r ≡ record t { hold_ticks = 0; gesture_latched = false }
  unfolding check_calibration_gesture
  calib_lem t r h = rw h refl

  full_lem :
      (t : Tracker Real) (r : GestureReads Real)
      → is_blocked f r.arb_mode ≡ true
      → check_fullbody_gesture f t r ≡ record t { fb_hold_ticks = 0; fb_gesture_latched = false }
  unfolding check_fullbody_gesture
  full_lem t r h = rw h refl

  -- The flags that decide.
  record Flags (t : Tracker Real) (calibrated request : Bool) (last : ℕ) : Type 0 where
    pub calibrated_is : t.calibrated ≡ calibrated
    pub off : t.fullbody_engaged ≡ false
    pub request_is : t.calibrate_request ≡ request
    pub last_is : t.last_body_time ≡ last

  body-Flags :
      (t : Tracker Real) (r : Reads Real) (body : Option (Body Real × ℕ))
      → t.fullbody_engaged ≡ false
      → Flags
          (take_body f t (record r { body = body }))
          (t.calibrated || (t.calibrate_request && is_new t.last_body_time body))
          (t.calibrate_request && not (is_new t.last_body_time body))
          (next_time t.last_body_time body)
  unfolding take_body process
  body-Flags t r none off = record {
    calibrated_is = ground arith;
    off = ground arith;
    request_is = ground arith;
    last_is = refl;
  }
  body-Flags t r (some (body, time)) off = record {
    calibrated_is = ground arith;
    off = ground arith;
    request_is = ground arith;
    last_is = ground arith;
  }

  track_lem :
      (t : Tracker Real) (r : Reads Real) (body : Option (Body Real × ℕ))
      → t.fullbody_engaged ≡ false
      → track_fullbody f t (record r { body = body }) ≡ t
  unfolding track_fullbody
  track_lem t r none off = rw off refl
  track_lem t r (some (body, time)) off = rw off refl

  reset-Flags :
      (t : Tracker Real)
      → t.fullbody_engaged ≡ false
      → (t.reset_request && t.calibrated) ≡ false
      → Flags (handle_reset f t) t.calibrated t.calibrate_request t.last_body_time
  unfolding handle_reset
  reset-Flags t off kept = record {
    calibrated_is = ground arith;
    off = ground arith;
    request_is = ground arith;
    last_is = ground arith;
  }

  reset_done :
      (t : Tracker Real) (r : Reads Real) (body : Option (Body Real × ℕ))
      → (handle_reset f t).reset_request ≡ false
        × ((take_body f t (record r { body = body })).reset_request ≡ t.reset_request)
  unfolding handle_reset take_body process disengage_fullbody ingest_fullbody_sample
  reset_done t r none = (ground arith, refl)
  reset_done t r (some (body, time)) = (ground arith, ground arith)

  -- The tracker when a tick of a blocked mode comes to the body.
  abbrev at_rest : Tracker Real → Tracker Real
  at_rest t = record (handle_reset f t) {
    hold_ticks = 0;
    gesture_latched = false;
    fb_hold_ticks = 0;
    fb_gesture_latched = false;
  }

  tick_lem :
      (t : Tracker Real) (r : Reads Real)
      → IsBlocked r
      → t.fullbody_engaged ≡ false
      → (t.reset_request && t.calibrated) ≡ false
      → tick f t r ≡ take_body f (at_rest t) r
  unfolding tick
  tick_lem t r (calib_blocked, full_blocked) off kept =
      rw
        (
          calib_lem (handle_reset f t) r.calib calib_blocked,
          full_lem (record (handle_reset f t) { hold_ticks = 0; gesture_latched = false }) r.full
              full_blocked,
        )
        (track_lem (take_body f (at_rest t) r) r r.body
          (body-Flags (at_rest t) r r.body (reset-Flags t off kept).off).off)

  -- A tick of a blocked mode, on the flags.
  tick-Flags :
      (t : Tracker Real) (r : Reads Real)
      → IsBlocked r
      → t.fullbody_engaged ≡ false
      → (t.reset_request && t.calibrated) ≡ false
      → Flags
          (tick f t r)
          (t.calibrated || (t.calibrate_request && is_new t.last_body_time r.body))
          (t.calibrate_request && not (is_new t.last_body_time r.body))
          (next_time t.last_body_time r.body)
        × ((tick f t r).reset_request ≡ false)
  tick-Flags t r blocked off kept =
      let s = reset-Flags t off kept in
      let b = body-Flags (at_rest t) r r.body s.off in
      rw (tick_lem t r blocked off kept) (
        record {
          calibrated_is = b.calibrated_is ∙ rw (s.calibrated_is, s.request_is, s.last_is) refl;
          off = b.off;
          request_is = b.request_is ∙ rw (s.request_is, s.last_is) refl;
          last_is = b.last_is ∙ rw (s.last_is) refl;
        },
        (reset_done (at_rest t) r r.body).1 ∙ (reset_done t r none).0,
      )

  run_lem :
      (t : Tracker Real) (rs : List (Reads Real))
      → All IsBlocked rs
      → t.fullbody_engaged ≡ false
      → (t.reset_request && t.calibrated) ≡ false
      → ((run_ticks t rs).calibrated
          ≡ (t.calibrated || (t.calibrate_request && arrives t.last_body_time rs)))
        × ((run_ticks t rs).fullbody_engaged ≡ false)
  unfolding run_ticks
  run_lem t [] blocked off kept = (ground arith, off)
  run_lem t (r ∷ rest) (here, later) off kept =
      let (k, done) = tick-Flags t r here off kept in
      let (c, e) = run_lem (tick f t r) rest later k.off (rw done refl) in
      (c ∙ rw (k.calibrated_is, k.request_is, k.last_is) (ground arith), e)

  -- From a tracker without teleop, through ticks in which the VLA or the recovery has the robot,
  -- whatever the buttons: teleop is engaged in the end exactly if a calibration was pending and a body
  -- sample has arrived.
  pub only_pending_arms :
      (t : Tracker Real) (rs : List (Reads Real))
      → is_engaged f t ≡ false
      → All IsBlocked rs
      → is_engaged f (run_ticks t rs) ≡ (t.calibrate_request && arrives t.last_body_time rs)
  only_pending_arms t rs idle blocked =
      let (c, e) = run_lem t rs blocked (ground (arith, idle)) (ground (arith, idle)) in
      rw (c, e) (ground (arith, idle))
