-- ===== src/Teleop/Tracker/Outputs.antt =====
-- What TeleopTracker publishes goes with its flags.
use gearsonic_inference.Common.{
  ℕ, ◌+◌, ◌≡◌, refl, sym, ap, subst, Bool, true, false, ◌&&◌, not, Option, none, some, List, [],
  ◌∷◌, if◌then◌else◌, leb, ◌==◌, Bool-cases, inl, inr, arith,
}
use gearsonic_inference.Common.Float.{Float}
use gearsonic_inference.Channels.DataBuffer.{DataBuffer}
use gearsonic_inference.Teleop.Pose.{SmplPose}
use gearsonic_inference.Teleop.Body.{Body}
use gearsonic_inference.Teleop.Resampler.{Resampler}
use gearsonic_inference.Teleop.Resampler
use gearsonic_inference.Teleop.Tracker.{
  Tracker, Reads, GestureReads, fresh, request_calibration, reset_calibration,
}
use gearsonic_inference.Teleop.Tracker.Gestures.{
  handle_reset, disengage_fullbody, check_calibration_gesture, check_fullbody_gesture,
  engage_fullbody,
}
use gearsonic_inference.Teleop.Tracker.Round.{
  ingest_fullbody_sample, shift_window, process_fullbody, process, take_body, track_fullbody, tick,
  is_stale,
}

abbrev pub has_data : {A : Type 0} → DataBuffer A → Bool
has_data b = elim b.content [ none ↦ false | some x ↦ true ]

pub data Action (Real : Type 0) : Type 0 where
  ticks : Reads Real → Action Real
  requests_calibration : Action Real
  requests_reset : Action Real

module _ (f : Float) where
  open f use {Real}

  -- The three points are there only while calibrated, the window only while full-body is engaged.
  record Guards (t : Tracker Real) : Type 0 where
    pub points : has_data t.vr3point_buf ≡ true → t.calibrated ≡ true
    pub window : has_data t.smpl_window_buf ≡ true → t.fullbody_engaged ≡ true

  reset-Guards : (t : Tracker Real) → Guards t → Guards (handle_reset f t)
  unfolding handle_reset disengage_fullbody
  reset-Guards t g = record { points = ground (arith, g.points); window = ground (arith, g.window) }

  calib-Guards :
      (t : Tracker Real) (r : GestureReads Real)
      → Guards t
      → Guards (check_calibration_gesture f t r)
  unfolding check_calibration_gesture
  calib-Guards t r g = record {
    points = ground (arith, g.points);
    window = ground (arith, g.window);
  }

  full-Guards :
      (t : Tracker Real) (r : GestureReads Real) → Guards t → Guards (check_fullbody_gesture f t r)
  unfolding check_fullbody_gesture disengage_fullbody engage_fullbody
  full-Guards t r g = record {
    points = ground (arith, g.points);
    window = ground (arith, g.window);
  }

  body-Guards :
      (t : Tracker Real) (r : Reads Real) (body : Option (Body Real × ℕ))
      → Guards t
      → Guards (take_body f t (record r { body = body }))
  unfolding take_body process ingest_fullbody_sample
  body-Guards t r none g = record { points = ground arith; window = g.window }
  body-Guards t r (some (body, time)) g = record {
    points = ground (arith, g.points);
    window = ground (arith, g.window);
  }

  sample-some :
      (r : Resampler Real) (t0 : ℕ)
      → (r.count == 0) ≡ false
      → (p : SmplPose Real) × (Resampler.sample f r t0 ≡ some p)
  unfolding Resampler.sample
  sample-some r t0 h =
      rw h (elim (Bool-cases (leb (Resampler.newest_t f r + Resampler.delay f r) t0)) [
        | inl old ↦ rw old (_, refl)
        | inr young ↦ rw young (_, refl)
      ])

  seeded_count :
      (t : Tracker Real) (body : Body Real) (time : ℕ)
      → ((if t.fb_resampler.count == 0
            then ingest_fullbody_sample f t body time
            else t).fb_resampler.count
          == 0)
        ≡ false
  unfolding ingest_fullbody_sample Resampler.push
  seeded_count t body time = ground arith

  abbrev seeded : Tracker Real → Body Real → ℕ → Tracker Real
  seeded t body time = if t.fb_resampler.count == 0 then ingest_fullbody_sample f t body time else t

  -- With a body, in the end the window is published, or full-body is off.
  track_lem :
      (t : Tracker Real) (r : Reads Real) (body : Body Real) (time : ℕ)
      → (p : SmplPose Real) × (track_fullbody f t (record r { body = some (body, time) }) ≡ (
          if not t.fullbody_engaged
          then t
          else if is_stale f (record r { body = some (body, time) })
          then disengage_fullbody f t
          else shift_window f (seeded t body time) p r.now))
  unfolding track_fullbody process_fullbody
  track_lem t r body time =
      let found = sample-some (seeded t body time).fb_resampler r.t0 (seeded_count t body time) in
      (
        found.0,
        ap
            (λ (answer : Option (SmplPose Real)).
              if not t.fullbody_engaged
              then t
              else if is_stale f (record r { body = some (body, time) })
              then disengage_fullbody f t
              else elim answer [
                | none ↦ seeded t body time
                | some pose ↦ shift_window f (seeded t body time) pose r.now
              ])
            found.1,
      )

  track-Guards :
      (t : Tracker Real) (r : Reads Real) (body : Option (Body Real × ℕ))
      → Guards t
      → Guards (track_fullbody f t (record r { body = body }))
  unfolding track_fullbody shift_window ingest_fullbody_sample disengage_fullbody
  track-Guards t r none g = record {
    points = ground (arith, g.points);
    window = ground (arith, g.window);
  }
  track-Guards t r (some (body, time)) g =
      subst Guards (sym (track_lem t r body time).1)
        (record { points = ground (arith, g.points); window = ground (arith, g.window) })

  track-HasWindow :
      (t : Tracker Real) (r : Reads Real) (body : Option (Body Real × ℕ))
      → (track_fullbody f t (record r { body = body })).fullbody_engaged ≡ true
      → has_data (track_fullbody f t (record r { body = body })).smpl_window_buf ≡ true
  unfolding track_fullbody shift_window ingest_fullbody_sample disengage_fullbody
  track-HasWindow t r none = ground arith
  track-HasWindow t r (some (body, time)) =
      subst (λ (u : Tracker Real). u.fullbody_engaged ≡ true → has_data u.smpl_window_buf ≡ true)
        (sym (track_lem t r body time).1) (ground arith)

  -- A tick up to the full-body part.
  abbrev before_track : Tracker Real → Reads Real → Tracker Real
  before_track t r =
      take_body f
        (check_fullbody_gesture f (check_calibration_gesture f (handle_reset f t) r.calib) r.full) r

  tick-Guards : (t : Tracker Real) (r : Reads Real) → Guards t → Guards (tick f t r)
  unfolding tick
  tick-Guards t r g =
      let g1 = reset-Guards t g in
      let g2 = calib-Guards _ r.calib g1 in
      let g3 = full-Guards _ r.full g2 in track-Guards _ r r.body (body-Guards _ r r.body g3)

  -- What the threads do to the tracker.
  unfoldable pub run : Tracker Real → List (Action Real) → Tracker Real
  run t [] = t
  run t (ticks r ∷ rest) = run (tick f t r) rest
  run t (requests_calibration ∷ rest) = run (request_calibration f t) rest
  run t (requests_reset ∷ rest) = run (reset_calibration f t) rest

  run-Guards : (t : Tracker Real) (actions : List (Action Real)) → Guards t → Guards (run t actions)
  unfolding run
  run-Guards t [] g = g
  run-Guards t (ticks r ∷ rest) g = run-Guards (tick f t r) rest (tick-Guards t r g)
  run-Guards t (requests_calibration ∷ rest) g =
      run-Guards (request_calibration f t) rest (record { points = g.points; window = g.window })
  run-Guards t (requests_reset ∷ rest) g =
      run-Guards (reset_calibration f t) rest (record { points = g.points; window = g.window })

  fresh-Guards : Guards (fresh f)
  fresh-Guards = record { points = ground arith; window = ground arith }

  same-Bool : (a b : Bool) → (a ≡ true → b ≡ true) → (b ≡ true → a ≡ true) → a ≡ b
  same-Bool a b h k = ground (arith, h, k)

  -- After any ticks and requests and one more tick: there is a window exactly while the full-body flavor is
  -- engaged, and the three points are there only while the upper body is calibrated.
  pub tick_publishes :
      (actions : List (Action Real)) (r : Reads Real)
      → let t = tick f (run (fresh f) actions) r in
        (has_data t.smpl_window_buf ≡ t.fullbody_engaged)
        × ((has_data t.vr3point_buf && not t.calibrated) ≡ false)
  unfolding tick
  tick_publishes actions r =
      let g = run-Guards (fresh f) actions fresh-Guards in
      let after = tick-Guards (run (fresh f) actions) r g in
      (
        same-Bool _ _ after.window
            (track-HasWindow (before_track (run (fresh f) actions) r) r r.body),
        ground (arith, after.points),
      )
