-- ===== src/Hands/Tests.antt =====
-- The theorems about the hands at concrete inputs.
use gearsonic_inference.Common.{
  true, false, ◌≡◌, refl, none, some, List, [], ◌∷◌, ◌++◌, replicate, arith,
}
use gearsonic_inference.Common.Float.{milli, milli_machine, Machine}
use gearsonic_inference.Common.Int.{ℤ, pos, negsuc}
use gearsonic_inference.Control.Arbiter.{vla}
use gearsonic_inference.Hands.Command.{limits, left_limits, from_vla_joints}
use gearsonic_inference.Hands.Guard.{Params, Measured, Finger, reset}
use gearsonic_inference.Hands.Guard.Limits.{Ieee, all_within, all_ordered}
use gearsonic_inference.Hands.Writer.{Writer, Readings, choose, note_calibration, turn}
use gearsonic_inference.Hands.Message.Stop.{session, limp, estop_limp}
use gearsonic_inference.Hands.Writer.InLimits.{published_in_limits}

-- HandGuard::Params' initial values.
abbrev m : Machine
m = milli_machine

abbrev params : Params m.f32.Real
unfolding milli_machine milli
params = record {
  enabled = true;
  kp = pos 1500;
  kd = pos 100;
  tau_max = pos 600;
  stall_err_th = pos 150;
  stall_vel_th = pos 50;
  stall_time_s = pos 300;
  stall_offset = pos 250;
  kp_hold = pos 1500;
  temp_max_c = 0;
}

abbrev at : ℤ → Measured m.f32.Real
unfolding milli_machine milli
at q = record { q = q; dq = pos 0; temp_casing = pos 40 }

abbrev stalled : Finger m.f32.Real
unfolding milli_machine milli
stalled = record { stall_s = pos 310; latched = true }

-- Two turns of a finger that is blocked 0.5 rad, then 0.4 rad, from its target.
abbrev blocked : List (m.f32.Real × m.f32.Real × Measured m.f32.Real)
unfolding milli_machine milli
blocked = (pos 10, pos 500, at (pos 0)) ∷ (pos 10, negsuc 399, at (pos 0)) ∷ []

abbrev stale : m.f64.Real
unfolding milli_machine milli
stale = pos 100000

abbrev writer : Writer m
unfolding milli_machine milli
writer = record {
  left_grip_held = pos 0;
  left_trigger_held = pos 0;
  right_grip_held = pos 0;
  right_trigger_held = pos 0;
  left_guard = reset m.f32;
  right_guard = reset m.f32;
  was_calibrated = true;
  calibrated_at = 0;
}

-- The stream asks the left hand for 5 rad everywhere.
abbrev readings : Readings m
unfolding milli_machine milli
readings = record {
  now = 1000;
  calibrated = true;
  estop = false;
  mode = vla;
  vla = some (replicate 7 (pos 5000), replicate 7 (pos 0));
  controller = none;
  left_state = some (replicate 7 (at (pos 900)), pos 20);
  right_state = none;
}

ieee : Ieee m.f32
unfolding milli_machine milli
ieee = record {
  total = λ a b ha hb h. ground arith;
  number = λ a h. ground arith;
  between = λ a lo hi p q r s. refl;
  adds = λ a b p q. ground arith;
  subtracts = λ a b p q. ground arith;
  negates = λ a p. refl;
  keeps = λ a p. refl;
  flips = λ a p. refl;
  cancels = λ a p. refl;
}

published_in_limits_example :
    all_within m.f32 (turn m params stale writer readings).1.0.q (limits m.f32 true) ≡ true
unfolding milli_machine milli left_limits all_ordered choose note_calibration from_vla_joints
published_in_limits_example =
    published_in_limits m ieee params stale writer readings true (refl, refl) refl refl (refl, refl)
      (refl, (refl, (refl, (refl, (refl, (refl, (refl, tt))))))) refl refl
      (
        replicate 7 (at (pos 900)),
        refl,
        refl,
        (refl, (refl, (refl, (refl, (refl, (refl, (refl, tt))))))),
      )

-- Two turns under the emergency stop, in the middle of a stream.
abbrev stopped : Readings m
unfolding milli_machine milli
stopped = record readings { estop = true }

estop_limp_example :
    session m params stale writer (stopped ∷ stopped ∷ [])
    ≡ replicate 2 (limp m) ++ replicate 5 (limp m)
unfolding milli_machine milli
estop_limp_example = estop_limp m params stale writer (stopped ∷ stopped ∷ []) (refl, (refl, tt))
