-- ===== src/Health/Tests.antt =====
-- The theorems about the motor health rules at concrete inputs.
use gearsonic_inference.Common.{true, ◌≡◌, ◌↔◌, refl, some, none, [], ◌∷◌, All, replicate, arith}
use gearsonic_inference.Common.Float.{Machine, milli, milli_machine}
use gearsonic_inference.Common.Int.{pos, ◌-ℤ◌}
use gearsonic_inference.Control.Commands.{MotorCommand}
use gearsonic_inference.Health.{
  Params, ok, warn, critical, body, winding, temperature, not_responding, temp_transition,
}
use gearsonic_inference.Health.Body.{
  MotorState, BodyTrack, fresh_track, step_body_motor, respond, freeze, fault_lines, expected,
}
use gearsonic_inference.Health.Bands.{readings, in_band, silent_in_band}
use gearsonic_inference.Health.Response.{steps, unresponsive_stays}

-- The winding of a critical motor that cools to 112 degrees.
silent_in_band_example :
    (((readings (pos 110) (pos 117) winding (body 3) critical (pos 116 ∷ pos 112 ∷ [])).1 ≡ [])
      ↔ All (λ t. in_band (pos 110) (pos 117) critical t ≡ true) (pos 116 ∷ pos 112 ∷ []))
    × ((readings (pos 110) (pos 117) winding (body 3) critical (pos 116 ∷ pos 112 ∷ [])
          ≡ (critical, []))
        ↔ All (λ t. in_band (pos 110) (pos 117) critical t ≡ true) (pos 116 ∷ pos 112 ∷ []))
silent_in_band_example =
    silent_in_band (pos 110) (pos 117) winding (body 3) critical (pos 116 ∷ pos 112 ∷ [])
      (omega arith)

-- A rise to the warning and to the critical level, and the way back.
rise_and_fall :
    readings
      (pos 110)
      (pos 117)
      winding
      (body 3)
      ok
      (pos 100 ∷ pos 110 ∷ pos 120 ∷ pos 111 ∷ pos 104 ∷ [])
    ≡ (
      ok,
      temperature warn (body 3) winding (pos 110)
          ∷ temperature critical (body 3) winding (pos 120)
          ∷ temperature warn (body 3) winding (pos 111)
          ∷ temperature ok (body 3) winding (pos 104)
          ∷ [],
    )
unfolding readings temp_transition ◌-ℤ◌
rise_and_fall = refl

abbrev m : Machine
m = milli_machine

abbrev params : Params m.f32.Real
unfolding milli_machine milli
params = record {
  enabled = true;
  casing_warn_c = pos 72;
  casing_critical_c = pos 76;
  winding_warn_c = pos 110;
  winding_critical_c = pos 117;
  unresp_tau_min = pos 5000;
  unresp_tau_ratio = pos 300;
  unresp_time_s = pos 100;
  frozen_time_s = pos 1000;
  frozen_cmd_move = pos 20;
  summary_period_s = pos 0;
}

-- A motor that gives no torque.
abbrev dead : MotorState m.f64.Real
unfolding milli_machine milli
dead = record {
  q = pos 0;
  dq = pos 0;
  tau = pos 0;
  temp_casing = pos 40;
  temp_winding = pos 40;
  error = 0;
}

-- 1 rad away with a stiffness of 100.
abbrev asking : MotorCommand m.f32.Real
unfolding milli_machine milli
asking = record {
  q_target = replicate 29 (pos 1000);
  dq_target = replicate 29 (pos 0);
  kp = replicate 29 (pos 100000);
  kd = replicate 29 (pos 0);
  tau_ff = replicate 29 (pos 0);
}

abbrev tick : m.f32.Real
unfolding milli_machine milli
tick = pos 50

-- Two steps of 50 ms make the 100 ms of these parameters.
flagged_at_once :
    let (t, lines) = step_body_motor m params 0 dead (some asking) tick (fresh_track m) in
    (lines ≡ [])
    × ((step_body_motor m params 0 dead (some asking) tick t).1 ≡ not_responding 0 ∷ [])
unfolding milli_machine milli step_body_motor respond freeze fault_lines temp_transition expected
    ◌-ℤ◌
flagged_at_once = (refl, refl)

abbrev flagged : BodyTrack m
unfolding milli_machine milli
flagged = record (fresh_track m) { unresp = true }

unresponsive_stays_example :
    (steps m params 0 flagged ((dead, some asking, tick) ∷ (dead, none, tick) ∷ [])).unresp ≡ true
unfolding milli_machine milli expected
unresponsive_stays_example =
    unresponsive_stays m params 0 flagged ((dead, some asking, tick) ∷ (dead, none, tick) ∷ []) refl
      (refl, (refl, tt))
