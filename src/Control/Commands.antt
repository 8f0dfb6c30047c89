-- ===== src/Control/Commands.antt =====
-- MotorCommand of include/control/motor_command.hpp, and the commands that WholeBodyController
-- makes without the policy: damping, the INIT ramp and the base hold.
use gearsonic_inference.Common.{ℕ, List, replicate, zip_with, map}
use gearsonic_inference.Common.Float.{Machine, of_nat, nil, one, fclamp}
use gearsonic_inference.Robot.Params.{default_angles, kps, kds}

pub record MotorCommand (Real : Type 0) : Type 0 where
  pub q_target : List Real
  pub dq_target : List Real
  pub kp : List Real
  pub kd : List Real
  pub tau_ff : List Real

-- 3 s at 50 Hz.
abbrev pub init_ticks : ℕ
init_ticks = 150

-- 1 s at 50 Hz.
abbrev pub base_ramp_ticks : ℕ
base_ramp_ticks = 50

module _ (m : Machine) where
  open m use {f32, f64, narrow, widen}
  open f64 use {Real, add, sub, mul, div}

  -- 29 zeros, the default value of each array.
  abbrev zeros : List f32.Real
  zeros = replicate 29 (nil f32)

  abbrev pub no_command : MotorCommand f32.Real
  no_command = record {
    q_target = zeros;
    dq_target = zeros;
    kp = zeros;
    kd = zeros;
    tau_ff = zeros;
  }

  unfoldable pub damping : MotorCommand f32.Real
  damping = record no_command { kp = replicate 29 (of_nat f32 0); kd = replicate 29 (of_nat f32 8) }

  -- `std::clamp(double(t) / ticks, 0.0, 1.0)`.
  unfoldable pub ramp_ratio : ℕ → ℕ → Real
  ramp_ratio t ticks = fclamp f64 (div (of_nat f64 t) (of_nat f64 ticks)) (nil f64) (one f64)

  -- From the given pose to the standing pose, with the policy's gains.
  unfoldable pub ramp : Real → List Real → MotorCommand f32.Real
  ramp ratio from = record no_command {
    q_target =
        zip_with (λ a b. narrow (add (mul a (sub (one f64) ratio)) (mul b ratio))) from
          (default_angles m);
    kp = kps m;
    kd = kds m;
  }

  -- tick_init: from the measured pose.
  unfoldable pub init_ramp : ℕ → List Real → MotorCommand f32.Real
  unfolding ramp ramp_ratio
  init_ramp ticks measured = ramp (ramp_ratio ticks init_ticks) measured

  -- publish_base_hold: from the last command.
  unfoldable pub base_hold : ℕ → MotorCommand f32.Real → MotorCommand f32.Real
  unfolding ramp ramp_ratio
  base_hold t last = ramp (ramp_ratio t base_ramp_ticks) (map widen last.q_target)
