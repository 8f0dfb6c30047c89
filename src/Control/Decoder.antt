-- ===== src/Control/Decoder.antt =====
-- PolicyDecoder (src/control/policy_decoder.cpp): the observation and the motor command. The decoder
-- network is a function from the observation to the action.
pub mod Observation
mod Tests
use gearsonic_inference.Common.{
  ℕ, ◌+◌, ◌*◌, Option, none, some, List, [], ◌∷◌, ◌++◌, map, get_or, zip_with,
}
use gearsonic_inference.Common.Float.{Machine, nil}
use gearsonic_inference.Common.Rotation.{Vec3, gravity_in_body_frame}
use gearsonic_inference.Robot.JointOrder.{isaaclab_to_mujoco}
use gearsonic_inference.Robot.Params.{action_scale, default_angles, kps, kds}
use gearsonic_inference.Control.Buffer.{Region, write_at, write_frames}
use gearsonic_inference.Control.Commands.{MotorCommand}
use gearsonic_inference.Control.StateLogger.{StateLogger, get_latest}
use gearsonic_inference.Control.WholeBody.{Entry, blank_entry}

module _ (m : Machine) where
  open m use {f32, f64, narrow, widen}
  open f64 use {Real, add, mul}

  -- The entry of frame i of the ten that GetLatest gives, the oldest first.
  abbrev pub entry_at : StateLogger (Entry Real) → ℕ → Entry Real
  entry_at logger i = get_or (get_latest (Entry Real) (blank_entry m) logger 10) i (blank_entry m)

  abbrev vector : Vec3 Real → List f32.Real
  vector v = narrow v.x ∷ narrow v.y ∷ narrow v.z ∷ []

  -- A frame's values in the five regions, which are adjacent: the angular velocity (kOffAngVel, 64),
  -- the joints (kOffHisQ, 94), their velocities (kOffHisDq, 384), the actions (kOffHisAction, 674) and
  -- the gravity (kOffGravity, 964). The writes of the loop over the joints go to three of them.
  abbrev pub history_regions : StateLogger (Entry Real) → List (Region f32.Real)
  history_regions logger =
      ((λ i. map narrow (entry_at logger i).base_ang_vel), 3)
      ∷ ((λ i. map narrow (entry_at logger i).body_q), 29)
      ∷ ((λ i. map narrow (entry_at logger i).body_dq), 29)
      ∷ ((λ i. map narrow (entry_at logger i).last_action), 29)
      ∷ ((λ i. vector (gravity_in_body_frame f64 (entry_at logger i).base_quat)), 3)
      ∷ []

  unfoldable pub fill_obs : StateLogger (Entry Real) → List f32.Real → List f32.Real
  fill_obs logger dst = write_frames 10 10 0 64 (history_regions logger) dst

  -- q = default + scale * remap(action), and the gains; the rest of the command stays.
  unfoldable pub command : List f32.Real → MotorCommand f32.Real → MotorCommand f32.Real
  command action cmd_out = record cmd_out {
    q_target =
        zip_with (λ angle a. narrow (add angle a)) (default_angles m)
          (zip_with (λ i scale. mul (widen (get_or action i (nil f32))) scale) isaaclab_to_mujoco
            (action_scale m));
    kp = kps m;
    kd = kds m;
  }

  -- One step on the model's input, with last_action: the command, or `none` if the inference fails.
  unfoldable pub step :
      (List f32.Real → Option (List f32.Real))
      → List f32.Real
      → List Real
      → List f32.Real
      → StateLogger (Entry Real)
      → MotorCommand f32.Real
      → List f32.Real × List Real × Option (MotorCommand f32.Real)
  unfolding fill_obs command
  step infer input last_action token logger cmd_out =
      let obs = fill_obs logger (write_at input 0 token) in
      elim (infer obs) [
        | none ↦ (obs, last_action, none)
        | some action ↦ (obs, map widen action, some (command action cmd_out))
      ]
