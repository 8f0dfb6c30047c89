-- ===== src/Hands/Message.antt =====
-- The messages of src/unitree/hand_command_writer.cpp: ris_mode, fill_msg, publish and send_stop.
pub mod Stop
use gearsonic_inference.Common.{
  ℕ, ◌+◌, ◌*◌, ◌%◌, Bool, true, false, not, List, [], ◌∷◌, replicate, of_bool,
}
use gearsonic_inference.Common.Float.{Float, nil}
use gearsonic_inference.Hands.Command.{HandCommand, stop_command}

pub record MotorCmd (Real : Type 0) : Type 0 where
  pub mode : ℕ
  pub q : Real
  pub dq : Real
  pub tau : Real
  pub kp : Real
  pub kd : Real

-- The fields [id:4][status:3][timeout:1] do not overlap, so that `|=` adds. A byte.
unfoldable pub ris_mode : ℕ → Bool → ℕ
ris_mode id enable = (id % 16 + of_bool enable % 8 * 16 + of_bool (not enable) % 2 * 128) % 256

module _ (f : Float) where
  open f use {Real}

  -- The loop over the motors from motor i on.
  unfoldable pub fill_from : ℕ → Bool → List Real → List Real → List Real → List (MotorCmd Real)
  unfolding ris_mode
  fill_from i enabled (q ∷ qs) (kp ∷ kps) (kd ∷ kds) =
      record { mode = ris_mode i enabled; q = q; dq = nil f; tau = nil f; kp = kp; kd = kd }
      ∷ fill_from (i + 1) enabled qs kps kds
  fill_from i enabled qs kps kds = []

  unfoldable pub fill_msg : HandCommand Real → List (MotorCmd Real)
  unfolding fill_from
  fill_msg c = fill_from 0 c.enabled c.q c.kp c.kd

  -- What goes out on the left and on the right topic. The copy for observers is left out.
  unfoldable pub publish :
      HandCommand Real × HandCommand Real → List (MotorCmd Real) × List (MotorCmd Real)
  unfolding fill_msg
  publish (left, right) = (fill_msg left, fill_msg right)

  -- The messages of send_stop, from whether both publishers are there.
  unfoldable pub send_stop : Bool → List (List (MotorCmd Real) × List (MotorCmd Real))
  unfolding publish stop_command
  send_stop false = []
  send_stop true = replicate 5 (publish (stop_command f, stop_command f))
