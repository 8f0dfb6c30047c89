-- ===== src/Control/Encoder.antt =====
-- TokenEncoder (src/control/token_encoder.cpp): the state and the heading.
pub mod Fill
pub mod Layout
pub mod Observation
mod Tests
use gearsonic_inference.Common.{
  ℕ, ◌-◌, min, Bool, true, false, ◌&&◌, not, Option, none, some, get_or, replicate, if◌then◌else◌,
  ◌==◌,
}
use gearsonic_inference.Common.Float.{Machine, nil}
use gearsonic_inference.Common.Quaternion.{Quat, identity}
use gearsonic_inference.Common.Rotation.{
  quat_mul, calc_heading_quat, calc_heading_quat_inv, euler_z_to_quat,
}
use gearsonic_inference.Control.Playback.{Frame, Motion, blank}
use gearsonic_inference.Control.StateLogger.{StateLogger, get_latest}
use gearsonic_inference.Control.WholeBody.{Entry, blank_entry}
use gearsonic_inference.Teleop.Pose.{SmplPose, Window, Vr3Point}

-- The encoder's state, less the model. `none` is the mode before the first step.
pub record Encoder (Real : Type 0) : Type 0 where
  pub last_mode : Option ℕ
  pub init_base_quat : Quat Real
  pub init_ref_root_rot : Quat Real
  pub delta_heading : Real
  pub reinitialize_heading : Bool

module _ (m : Machine) where
  open m use {f64}
  open f64 use {Real, le}

  abbrev pub fresh_encoder : Encoder Real
  fresh_encoder = record {
    last_mode = none;
    init_base_quat = identity f64;
    init_ref_root_rot = identity f64;
    delta_heading = nil f64;
    reinitialize_heading = true;
  }

  -- The pose that the window holds at a frame; a window has all its frames.
  abbrev blank_pose : SmplPose Real
  blank_pose = record {
    joints_local = replicate 24 (record { x = nil f64; y = nil f64; z = nil f64 });
    anchor_quat = identity f64;
    wrist_joint_pos = replicate 6 (nil f64);
  }

  abbrev pub pose_at : Window Real → ℕ → SmplPose Real
  pose_at window i = get_or window i blank_pose

  abbrev pub frame_at : Motion Real → ℕ → Frame Real
  frame_at motion i = get_or motion.frames i (blank f64)

  -- logger.GetLatest(1)[0].base_quat.
  abbrev pub latest_base_quat : StateLogger (Entry Real) → Quat Real
  latest_base_quat logger =
      (get_or (get_latest (Entry Real) (blank_entry m) logger 1) 0 (blank_entry m)).base_quat

  abbrev pub mode_of : Option (Vr3Point Real) → Option (Window Real) → ℕ
  mode_of vr3point (some window) = 2
  mode_of (some point) none = 1
  mode_of none none = 0

  -- The root that the heading is aligned to.
  abbrev reference_root : Motion Real → ℕ → Option (Window Real) → Quat Real
  reference_root motion cursor (some window) = (pose_at window 0).anchor_quat
  reference_root motion cursor none =
      (frame_at motion (min cursor (motion.timesteps - 1))).quaternion

  abbrev at_start : ℕ → Option (Window Real) → Bool
  at_start cursor (some window) = false
  at_start cursor none = cursor == 0

  unfoldable pub update_heading_state :
      Encoder Real
      → Motion Real
      → ℕ
      → StateLogger (Entry Real)
      → Option (Window Real)
      → Encoder Real
  update_heading_state e motion cursor logger smpl =
      let e1 =
        if e.reinitialize_heading
        then record e {
          init_base_quat = latest_base_quat logger;
          delta_heading = nil f64;
          init_ref_root_rot = reference_root motion cursor smpl;
          reinitialize_heading = false;
        }
        else e in
      let e2 =
        if at_start cursor smpl
        then record e1 { init_ref_root_rot = (frame_at motion 0).quaternion }
        else e1 in
      if motion.timesteps == 0 then e else e2

  unfoldable pub compute_apply_delta_heading : Encoder Real → Quat Real
  compute_apply_delta_heading e =
      let apply =
        quat_mul f64 (calc_heading_quat f64 e.init_base_quat)
          (calc_heading_quat_inv f64 e.init_ref_root_rot) in
      if not (le e.delta_heading (nil f64) && le (nil f64) e.delta_heading)
      then quat_mul f64 (euler_z_to_quat f64 e.delta_heading) apply
      else apply
