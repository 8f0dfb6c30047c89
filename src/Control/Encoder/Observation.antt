-- ===== src/Control/Encoder/Observation.antt =====
-- TokenEncoder's observation in every mode, from data of the sizes that the arrays have.
use gearsonic_inference.Common.{ℕ, ◌≡◌, Bool, Option, none, some, List, length, All}
use gearsonic_inference.Common.Float.{Machine}
use gearsonic_inference.Common.Quaternion.{Quat}
use gearsonic_inference.Control.Playback.{Frame, Motion}
use gearsonic_inference.Control.StateLogger.{StateLogger}
use gearsonic_inference.Teleop.Pose.{SmplPose, Window, Vr3Point}
use gearsonic_inference.Control.Encoder.{Encoder}
use gearsonic_inference.Control.Encoder.Layout.{g1_layout, smpl_layout, teleop_layout}

module _ (m : Machine) where
  open m use {f32, f64, narrow}
  open f64 use {Real}

  -- A motion's frames with their 29 joints, a window's poses with their 24 positions and 6 wrist angles.
  abbrev pub FrameIsFull : Frame Real → Type 0
  FrameIsFull fr = (length fr.joints ≡ 29) × (length fr.joint_velocities ≡ 29)

  abbrev pub PoseIsFull : SmplPose Real → Type 0
  PoseIsFull p = (length p.joints_local ≡ 24) × (length p.wrist_joint_pos ≡ 6)

  -- The documented layout of each mode.
  abbrev pub layout :
      Encoder Real
      → Quat Real
      → Motion Real
      → ℕ
      → Bool
      → Option (Vr3Point Real)
      → Option (Window Real)
      → List f32.Real
  layout e base motion cursor playing vr3point (some window) = smpl_layout m e base window
  layout e base motion cursor playing none none = g1_layout m e base motion cursor playing
  layout e base motion cursor playing (some point) none =
      teleop_layout m e base motion cursor playing point

  abbrev pub PointIsFull : Option (Vr3Point Real) → Type 0
  PointIsFull none = Unit {0}
  PointIsFull (some point) = (length point.position ≡ 9) × (length point.orientation ≡ 12)

  abbrev pub WindowIsFull : Option (Window Real) → Type 0
  WindowIsFull none = Unit {0}
  WindowIsFull (some window) = All PoseIsFull window
