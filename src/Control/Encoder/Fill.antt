-- ===== src/Control/Encoder/Fill.antt =====
-- TokenEncoder's observation and step (src/control/token_encoder.cpp). The encoder network is a
-- function from the observation.
use gearsonic_inference.Common.{
  ℕ, ◌+◌, ◌-◌, ◌*◌, min, Bool, Option, none, some, List, [], ◌∷◌, map, set, get_or, replicate,
  if◌then◌else◌, ◌==◌,
}
use gearsonic_inference.Common.Float.{Machine, of_nat, nil}
use gearsonic_inference.Common.Quaternion.{Quat}
use gearsonic_inference.Common.Rotation.{
  Vec3, quat_mul, quat_conjugate, calc_heading_quat, quat_to_rotation_matrix,
}
use gearsonic_inference.Control.Buffer.{write_at, blocks, fill_two}
use gearsonic_inference.Control.Playback.{Motion}
use gearsonic_inference.Control.StateLogger.{StateLogger}
use gearsonic_inference.Control.WholeBody.{Entry}
use gearsonic_inference.Teleop.Pose.{Window, Vr3Point}
use gearsonic_inference.Control.Encoder.{
  Encoder, pose_at, frame_at, latest_base_quat, mode_of, update_heading_state,
  compute_apply_delta_heading,
}

abbrev pub input_dim : ℕ
input_dim = 1751

-- kLowerBodyIdx.
abbrev pub lower_body_idx : List ℕ
lower_body_idx = 0 ∷ 3 ∷ 6 ∷ 9 ∷ 13 ∷ 17 ∷ 1 ∷ 4 ∷ 7 ∷ 10 ∷ 14 ∷ 18 ∷ []

-- Of a motion that has frames.
unfoldable pub target_frame : ℕ → ℕ → ℕ → ℕ → Bool → ℕ
target_frame current frame_idx step timesteps playing =
    min (if playing then min (current + frame_idx * step) (timesteps - 1) else current)
      (timesteps - 1)

module _ (m : Machine) where
  open m use {f32, f64, narrow}
  open f64 use {Real}

  -- One frame's six values of the anchor orientation: the first two columns, row by row.
  unfoldable pub anchor_six : Encoder Real → Quat Real → Quat Real → List f32.Real
  unfolding compute_apply_delta_heading
  anchor_six e base_quat ref_root =
      let new_ref_root_rot = quat_mul f64 (compute_apply_delta_heading m e) ref_root in
      let base_heading_inv = quat_conjugate f64 (calc_heading_quat f64 base_quat) in
      let rows = quat_to_rotation_matrix f64 (quat_mul f64 base_heading_inv new_ref_root_rot) in
      narrow rows.0.x
      ∷ narrow rows.0.y
      ∷ narrow rows.1.x
      ∷ narrow rows.1.y
      ∷ narrow rows.2.x
      ∷ narrow rows.2.y
      ∷ []

  -- fill_anchor_orientation, of num_frames frames.
  unfoldable pub anchors : Encoder Real → Quat Real → (ℕ → Quat Real) → ℕ → List f32.Real
  unfolding anchor_six
  anchors e base_quat ref_roots num_frames =
      blocks (λ i. anchor_six e base_quat (ref_roots i)) num_frames 0

  -- The reference roots of the playback.
  abbrev pub playback_root : Motion Real → ℕ → Bool → ℕ → ℕ → Quat Real
  playback_root motion cursor playing step i =
      (frame_at m motion (target_frame cursor i step motion.timesteps playing)).quaternion

  abbrev pub flatten : List (Vec3 Real) → List f32.Real
  flatten [] = []
  flatten (v ∷ vs) = narrow v.x ∷ narrow v.y ∷ narrow v.z ∷ flatten vs

  -- The values of frame i: of all joints, of their velocities, of the lower body's, of a pose.
  abbrev pub joint_block : Motion Real → ℕ → Bool → ℕ → List f32.Real
  joint_block motion cursor playing i =
      map narrow (frame_at m motion (target_frame cursor i 5 motion.timesteps playing)).joints

  abbrev pub velocity_block : Motion Real → ℕ → Bool → ℕ → List f32.Real
  velocity_block motion cursor playing i =
      map (λ v. if playing then narrow v else nil f32)
        (frame_at m motion (target_frame cursor i 5 motion.timesteps playing)).joint_velocities

  abbrev pub lower_block : Motion Real → ℕ → Bool → ℕ → List f32.Real
  lower_block motion cursor playing i =
      let frame = frame_at m motion (target_frame cursor i 5 motion.timesteps playing) in
      map (λ j. narrow (get_or frame.joints j (nil f64))) lower_body_idx

  abbrev pub lower_velocity_block : Motion Real → ℕ → Bool → ℕ → List f32.Real
  lower_velocity_block motion cursor playing i =
      let frame = frame_at m motion (target_frame cursor i 5 motion.timesteps playing) in
      map (λ j. if playing then narrow (get_or frame.joint_velocities j (nil f64)) else nil f32)
        lower_body_idx

  -- The three branches of fill_obs, on a buffer of zeros.
  unfoldable pub fill_smpl : Encoder Real → Quat Real → Window Real → List f32.Real → List f32.Real
  fill_smpl e base_quat window dst =
      let dst1 = set dst 0 (of_nat f32 2) in
      let dst2 =
        fill_two (λ i. flatten (pose_at m window i).joints_local) 911 72
          (λ i. map narrow (pose_at m window i).wrist_joint_pos) 1691 6 10 0 dst1 in
      write_at dst2 1631 (anchors e base_quat (λ i. (pose_at m window i).anchor_quat) 10)

  unfoldable pub fill_g1 :
      Encoder Real → Quat Real → Motion Real → ℕ → Bool → List f32.Real → List f32.Real
  fill_g1 e base_quat motion cursor playing dst =
      let dst1 = set dst 0 (of_nat f32 0) in
      let dst2 =
        fill_two (joint_block motion cursor playing) 4 29 (velocity_block motion cursor playing) 294
          29 10 0 dst1 in
      write_at dst2 584 (anchors e base_quat (playback_root motion cursor playing 5) 10)

  unfoldable pub fill_teleop :
      Encoder Real
      → Quat Real
      → Motion Real
      → ℕ
      → Bool
      → Vr3Point Real
      → List f32.Real
      → List f32.Real
  fill_teleop e base_quat motion cursor playing point dst =
      let dst1 = set dst 0 (of_nat f32 1) in
      let dst2 =
        fill_two (lower_block motion cursor playing) 650 12
          (lower_velocity_block motion cursor playing) 770 12 10 0 dst1 in
      let dst3 =
        write_at dst2 644 (anchors e base_quat (playback_root motion cursor playing 1) 1) in
      let dst4 = write_at dst3 890 (map narrow point.position) in
      write_at dst4 899 (map narrow point.orientation)

  abbrev fill_by :
      Encoder Real
      → Quat Real
      → Motion Real
      → ℕ
      → Bool
      → Option (Vr3Point Real)
      → Option (Window Real)
      → List f32.Real
      → List f32.Real
  unfolding fill_smpl fill_g1 fill_teleop
  fill_by e base_quat motion cursor playing vr3point (some window) dst =
      fill_smpl e base_quat window dst
  fill_by e base_quat motion cursor playing none none dst =
      fill_g1 e base_quat motion cursor playing dst
  fill_by e base_quat motion cursor playing (some point) none dst =
      fill_teleop e base_quat motion cursor playing point dst

  unfoldable pub fill_obs :
      Encoder Real
      → Motion Real
      → ℕ
      → Bool
      → StateLogger (Entry Real)
      → Option (Vr3Point Real)
      → Option (Window Real)
      → List f32.Real
  unfolding fill_by
  fill_obs e motion cursor playing logger vr3point smpl =
      let dst = replicate input_dim (nil f32) in
      if motion.timesteps == 0
      then dst
      else fill_by e (latest_base_quat m logger) motion cursor playing vr3point smpl dst

  -- One step: the next state, and the token, which is `none` when the inference fails.
  unfoldable pub step :
      (List f32.Real → Option (List f32.Real))
      → Encoder Real
      → Motion Real
      → ℕ
      → Bool
      → StateLogger (Entry Real)
      → Option (Vr3Point Real)
      → Option (Window Real)
      → Encoder Real × Option (List f32.Real)
  unfolding update_heading_state fill_obs
  step infer e motion cursor playing logger vr3point smpl =
      let e1 = record e { last_mode = some (mode_of m vr3point smpl) } in
      let e2 = update_heading_state m e1 motion cursor logger smpl in
      (e2, infer (fill_obs e2 motion cursor playing logger vr3point smpl))
