-- ===== src/Teleop/SmplFk.antt =====
-- smpl_fk (src/teleop/smpl_fk.cpp): the body on the canonical skeleton.
use gearsonic_inference.Common.{
  ℕ, ◌+◌, Option, none, some, List, [], ◌∷◌, ◌++◌, map, take, drop, replicate, get_or, zip_with,
}
use gearsonic_inference.Common.Float.{Float, of_nat}
use gearsonic_inference.Common.Quaternion.{Quat, quat_unit}
use gearsonic_inference.Common.Rotation.{
  Vec3, map_vec_two, x_axis, y_axis, quat_mul, quat_conjugate, quat_rotate, quat_from_angle_axis,
  quat_to_rotation_matrix,
}
use gearsonic_inference.Teleop.Pose.{SmplPose}
use gearsonic_inference.Teleop.Body.{Joint, Body, zero_vec, zero_quat, m_pi}
use gearsonic_inference.Teleop.Skeleton.{
  smpl_x_parents, smpl_output_joints, smpl_stream_parents, smpl_x_rest_joints,
}
use gearsonic_inference.Teleop.Matrix.{
  Mat3, quat_from_rotvec, rotvec_from_quat, euler_xyz_intrinsic, mat_apply, mat_mul, swing_twist,
  rotmat_from_rotvec_kornia,
}

module _ (f : Float) where
  open f use {Real, ratio, neg, add, sub, div}

  abbrev zero_mat : Mat3 Real
  zero_mat = (zero_vec f, zero_vec f, zero_vec f)

  abbrev rest_joint : ℕ → Vec3 Real
  rest_joint i = get_or (smpl_x_rest_joints f) i (zero_vec f)

  -- The loop of smpl_fk_chain over the joints from the i-th on, with the rotations and the positions
  -- of those before it.
  unfoldable pub chain_from :
      List (Vec3 Real)
      → List (Option ℕ)
      → List (Mat3 Real)
      → List (Vec3 Real)
      → ℕ
      → List (Vec3 Real)
  unfolding rotmat_from_rotvec_kornia mat_mul mat_apply
  chain_from [] parents rot pos i = pos
  chain_from (v ∷ pose) [] rot pos i = pos
  chain_from (v ∷ pose) (none ∷ parents) rot pos i =
      chain_from pose parents (rot ++ rotmat_from_rotvec_kornia f v ∷ []) (pos ++ rest_joint i ∷ [])
        (i + 1)
  chain_from (v ∷ pose) (some p ∷ parents) rot pos i =
      let rel = map_vec_two f sub (rest_joint i) (rest_joint p) in
      let above = get_or rot p zero_mat in
      chain_from pose parents (rot ++ mat_mul f above (rotmat_from_rotvec_kornia f v) ∷ [])
        (pos ++ map_vec_two f add (get_or pos p (zero_vec f)) (mat_apply f above rel) ∷ []) (i + 1)

  unfoldable pub smpl_fk_chain : List (Vec3 Real) → List (Vec3 Real)
  unfolding chain_from
  smpl_fk_chain pose = chain_from pose smpl_x_parents [] [] 0

  -- kSmplBaseRot.
  abbrev smpl_base_rot : Quat Real
  smpl_base_rot = record { w = ratio 5 10; x = ratio 5 10; y = ratio 5 10; z = ratio 5 10 }

  -- The global orientations, corrected by half a turn about y.
  unfoldable pub global_rotations : Body Real → List (Quat Real)
  global_rotations body =
      map
        (λ j.
          quat_mul f (quat_unit f (Joint.rotation j)) (quat_from_angle_axis f (m_pi f) (y_axis f)))
        body

  abbrev local_rotation : List (Quat Real) → Quat Real → Option ℕ → Quat Real
  local_rotation global q none = q
  local_rotation global q (some p) = quat_mul f (quat_conjugate f (get_or global p (zero_quat f))) q

  -- pose_aa, of the 24 joints.
  unfoldable pub relative_rotations : Body Real → List (Vec3 Real)
  unfolding global_rotations
  relative_rotations body =
      let global = global_rotations body in
      zip_with (λ q parent. rotvec_from_quat f (local_rotation global q parent)) global
        smpl_stream_parents

  -- The six wrist angles.
  unfoldable pub wrist_block : List (Vec3 Real) → List Real
  wrist_block pose_aa =
      let aa = λ (k : ℕ). get_or pose_aa k (zero_vec f) in
      let elbow = λ (k : ℕ).
        euler_xyz_intrinsic f (quat_to_rotation_matrix f (swing_twist f (aa k) (y_axis f)).1) in
      let wrist =
        λ (k : ℕ). euler_xyz_intrinsic f (quat_to_rotation_matrix f (quat_from_rotvec f (aa k))) in
      add (elbow 18).x (wrist 20).x
      ∷ neg (add (elbow 19).x (wrist 21).x)
      ∷ neg (neg (wrist 20).y)
      ∷ neg (wrist 21).y
      ∷ add (elbow 18).z (wrist 20).z
      ∷ add (elbow 19).z (wrist 21).z
      ∷ []

  unfoldable pub smpl_fk : Body Real → SmplPose Real
  unfolding relative_rotations smpl_fk_chain wrist_block
  smpl_fk body =
      let pose_aa = relative_rotations body in
      let root =
        quat_mul f (quat_from_angle_axis f (div (m_pi f) (of_nat f 2)) (x_axis f))
          (quat_from_rotvec f (get_or pose_aa 0 (zero_vec f))) in
      let full_pose =
        rotvec_from_quat f root ∷ (take 21 (drop 1 pose_aa) ++ replicate 33 (zero_vec f)) in
      let joints55 = smpl_fk_chain full_pose in
      let q_root = quat_mul f root (quat_conjugate f smpl_base_rot) in
      record {
        joints_local =
            map (λ k. quat_rotate f (quat_conjugate f q_root) (get_or joints55 k (zero_vec f)))
              smpl_output_joints;
        anchor_quat = q_root;
        wrist_joint_pos = wrist_block pose_aa;
      }
