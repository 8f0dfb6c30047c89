-- ===== src/Control/Encoder/Layout.antt =====
-- The observation that TokenEncoder fills, against the layout of include/control/token_encoder.hpp.
use gearsonic_inference.Common.{
  ℕ, ◌*◌, ◌≡◌, refl, sym, ap, ◌∙◌, Bool, List, [], ◌∷◌, ◌++◌, map, length, replicate, arith,
  length-map, length-replicate,
}
use mathlib.Core.List.{append-nil}
use gearsonic_inference.Common.Float.{Machine, of_nat, nil}
use gearsonic_inference.Common.Quaternion.{Quat}
use gearsonic_inference.Control.Buffer.{write_at, blocks, fill_two}
use gearsonic_inference.Control.Buffer.Regions.{
  cut, write_after, three_writes, fill_two_lem, length-blocks,
}
use gearsonic_inference.Control.Playback.{Motion}
use gearsonic_inference.Teleop.Pose.{Window, Vr3Point}
use gearsonic_inference.Control.Encoder.{Encoder, pose_at}
use gearsonic_inference.Control.Encoder.Fill.{
  anchor_six, anchors, playback_root, flatten, joint_block, velocity_block, lower_block,
  lower_velocity_block, fill_smpl, fill_g1, fill_teleop, input_dim,
}

module _ (m : Machine) where
  open m use {f32, f64, narrow}
  open f64 use {Real}

  abbrev zeros : ℕ → List f32.Real
  zeros n = replicate n (nil f32)

  length-anchors :
      (e : Encoder Real) (base : Quat Real) (roots : ℕ → Quat Real) (n : ℕ)
      → length (anchors m e base roots n) ≡ n * 6
  unfolding anchors anchor_six
  length-anchors e base roots n =
      length-blocks (λ i. anchor_six m e base (roots i)) 6 n 0 (λ j. refl)

  -- The slots of the g1 mode: the mode, the joints, the velocities, the anchors.
  abbrev pub g1_layout : Encoder Real → Quat Real → Motion Real → ℕ → Bool → List f32.Real
  g1_layout e base motion cursor playing =
      (of_nat f32 0 ∷ zeros 3)
      ++ (blocks (joint_block m motion cursor playing) 10 0
          ++ (blocks (velocity_block m motion cursor playing) 10 0
              ++ (anchors m e base (playback_root m motion cursor playing 5) 10 ++ zeros 1107)))

  pub g1_lem :
      (e : Encoder Real) (base : Quat Real) (motion : Motion Real) (cursor : ℕ) (playing : Bool)
      → ((i : ℕ) → length (joint_block m motion cursor playing i) ≡ 29)
      → ((i : ℕ) → length (velocity_block m motion cursor playing i) ≡ 29)
      → fill_g1 m e base motion cursor playing (zeros input_dim)
        ≡ g1_layout e base motion cursor playing
  unfolding fill_g1
  g1_lem e base motion cursor playing wide_q wide_dq =
      let x = of_nat f32 0 in
      let q = joint_block m motion cursor playing in
      let dq = velocity_block m motion cursor playing in
      let a = anchors m e base (playback_root m motion cursor playing 5) 10 in
      let fill = λ (b : List f32.Real). fill_two q 4 29 dq 294 29 10 0 b in
      let start : x ∷ zeros 1750
          ≡ (x ∷ zeros 3) ++ (zeros 290 ++ ([] ++ (zeros 290 ++ zeros 1167))) =
        ap (λ t. x ∷ t)
          (cut 1750 3 1747 (nil f32) refl
            ∙ ap (λ t. zeros 3 ++ t)
                (cut 1747 290 1457 (nil f32) refl
                  ∙ ap (λ t. zeros 290 ++ t) (cut 1457 290 1167 (nil f32) refl))) in
      ap (λ b. write_at (fill b) 584 a) start
      ∙ ap (λ b. write_at b 584 a)
          (fill_two_lem q 4 29 dq 294 29 10 0 (nil f32) (x ∷ zeros 3) [] (zeros 1167) wide_q wide_dq
            refl refl)
      ∙ ap (λ t. write_at ((x ∷ zeros 3) ++ (blocks q 10 0 ++ (blocks dq 10 0 ++ t))) 584 a)
          (cut 1167 60 1107 (nil f32) refl)
      ∙ write_after (x ∷ zeros 3) (blocks q 10 0) (blocks dq 10 0) a (zeros 1107) 584 60 (nil f32)
          (omega (arith, length-blocks q 29 10 0 wide_q, length-blocks dq 29 10 0 wide_dq))
          (length-anchors e base (playback_root m motion cursor playing 5) 10)

  -- The slots of the smpl mode: the mode, the positions, the anchors, the wrists.
  abbrev pub smpl_layout : Encoder Real → Quat Real → Window Real → List f32.Real
  smpl_layout e base window =
      (of_nat f32 2 ∷ zeros 910)
      ++ (blocks (λ i. flatten m (pose_at m window i).joints_local) 10 0
          ++ (anchors m e base (λ i. (pose_at m window i).anchor_quat) 10
              ++ blocks (λ i. map narrow (pose_at m window i).wrist_joint_pos) 10 0))

  pub smpl_lem :
      (e : Encoder Real) (base : Quat Real) (window : Window Real)
      → ((i : ℕ) → length (flatten m (pose_at m window i).joints_local) ≡ 72)
      → ((i : ℕ) → length (map narrow (pose_at m window i).wrist_joint_pos) ≡ 6)
      → fill_smpl m e base window (zeros input_dim) ≡ smpl_layout e base window
  unfolding fill_smpl
  smpl_lem e base window wide_j wide_w =
      let x = of_nat f32 2 in
      let j = λ (i : ℕ). flatten m (pose_at m window i).joints_local in
      let w = λ (i : ℕ). map narrow (pose_at m window i).wrist_joint_pos in
      let a = anchors m e base (λ i. (pose_at m window i).anchor_quat) 10 in
      let fill = λ (b : List f32.Real). fill_two j 911 72 w 1691 6 10 0 b in
      let start : x ∷ zeros 1750
          ≡ (x ∷ zeros 910) ++ (zeros 720 ++ (zeros 60 ++ (zeros 60 ++ []))) =
        ap (λ t. x ∷ t)
          (cut 1750 910 840 (nil f32) refl
            ∙ ap (λ t. zeros 910 ++ t)
                (cut 840 720 120 (nil f32) refl
                  ∙ ap (λ t. zeros 720 ++ t)
                      (cut 120 60 60 (nil f32) refl
                        ∙ ap (λ t. zeros 60 ++ t) (sym (append-nil (zeros 60)))))) in
      ap (λ b. write_at (fill b) 1631 a) start
      ∙ ap (λ b. write_at b 1631 a)
          (fill_two_lem j 911 72 w 1691 6 10 0 (nil f32) (x ∷ zeros 910) (zeros 60) [] wide_j wide_w
            refl refl)
      ∙ write_after (x ∷ zeros 910) (blocks j 10 0) [] a (blocks w 10 0 ++ []) 1631 60 (nil f32)
          (omega (arith, length-blocks j 72 10 0 wide_j, length-replicate 910 (nil f32)))
          (length-anchors e base (λ i. (pose_at m window i).anchor_quat) 10)
      ∙ ap (λ t. (x ∷ zeros 910) ++ (blocks j 10 0 ++ (a ++ t))) (append-nil (blocks w 10 0))

  -- The slots of the teleop mode: the mode, one anchor, the lower body's joints and velocities, the
  -- three points' positions and orientations.
  abbrev pub teleop_layout :
      Encoder Real → Quat Real → Motion Real → ℕ → Bool → Vr3Point Real → List f32.Real
  teleop_layout e base motion cursor playing point =
      (of_nat f32 1 ∷ zeros 643)
      ++ (anchors m e base (playback_root m motion cursor playing 1) 1
          ++ (blocks (lower_block m motion cursor playing) 10 0
              ++ (blocks (lower_velocity_block m motion cursor playing) 10 0
                  ++ (map narrow point.position ++ (map narrow point.orientation ++ zeros 840)))))

  pub teleop_lem :
      (e : Encoder Real) (base : Quat Real) (motion : Motion Real) (cursor : ℕ) (playing : Bool)
      (point : Vr3Point Real)
      → length point.position ≡ 9
      → length point.orientation ≡ 12
      → fill_teleop m e base motion cursor playing point (zeros input_dim)
        ≡ teleop_layout e base motion cursor playing point
  unfolding fill_teleop
  teleop_lem e base motion cursor playing point nine twelve =
      let x = of_nat f32 1 in
      let q = lower_block m motion cursor playing in
      let dq = lower_velocity_block m motion cursor playing in
      let a = anchors m e base (playback_root m motion cursor playing 1) 1 in
      let pos = map narrow point.position in
      let orn = map narrow point.orientation in
      let fill = λ (b : List f32.Real). fill_two q 650 12 dq 770 12 10 0 b in
      let start : x ∷ zeros 1750
          ≡ (x ∷ zeros 649) ++ (zeros 120 ++ ([] ++ (zeros 120 ++ zeros 861))) =
        ap (λ t. x ∷ t)
          (cut 1750 649 1101 (nil f32) refl
            ∙ ap (λ t. zeros 649 ++ t)
                (cut 1101 120 981 (nil f32) refl
                  ∙ ap (λ t. zeros 120 ++ t) (cut 981 120 861 (nil f32) refl))) in
      ap (λ b. write_at (write_at (write_at (fill b) 644 a) 890 pos) 899 orn) start
      ∙ ap (λ b. write_at (write_at (write_at b 644 a) 890 pos) 899 orn)
          (fill_two_lem q 650 12 dq 770 12 10 0 (nil f32) (x ∷ zeros 649) [] (zeros 861) (λ i. refl)
            (λ i. refl) refl refl)
      ∙ ap (λ b. write_at (write_at (write_at b 644 a) 890 pos) 899 orn)
          (ap (λ t. t ++ (blocks q 10 0 ++ (blocks dq 10 0 ++ zeros 861)))
              (ap (λ t. x ∷ t) (cut 649 643 6 (nil f32) refl))
            ∙ ap (λ t. ((x ∷ zeros 643) ++ zeros 6) ++ (blocks q 10 0 ++ (blocks dq 10 0 ++ t)))
                (cut 861 9 852 (nil f32) refl
                  ∙ ap (λ t. zeros 9 ++ t) (cut 852 12 840 (nil f32) refl)))
      ∙ three_writes (x ∷ zeros 643) a (blocks q 10 0) (blocks dq 10 0) pos orn (zeros 840) 644 890
          899 (nil f32) (omega (arith, length-replicate 643 (nil f32)))
          (length-anchors e base (playback_root m motion cursor playing 1) 1)
          (omega (
            arith,
            length-replicate 643 (nil f32),
            length-blocks q 12 10 0 (λ i. refl),
            length-blocks dq 12 10 0 (λ i. refl),
          ))
          (length-map narrow point.position ∙ nine) refl
          (length-map narrow point.orientation ∙ twelve)
