-- ===== src/Planner/Context/Reads.antt =====
-- What the planner's context reads, and its shape.
use gearsonic_inference.Common.{
  ℕ, ◌+◌, ◌<◌, ◌≡◌, refl, ap, ◌∙◌, List, [], ◌∷◌, length, get_or, replicate, set, length-set, All,
  arith,
}
use gearsonic_inference.Common.Float.{Machine, nil, of_nat}
use gearsonic_inference.Robot.JointOrder.{mujoco_to_isaaclab}
use gearsonic_inference.Control.Playback.{Motion, Frame, blank}
use gearsonic_inference.Planner.Context.{
  context_frame, context_next, context_row, context_time, mixed_row, mixed_joints, update_context,
  scatter,
}

module _ (m : Machine) where
  open m use {f32, f64}
  open f64 use {Real, sub, floor_nat}

  length-scatter :
      (places : List ℕ) (values row : List f32.Real)
      → length (scatter m places values row) ≡ length row
  unfolding scatter
  length-scatter [] values row = refl
  length-scatter (k ∷ ks) [] row = refl
  length-scatter (k ∷ ks) (v ∷ values) row =
      length-scatter ks values (set row k v) ∙ length-set row k v

  mixed_shape : (w : Real) (a b : Frame Real) → length (mixed_row m w a b) ≡ 36
  unfolding mixed_row
  mixed_shape w a b =
      ap (λ k. 7 + k)
        (length-scatter mujoco_to_isaaclab (mixed_joints m w a b) (replicate 29 (nil f32)))

  row_shape :
      (gen_frame : ℕ) (motion : Motion Real) (n : ℕ)
      → length (context_row m gen_frame motion n) ≡ 36
  unfolding context_row
  row_shape gen_frame motion n =
      let t = context_time m gen_frame n in
      mixed_shape (sub t (of_nat f64 (floor_nat t)))
        (get_or motion.frames (context_frame m gen_frame motion.timesteps n) (blank f64))
        (get_or motion.frames (context_next m gen_frame motion.timesteps n) (blank f64))

  -- A context from a motion with frames has four rows of 36 floats, and each row reads two frames
  -- of the motion that exist.
  context_shape :
      (gen_frame : ℕ) (motion : Motion Real) (n : ℕ)
      → length motion.frames ≡ motion.timesteps
      → 0 < motion.timesteps
      → (length (update_context m gen_frame motion) ≡ 4)
        × All (λ row. length row ≡ 36) (update_context m gen_frame motion)
        × (context_frame m gen_frame motion.timesteps n < length motion.frames)
        × (context_next m gen_frame motion.timesteps n < length motion.frames)
  unfolding update_context context_frame context_next
  context_shape gen_frame motion n counted some_frame =
      let shape = row_shape gen_frame motion in
      (
        refl,
        (shape 0, (shape 1, (shape 2, (shape 3, tt)))),
        omega (arith, counted),
        omega (arith, counted),
      )
