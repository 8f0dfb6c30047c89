-- ===== src/Planner/Context.antt =====
-- The context of a plan and the rest of the network's input: initialize_context,
-- update_context_from_motion and set_input_tensors of src/planner/planner_inference.cpp. The random
-- seed, the unused targets and the token mask are constants of the network's call.
pub mod Reads
use gearsonic_inference.Common.{
  ℕ, zero, suc, ◌+◌, ◌-◌, ◌*◌, min, List, [], ◌∷◌, map, get_or, set, ◌++◌, replicate,
}
use gearsonic_inference.Common.Float.{Machine, of_nat, nil, one}
use gearsonic_inference.Common.Quaternion.{quat_slerp}
use gearsonic_inference.Robot.JointOrder.{mujoco_to_isaaclab}
use gearsonic_inference.Motion.Handler.{MovementState}
use gearsonic_inference.Control.Playback.{Frame, Motion, blank, tabulate}
use gearsonic_inference.Planner.Resample.{lerp}

abbrev pub context_frames : ℕ
context_frames = 4

-- The tensors that differ from plan to plan.
pub record Tensors (Real : Type 0) : Type 0 where
  pub context : List (List Real)  -- 4 rows of 36
  pub mode : ℕ
  pub target_vel : Real
  pub height : Real
  pub movement_direction : Real × Real × Real
  pub facing_direction : Real × Real × Real

module _ (m : Machine) where
  open m use {f32, f64, narrow}
  open f64 use {Real, add, sub, mul, div, floor_nat}

  -- From the measured joints, in motor order, at the default height.
  unfoldable pub initialize_context : Real → List Real → List (List f32.Real)
  initialize_context default_height joints =
      let row =
        nil f32
        ∷ nil f32
        ∷ narrow default_height
        ∷ one f32
        ∷ nil f32
        ∷ nil f32
        ∷ nil f32
        ∷ map narrow joints in
      replicate context_frames row

  -- `gen_frame / 50.0 + n / 30.0`, in frames at 50 Hz.
  abbrev pub context_time : ℕ → ℕ → Real
  context_time gen_frame n =
      mul (add (div (of_nat f64 gen_frame) (of_nat f64 50)) (div (of_nat f64 n) (of_nat f64 30)))
        (of_nat f64 50)

  -- f0 and f1.
  unfoldable pub context_frame : ℕ → ℕ → ℕ → ℕ
  context_frame gen_frame timesteps n = min (floor_nat (context_time gen_frame n)) (timesteps - 1)

  unfoldable pub context_next : ℕ → ℕ → ℕ → ℕ
  unfolding context_frame
  context_next gen_frame timesteps n = min (context_frame gen_frame timesteps n + 1) (timesteps - 1)

  -- Each value to its place.
  unfoldable pub scatter : List ℕ → List f32.Real → List f32.Real → List f32.Real
  scatter [] values row = row
  scatter (k ∷ ks) [] row = row
  scatter (k ∷ ks) (v ∷ values) row = scatter ks values (set row k v)

  -- The joints of row n, in the motion's order.
  abbrev pub mixed : Real → List Real → List Real → ℕ → f32.Real
  mixed w xs ys k = narrow (lerp m w (get_or xs k (nil f64)) (get_or ys k (nil f64)))

  abbrev pub mixed_joints : Real → Frame Real → Frame Real → List f32.Real
  mixed_joints w a b = map (mixed w a.joints b.joints) (tabulate (λ j. j) 29 0)

  -- A row from two frames. The joints go back to motor order.
  unfoldable pub mixed_row : Real → Frame Real → Frame Real → List f32.Real
  unfolding scatter
  mixed_row w a b =
      let q = quat_slerp f64 a.quaternion b.quaternion w in
      map (mixed w a.position b.position) (0 ∷ 1 ∷ 2 ∷ [])
      ++ map narrow (q.w ∷ q.x ∷ q.y ∷ q.z ∷ [])
      ++ scatter mujoco_to_isaaclab (mixed_joints w a b) (replicate 29 (nil f32))

  unfoldable pub context_row : ℕ → Motion Real → ℕ → List f32.Real
  unfolding context_frame context_next mixed_row
  context_row gen_frame motion n =
      let t = context_time gen_frame n in
      mixed_row (sub t (of_nat f64 (floor_nat t)))
        (get_or motion.frames (context_frame gen_frame motion.timesteps n) (blank f64))
        (get_or motion.frames (context_next gen_frame motion.timesteps n) (blank f64))

  unfoldable pub update_context : ℕ → Motion Real → List (List f32.Real)
  unfolding context_row
  update_context gen_frame motion = map (context_row gen_frame motion) (0 ∷ 1 ∷ 2 ∷ 3 ∷ [])

  abbrev narrow_vector : Real × Real × Real → f32.Real × f32.Real × f32.Real
  narrow_vector (a, b, c) = (narrow a, narrow b, narrow c)

  unfoldable pub movement_tensors : List (List f32.Real) → MovementState Real → Tensors f32.Real
  movement_tensors context ms = record {
    context = context;
    mode = ms.locomotion_mode;
    target_vel = narrow ms.movement_speed;
    height = narrow ms.height;
    movement_direction = narrow_vector ms.movement_direction;
    facing_direction = narrow_vector ms.facing_direction;
  }

  -- IDLE, facing forward.
  unfoldable pub initial_tensors : List (List f32.Real) → Tensors f32.Real
  initial_tensors context = record {
    context = context;
    mode = 0;
    target_vel = f32.neg (one f32);
    height = f32.neg (one f32);
    movement_direction = (nil f32, nil f32, nil f32);
    facing_direction = (one f32, nil f32, nil f32);
  }
