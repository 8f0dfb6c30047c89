-- ===== src/Planner/Resample.antt =====
-- resample_30hz_to_50hz of src/planner/planner_inference.cpp. A row of the network's output is the
-- list of its 36 floats. A negative number of frames is refused like 0, which stands for it.
pub mod Bounds
mod Tests
use gearsonic_inference.Common.{
  ℕ, zero, suc, ◌+◌, ◌-◌, min, Bool, true, false, ◌||◌, not, Option, none, some, List, [], ◌∷◌, map,
  get_or, take, zip_with, replicate, if◌then◌else◌, ltb, ◌==◌,
}
use gearsonic_inference.Common.Float.{Machine, of_nat, nil, one}
use gearsonic_inference.Common.Quaternion.{Quat, quat_slerp}
use gearsonic_inference.Robot.JointOrder.{mujoco_to_isaaclab}
use gearsonic_inference.Control.Playback.{Frame, Motion, tabulate, sequence_capacity}

abbrev pub max_planner_frames : ℕ
max_planner_frames = 64

module _ (m : Machine) where
  open m use {f32, f64, widen}
  open f64 use {Real, add, sub, mul, div, floor_nat}

  unfoldable pub any_nan : List f32.Real → Bool
  any_nan [] = false
  any_nan (x ∷ xs) = not (f32.le x x) || any_nan xs

  unfoldable pub rows_nan : List (List f32.Real) → Bool
  unfolding any_nan
  rows_nan [] = false
  rows_nan (row ∷ rows) = any_nan row || rows_nan rows

  -- The length at 50 Hz of n frames at 30 Hz.
  unfoldable pub frames_at_50hz : ℕ → ℕ
  frames_at_50hz n =
      min (floor_nat (mul (div (of_nat f64 n) (of_nat f64 30)) (of_nat f64 50))) sequence_capacity

  abbrev pub time_30hz : ℕ → Real
  time_30hz i = mul (div (of_nat f64 i) (of_nat f64 50)) (of_nat f64 30)

  -- f0 and f1 of frame i.
  unfoldable pub first_frame : ℕ → ℕ
  first_frame i = floor_nat (time_30hz i)

  unfoldable pub second_frame : ℕ → ℕ → ℕ
  unfolding first_frame
  second_frame n i = min (first_frame i + 1) (n - 1)

  abbrev pub lerp : Real → Real → Real → Real
  lerp w a b = add (mul (sub (one f64) w) a) (mul w b)

  abbrev column : List f32.Real → ℕ → Real
  column row k = widen (get_or row k (nil f32))

  abbrev row_quat : List f32.Real → Quat Real
  row_quat row = record { w = column row 3; x = column row 4; y = column row 5; z = column row 6 }

  -- Frame i, still without velocities.
  unfoldable pub resampled_frame : List (List f32.Real) → ℕ → ℕ → Frame Real
  unfolding first_frame second_frame
  resampled_frame rows n i =
      let w = sub (time_30hz i) (of_nat f64 (first_frame i)) in
      let a = get_or rows (first_frame i) [] in
      let b = get_or rows (second_frame n i) [] in
      let at = λ (k : ℕ). lerp w (column a k) (column b k) in
      record {
        position = at 0 ∷ at 1 ∷ at 2 ∷ [];
        quaternion = quat_slerp f64 (row_quat a) (row_quat b) w;
        joints = map (λ k. at (7 + k)) mujoco_to_isaaclab;
        joint_velocities = replicate 29 (nil f64);
      }

  abbrev velocity : Frame Real → Frame Real → List Real
  velocity a b = zip_with (λ x y. mul (sub y x) (of_nat f64 50)) a.joints b.joints

  -- Forward differences; the last frame has the velocities of the one before it.
  unfoldable pub with_velocities : List Real → List (Frame Real) → List (Frame Real)
  with_velocities before [] = []
  with_velocities before (a ∷ []) = record a { joint_velocities = before } ∷ []
  with_velocities before (a ∷ b ∷ rest) =
      record a { joint_velocities = velocity a b } ∷ with_velocities (velocity a b) (b ∷ rest)

  -- No frames, too many, a NaN among them, or too few at 50 Hz.
  unfoldable pub refuses : List (List f32.Real) → ℕ → Bool
  unfolding rows_nan frames_at_50hz
  refuses rows n =
      n == 0 || ltb max_planner_frames n || rows_nan (take n rows) || ltb (frames_at_50hz n) 2

  unfoldable pub resampled : List (List f32.Real) → ℕ → Motion Real
  unfolding frames_at_50hz resampled_frame with_velocities
  resampled rows n = record {
    frames = with_velocities [] (tabulate (resampled_frame rows n) (frames_at_50hz n) 0);
    timesteps = frames_at_50hz n;
    gen_frame = 0;
  }

  -- `none` is the refusal, which leaves the planner's sequence as it was.
  unfoldable pub resample : List (List f32.Real) → ℕ → Option (Motion Real)
  unfolding refuses resampled
  resample rows n = if refuses rows n then none else some (resampled rows n)
