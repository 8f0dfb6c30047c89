-- ===== src/Planner/Inference.antt =====
-- PlannerInference of include/planner/planner_inference.hpp and
-- src/planner/planner_inference.cpp: one turn of its 10 Hz loop. The network is the reading `infer`.
-- `requested` is the value of reinit_requested_ that the turn loads.
pub mod Publishing
pub mod Reseed
pub mod Acknowledge
use gearsonic_inference.Common.{
  ℕ, ◌+◌, Bool, true, false, ◌&&◌, not, Option, none, some, List, [], ◌∷◌, if◌then◌else◌, ◌==◌,
}
use gearsonic_inference.Common.Float.{Machine, nil, one}
use gearsonic_inference.Motion.Handler.{MovementState}
use gearsonic_inference.Control.Playback.{Motion, no_motion}
use gearsonic_inference.Planner.Resample.{resample}
use gearsonic_inference.Planner.Replan.{need_replan}
use gearsonic_inference.Planner.Context.{
  Tensors, initialize_context, update_context, movement_tensors, initial_tensors,
}

abbrev pub look_ahead_steps : ℕ
look_ahead_steps = 2

pub record Readings (R32 R64 : Type 0) : Type 0 where
  pub requested : ℕ  -- uint64
  pub joints : Option (List R64)  -- the robot's, in motor order
  pub movement : Option (MovementState R64)
  pub snapshot : Option (Motion R64 × ℕ)  -- playback_provider_
  pub elapsed_frames : ℕ  -- static_cast<int>(elapsed_s * 50.0)
  pub infer : Tensors R32 → Option (List (List R32) × ℕ)  -- mujoco_qpos, num_pred_frames

pub record Planner (R64 : Type 0) : Type 0 where
  pub initialized : Bool
  pub reinit_done : ℕ  -- uint64
  pub gen_frame : ℕ
  pub motion_seq : Motion R64
  pub last_movement : MovementState R64
  pub replan_counter : R64
  pub default_height : R64
  pub published : Option (Motion R64)  -- motion_50hz_buf

module _ (m : Machine) where
  open m use {f32, f64}
  open f64 use {Real, ratio, neg, add}

  -- MovementState{}.
  abbrev pub no_movement : MovementState Real
  no_movement = record {
    locomotion_mode = 0;
    movement_direction = (nil f64, nil f64, nil f64);
    facing_direction = (one f64, nil f64, nil f64);
    movement_speed = neg (one f64);
    height = neg (one f64);
  }

  abbrev pub initial : Real → Planner Real
  initial default_height = record {
    initialized = false;
    reinit_done = 0;
    gen_frame = 0;
    motion_seq = no_motion Real;
    last_movement = no_movement;
    replan_counter = nil f64;
    default_height = default_height;
    published = none;
  }

  unfoldable pub publish_motion : Planner Real → Option (Motion Real) → Planner Real × Bool
  publish_motion p none = (p, false)
  publish_motion p (some motion) =
      let seq = record motion { gen_frame = p.gen_frame } in
      (record p { motion_seq = seq; published = some seq }, true)

  unfoldable pub resample_output : Option (List (List f32.Real) × ℕ) → Option (Motion Real)
  resample_output none = none
  resample_output (some (rows, n)) = resample m rows n

  unfoldable pub run_and_publish :
      Planner Real → Readings f32.Real Real → Tensors f32.Real → Planner Real × Bool
  unfolding publish_motion resample_output
  run_and_publish p r tensors = publish_motion p (resample_output (r.infer tensors))

  abbrev pub seed_tensors : Planner Real → List Real → Tensors f32.Real
  seed_tensors p joints = initial_tensors m (initialize_context m p.default_height joints)

  -- The end of initialize_once, from the run's result.
  unfoldable pub finish_init : Planner Real × Bool → Planner Real × Bool
  finish_init (p, false) = (p, false)
  finish_init (p, true) =
      (record p { last_movement = no_movement; replan_counter = nil f64; initialized = true }, true)

  unfoldable pub initialize_once :
      Option (List Real) → Planner Real → Readings f32.Real Real → Planner Real × Bool
  unfolding run_and_publish finish_init
  initialize_once none p r = (p, false)
  initialize_once (some joints) p r =
      finish_init (run_and_publish (record p { gen_frame = 0 }) r (seed_tensors p joints))

  -- The plan's context: the control loop's motion at its cursor, or the planner's own.
  unfoldable pub plan :
      Option (Motion Real × ℕ)
      → MovementState Real
      → Planner Real
      → Readings f32.Real Real
      → Planner Real
  unfolding run_and_publish
  plan (some (motion, cursor)) ms p r =
      let gen = cursor + look_ahead_steps in
      (run_and_publish (record p { gen_frame = gen }) r
        (movement_tensors m (update_context m gen motion) ms)).0
  plan none ms p r =
      let gen = r.elapsed_frames + look_ahead_steps in
      (run_and_publish (record p { gen_frame = gen }) r
        (movement_tensors m (update_context m gen p.motion_seq) ms)).0

  unfoldable pub replan :
      Option (MovementState Real) → Planner Real → Readings f32.Real Real → Planner Real
  unfolding plan
  replan none p r = p
  replan (some ms) p r =
      let (counter, go) = need_replan f64 ms p.last_movement p.replan_counter in
      let q = record p { replan_counter = counter } in
      if go then plan r.snapshot ms (record q { last_movement = ms }) r else q

  -- A reseed request drops the plan first.
  unfoldable pub drop_plan : Planner Real → ℕ → Planner Real
  drop_plan p requested =
      if not (requested == p.reinit_done) && p.initialized
      then record p { published = none; initialized = false }
      else p

  unfoldable pub acknowledge : Planner Real × Bool → ℕ → Planner Real
  acknowledge (p, ok) requested = if ok then record p { reinit_done = requested } else p

  unfoldable pub run_turn : Bool → Planner Real → Readings f32.Real Real → Planner Real
  unfolding initialize_once acknowledge replan
  run_turn false p r = acknowledge (initialize_once r.joints p r) r.requested
  run_turn true p r =
      replan r.movement (record p { replan_counter = add p.replan_counter (ratio 1 10) }) r

  -- One turn of the loop.
  unfoldable pub plan_turn : Planner Real → Readings f32.Real Real → Planner Real
  unfolding drop_plan run_turn
  plan_turn p r = let q = drop_plan p r.requested in run_turn q.initialized q r

  unfoldable pub plan_turns : Planner Real → List (Readings f32.Real Real) → Planner Real
  plan_turns p [] = p
  plan_turns p (r ∷ rs) = plan_turns (plan_turn p r) rs
