-- ===== src/Control/WholeBody.antt =====
-- WholeBodyController of include/control/whole_body_controller.hpp and
-- src/control/whole_body_controller.cpp: one turn of its 50 Hz loop.
-- The other threads' values that a turn reads are its `Readings`; what it calls in other modules
-- (besides the arbiter stage) is its list of `Effect`s. The TensorRT inference of the encoder and
-- of the decoder, with their observation assembly, are readings too. `none` as the result of a turn
-- is a read through a null token pointer. Logs, traces and timing are left out.
pub mod Loop
pub mod Gates
pub mod Keep
pub mod Parts
pub mod Modes
pub mod Totality
pub mod Loss
pub mod Reseed
mod Tests
use gearsonic_inference.Common.{
  ℕ, zero, suc, ◌+◌, ◌-◌, ◌%◌, ◌^◌, Bool, true, false, ◌&&◌, ◌||◌, not, Option, none, some, List,
  [], ◌∷◌, ◌++◌, map, get_or, if◌then◌else◌, ltb, leb, ◌==◌, ◌>>=◌,
}
use gearsonic_inference.Common.Float.{Machine, Float, nil, fabs}
use gearsonic_inference.Common.Quaternion.{Quat}
use gearsonic_inference.Robot.Params.{default_angles}
use gearsonic_inference.Robot.JointOrder.{mujoco_to_isaaclab}
use gearsonic_inference.Control.Arbiter.{
  Mode, normal, teleop, vla, recovering, is_mode, mode_code, Inputs, Arbiter, step_mode,
  recovery_blend_done, arm_handoff, select_token,
}
use gearsonic_inference.Control.StateLogger.{StateLogger, log}
use gearsonic_inference.Control.Playback.{Plan, Playback, start_over, advance_playback}
use gearsonic_inference.Control.Commands.{
  MotorCommand, no_command, damping, init_ramp, base_hold, init_ticks,
}

pub data State : Type 0 where
  init wait_for_control control estopped : State

abbrev pub state_code : State → ℕ
state_code init = 0
state_code wait_for_control = 1
state_code control = 2
state_code estopped = 3

-- 0.5 s at 50 Hz.
abbrev pub state_grace_ticks : ℕ
state_grace_ticks = 25

-- What a turn asks of InputHandler, TeleopTracker and TokenEncoder.
pub data Effect : Type 0 where
  disarm_locomotion reset_calibration reinit_heading : Effect

-- UnitreeState, as far as the controller reads it; lists of 29, in motor order.
pub record Robot (Real : Type 0) : Type 0 where
  pub quaternion : Quat Real
  pub gyroscope : List Real
  pub q : List Real
  pub dq : List Real

-- StateLogger::Entry.
pub record Entry (Real : Type 0) : Type 0 where
  pub base_quat : Quat Real
  pub base_ang_vel : List Real
  pub body_q : List Real
  pub body_dq : List Real
  pub last_action : List Real

-- MotionTokenSample of include/control/motion_token.hpp; its time stamp is left out.
pub record TokenSample (Real : Type 0) : Type 0 where
  pub token : List Real
  pub seq : ℕ  -- uint64
  pub arbiter_mode : ℕ
  pub encoder_mode : ℕ

pub record Readings (R32 R64 : Type 0) : Type 0 where
  pub estop : Bool  -- InputHandler::estop
  pub state_fresh : Bool  -- check_safety
  pub robot : Option (Robot R64)  -- the state buffer, later in the turn
  pub operator_start : Bool
  pub reinit_done : ℕ  -- PlannerInference::reinit_done
  pub plan : Option (Plan R64)  -- motion_50hz_buf
  pub vla : Option (List R32)  -- latent_buf's token
  pub vla_fresh : Bool  -- age at most kVlaTokenFreshMs
  pub vla_alive : Bool  -- age at most kVlaTokenHoldMs
  pub calibrated : Bool
  pub vr3_present : Bool
  pub smpl_present : Bool
  pub encoded : Option (List R32)  -- encoder_.step
  pub decode : List R32 → Option (MotorCommand R32 × List R64)  -- decoder_.step, last_action

pub record Controller (R32 R64 : Type 0) : Type 0 where
  pub state : State
  pub auto_start : Bool
  pub arbiter : Arbiter R32
  pub playback : Playback R64
  pub logger : StateLogger (Entry R64)
  pub last_action : List R64
  pub init_count : ℕ  -- init_ticks_
  pub missing : ℕ  -- state_missing_ticks_
  pub base_ramp_from : MotorCommand R32
  pub state_ticket : ℕ  -- state_reseed_ticket_, 0 for none
  pub ticket_issued : Bool  -- reinit_ticket_issued_
  pub ticket : ℕ  -- reinit_ticket_
  pub requested : ℕ  -- the planner's reinit_requested_, which only this loop moves
  pub last_vr3 : Bool
  pub last_smpl : Bool
  pub token_seq : ℕ
  pub command : Option (MotorCommand R32)  -- motor_command_buf
  pub sample : Option (TokenSample R32)  -- motion_token_buf

-- The entry that a robot state gives, if no joint is too fast.
any_of {ℓ} : {A : Type ℓ} → (A → Bool) → List A → Bool
any_of p [] = false
any_of p (x ∷ xs) = p x || any_of p xs

module _ (m : Machine) where
  open m use {f32, f64}
  open f64 use {Real, ratio, sub, lt}

  unfoldable pub gather_robot_state : Option (Robot Real) → List Real → Option (Entry Real)
  unfolding any_of
  gather_robot_state none last_action = none
  gather_robot_state (some st) last_action =
      let in_order = λ (xs : List Real). map (λ j. get_or xs j (nil f64)) mujoco_to_isaaclab in
      if any_of (λ v. lt (ratio 35 1) (fabs f64 v)) (in_order st.dq)
      then none
      else some (record {
        base_quat = st.quaternion;
        base_ang_vel = st.gyroscope;
        body_q =
            map (λ j. sub (get_or st.q j (nil f64)) (get_or (default_angles m) j (nil f64)))
              mujoco_to_isaaclab;
        body_dq = in_order st.dq;
        last_action = last_action;
      })

  abbrev pub blank_entry : Entry Real
  blank_entry = record {
    base_quat = record { w = nil f64; x = nil f64; y = nil f64; z = nil f64 };
    base_ang_vel = nil f64 ∷ nil f64 ∷ nil f64 ∷ [];
    body_q = map (λ _. nil f64) mujoco_to_isaaclab;
    body_dq = map (λ _. nil f64) mujoco_to_isaaclab;
    last_action = map (λ _. nil f64) mujoco_to_isaaclab;
  }

  abbrev pub Turn : Type 0
  Turn = Controller f32.Real Real × List Effect

  unfoldable pub tick_init :
      Controller f32.Real Real → Readings f32.Real Real → Controller f32.Real Real
  tick_init w r = elim r.robot [
    | none ↦ w
    | some st ↦ record w {
      command = some (init_ramp m w.init_count st.q);
      init_count = w.init_count + 1;
      state = if leb init_ticks (w.init_count + 1) then wait_for_control else w.state;
    }
  ]

  -- The origin is entered again: the frozen timeline is dropped.
  abbrev pub drop_playback : Controller f32.Real Real → Controller f32.Real Real
  drop_playback w = record w { playback = start_over Real }

  unfoldable pub next_playback : Controller f32.Real Real → Readings f32.Real Real → Turn
  next_playback w r =
      let (p, heading) = advance_playback f64 w.playback r.plan in
      (record w { playback = p }, if heading then reinit_heading ∷ [] else [])

  -- The inputs that update_arbiter gives to step_mode.
  unfoldable pub arbiter_inputs : Controller f32.Real Real → Readings f32.Real Real → Inputs
  arbiter_inputs w r = record {
    vla_fresh = r.vla_fresh;
    vla_alive = r.vla_alive;
    calibrated = r.calibrated;
    recovery_done = w.ticket_issued && leb w.ticket r.reinit_done;
  }

  -- The side effects of a transition, from the mode before it.
  unfoldable pub on_transition : Mode → Mode → Controller f32.Real Real → Turn
  on_transition before vla w = (w, reset_calibration ∷ [])
  on_transition before teleop w = (w, [])
  on_transition before recovering w = (record w { ticket_issued = false }, [])
  on_transition before normal w =
      if is_mode before recovering then (drop_playback w, disarm_locomotion ∷ []) else (w, [])

  unfoldable pub update_arbiter : Controller f32.Real Real → Readings f32.Real Real → Turn
  unfolding arbiter_inputs on_transition
  update_arbiter w r =
      let (a, next) = step_mode f32 w.arbiter (arbiter_inputs w r) in
      let w' = record w { arbiter = a } in
      if is_mode next w.arbiter.mode then (w', []) else on_transition w.arbiter.mode next w'

  unfoldable pub record_token :
      Controller f32.Real Real → List f32.Real → ℕ → Controller f32.Real Real
  record_token w token encoder_mode =
      let n = (w.token_seq + 1) % 2 ^ 64 in
      record w {
        token_seq = n;
        sample = some (record {
          token = token;
          seq = n;
          arbiter_mode = mode_code w.arbiter.mode;
          encoder_mode = encoder_mode;
        });
      }

  -- The tick end of the modes without an encoder, whose mode byte is 255.
  unfoldable pub decode_and_publish :
      Controller f32.Real Real → Readings f32.Real Real → List f32.Real → Controller f32.Real Real
  unfolding record_token
  decode_and_publish w r token = elim (r.decode token) [
    | none ↦ w
    | some out ↦ record_token (record w { command = some out.0; last_action = out.1 }) token 255
  ]
