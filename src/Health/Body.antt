-- ===== src/Health/Body.antt =====
-- MotorHealthRules::step_body_motor.
use gearsonic_inference.Common.{
  ℕ, Bool, true, false, ◌&&◌, not, Option, none, some, List, [], ◌∷◌, ◌++◌, if◌then◌else◌, ◌==◌,
  get_or,
}
use gearsonic_inference.Common.Int.{ℤ}
use gearsonic_inference.Common.Float.{Float, Machine, nil, fabs}
use gearsonic_inference.Control.Commands.{MotorCommand}
use gearsonic_inference.Health.{
  Params, Level, ok, Who, body, casing, winding, Line, fault, fault_cleared, not_responding,
  producing_torque_again, state_frozen, updating_again, temp_transition,
}

-- MotorState of include/unitree/unitree_state.hpp.
pub record MotorState (Real : Type 0) : Type 0 where
  pub q : Real
  pub dq : Real
  pub tau : Real
  pub temp_casing : ℤ
  pub temp_winding : ℤ
  pub error : ℕ

pub record BodyTrack (m : Machine) : Type 0 where
  pub error_last : ℕ
  pub casing_level : Level
  pub winding_level : Level
  pub unresp_s : m.f32.Real
  pub unresp : Bool
  pub frozen_s : m.f32.Real
  pub frozen : Bool
  pub q_last : m.f64.Real
  pub cmd_at_freeze_start : m.f32.Real
  pub have_last : Bool

-- A changed fault word, of a motor or of a hand.
unfoldable pub fault_lines : ℕ → ℕ → Who → List Line
fault_lines error error_last who =
    if error == error_last
    then []
    else if error == 0
    then fault_cleared who error_last ∷ []
    else fault who error ∷ []

module _ (m : Machine) where
  open m use {f32, f64, narrow, widen}
  open f64 use {Real, add, sub, mul, lt, le}

  abbrev pub fresh_track : BodyTrack m
  fresh_track = record {
    error_last = 0;
    casing_level = ok;
    winding_level = ok;
    unresp_s = nil f32;
    unresp = false;
    frozen_s = nil f32;
    frozen = false;
    q_last = nil f64;
    cmd_at_freeze_start = nil f32;
    have_last = false;
  }

  -- Motor i's value in one of the command's arrays, as a double.
  abbrev at : List f32.Real → ℕ → Real
  at xs i = widen (get_or xs i (nil f32))

  -- The torque that the command asks for.
  unfoldable pub expected : ℕ → MotorState Real → MotorCommand f32.Real → Real
  expected i s cmd =
      add
        (add (mul (at cmd.kp i) (sub (at cmd.q_target i) s.q))
          (mul (at cmd.kd i) (sub (at cmd.dq_target i) s.dq)))
        (at cmd.tau_ff i)

  abbrev pub asked : Params f32.Real → ℕ → MotorState Real → MotorCommand f32.Real → Bool
  asked p i s cmd = lt (widen p.unresp_tau_min) (fabs f64 (expected i s cmd))

  -- The torque is asked for, and seen.
  abbrev pub confirmed : Params f32.Real → ℕ → MotorState Real → MotorCommand f32.Real → Bool
  confirmed p i s cmd =
      asked p i s cmd
      && le (mul (widen p.unresp_tau_ratio) (fabs f64 (expected i s cmd))) (fabs f64 s.tau)

  abbrev pub missing : Params f32.Real → ℕ → MotorState Real → MotorCommand f32.Real → Bool
  missing p i s cmd =
      asked p i s cmd
      && lt (fabs f64 s.tau) (mul (widen p.unresp_tau_ratio) (fabs f64 (expected i s cmd)))

  -- NOT RESPONDING.
  unfoldable pub respond :
      Params f32.Real
      → ℕ
      → MotorState Real
      → Option (MotorCommand f32.Real)
      → f32.Real
      → BodyTrack m
      → BodyTrack m × List Line
  respond p i s none dt t = (record t { unresp_s = nil f32 }, [])
  respond p i s (some cmd) dt t =
      let long = if missing p i s cmd then f32.add t.unresp_s dt else nil f32 in
      if not t.unresp && f32.le p.unresp_time_s long
      then (record t { unresp_s = long; unresp = true }, not_responding i ∷ [])
      else if t.unresp && confirmed p i s cmd
      then (record t { unresp_s = long; unresp = false }, producing_torque_again i ∷ [])
      else (record t { unresp_s = long }, [])

  -- `==` of two floating-point values.
  abbrev same : (f : Float) → f.Real → f.Real → Bool
  same f a b = f.le a b && f.le b a

  abbrev start_freeze : ℕ → Option (MotorCommand f32.Real) → BodyTrack m → f32.Real
  start_freeze i none t = t.cmd_at_freeze_start
  start_freeze i (some cmd) t =
      if same f32 t.frozen_s (nil f32)
      then get_or cmd.q_target i (nil f32)
      else t.cmd_at_freeze_start

  -- The command has moved since the freeze began.
  abbrev cmd_moved : Params f32.Real → ℕ → Option (MotorCommand f32.Real) → f32.Real → Bool
  cmd_moved p i none start = false
  cmd_moved p i (some cmd) start =
      f32.lt p.frozen_cmd_move (fabs f32 (f32.sub (get_or cmd.q_target i (nil f32)) start))

  -- STATE FROZEN, of a motor that has a last value.
  unfoldable pub freeze :
      Params f32.Real
      → ℕ
      → MotorState Real
      → Option (MotorCommand f32.Real)
      → f32.Real
      → BodyTrack m
      → BodyTrack m × List Line
  freeze p i s cmd dt t =
      let still = same f64 s.q t.q_last in
      let start = if still then start_freeze i cmd t else t.cmd_at_freeze_start in
      let long = if still then f32.add t.frozen_s dt else nil f32 in
      let t' = record t { cmd_at_freeze_start = start; frozen_s = long } in
      if not t.frozen && f32.le p.frozen_time_s long && cmd_moved p i cmd start
      then (record t' { frozen = true }, state_frozen i ∷ [])
      else if t.frozen && not still
      then (record t' { frozen = false }, updating_again i ∷ [])
      else (t', [])

  -- The track after one step, and the lines. dt is static_cast<float>(dt_s).
  unfoldable pub step_body_motor :
      Params f32.Real
      → ℕ
      → MotorState Real
      → Option (MotorCommand f32.Real)
      → f32.Real
      → BodyTrack m
      → BodyTrack m × List Line
  step_body_motor p i s cmd dt t =
      let (hot_casing, casing_lines) =
        temp_transition t.casing_level s.temp_casing p.casing_warn_c p.casing_critical_c casing
          (body i) in
      let (hot_winding, winding_lines) =
        temp_transition t.winding_level s.temp_winding p.winding_warn_c p.winding_critical_c winding
          (body i) in
      let t' = record t {
        error_last = s.error;
        casing_level = hot_casing;
        winding_level = hot_winding;
      } in
      let (responding, response_lines) = respond p i s cmd dt t' in
      let (updating, freeze_lines) =
        if t.have_last then freeze p i s cmd dt responding else (responding, []) in
      (
        record updating { q_last = s.q; have_last = true },
        fault_lines s.error t.error_last (body i)
            ++ (casing_lines ++ (winding_lines ++ (response_lines ++ freeze_lines))),
      )
