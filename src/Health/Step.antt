-- ===== src/Health/Step.antt =====
-- MotorHealthRules::step, step_hand, body_flags and active_faults.
use gearsonic_inference.Common.{
  ℕ, ◌+◌, not, Option, none, some, List, [], ◌∷◌, ◌++◌, if◌then◌else◌, ◌==◌, of_bool, replicate,
}
use gearsonic_inference.Common.Int.{ℤ}
use gearsonic_inference.Common.Float.{Machine, nil}
use gearsonic_inference.Control.Commands.{MotorCommand}
use gearsonic_inference.Health.{
  Params, Level, ok, is_critical, hand, hand_motor, casing, winding, Line, summary, temp_transition,
}
use gearsonic_inference.Health.Body.{
  MotorState, BodyTrack, fresh_track, fault_lines, step_body_motor,
}

-- HandMotorState and HandState of include/unitree/hand_state.hpp, as far as the rules read them.
pub record HandMotor : Type 0 where
  pub temp_casing : ℤ
  pub temp_winding : ℤ

pub record HandState : Type 0 where
  pub motors : List HandMotor  -- 7
  pub error : ℕ

-- casing_level[i] and winding_level[i].
pub record Levels : Type 0 where
  pub casing_level : Level
  pub winding_level : Level

pub record HandTrack : Type 0 where
  pub error_last : ℕ
  pub levels : List Levels

pub record Rules (m : Machine) : Type 0 where
  pub body : List (BodyTrack m)  -- 29
  pub left : HandTrack
  pub right : HandTrack
  pub summary_s : m.f64.Real

module _ {Real : Type 0} where
  -- The loop over a hand's motors from motor i on.
  unfoldable pub step_hand_motors :
      Params Real → ℕ → ℕ → List HandMotor → List Levels → List Levels × List Line
  unfolding temp_transition
  step_hand_motors p side i (x ∷ xs) (l ∷ ls) =
      let who = hand_motor side i in
      let (hot_casing, casing_lines) =
        temp_transition l.casing_level x.temp_casing p.casing_warn_c p.casing_critical_c casing
          who in
      let (hot_winding, winding_lines) =
        temp_transition l.winding_level x.temp_winding p.winding_warn_c p.winding_critical_c winding
          who in
      let (rest, lines) = step_hand_motors p side (i + 1) xs ls in
      (
        record { casing_level = hot_casing; winding_level = hot_winding } ∷ rest,
        casing_lines ++ (winding_lines ++ lines),
      )
  step_hand_motors p side i [] ls = (ls, [])
  step_hand_motors p side i (x ∷ xs) [] = ([], [])

  -- A hand whose stream is absent keeps its track.
  unfoldable pub step_hand : Params Real → ℕ → Option HandState → HandTrack → HandTrack × List Line
  unfolding step_hand_motors fault_lines
  step_hand p side none t = (t, [])
  step_hand p side (some h) t =
      let (levels, lines) = step_hand_motors p side 0 h.motors t.levels in
      (
        record { error_last = h.error; levels = levels },
        fault_lines h.error t.error_last (hand side) ++ lines,
      )

module _ (m : Machine) where
  open m use {f32, f64, narrow, widen}
  open f64 use {Real, add, lt, le}

  abbrev pub fresh_hand : HandTrack
  fresh_hand = record {
    error_last = 0;
    levels = replicate 7 (record { casing_level = ok; winding_level = ok });
  }

  abbrev pub reset : Rules m
  reset = record {
    body = replicate 29 (fresh_track m);
    left = fresh_hand;
    right = fresh_hand;
    summary_s = nil f64;
  }

  -- The loop over the body's motors from motor i on.
  unfoldable pub step_motors :
      Params f32.Real
      → ℕ
      → List (MotorState Real)
      → Option (MotorCommand f32.Real)
      → f32.Real
      → List (BodyTrack m)
      → List (BodyTrack m) × List Line
  unfolding step_body_motor
  step_motors p i (s ∷ ss) cmd dt (t ∷ ts) =
      let (t', lines) = step_body_motor m p i s cmd dt t in
      let (ts', more) = step_motors p (i + 1) ss cmd dt ts in (t' ∷ ts', lines ++ more)
  step_motors p i [] cmd dt ts = (ts, [])
  step_motors p i (s ∷ ss) cmd dt [] = ([], [])

  abbrev step_body :
      Params f32.Real
      → Option (List (MotorState Real))
      → Option (MotorCommand f32.Real)
      → f32.Real
      → List (BodyTrack m)
      → List (BodyTrack m) × List Line
  unfolding step_motors
  step_body p none cmd dt ts = (ts, [])
  step_body p (some ss) cmd dt ts = step_motors p 0 ss cmd dt ts

  -- The periodic summary: its time, and its line.
  unfoldable pub step_summary : Params f32.Real → Real → Real → Real × List Line
  step_summary p dt summary_s =
      let long = add summary_s dt in
      if not (f32.lt (nil f32) p.summary_period_s)
      then (summary_s, [])
      else if le (widen p.summary_period_s) long
      then (nil f64, summary ∷ [])
      else (long, [])

  -- One step of the rules, from the streams that are there, and its lines.
  unfoldable pub step :
      Params f32.Real
      → Option (List (MotorState Real))
      → Option (MotorCommand f32.Real)
      → Option HandState
      → Option HandState
      → Real
      → Rules m
      → Rules m × List Line
  unfolding step_body step_hand step_summary
  step p body cmd left right dt r =
      let (body', body_lines) = step_body p body cmd (narrow dt) r.body in
      let (left', left_lines) = step_hand p 0 left r.left in
      let (right', right_lines) = step_hand p 1 right r.right in
      let (summary', summary_lines) = step_summary p dt r.summary_s in
      if not p.enabled then (r, []) else (
        record { body = body'; left = left'; right = right'; summary_s = summary' },
        body_lines ++ (left_lines ++ (right_lines ++ summary_lines)),
      )

  -- kFault, kFrozen and kUnresp: 1, 2 and 4.
  abbrev pub body_flags : BodyTrack m → ℕ
  body_flags t =
      (if t.error_last == 0 then 0 else 1)
      + (if t.frozen then 2 else 0)
      + (if t.unresp then 4 else 0)

  abbrev body_faults : BodyTrack m → ℕ
  body_faults t =
      of_bool (not (t.error_last == 0))
      + of_bool t.unresp
      + of_bool t.frozen
      + of_bool (is_critical t.casing_level)
      + of_bool (is_critical t.winding_level)

  abbrev level_faults : List Levels → ℕ
  level_faults [] = 0
  level_faults (l ∷ ls) =
      of_bool (is_critical l.casing_level) + of_bool (is_critical l.winding_level) + level_faults ls

  abbrev hand_faults : HandTrack → ℕ
  hand_faults t = of_bool (not (t.error_last == 0)) + level_faults t.levels

  abbrev tracks_faults : List (BodyTrack m) → ℕ
  tracks_faults [] = 0
  tracks_faults (t ∷ ts) = body_faults t + tracks_faults ts

  unfoldable pub active_faults : Rules m → ℕ
  active_faults r = tracks_faults r.body + hand_faults r.left + hand_faults r.right
