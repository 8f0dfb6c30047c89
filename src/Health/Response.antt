-- ===== src/Health/Response.antt =====
-- The NOT RESPONDING condition over many steps of a motor.
use gearsonic_inference.Common.{
  ℕ, Bool, true, false, ◌≡◌, Option, none, some, List, [], ◌∷◌, All, arith, if◌then◌else◌,
}
use gearsonic_inference.Common.Float.{Machine}
use gearsonic_inference.Control.Commands.{MotorCommand}
use gearsonic_inference.Health.{Params, body, casing, winding, temp_transition}
use gearsonic_inference.Health.Body.{
  MotorState, BodyTrack, confirmed, respond, freeze, step_body_motor,
}

module _ (m : Machine) where
  open m use {f32, f64}
  open f64 use {Real}

  -- What one step reads of a motor: its state, the command and the time since the last step.
  abbrev pub Reading : Type 0
  Reading = MotorState Real × Option (MotorCommand f32.Real) × f32.Real

  unfoldable pub steps : Params f32.Real → ℕ → BodyTrack m → List Reading → BodyTrack m
  steps p i t [] = t
  steps p i t ((s, cmd, dt) ∷ rest) = steps p i (step_body_motor m p i s cmd dt t).0 rest

  -- The command does not ask for a torque that the motor is seen to give.
  abbrev pub unconfirmed :
      Params f32.Real → ℕ → MotorState Real → Option (MotorCommand f32.Real) → Bool
  unconfirmed p i s none = true
  unconfirmed p i s (some cmd) = if confirmed m p i s cmd then false else true

  respond_keeps :
      (p : Params f32.Real) (i : ℕ) (s : MotorState Real) (cmd : Option (MotorCommand f32.Real))
      (dt : f32.Real) (t : BodyTrack m)
      → t.unresp ≡ true
      → unconfirmed p i s cmd ≡ true
      → (respond m p i s cmd dt t).0.unresp ≡ true
  unfolding respond
  respond_keeps p i s none dt t on un = on
  respond_keeps p i s (some cmd) dt t on un = ground arith

  freeze_keeps :
      (p : Params f32.Real) (i : ℕ) (s : MotorState Real) (cmd : Option (MotorCommand f32.Real))
      (dt : f32.Real) (t : BodyTrack m)
      → (freeze m p i s cmd dt t).0.unresp ≡ t.unresp
  unfolding freeze
  freeze_keeps p i s cmd dt t = ground arith

  step_keeps :
      (p : Params f32.Real) (i : ℕ) (s : MotorState Real) (cmd : Option (MotorCommand f32.Real))
      (dt : f32.Real) (t : BodyTrack m)
      → t.unresp ≡ true
      → unconfirmed p i s cmd ≡ true
      → (step_body_motor m p i s cmd dt t).0.unresp ≡ true
  unfolding step_body_motor
  step_keeps p i s cmd dt t on un =
      let (hot_casing, casing_lines) =
        temp_transition t.casing_level s.temp_casing p.casing_warn_c p.casing_critical_c casing
          (body i) in
      let (hot_winding, winding_lines) =
        temp_transition t.winding_level s.temp_winding p.winding_warn_c p.winding_critical_c winding
          (body i) in
      let t' = record t {
        error_last = s.error;
        casing_level = hot_casing;
        winding_level = hot_winding;
      } in
      ground (
        arith,
        respond_keeps p i s cmd dt t' on un,
        freeze_keeps p i s cmd dt (respond m p i s cmd dt t').0,
      )

  -- A motor that is flagged as not responding stays flagged over any steps in which no command asks for
  -- a torque that the motor is seen to give, whatever else it reports and however long that takes.
  pub unresponsive_stays :
      (p : Params f32.Real) (i : ℕ) (t : BodyTrack m) (rs : List Reading)
      → t.unresp ≡ true
      → All (λ r. unconfirmed p i r.0 r.1 ≡ true) rs
      → (steps p i t rs).unresp ≡ true
  unfolding steps
  unresponsive_stays p i t [] on un = on
  unresponsive_stays p i t ((s, cmd, dt) ∷ rest) on (now, later) =
      unresponsive_stays p i (step_body_motor m p i s cmd dt t).0 rest
        (step_keeps p i s cmd dt t on now) later
