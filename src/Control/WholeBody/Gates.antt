-- ===== src/Control/WholeBody/Gates.antt =====
-- The operator's e-stop in WholeBodyController's loop.
use gearsonic_inference.Common.{
  arith, Bool, true, false, some, List, ◌∷◌, ◌≡◌, refl, All, replicate,
}
use gearsonic_inference.Common.Float.{Machine, of_nat}
use gearsonic_inference.Control.Commands.{MotorCommand, damping}
use gearsonic_inference.Control.WholeBody.{estopped, Readings, Controller}
use gearsonic_inference.Control.WholeBody.Keep.{Gives, Gives->>=, turns-Gives}
use gearsonic_inference.Control.WholeBody.Loop.{gates, turn, turns}

module _ (m : Machine) where
  open m use {f32, f64}
  open f64 use {Real}

  -- A command without stiffness and without torque: it only damps.
  abbrev pub OnlyDamps : MotorCommand f32.Real → Type 0
  OnlyDamps c =
      (c.kp ≡ replicate 29 (of_nat f32 0))
      × (c.kd ≡ replicate 29 (of_nat f32 8))
      × (c.tau_ff ≡ replicate 29 (of_nat f32 0))

  abbrev pub Stopped : Controller f32.Real Real → Type 0
  Stopped w =
      (w.state ≡ estopped) × (c : MotorCommand f32.Real) × (w.command ≡ some c) × OnlyDamps c

  damping-OnlyDamps : OnlyDamps (damping m)
  unfolding damping
  damping-OnlyDamps = (refl, refl, refl)

  stopping :
      (stopped fresh : Bool) (w : Controller f32.Real Real) (r : Readings f32.Real Real)
      → stopped ≡ true
      → Gives (λ t. Stopped t.0) (gates m stopped fresh w r)
  unfolding gates
  stopping true fresh w r e = (_, refl, (refl, damping m, refl, damping-OnlyDamps))
  stopping false fresh w r e = absurd (ground arith)

  -- While the operator's stop is held, from its first turn on, whatever the state was, is missing
  -- or comes back, the state is ESTOP and the motors get zero stiffness, zero torque and a damping
  -- of 8.
  pub estop_is_final :
      (w : Controller f32.Real Real) (r : Readings f32.Real Real)
      (rs : List (Readings f32.Real Real))
      → All (λ r. r.estop ≡ true) (r ∷ rs)
      → (w' : Controller f32.Real Real) × (turns m w (r ∷ rs) ≡ some w') × Stopped w'
  unfolding turns turn
  estop_is_final w r rs held =
      Gives->>= (turn m w r) _ (stopping r.estop r.state_fresh w r held.0) (λ t p.
        turns-Gives m (λ _. Stopped) (λ r. r.estop ≡ true)
          (λ _ w r _ now. stopping r.estop r.state_fresh w r now) 0 t.0 rs p held.1)
