-- ===== src/Hands/Message/Stop.antt =====
-- What the hands are told on an emergency stop and at shutdown.
use gearsonic_inference.Common.{
  ◌+◌, true, ◌≡◌, refl, ap, ◌∙◌, All, length, ◌++◌, List, [], ◌∷◌, map, replicate, arith,
}
use gearsonic_inference.Common.Float.{Machine, Float, nil}
use gearsonic_inference.Hands.Command.{stop_command}
use gearsonic_inference.Hands.Guard.{Params}
use gearsonic_inference.Hands.Writer.{Writer, Readings, choose, guard_hands, turn}
use gearsonic_inference.Hands.Message.{MotorCmd, fill_from, fill_msg, publish, send_stop, ris_mode}

-- Seven motors, each with the timeout bit and its number, and nothing else.
abbrev pub limp_hand : (f : Float) → List (MotorCmd f.Real)
limp_hand f =
    map (λ i. record { mode = 128 + i; q = nil f; dq = nil f; tau = nil f; kp = nil f; kd = nil f })
      (0 ∷ 1 ∷ 2 ∷ 3 ∷ 4 ∷ 5 ∷ 6 ∷ [])

publish-stop : (f : Float) → publish f (stop_command f, stop_command f) ≡ (limp_hand f, limp_hand f)
unfolding publish fill_msg fill_from ris_mode stop_command
publish-stop f = refl

module _ (m : Machine) where
  open m use {f32, f64}

  turn-stop :
      (p : Params f32.Real) (stale : f64.Real) (w : Writer m) (r : Readings m)
      → r.estop ≡ true
      → (turn m p stale w r).1 ≡ (stop_command f32, stop_command f32)
  unfolding turn choose guard_hands stop_command
  turn-stop p stale w r on = ground (arith, on)

  abbrev pub limp : List (MotorCmd f32.Real) × List (MotorCmd f32.Real)
  limp = (limp_hand f32, limp_hand f32)

  -- What the writer's thread sends over its turns, then what `stop` sends.
  unfoldable pub session :
      Params f32.Real
      → f64.Real
      → Writer m
      → List (Readings m)
      → List (List (MotorCmd f32.Real) × List (MotorCmd f32.Real))
  unfolding turn publish send_stop
  session p stale w [] = send_stop f32 true
  session p stale w (r ∷ rs) =
      let out = turn m p stale w r in publish f32 out.1 ∷ session p stale out.0 rs

  -- While the emergency stop is on, from the writer's state at its first turn to the end of `stop`,
  -- every message tells all seven motors of both hands the timeout bit, zero gains, zero torque and
  -- the position 0: one message per turn, and five of `stop`.
  pub estop_limp :
      (p : Params f32.Real) (stale : f64.Real) (w : Writer m) (rs : List (Readings m))
      → All (λ r. r.estop ≡ true) rs
      → session p stale w rs ≡ replicate (length rs) limp ++ replicate 5 limp
  unfolding session send_stop
  estop_limp p stale w [] on = ap (replicate 5) (publish-stop f32)
  estop_limp p stale w (r ∷ rs) (on, later) =
      let out = turn m p stale w r in
      ap (λ c. publish f32 c ∷ session p stale out.0 rs) (turn-stop p stale w r on)
      ∙ ap (λ x. x ∷ session p stale out.0 rs) (publish-stop f32)
      ∙ ap (λ xs. limp ∷ xs) (estop_limp p stale out.0 rs later)
