-- ===== src/Control/WholeBody/Reseed.antt =====
-- The reseed of the planner after a long loss of the robot's state, in WholeBodyController's loop.
use gearsonic_inference.Common.{
  ℕ, ◌+◌, ◌^◌, ◌<◌, true, false, ◌&&◌, Option, some, List, [], ◌∷◌, ◌≡◌, refl, ap, ◌∙◌, ◌++◌, ◌>>=◌,
  All, ltb, ◌==◌, arith, Option-cases, inl, inr,
}
use gearsonic_inference.Common.Float.{Machine}
use gearsonic_inference.Control.Playback.{start_over}
use gearsonic_inference.Control.StateLogger.{log}
use gearsonic_inference.Control.Commands.{MotorCommand}
use gearsonic_inference.Control.WholeBody.{
  control, state_code, state_grace_ticks, Entry, Readings, Controller, gather_robot_state,
  blank_entry,
}
use gearsonic_inference.Control.WholeBody.Keep.{Gives, Gives->>=, turns-Gives}
use gearsonic_inference.Control.WholeBody.Loop.{
  gates, recover, request_reinit, tick_control, awaits_reseed, tick_state, turn, turns,
}

module _ (m : Machine) where
  open m use {f32, f64}
  open f64 use {Real}

  -- A controller that waits for the planner to acknowledge the ticket, and tells the robot nothing
  -- new.
  pub record IsWaiting (c : Option (MotorCommand f32.Real)) (ticket : ℕ)
      (w : Controller f32.Real Real) : Type 0 where
    pub state_is : w.state ≡ control
    pub command_is : w.command ≡ c
    pub playback_is : w.playback ≡ start_over Real
    pub ticket_is : w.state_ticket ≡ ticket
    pub missing_is : w.missing ≡ 0

  -- The state is there, the stop is not held, and the ticket is not acknowledged.
  abbrev pub Awaits : ℕ → Readings f32.Real Real → Type 0
  Awaits ticket r = (r.estop ≡ false) × (r.state_fresh ≡ true) × (r.reinit_done < ticket)

  tick_control-IsWaiting :
      (c : Option (MotorCommand f32.Real)) (ticket : ℕ) (w : Controller f32.Real Real)
      (r : Readings f32.Real Real)
      → IsWaiting c ticket w
      → r.reinit_done < ticket
      → Gives (λ t. IsWaiting c ticket t.0) (tick_control m w r)
  unfolding tick_control awaits_reseed
  tick_control-IsWaiting c ticket w r h early =
      elim (Option-cases (gather_robot_state m r.robot w.last_action)) [
        | inl e ↦ rw (e, tick_control) ((w, []), refl, h)
        | inr (x, e) ↦
            let w' = record w { logger = log (Entry Real) (blank_entry m) w.logger x } in
            let waits : awaits_reseed m w' r ≡ true = grind (arith, h.ticket_is) in
            rw (e, waits, tick_control)
              (
                (w', []),
                refl,
                record {
                  state_is = h.state_is;
                  command_is = h.command_is;
                  playback_is = h.playback_is;
                  ticket_is = h.ticket_is;
                  missing_is = h.missing_is;
                },
              )
      ]

  fresh_turn :
      (w : Controller f32.Real Real) (r : Readings f32.Real Real)
      → r.estop ≡ false
      → r.state_fresh ≡ true
      → turn m w r ≡ gates m false true w r
  unfolding turn
  fresh_turn w r running fresh =
      ap (λ b. gates m b r.state_fresh w r) running ∙ ap (λ b. gates m false b w r) fresh

  -- A turn of a controller that waits once its loss is handled.
  wait_turn :
      (c : Option (MotorCommand f32.Real)) (ticket : ℕ) (w : Controller f32.Real Real)
      (r : Readings f32.Real Real)
      → IsWaiting c ticket (recover m w).0
      → Awaits ticket r
      → Gives (λ t. IsWaiting c ticket t.0) (turn m w r)
  unfolding gates tick_state
  wait_turn c ticket w r h (running, fresh, early) =
      let w' = (recover m w).0 in
      let ticks : tick_state m w'.state w' r ≡ tick_control m w' r =
        ap (λ s. tick_state m s w' r) h.state_is in
      let (t, e, p) = tick_control-IsWaiting c ticket w' r h early in
      (
        _,
        fresh_turn w r running fresh
            ∙ ap (λ o. o >>= λ x. some (x.0, (recover m w).1 ++ x.1)) (ticks ∙ e),
        p,
      )

  recover-IsWaiting :
      (c : Option (MotorCommand f32.Real)) (ticket : ℕ) (w : Controller f32.Real Real)
      → IsWaiting c ticket w
      → IsWaiting c ticket (recover m w).0
  unfolding recover
  recover-IsWaiting c ticket w h =
      let short : (ltb state_grace_ticks w.missing && state_code w.state == 2) ≡ false =
        ground (arith, h.missing_is) in
      rw (short, recover)
        record {
          state_is = h.state_is;
          command_is = h.command_is;
          playback_is = h.playback_is;
          ticket_is = h.ticket_is;
          missing_is = refl;
        }

  -- The long loss is over.
  recover_after_loss :
      (w : Controller f32.Real Real)
      → w.state ≡ control
      → 25 < w.missing
      → w.requested + 1 < 2 ^ 64
      → IsWaiting w.command (w.requested + 1) (recover m w).0
  unfolding recover request_reinit
  recover_after_loss w in_control long room =
      let late : (ltb state_grace_ticks w.missing && state_code w.state == 2) ≡ true =
        ground (arith, ap state_code in_control) in
      rw (late, recover)
        record {
          state_is = in_control;
          command_is = refl;
          playback_is = refl;
          ticket_is = omega (arith, room);
          missing_is = refl;
        }

  -- When the robot's state is back after more than 25 turns in CONTROL, the loop holds the command
  -- that it had (the base hold) with an empty playback, over all turns in which the planner has not
  -- acknowledged the reseed that was asked for: no plan from before the loss is adopted, whatever is
  -- in the planner's buffer.
  pub reseed_waits :
      (w : Controller f32.Real Real) (r : Readings f32.Real Real)
      (rs : List (Readings f32.Real Real))
      → w.state ≡ control
      → 25 < w.missing
      → w.requested + 1 < 2 ^ 64
      → All (Awaits (w.requested + 1)) (r ∷ rs)
      → (w' : Controller f32.Real Real) × (turns m w (r ∷ rs) ≡ some w')
        × IsWaiting w.command (w.requested + 1) w'
  unfolding turns
  reseed_waits w r rs in_control long room early =
      let ticket = w.requested + 1 in
      Gives->>= (turn m w r) _
        (wait_turn w.command ticket w r (recover_after_loss w in_control long room) early.0)
        (λ t p.
          turns-Gives m (λ _. IsWaiting w.command ticket) (Awaits ticket)
            (λ _ w' r h now.
              wait_turn w.command ticket w' r (recover-IsWaiting w.command ticket w' h) now)
            0 t.0 rs p early.1)
