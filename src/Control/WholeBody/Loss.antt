-- ===== src/Control/WholeBody/Loss.antt =====
-- The loss of the robot's state in WholeBodyController's loop: the grace, then the base hold.
use gearsonic_inference.Common.{
  Bool-cases, inl, inr, ℕ, suc, ◌+◌, ◌-◌, ◌<◌, false, some, List, [], ◌≡◌, refl, ap, subst, ◌∙◌,
  All, length, if◌then◌else◌, leb, arith,
}
use gearsonic_inference.Common.Float.{Machine}
use gearsonic_inference.Robot.Params.{kps, kds}
use gearsonic_inference.Control.Playback.{Playback}
use gearsonic_inference.Control.Commands.{MotorCommand, base_hold, ramp}
use gearsonic_inference.Control.WholeBody.{State, Readings, Controller}
use gearsonic_inference.Control.WholeBody.Keep.{turns-Gives}
use gearsonic_inference.Control.WholeBody.Loop.{gates, lose, turn, turns}

module _ (m : Machine) where
  open m use {f32, f64}
  open f64 use {Real}

  -- What the robot is told after n turns without its state, if c was the last command.
  pub held : MotorCommand f32.Real → ℕ → MotorCommand f32.Real
  held c n = if leb n 25 then c else base_hold m (n - 25) c

  -- The loop after n turns without the state.
  record IsLost (c : MotorCommand f32.Real) (s : State) (p : Playback Real) (n : ℕ)
      (w : Controller f32.Real Real) : Type 0 where
    missing_is : w.missing ≡ n
    command_is : w.command ≡ some (held c n)
    from : 25 < n → w.base_ramp_from ≡ c
    state_is : w.state ≡ s
    playback_is : w.playback ≡ p

  lose-IsLost :
      (c : MotorCommand f32.Real) (s : State) (p : Playback Real) (n : ℕ)
      (w : Controller f32.Real Real)
      → IsLost c s p n w
      → IsLost c s p (suc n) (lose m w)
  unfolding lose held
  lose-IsLost c s p n w h = record {
    missing_is = grind (arith, h.missing_is);
    command_is = grind (arith, h.missing_is, h.command_is, h.from);
    from = grind (arith, h.missing_is, h.command_is, h.from);
    state_is = h.state_is;
    playback_is = h.playback_is;
  }

  -- A turn without the stop held and without a fresh state.
  abbrev pub Misses : Readings f32.Real Real → Type 0
  Misses r = (r.estop ≡ false) × (r.state_fresh ≡ false)

  missing_turn :
      (w : Controller f32.Real Real) (r : Readings f32.Real Real)
      → Misses r
      → turn m w r ≡ some (lose m w, [])
  unfolding turn gates
  missing_turn w r (running, stale) =
      ap (λ b. gates m b r.state_fresh w r) running ∙ ap (λ b. gates m false b w r) stale

  -- The base hold never damps: it has the policy's gains.
  held_gains :
      (c : MotorCommand f32.Real) (n : ℕ)
      → ((held c n).kp ≡ (if leb n 25 then c.kp else kps m))
        × ((held c n).kd ≡ (if leb n 25 then c.kd else kds m))
  unfolding held base_hold ramp
  held_gains c n = elim (Bool-cases (leb n 25)) [
    | inl early ↦ rw early (refl, refl)
    | inr late ↦ rw late (refl, refl)
  ]

  -- Over n turns without the robot's state and without the stop, the robot keeps the last
  -- command c through the first 25 turns. From then on it is told the ramp from c to the base pose, at
  -- the (n - 25)-th step, with the policy's gains. The state and the playback are kept.
  pub loss_holds :
      (w : Controller f32.Real Real) (c : MotorCommand f32.Real)
      (rs : List (Readings f32.Real Real))
      → w.missing ≡ 0
      → w.command ≡ some c
      → All Misses rs
      → (w' : Controller f32.Real Real) × (turns m w rs ≡ some w')
        × (w'.command ≡ some (held c (length rs)))
        × ((held c (length rs)).kp ≡ (if leb (length rs) 25 then c.kp else kps m))
        × ((held c (length rs)).kd ≡ (if leb (length rs) 25 then c.kd else kds m))
        × (w'.missing ≡ length rs)
        × (w'.state ≡ w.state)
        × (w'.playback ≡ w.playback)
  loss_holds w c rs fresh last lost =
      let start : IsLost c w.state w.playback 0 w = record {
        missing_is = fresh;
        command_is = unfold held in last;
        from = λ h. absurd (omega arith);
        state_is = refl;
        playback_is = refl;
      } in
      let (w', e, h0) =
        turns-Gives m (IsLost c w.state w.playback) Misses
          (λ n w r h miss. (_, missing_turn w r miss, lose-IsLost c _ _ n w h)) 0 w rs start lost in
      let count : 0 + length rs ≡ length rs = omega arith in
      let h = subst (λ k. IsLost c w.state w.playback k w') count h0 in
      let (kp_is, kd_is) = held_gains c (length rs) in
      (w', e, h.command_is, kp_is, kd_is, h.missing_is, h.state_is, h.playback_is)
