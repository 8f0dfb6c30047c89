-- ===== src/Control/WholeBody/Totality.antt =====
-- WholeBodyController's loop: every turn returns, keeps the parts' invariants and moves the state
-- along the diagram of the header's `enum class State`.
use gearsonic_inference.Common.{
  ◌+◌, Bool, true, false, ◌&&◌, ◌||◌, some, List, [], ◌∷◌, ◌≡◌, refl, sym, subst, inl, inr, All,
  ltb, leb, ◌==◌, Bool-cases, Option-cases,
}
use gearsonic_inference.Common.Float.{Machine}
use gearsonic_inference.Control.Commands.{init_ticks}
use gearsonic_inference.Control.StateLogger.{log}
use gearsonic_inference.Control.StateLogger.History.{log-Keeps}
use gearsonic_inference.Control.Playback.{start_over}
use gearsonic_inference.Control.Playback.Timeline.{start_over-IsTimeline}
use gearsonic_inference.Control.WholeBody.{
  State, init, wait_for_control, control, estopped, state_code, state_grace_ticks, Entry, Readings,
  Controller, gather_robot_state, blank_entry, Turn, tick_init, update_arbiter,
}
use gearsonic_inference.Control.WholeBody.Parts.{
  IsHealthy, IsSupplied, Stays, StaysTurn, with_playback,
}
use gearsonic_inference.Control.WholeBody.Keep.{Gives, Gives->>=, turns-Gives}
use gearsonic_inference.Control.WholeBody.Loop.{
  request_reinit, tick_mode, tick_owner, tick_control, awaits_reseed, lose, recover, tick_state,
  gates, turn, turns,
}
use gearsonic_inference.Control.WholeBody.Modes.{tick_mode-Gives, update_arbiter-Stays}

-- One turn's change of the state; the Bool is the operator's e-stop.
pub data Step : Bool → State → State → Type 0 where
  stop : (s : State) → Step true s estopped
  stay : (s : State) → Step false s s
  ramp_done : Step false init wait_for_control
  start : Step false wait_for_control control

module _ (m : Machine) where
  open m use {f32, f64}
  open f64 use {Real}

  tick_owner-Gives :
      (w : Controller f32.Real Real) (r : Readings f32.Real Real) (s : State)
      → Stays m s w
      → IsSupplied m r
      → Gives (StaysTurn m s) (tick_owner m w r)
  unfolding tick_owner
  tick_owner-Gives w r s h given =
      let t = update_arbiter m w r in
      Gives->>= (tick_mode m t.0.arbiter.mode t.0 r) _
        (tick_mode-Gives m t.0.arbiter.mode t.0 r s refl (update_arbiter-Stays m w r s h) given)
        (λ x p. (_, refl, p))

  -- The entry is logged.
  logged :
      (w : Controller f32.Real Real) (s : State) (e : Entry Real)
      → Stays m s w
      → Stays m s (record w { logger = log (Entry Real) (blank_entry m) w.logger e })
  logged w s e (h, same) =
      let (past, kept) = h.logger_is in
      (
        record {
          arbiter_is = h.arbiter_is;
          playback_is = h.playback_is;
          logger_is = (e ∷ past, log-Keeps (Entry Real) (blank_entry m) w.logger past e kept);
          sample_dim = h.sample_dim;
        },
        same,
      )

  tick_control-Gives :
      (w : Controller f32.Real Real) (r : Readings f32.Real Real) (s : State)
      → Stays m s w
      → IsSupplied m r
      → Gives (StaysTurn m s) (tick_control m w r)
  unfolding tick_control
  tick_control-Gives w r s h given =
      elim (Option-cases (gather_robot_state m r.robot w.last_action)) [
        | inl e ↦ rw (e, tick_control) ((w, []), refl, h)
        | inr (x, e) ↦
            let w' = record w { logger = log (Entry Real) (blank_entry m) w.logger x } in
            elim (Bool-cases (awaits_reseed m w' r)) [
              | inl waits ↦ rw (e, waits, tick_control) ((w', []), refl, logged w s x h)
              | inr goes ↦
                  rw (e, goes, tick_control)
                    (tick_owner-Gives (record w' { state_ticket = 0 }) r s (logged w s x h) given)
            ]
      ]

  -- The parts are healthy, and the state has moved by a step.
  abbrev Moves : Bool → State → Turn m → Type 0
  Moves b s t = IsHealthy m t.0 × Step b s t.0.state

  tick_init-Moves :
      (w : Controller f32.Real Real) (r : Readings f32.Real Real)
      → Stays m init w
      → Moves false init (tick_init m w r, [])
  unfolding tick_init
  tick_init-Moves w r h = elim (Option-cases r.robot) [
    | inl e ↦ rw (e, tick_init) (h.0, subst (Step false init) (sym h.1) (stay init))
    | inr (st, e) ↦ elim (Bool-cases (leb init_ticks (w.init_count + 1))) [
      | inl d ↦ rw (e, d, tick_init) (h.0, ramp_done)
      | inr d ↦ rw (e, d, tick_init) (h.0, subst (Step false init) (sym h.1) (stay init))
    ]
  ]

  tick_state-Gives :
      (s : State) (w : Controller f32.Real Real) (r : Readings f32.Real Real)
      → Stays m s w
      → IsSupplied m r
      → Gives (Moves false s) (tick_state m s w r)
  unfolding tick_state
  tick_state-Gives init w r h given = (_, refl, tick_init-Moves w r h)
  tick_state-Gives wait_for_control w r h given =
      elim (Bool-cases (r.operator_start || w.auto_start)) [
        | inl e ↦ rw e (_, refl, (h.0, start))
        | inr e ↦
            rw e (
              _,
              refl,
              (h.0, subst (Step false wait_for_control) (sym h.1) (stay wait_for_control)),
            )
      ]
  tick_state-Gives control w r h given =
      let (t, e, p) = tick_control-Gives w r control h given in
      (t, e, (p.0, subst (Step false control) (sym p.1) (stay control)))
  tick_state-Gives estopped w r h given =
      (_, refl, (h.0, subst (Step false estopped) (sym h.1) (stay estopped)))

  recover-Stays :
      (w : Controller f32.Real Real) (s : State) → Stays m s w → StaysTurn m s (recover m w)
  unfolding recover request_reinit
  recover-Stays w s h =
      elim (Bool-cases (ltb state_grace_ticks w.missing && state_code w.state == 2)) [
        | inl e ↦
            rw (e, recover) (with_playback m w s (start_over Real) h (start_over-IsTimeline f64))
        | inr e ↦ rw (e, recover) h
      ]

  gates-Gives :
      (stopped fresh : Bool) (w : Controller f32.Real Real) (r : Readings f32.Real Real)
      → IsHealthy m w
      → IsSupplied m r
      → Gives (Moves stopped w.state) (gates m stopped fresh w r)
  unfolding gates lose
  gates-Gives true fresh w r h given = (_, refl, (h, stop w.state))
  gates-Gives false false w r h given = (_, refl, (h, stay w.state))
  gates-Gives false true w r h given =
      let back = recover m w in
      let h' = recover-Stays w w.state (h, refl) in
      Gives->>= (tick_state m back.0.state back.0 r) _
        (tick_state-Gives back.0.state back.0 r (h'.0, refl) given)
        (λ t p. (_, refl, (p.0, subst (λ s. Step false s t.0.state) h'.1 p.1)))

  turn-Gives :
      (w : Controller f32.Real Real) (r : Readings f32.Real Real)
      → IsHealthy m w
      → IsSupplied m r
      → Gives (Moves r.estop w.state) (turn m w r)
  unfolding turn
  turn-Gives w r h given = gates-Gives r.estop r.state_fresh w r h given

  -- From healthy parts, and with tokens of 64 floats and plans with frames from outside, the loop
  -- runs through any turns: no turn reads through a null token pointer, whichever values come and
  -- go between the turns, and the parts are healthy after each.
  pub turns_total :
      (w : Controller f32.Real Real) (rs : List (Readings f32.Real Real))
      → IsHealthy m w
      → All (IsSupplied m) rs
      → (w' : Controller f32.Real Real) × (turns m w rs ≡ some w') × IsHealthy m w'
  turns_total w rs h given =
      turns-Gives m (λ _. IsHealthy m) (IsSupplied m)
        (λ _ w r h now. let (t, e, p) = turn-Gives w r h now in (t, e, p.0)) 0 w rs h given

  -- One turn moves the state to ESTOP exactly as the operator's stop is held; without it the state
  -- stays, or INIT is done, or control starts, and nothing else moves the state.
  turn-Step :
      (w : Controller f32.Real Real) (r : Readings f32.Real Real)
      → IsHealthy m w
      → IsSupplied m r
      → (t : Turn m) × (turn m w r ≡ some t) × Step r.estop w.state t.0.state
  turn-Step w r h given = let (t, e, p) = turn-Gives w r h given in (t, e, p.1)
