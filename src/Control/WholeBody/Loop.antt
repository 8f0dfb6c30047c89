-- ===== src/Control/WholeBody/Loop.antt =====
-- tick_vla, tick_recovery, tick_control and one turn of loop of
-- src/control/whole_body_controller.cpp. `none` is a read through a null token pointer.
use gearsonic_inference.Common.{
  ℕ, ◌+◌, ◌-◌, ◌%◌, ◌^◌, Bool, true, false, ◌&&◌, ◌||◌, not, Option, none, some, List, [], ◌∷◌,
  ◌++◌, if◌then◌else◌, ltb, ◌==◌, ◌>>=◌,
}
use gearsonic_inference.Common.Float.{Machine}
use gearsonic_inference.Control.Arbiter.{
  Mode, normal, teleop, vla, recovering, recovery_blend_done, arm_handoff, select_token,
}
use gearsonic_inference.Control.StateLogger.{log}
use gearsonic_inference.Control.Commands.{damping, base_hold}
use gearsonic_inference.Control.WholeBody.{
  State, init, wait_for_control, control, estopped, state_code, state_grace_ticks,
  disarm_locomotion, reinit_heading, Entry, Readings, Controller, gather_robot_state, blank_entry,
  Turn, tick_init, drop_playback, next_playback, update_arbiter, record_token, decode_and_publish,
}

module _ (m : Machine) where
  open m use {f32, f64}
  open f64 use {Real}

  -- PlannerInference::request_reinit.
  unfoldable pub request_reinit : Controller f32.Real Real → Controller f32.Real Real
  request_reinit w = record w { requested = (w.requested + 1) % 2 ^ 64 }

  unfoldable pub tick_vla :
      Controller f32.Real Real → Readings f32.Real Real → Option (Controller f32.Real Real)
  unfolding decode_and_publish
  tick_vla w r = elim r.vla [
    | none ↦ some w
    | some t ↦ do
      (a, token) ← select_token f32 w.arbiter none (some t)
      some (decode_and_publish m (record w { arbiter = a }) r token)
  ]

  -- The reseed is asked for once, when the standing blend has landed.
  unfoldable pub reseed_ticket : Controller f32.Real Real → Controller f32.Real Real
  unfolding request_reinit
  reseed_ticket w =
      if recovery_blend_done f32 w.arbiter && not w.ticket_issued
      then record (request_reinit w) { ticket = (request_reinit w).requested; ticket_issued = true }
      else w

  unfoldable pub tick_recovery :
      Controller f32.Real Real → Readings f32.Real Real → Option (Controller f32.Real Real)
  unfolding reseed_ticket decode_and_publish
  tick_recovery w r = do
    (a, token) ← select_token f32 w.arbiter none none
    some (decode_and_publish m (reseed_ticket (record w { arbiter = a })) r token)

  -- The edges of the two teleop targets.
  unfoldable pub vr3_edge :
      Controller f32.Real Real → Readings f32.Real Real → Controller f32.Real Real
  vr3_edge w r =
      if (r.vr3_present && not w.last_vr3) || (not r.vr3_present && w.last_vr3)
      then record w { last_vr3 = r.vr3_present; arbiter = arm_handoff f32 w.arbiter }
      else w

  unfoldable pub smpl_edge : Controller f32.Real Real → Readings f32.Real Real → Turn m
  smpl_edge w r =
      if (r.smpl_present && not w.last_smpl) || (not r.smpl_present && w.last_smpl)
      then (
        record w { last_smpl = r.smpl_present; arbiter = arm_handoff f32 w.arbiter },
        reinit_heading ∷ disarm_locomotion ∷ [],
      )
      else (w, [])

  -- TokenEncoder::mode after a step.
  unfoldable pub encoder_mode : Readings f32.Real Real → ℕ
  encoder_mode r = if r.smpl_present then 2 else if r.vr3_present then 1 else 0

  -- The end of a tick with an encoded token: the decoder, the sample and the playback.
  unfoldable pub finish_motion :
      Controller f32.Real Real → Readings f32.Real Real → List f32.Real → Turn m
  unfolding encoder_mode
  finish_motion w r token = elim (r.decode token) [
    | none ↦ (w, [])
    | some out ↦
        next_playback m
          (record_token m (record w { command = some out.0; last_action = out.1 }) token
            (encoder_mode r))
          r
  ]

  unfoldable pub encode_motion :
      Option (List f32.Real) → Controller f32.Real Real → Readings f32.Real Real → Option (Turn m)
  unfolding finish_motion
  encode_motion none w r = some (w, [])
  encode_motion (some t) w r = do
    (a, token) ← select_token f32 w.arbiter (some t) none
    some (finish_motion (record w { arbiter = a }) r token)

  -- The planner and encoder path, of kNormal and kTeleop.
  unfoldable pub tick_motion : Controller f32.Real Real → Readings f32.Real Real → Option (Turn m)
  unfolding vr3_edge smpl_edge encode_motion
  tick_motion w r = if w.playback.motion.timesteps == 0 then some (next_playback m w r) else do
    let (w', effects) = smpl_edge (vr3_edge w r) r
    (w'', more) ← encode_motion r.encoded w' r
    some (w'', effects ++ more)

  unfoldable pub tick_mode :
      Mode → Controller f32.Real Real → Readings f32.Real Real → Option (Turn m)
  tick_mode vla w r = tick_vla w r >>= λ w'. some (w', [])
  tick_mode recovering w r = tick_recovery w r >>= λ w'. some (w', [])
  tick_mode normal w r = tick_motion w r
  tick_mode teleop w r = tick_motion w r

  -- tick_control once the robot's state is logged and no reseed is waited for.
  unfoldable pub tick_owner : Controller f32.Real Real → Readings f32.Real Real → Option (Turn m)
  unfolding tick_mode
  tick_owner w r = do
    let (w', effects) = update_arbiter m w r
    (w'', more) ← tick_mode w'.arbiter.mode w' r
    some (w'', effects ++ more)

  -- A post-loss reseed that the planner has not acknowledged.
  unfoldable pub awaits_reseed : Controller f32.Real Real → Readings f32.Real Real → Bool
  awaits_reseed w r = ltb 0 w.state_ticket && ltb r.reinit_done w.state_ticket

  unfoldable pub tick_control : Controller f32.Real Real → Readings f32.Real Real → Option (Turn m)
  unfolding tick_owner awaits_reseed
  tick_control w r = elim (gather_robot_state m r.robot w.last_action) [
    | none ↦ some (w, [])
    | some e ↦
        let w' = record w { logger = log (Entry Real) (blank_entry m) w.logger e } in
        if awaits_reseed w' r then some (w', []) else tick_owner (record w' { state_ticket = 0 }) r
  ]

  -- A turn without a fresh state.
  unfoldable pub lose : Controller f32.Real Real → Controller f32.Real Real
  lose w =
      let n = w.missing + 1 in
      let from =
        if n == state_grace_ticks + 1
        then elim w.command [ none ↦ w.base_ramp_from | some last ↦ last ]
        else w.base_ramp_from in
      record w {
        missing = n;
        base_ramp_from = from;
        command =
            if ltb state_grace_ticks n
            then some (base_hold m (n - state_grace_ticks) from)
            else w.command;
      }

  -- The state is back.
  unfoldable pub recover : Controller f32.Real Real → Turn m
  unfolding request_reinit
  recover w =
      if ltb state_grace_ticks w.missing && state_code w.state == 2
      then (
        record (request_reinit (drop_playback m w)) {
          state_ticket = (request_reinit w).requested;
          missing = 0;
        },
        disarm_locomotion ∷ [],
      )
      else (record w { missing = 0 }, [])

  unfoldable pub tick_state :
      State → Controller f32.Real Real → Readings f32.Real Real → Option (Turn m)
  unfolding tick_control
  tick_state init w r = some (tick_init m w r, [])
  tick_state wait_for_control w r =
      some (if r.operator_start || w.auto_start then record w { state = control } else w, [])
  tick_state control w r = tick_control w r
  tick_state estopped w r = some (w, [])

  -- The operator's stop comes first, then the loss of the state, then the state's tick.
  unfoldable pub gates :
      Bool → Bool → Controller f32.Real Real → Readings f32.Real Real → Option (Turn m)
  unfolding lose recover tick_state
  gates true fresh w r = some (record w { state = estopped; command = some (damping m) }, [])
  gates false false w r = some (lose w, [])
  gates false true w r = do
    let (w', effects) = recover w
    (w'', more) ← tick_state w'.state w' r
    some (w'', effects ++ more)

  -- One turn of the loop.
  unfoldable pub turn : Controller f32.Real Real → Readings f32.Real Real → Option (Turn m)
  unfolding gates
  turn w r = gates r.estop r.state_fresh w r

  -- The loop over the turns' readings.
  unfoldable pub turns :
      Controller f32.Real Real → List (Readings f32.Real Real) → Option (Controller f32.Real Real)
  turns w [] = some w
  turns w (r ∷ rs) = turn w r >>= λ w'. turns w'.0 rs
