-- ===== src/Control/WholeBody/Modes.antt =====
-- The CONTROL tick of WholeBodyController in each of the arbiter's modes keeps the parts' invariants.
use gearsonic_inference.Common.{
  ◌&&◌, ◌||◌, not, Option, none, some, List, [], ◌≡◌, refl, sym, subst, ◌∙◌, ◌⊎◌, inl, inr, length,
  ◌==◌, Bool-cases, Option-cases,
}
use gearsonic_inference.Common.Float.{Machine}
use gearsonic_inference.Control.Arbiter.{
  Mode, normal, teleop, vla, recovering, token_dim, select_token, arm_handoff, step_mode, is_mode,
}
use gearsonic_inference.Control.Arbiter.Blend.{step_mode-IsValid, arm_handoff-IsValid}
use gearsonic_inference.Control.Playback.{start_over}
use gearsonic_inference.Control.Playback.Timeline.{start_over-IsTimeline}
use gearsonic_inference.Control.WholeBody.{
  State, Readings, Controller, update_arbiter, on_transition, arbiter_inputs,
}
use gearsonic_inference.Control.WholeBody.Parts.{
  IsSupplied, Stays, StaysTurn, with_arbiter, with_playback, record_token-Stays,
  next_playback-Stays, selected, tick_vla-Gives, tick_recovery-Gives,
}
use gearsonic_inference.Control.WholeBody.Keep.{Gives, Gives->>=}
use gearsonic_inference.Control.WholeBody.Loop.{
  tick_vla, tick_recovery, vr3_edge, smpl_edge, finish_motion, encode_motion, tick_motion,
  tick_mode,
}

module _ (m : Machine) where
  open m use {f32, f64}
  open f64 use {Real}

  vr3_edge-Stays :
      (w : Controller f32.Real Real) (r : Readings f32.Real Real) (s : State)
      → Stays m s w
      → Stays m s (vr3_edge m w r) × ((vr3_edge m w r).arbiter.mode ≡ w.arbiter.mode)
  unfolding vr3_edge arm_handoff
  vr3_edge-Stays w r s h =
      elim (Bool-cases ((r.vr3_present && not w.last_vr3) || (not r.vr3_present && w.last_vr3))) [
        | inl e ↦
            rw (e, vr3_edge)
              (with_arbiter m w s _ h (arm_handoff-IsValid f32 w.arbiter h.0.arbiter_is), refl)
        | inr e ↦ rw (e, vr3_edge) (h, refl)
      ]

  smpl_edge-Stays :
      (w : Controller f32.Real Real) (r : Readings f32.Real Real) (s : State)
      → Stays m s w
      → StaysTurn m s (smpl_edge m w r) × ((smpl_edge m w r).0.arbiter.mode ≡ w.arbiter.mode)
  unfolding smpl_edge arm_handoff
  smpl_edge-Stays w r s h =
      elim (Bool-cases
        ((r.smpl_present && not w.last_smpl) || (not r.smpl_present && w.last_smpl))) [
          | inl e ↦
              rw (e, smpl_edge)
                (with_arbiter m w s _ h (arm_handoff-IsValid f32 w.arbiter h.0.arbiter_is), refl)
          | inr e ↦ rw (e, smpl_edge) (h, refl)
        ]

  finish_motion-Stays :
      (w : Controller f32.Real Real) (r : Readings f32.Real Real) (s : State)
      (token : List f32.Real)
      → Stays m s w
      → IsSupplied m r
      → length token ≡ token_dim
      → StaysTurn m s (finish_motion m w r token)
  unfolding finish_motion
  finish_motion-Stays w r s token h given dim = elim (Option-cases (r.decode token)) [
    | inl e ↦ rw (e, finish_motion) h
    | inr (out, e) ↦
        rw (e, finish_motion)
          (next_playback-Stays m _ r s
            (record_token-Stays m (record w { command = some out.0; last_action = out.1 }) s token _
              h dim)
            given)
  ]

  encode_motion-Gives :
      (encoded : Option (List f32.Real)) (w : Controller f32.Real Real) (r : Readings f32.Real Real)
      (s : State)
      → Stays m s w
      → IsSupplied m r
      → ((t : List f32.Real) → encoded ≡ some t → length t ≡ token_dim)
      → (w.arbiter.mode ≡ normal) ⊎ (w.arbiter.mode ≡ teleop)
      → Gives (StaysTurn m s) (encode_motion m encoded w r)
  unfolding encode_motion
  encode_motion-Gives none w r s h given dim owner = ((w, []), refl, h)
  encode_motion-Gives (some t) w r s h given dim owner =
      Gives->>= (select_token f32 w.arbiter (some t) none) _
        (selected m w s (some t) none h
          (elim owner [ inl o ↦ rw o (t, refl, dim t refl) | inr o ↦ rw o (t, refl, dim t refl) ]))
        (λ x p. (_, refl, finish_motion-Stays (record w { arbiter = x.0 }) r s x.1 p.0 given p.1))

  tick_motion-Gives :
      (w : Controller f32.Real Real) (r : Readings f32.Real Real) (s : State)
      → Stays m s w
      → IsSupplied m r
      → (w.arbiter.mode ≡ normal) ⊎ (w.arbiter.mode ≡ teleop)
      → Gives (StaysTurn m s) (tick_motion m w r)
  unfolding tick_motion
  tick_motion-Gives w r s h given owner =
      let (h', same) = vr3_edge-Stays w r s h in
      let (h'', same') = smpl_edge-Stays (vr3_edge m w r) r s h' in
      elim (Bool-cases (w.playback.motion.timesteps == 0)) [
        | inl e ↦ rw (e, tick_motion) (_, refl, next_playback-Stays m w r s h given)
        | inr e ↦
            rw (e, tick_motion)
              (Gives->>= (encode_motion m r.encoded (smpl_edge m (vr3_edge m w r) r).0 r) _
                (encode_motion-Gives r.encoded (smpl_edge m (vr3_edge m w r) r).0 r s h'' given
                  given.encoded_dim
                  (subst (λ o. (o ≡ normal) ⊎ (o ≡ teleop)) (sym (same' ∙ same)) owner))
                (λ t p. (_, refl, p)))
      ]

  pub tick_mode-Gives :
      (o : Mode) (w : Controller f32.Real Real) (r : Readings f32.Real Real) (s : State)
      → w.arbiter.mode ≡ o
      → Stays m s w
      → IsSupplied m r
      → Gives (StaysTurn m s) (tick_mode m o w r)
  unfolding tick_mode
  tick_mode-Gives vla w r s e h given =
      Gives->>= (tick_vla m w r) _ (tick_vla-Gives m w r s h given e) (λ w' p. (_, refl, p))
  tick_mode-Gives recovering w r s e h given =
      Gives->>= (tick_recovery m w r) _ (tick_recovery-Gives m w r s h e) (λ w' p. (_, refl, p))
  tick_mode-Gives normal w r s e h given = tick_motion-Gives w r s h given (inl e)
  tick_mode-Gives teleop w r s e h given = tick_motion-Gives w r s h given (inr e)

  on_transition-Stays :
      (before next : Mode) (w : Controller f32.Real Real) (s : State)
      → Stays m s w
      → StaysTurn m s (on_transition m before next w)
  unfolding on_transition
  on_transition-Stays before vla w s h = h
  on_transition-Stays before teleop w s h = h
  on_transition-Stays before recovering w s h = h
  on_transition-Stays before normal w s h = elim (Bool-cases (is_mode before recovering)) [
    | inl e ↦ rw e (with_playback m w s (start_over Real) h (start_over-IsTimeline f64))
    | inr e ↦ rw e h
  ]

  pub update_arbiter-Stays :
      (w : Controller f32.Real Real) (r : Readings f32.Real Real) (s : State)
      → Stays m s w
      → StaysTurn m s (update_arbiter m w r)
  unfolding update_arbiter
  update_arbiter-Stays w r s h =
      let a = step_mode f32 w.arbiter (arbiter_inputs m w r) in
      let h' = with_arbiter m w s a.0 h (step_mode-IsValid f32 w.arbiter _ h.0.arbiter_is) in
      elim (Bool-cases (is_mode a.1 w.arbiter.mode)) [
        | inl e ↦ rw (e, update_arbiter) h'
        | inr e ↦ rw (e, update_arbiter) (on_transition-Stays w.arbiter.mode a.1 _ s h')
      ]
