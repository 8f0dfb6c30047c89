-- ===== src/Control/WholeBody/Parts.antt =====
-- The invariants of WholeBodyController's parts, over what a tick of one mode does.
use gearsonic_inference.Common.{
  ℕ, ◌&&◌, not, Option, none, some, List, ◌≡◌, refl, sym, ap, ◌∙◌, inl, inr, length, Bool-cases,
  Option-cases, arith,
}
use gearsonic_inference.Common.Float.{Machine}
use gearsonic_inference.Control.Arbiter.{
  vla, recovering, token_dim, Arbiter, select_token, recovery_blend_done,
}
use gearsonic_inference.Control.Arbiter.Blend.{IsValid, Provides, select_token_total}
use gearsonic_inference.Control.StateLogger.{StateLogger}
use gearsonic_inference.Control.StateLogger.History.{Keeps}
use gearsonic_inference.Control.Playback.{Playback, advance_playback}
use gearsonic_inference.Control.Playback.Timeline.{IsTimeline, Planned, advance_playback-IsTimeline}
use gearsonic_inference.Control.WholeBody.{
  State, Entry, TokenSample, Readings, Controller, blank_entry, Turn, next_playback, record_token,
  decode_and_publish,
}
use gearsonic_inference.Control.WholeBody.Keep.{Gives, Gives->>=}
use gearsonic_inference.Control.WholeBody.Loop.{
  tick_vla, tick_recovery, reseed_ticket, request_reinit,
}

module _ (m : Machine) where
  open m use {f32, f64}
  open f64 use {Real}

  -- The parts' invariants.
  pub record AreHealthy (a : Arbiter f32.Real) (p : Playback Real) (l : StateLogger (Entry Real))
      (sample : Option (TokenSample f32.Real)) : Type 0 where
    pub arbiter_is : IsValid f32.Real a
    pub playback_is : IsTimeline Real p
    pub logger_is : (h : List (Entry Real)) × Keeps (Entry Real) (blank_entry m) l h
    pub sample_dim : (s : TokenSample f32.Real) → sample ≡ some s → length s.token ≡ token_dim

  abbrev pub IsHealthy : Controller f32.Real Real → Type 0
  IsHealthy w = AreHealthy w.arbiter w.playback w.logger w.sample

  -- What the other threads and the networks give: tokens of 64 floats, plans with frames.
  pub record IsSupplied (r : Readings f32.Real Real) : Type 0 where
    pub vla_dim : (t : List f32.Real) → r.vla ≡ some t → length t ≡ token_dim
    pub encoded_dim : (t : List f32.Real) → r.encoded ≡ some t → length t ≡ token_dim
    pub planned : Planned f64 r.plan

  -- Healthy, in the same state as before.
  abbrev pub Stays : State → Controller f32.Real Real → Type 0
  Stays s w = IsHealthy w × (w.state ≡ s)

  abbrev pub StaysTurn : State → Turn m → Type 0
  StaysTurn s t = Stays s t.0

  pub with_arbiter :
      (w : Controller f32.Real Real) (s : State) (a : Arbiter f32.Real)
      → Stays s w
      → IsValid f32.Real a
      → Stays s (record w { arbiter = a })
  with_arbiter w s a (h, e) v = (
    record {
      arbiter_is = v;
      playback_is = h.playback_is;
      logger_is = h.logger_is;
      sample_dim = h.sample_dim;
    },
    e,
  )

  pub with_playback :
      (w : Controller f32.Real Real) (s : State) (p : _)
      → Stays s w
      → IsTimeline Real p
      → Stays s (record w { playback = p })
  with_playback w s p (h, e) t = (
    record {
      arbiter_is = h.arbiter_is;
      playback_is = t;
      logger_is = h.logger_is;
      sample_dim = h.sample_dim;
    },
    e,
  )

  pub record_token-Stays :
      (w : Controller f32.Real Real) (s : State) (token : List f32.Real) (mode : ℕ)
      → Stays s w
      → length token ≡ token_dim
      → Stays s (record_token m w token mode)
  unfolding record_token
  record_token-Stays w s token mode (h, e) dim = (
    record {
      arbiter_is = h.arbiter_is;
      playback_is = h.playback_is;
      logger_is = h.logger_is;
      sample_dim = λ x given. grind arith;
    },
    e,
  )

  decode_and_publish-Stays :
      (w : Controller f32.Real Real) (r : Readings f32.Real Real) (s : State)
      (token : List f32.Real)
      → Stays s w
      → length token ≡ token_dim
      → Stays s (decode_and_publish m w r token)
  unfolding decode_and_publish
  decode_and_publish-Stays w r s token h dim = elim (Option-cases (r.decode token)) [
    | inl e ↦ rw (e, decode_and_publish) h
    | inr (out, e) ↦
        rw (e, decode_and_publish)
          (record_token-Stays (record w { command = some out.0; last_action = out.1 }) s token 255 h
            dim)
  ]

  pub next_playback-Stays :
      (w : Controller f32.Real Real) (r : Readings f32.Real Real) (s : State)
      → Stays s w
      → IsSupplied r
      → StaysTurn s (next_playback m w r)
  unfolding next_playback
  next_playback-Stays w r s h given =
      with_playback w s (advance_playback f64 w.playback r.plan).0 h
        (advance_playback-IsTimeline f64 w.playback r.plan h.0.playback_is given.planned)

  reseed_ticket-Stays :
      (w : Controller f32.Real Real) (s : State) → Stays s w → Stays s (reseed_ticket m w)
  unfolding reseed_ticket request_reinit
  reseed_ticket-Stays w s h =
      elim (Bool-cases (recovery_blend_done f32 w.arbiter && not w.ticket_issued)) [
        | inl e ↦ rw (e, reseed_ticket) h
        | inr e ↦ rw (e, reseed_ticket) h
      ]

  -- The arbiter stage's token, and the controller with the stage after it.
  pub selected :
      (w : Controller f32.Real Real) (s : State) (encoder stream : Option (List f32.Real))
      → Stays s w
      → Provides f32.Real w.arbiter.mode encoder stream
      → Gives
          (λ x. Stays s (record w { arbiter = x.0 }) × (length x.1 ≡ token_dim))
          (select_token f32 w.arbiter encoder stream)
  selected w s encoder stream h given =
      let (b, out, e, v, held, _) =
        select_token_total f32 w.arbiter encoder stream h.0.arbiter_is given in
      ((b, out), e, (with_arbiter w s b h v, ap length (sym held) ∙ v.held_dim))

  pub tick_vla-Gives :
      (w : Controller f32.Real Real) (r : Readings f32.Real Real) (s : State)
      → Stays s w
      → IsSupplied r
      → w.arbiter.mode ≡ vla
      → Gives (Stays s) (tick_vla m w r)
  unfolding tick_vla
  tick_vla-Gives w r s h given owner = elim (Option-cases r.vla) [
    | inl e ↦ rw e (w, refl, h)
    | inr (t, e) ↦ rw e (
        Gives->>= (select_token f32 w.arbiter none (some t)) _
          (selected w s none (some t) h (rw owner (t, refl, given.vla_dim t e)))
          (λ x p. (_, refl, decode_and_publish-Stays (record w { arbiter = x.0 }) r s x.1 p.0 p.1)))
  ]

  pub tick_recovery-Gives :
      (w : Controller f32.Real Real) (r : Readings f32.Real Real) (s : State)
      → Stays s w
      → w.arbiter.mode ≡ recovering
      → Gives (Stays s) (tick_recovery m w r)
  unfolding tick_recovery
  tick_recovery-Gives w r s h owner =
      Gives->>= (select_token f32 w.arbiter none none) _ (selected w s none none h (rw owner tt))
        (λ x p. (
          _,
          refl,
          decode_and_publish-Stays (reseed_ticket m (record w { arbiter = x.0 })) r s x.1
              (reseed_ticket-Stays (record w { arbiter = x.0 }) s p.0) p.1,
        ))
