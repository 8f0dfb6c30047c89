-- ===== src/Control/Arbiter/Handoff.antt =====
-- The handoff crossfade of ControlArbiter: it lasts as many ticks as it was armed for.
use gearsonic_inference.Common.{
  ℕ, zero, suc, ◌-◌, ◌≡◌, refl, ap, ◌≢◌, Option, none, some, List, [], ◌∷◌, length, drop, arith,
  ◌>>=◌,
}
use gearsonic_inference.Common.Float.{Float}
use gearsonic_inference.Control.Arbiter.{
  Mode, normal, teleop, vla, recovering, Arbiter, select_token, slide, crossfade,
}

-- The pointers that the controller passes: tick_vla the stream's token, tick_control the encoder's.
abbrev pub encoder_pointer {ℓ} : {A : Type ℓ} → Mode → A → Option A
encoder_pointer vla t = none
encoder_pointer _ t = some t

abbrev pub stream_pointer {ℓ} : {A : Type ℓ} → Mode → A → Option A
stream_pointer vla t = some t
stream_pointer _ t = none

module _ (f : Float) where
  open f use {Real}

  -- A run of ticks in one mode; the tokens that go out.
  pub select_run : Arbiter Real → List (List Real) → Option (Arbiter Real × List (List Real))
  select_run a [] = some (a, [])
  select_run a (t ∷ ts) = do
    (b, out) ← select_token f a (encoder_pointer a.mode t) (stream_pointer a.mode t)
    (c, outs) ← select_run b ts
    some (c, out ∷ outs)

  select_crossfade :
      (m : Mode) (a : Arbiter Real) (t : List Real)
      → a.mode ≡ m
      → m ≢ recovering
      → select_token f a (encoder_pointer a.mode t) (stream_pointer a.mode t)
        ≡ some (crossfade f a t)
  unfolding select_token
  select_crossfade vla a t e ne = rw e
  select_crossfade normal a t e ne = rw e
  select_crossfade teleop a t e ne = rw e
  select_crossfade recovering a t e ne = absurd (ne refl)

  slide_pass : (a : Arbiter Real) (t : List Real) → a.handoff ≡ 0 → slide f a t ≡ t
  unfolding slide
  slide_pass a t e = rw e

  abbrev pub Fades : Arbiter Real → ℕ → List (List Real) → Type 0
  Fades a h ts =
      (b : Arbiter Real) × (outs : List (List Real)) × (select_run a ts ≡ some (b, outs))
      × (length outs ≡ length ts)
      × (drop h outs ≡ drop h ts)
      × (b.mode ≡ a.mode)
      × (b.handoff ≡ h - length ts)

  fades :
      (a : Arbiter Real) (h : ℕ) (ts : List (List Real))
      → a.handoff ≡ h
      → a.mode ≢ recovering
      → Fades a h ts
  unfolding select_run crossfade
  fades a h [] e ne = (a, [], refl, refl, refl, refl, omega arith)
  fades a zero (t ∷ ts) e ne =
      let step = select_crossfade a.mode a t refl ne in
      let (b, outs, run, len, same, mode, left) =
        fades (crossfade f a t).0 zero ts (omega arith) ne in
      (b, slide f a t ∷ outs, rw (step, run), ap suc len, cc (slide_pass a t e), mode, omega arith)
  fades a (suc h) (t ∷ ts) e ne =
      let step = select_crossfade a.mode a t refl ne in
      let (b, outs, run, len, same, mode, left) = fades (crossfade f a t).0 h ts (omega arith) ne in
      (b, slide f a t ∷ outs, rw (step, run), ap suc len, same, mode, omega arith)

  -- Outside kRecovering every tick gives out one token, and after as many ticks as the crossfade
  -- was armed for, the tokens go out unchanged; the counter is down by the ticks made.
  handoff_ends :
      (a : Arbiter Real) (ts : List (List Real)) → a.mode ≢ recovering → Fades a a.handoff ts
  handoff_ends a ts ne = fades a a.handoff ts refl ne
