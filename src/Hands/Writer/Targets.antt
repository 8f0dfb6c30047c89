-- ===== src/Hands/Writer/Targets.antt =====
-- The targets that HandCommandWriter asks for, before the guard.
use gearsonic_inference.Common.{
  Bool, true, false, ◌≡◌, refl, sym, subst, if◌then◌else◌, Option, none, some, List, length,
  length-zip_with, ◌∙◌, arith,
}
use gearsonic_inference.Common.Float.{Machine}
use gearsonic_inference.Pico.{Controller}
use gearsonic_inference.Hands.Command.{
  HandCommand, from_axes, from_vla_joints, stop_command, left_limits, right_limits, limits,
  left_endpoints, right_endpoints,
}
use gearsonic_inference.Hands.Guard.Limits.{Ieee, AreFinite, all_ordered, clamped-AreFinite}
use gearsonic_inference.Hands.Writer.{
  operate, unless_vla, unless_stop, release_squeezes, Writer, Readings, choose, track_axes,
  note_calibration, vla_holds, Pair,
}

module _ (m : Machine) where
  open m use {f32, f64}

  -- An enabled command for the seven motors.
  abbrev pub IsReady : HandCommand f32.Real → Type 0
  IsReady c = (c.enabled ≡ true) × (length c.q ≡ 7)

  abbrev pub IsSized : Option (List f32.Real × List f32.Real) → Type 0
  IsSized none = Unit {0}
  IsSized (some q) = (length q.0 ≡ 7) × (length q.1 ≡ 7)

  from_axes-IsReady : (a b c d : f64.Real) (is_left : Bool) → IsReady (from_axes m a b c d is_left)
  unfolding from_axes left_endpoints right_endpoints
  from_axes-IsReady a b c d true = (refl, refl)
  from_axes-IsReady a b c d false = (refl, refl)

  from_vla_joints-IsReady :
      (q : List f32.Real) (is_left : Bool) → length q ≡ 7 → IsReady (from_vla_joints f32 q is_left)
  unfolding from_vla_joints left_limits right_limits
  from_vla_joints-IsReady q true seven =
      (refl, length-zip_with _ q (left_limits f32) (omega arith) ∙ seven)
  from_vla_joints-IsReady q false seven =
      (refl, length-zip_with _ q (right_limits f32) (omega arith) ∙ seven)

  abbrev pub AreReady : Writer m × Pair m → Type 0
  AreReady x = IsReady x.1.0 × IsReady x.1.1

  operate-AreReady : (w : Writer m) (c : Option (Controller f64.Real)) → AreReady (operate m w c)
  unfolding track_axes
  operate-AreReady w none = (from_axes-IsReady _ _ _ _ true, from_axes-IsReady _ _ _ _ false)
  operate-AreReady w (some c) = (from_axes-IsReady _ _ _ _ true, from_axes-IsReady _ _ _ _ false)

  unless_vla-AreReady :
      (w : Writer m) (hold : Bool) (r : Readings m) → AreReady (unless_vla m w hold r)
  unless_vla-AreReady w true r = (from_axes-IsReady _ _ _ _ true, from_axes-IsReady _ _ _ _ false)
  unless_vla-AreReady w false r = operate-AreReady w r.controller

  unless_stop-AreReady :
      (w : Writer m) (hold : Bool) (r : Readings m) (holds : Bool)
      (q : Option (List f32.Real × List f32.Real))
      → IsSized q
      → AreReady (unless_stop m w hold r holds q)
  unless_stop-AreReady w hold r false q sized = unless_vla-AreReady w hold r
  unless_stop-AreReady w hold r true none sized = unless_vla-AreReady w hold r
  unless_stop-AreReady w hold r true (some q) (left, right) =
      (from_vla_joints-IsReady q.0 true left, from_vla_joints-IsReady q.1 false right)

  pub choose-AreReady :
      (w : Writer m) (hold : Bool) (r : Readings m)
      → r.estop ≡ false
      → IsSized r.vla
      → AreReady (choose m w hold r)
  unfolding choose
  choose-AreReady w hold r off sized =
      subst
        (λ b. AreReady (
          if b
          then (release_squeezes m w, (stop_command f32, stop_command f32))
          else unless_stop m w hold r (vla_holds m r.mode) r.vla))
        (sym off) (unless_stop-AreReady w hold r (vla_holds m r.mode) r.vla sized)

  -- What belongs to one of the two hands.
  abbrev pub of_side : {A : Type 0} → Bool → A → A → A
  of_side true a b = a
  of_side false a b = b

  -- The target of a hand that a turn asks for, before the guard.
  abbrev asked_target : Writer m → Readings m → Bool → List f32.Real
  asked_target w r is_left =
      let noted = note_calibration m w r in
      let pair = (choose m noted.0 noted.1 r).1 in (of_side is_left pair.0 pair.1).q

  from_vla_joints-AreFinite :
      (laws : Ieee f32) (q : List f32.Real) (is_left : Bool)
      → AreFinite f32 q
      → all_ordered f32 (limits f32 is_left) ≡ true
      → AreFinite f32 (from_vla_joints f32 q is_left).q
  unfolding from_vla_joints
  from_vla_joints-AreFinite laws q is_left finite ordered =
      clamped-AreFinite f32 laws q (limits f32 is_left) finite ordered

  -- A finite target is asked for: by the stream, if that has the hands, else by the axes.
  abbrev pub Asks : Bool → Option (List f32.Real × List f32.Real) → Bool → List f32.Real → Type 0
  Asks true (some q) is_left axes = AreFinite f32 (of_side is_left q.0 q.1)
  Asks true none is_left axes = AreFinite f32 axes
  Asks false q is_left axes = AreFinite f32 axes

  -- The target without the stream.
  abbrev pub axes_target : Writer m → Readings m → Bool → List f32.Real
  axes_target w r is_left =
      let noted = note_calibration m w r in
      let pair = (unless_vla m noted.0 noted.1 r).1 in (of_side is_left pair.0 pair.1).q

  unless_stop-AreFinite :
      (laws : Ieee f32) (w : Writer m) (hold : Bool) (r : Readings m) (holds : Bool)
      (q : Option (List f32.Real × List f32.Real)) (is_left : Bool)
      → all_ordered f32 (limits f32 is_left) ≡ true
      → (let pair = (unless_vla m w hold r).1 in
          Asks holds q is_left (of_side is_left pair.0 pair.1).q)
      → let pair = (unless_stop m w hold r holds q).1 in
        AreFinite f32 (of_side is_left pair.0 pair.1).q
  unless_stop-AreFinite laws w hold r false q is_left ordered asks = asks
  unless_stop-AreFinite laws w hold r true none is_left ordered asks = asks
  unless_stop-AreFinite laws w hold r true (some q) true ordered asks =
      from_vla_joints-AreFinite laws q.0 true asks ordered
  unless_stop-AreFinite laws w hold r true (some q) false ordered asks =
      from_vla_joints-AreFinite laws q.1 false asks ordered

  pub asked-AreFinite :
      (laws : Ieee f32) (w : Writer m) (r : Readings m) (is_left : Bool)
      → r.estop ≡ false
      → all_ordered f32 (limits f32 is_left) ≡ true
      → Asks (vla_holds m r.mode) r.vla is_left (axes_target w r is_left)
      → AreFinite f32 (asked_target w r is_left)
  unfolding choose
  asked-AreFinite laws w r is_left off ordered asks =
      let noted = note_calibration m w r in
      subst
        (λ b.
          let pair =
            (if b
              then (release_squeezes m noted.0, (stop_command f32, stop_command f32))
              else unless_stop m noted.0 noted.1 r (vla_holds m r.mode) r.vla).1 in
          AreFinite f32 (of_side is_left pair.0 pair.1).q)
        (sym off)
        (unless_stop-AreFinite laws noted.0 noted.1 r (vla_holds m r.mode) r.vla is_left ordered
          asks)
