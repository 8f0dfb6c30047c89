-- ===== src/Hands/Writer/InLimits.antt =====
-- The targets that HandCommandWriter publishes.
use gearsonic_inference.Common.{
  Bool, true, false, ◌≡◌, refl, ap, sym, subst, Option, some, List, [], ◌∷◌, length, ◌∙◌, arith,
}
use gearsonic_inference.Common.Float.{Machine, Float}
use gearsonic_inference.Hands.Command.{HandCommand, left_limits, right_limits, limits}
use gearsonic_inference.Hands.Guard.{Params, Measured, Finger, apply}
use gearsonic_inference.Hands.Guard.Limits.{
  Ieee, IsSane, AreFinite, AreMeasured, all_within, all_ordered, aligned, targets_in_limits,
}
use gearsonic_inference.Hands.Writer.{
  Writer, Readings, choose, track_axes, note_calibration, guard_hands, turn, fresh, period,
  vla_holds, Pair,
}
use gearsonic_inference.Hands.Writer.Targets.{
  IsReady, IsSized, AreReady, choose-AreReady, of_side, Asks, axes_target, asked-AreFinite,
}

aligned-length :
    (f : Float) (ls : List (f.Real × f.Real)) (gs : List (Finger f.Real)) (qs : List f.Real)
    (xs : List (Measured f.Real))
    → length gs ≡ length ls
    → length qs ≡ length ls
    → length xs ≡ length ls
    → aligned f ls gs qs xs ≡ true
unfolding aligned
aligned-length f [] [] [] [] a b c = refl
aligned-length f [] (g ∷ gs) qs xs a b c = absurd (omega arith)
aligned-length f [] [] (q ∷ qs) xs a b c = absurd (omega arith)
aligned-length f [] [] [] (x ∷ xs) a b c = absurd (omega arith)
aligned-length f (l ∷ ls) [] qs xs a b c = absurd (omega arith)
aligned-length f (l ∷ ls) (g ∷ gs) [] xs a b c = absurd (omega arith)
aligned-length f (l ∷ ls) (g ∷ gs) (q ∷ qs) [] a b c = absurd (omega arith)
aligned-length f (l ∷ ls) (g ∷ gs) (q ∷ qs) (x ∷ xs) a b c =
    aligned-length f ls gs qs xs (omega arith) (omega arith) (omega arith)

module _ (m : Machine) where
  open m use {f32, f64}

  -- The hand's state for the seven motors, not stale, with finite positions.
  abbrev IsFresh : f64.Real → Option (List (Measured f32.Real) × f64.Real) → Type 0
  IsFresh stale s =
      (xs : List (Measured f32.Real)) × (fresh m stale s ≡ some xs)
      × (length xs ≡ 7)
      × AreMeasured f32 xs

  abbrev Fits : Bool → HandCommand f32.Real → Type 0
  Fits is_left c = all_within f32 c.q (limits f32 is_left) ≡ true

  length-limits : (is_left : Bool) → length (limits f32 is_left) ≡ 7
  unfolding left_limits right_limits
  length-limits true = refl
  length-limits false = refl

  apply-Fits :
      (laws : Ieee f32) (p : Params f32.Real) (stale : f64.Real) (dt : f32.Real) (is_left : Bool)
      (gs : List (Finger f32.Real)) (c : HandCommand f32.Real)
      (s : Option (List (Measured f32.Real) × f64.Real))
      → IsSane f32 p
      → p.enabled ≡ true
      → IsReady m c
      → AreFinite f32 c.q
      → length gs ≡ 7
      → all_ordered f32 (limits f32 is_left) ≡ true
      → IsFresh stale s
      → Fits is_left (apply f32 p (limits f32 is_left) gs c (fresh m stale s) dt).1
  apply-Fits laws p stale dt is_left gs c s sane on (enabled, seven) asked seven_gs ordered
        (xs, there, seven_xs, measured) =
      let n = sym (length-limits is_left) in
      subst (λ o. Fits is_left (apply f32 p (limits f32 is_left) gs c o dt).1) (sym there)
        (targets_in_limits f32 laws p dt (limits f32 is_left) gs c xs sane on enabled ordered
          (aligned-length f32 (limits f32 is_left) gs c.q xs (seven_gs ∙ n) (seven ∙ n)
            (seven_xs ∙ n))
          asked measured)

  -- The guards are not touched before the feedback stage.
  choose_guards :
      (w : Writer m) (hold : Bool) (r : Readings m)
      → ((choose m w hold r).0.left_guard ≡ w.left_guard)
        × ((choose m w hold r).0.right_guard ≡ w.right_guard)
  unfolding choose track_axes
  choose_guards w hold r = ground arith

  choose_keeps :
      (w : Writer m) (hold : Bool) (r : Readings m) (is_left : Bool)
      → of_side m is_left (choose m w hold r).0.left_guard (choose m w hold r).0.right_guard
        ≡ of_side m is_left w.left_guard w.right_guard
  choose_keeps w hold r true = (choose_guards w hold r).0
  choose_keeps w hold r false = (choose_guards w hold r).1

  guard_hands-Fits :
      (laws : Ieee f32) (p : Params f32.Real) (stale : f64.Real) (r : Readings m)
      (x : Writer m × Pair m) (is_left : Bool)
      → IsSane f32 p
      → p.enabled ≡ true
      → AreReady m x
      → AreFinite f32 (of_side m is_left x.1.0 x.1.1).q
      → length (of_side m is_left x.0.left_guard x.0.right_guard) ≡ 7
      → all_ordered f32 (limits f32 is_left) ≡ true
      → IsFresh stale (of_side m is_left r.left_state r.right_state)
      → Fits is_left
          (of_side m is_left (guard_hands m p stale r x).1.0 (guard_hands m p stale r x).1.1)
  unfolding guard_hands
  guard_hands-Fits laws p stale r (w, (a, b)) true sane on (ready, other) asked seven ordered
        state =
      ground (
        arith,
        ready.0,
        apply-Fits laws p stale (m.narrow (period m)) true w.left_guard a r.left_state sane on ready
            asked seven ordered state,
      )
  guard_hands-Fits laws p stale r (w, (a, b)) false sane on (other, ready) asked seven ordered
        state =
      ground (
        arith,
        other.0,
        apply-Fits laws p stale (m.narrow (period m)) false w.right_guard b r.right_state sane on
            ready asked seven ordered state,
      )

  -- On a turn without the emergency stop, with the guard on and the state of a hand at hand and not
  -- stale, each target published for that hand is a number within the limits of its motor, both
  -- comparisons holding, and there are as many as limits. The stream's values, if it has the
  -- hands, and else the target that the axes make, are finite, as are the measured positions and the
  -- guard's reach and offset. This is so in every mode,
  -- whatever was held and latched before. A hand has seven motors: in its state, in the targets from
  -- outside and in the guard's detectors. The table's limits are finite and in order. The float
  -- arithmetic keeps IEEE's laws on comparisons and on sums, differences and signs of finite numbers.
  pub published_in_limits :
      (laws : Ieee f32) (p : Params f32.Real) (stale : f64.Real) (w : Writer m) (r : Readings m)
      (is_left : Bool)
      → IsSane f32 p
      → p.enabled ≡ true
      → r.estop ≡ false
      → IsSized m r.vla
      → Asks m (vla_holds m r.mode) r.vla is_left (axes_target m w r is_left)
      → length (of_side m is_left w.left_guard w.right_guard) ≡ 7
      → all_ordered f32 (limits f32 is_left) ≡ true
      → IsFresh stale (of_side m is_left r.left_state r.right_state)
      → Fits is_left (of_side m is_left (turn m p stale w r).1.0 (turn m p stale w r).1.1)
  unfolding turn note_calibration
  published_in_limits laws p stale w r is_left sane on off sized asked seven ordered state =
      let noted = note_calibration m w r in
      guard_hands-Fits laws p stale r (choose m noted.0 noted.1 r) is_left sane on
        (choose-AreReady m noted.0 noted.1 r off sized)
        (asked-AreFinite m laws w r is_left off ordered asked)
        (ap length (choose_keeps noted.0 noted.1 r is_left) ∙ seven) ordered state
