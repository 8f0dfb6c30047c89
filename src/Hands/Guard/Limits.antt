-- ===== src/Hands/Guard/Limits.antt =====
-- What HandGuard.apply promises of its targets and of its latch.
use gearsonic_inference.Common.{
  Bool, true, false, ◌&&◌, some, List, [], ◌∷◌, ◌≡◌, refl, map, All, arith, if◌then◌else◌, zip_with,
}
use gearsonic_inference.Common.Float.{Float, nil, one, fmax, fclamp}
use gearsonic_inference.Hands.Command.{HandCommand}
use gearsonic_inference.Hands.Guard.{Params, Measured, Finger, bounded_target, guard_fingers, apply}

module _ (f : Float) where
  open f use {Real, ratio, neg, add, sub, mul, div, lt, le, is_finite}

  -- A number, and one that is neither infinite: the comparisons with a NaN are false.
  abbrev IsNumber : Real → Type 0
  IsNumber a = le a a ≡ true

  abbrev IsFinite : Real → Type 0
  IsFinite a = is_finite a ≡ true

  -- What IEEE arithmetic promises of the comparisons, and of the sums, differences and signs of finite
  -- numbers, which can overflow but are no NaN.
  pub record Ieee : Type 0 where
    pub total : (a b : Real) → le a a ≡ true → le b b ≡ true → lt a b ≡ false → le b a ≡ true
    pub number : (a : Real) → is_finite a ≡ true → le a a ≡ true
    pub between :
        (a lo hi : Real)
        → is_finite lo ≡ true
        → is_finite hi ≡ true
        → le lo a ≡ true
        → le a hi ≡ true
        → is_finite a ≡ true
    pub adds :
        (a b : Real) → is_finite a ≡ true → is_finite b ≡ true → le (add a b) (add a b) ≡ true
    pub subtracts :
        (a b : Real) → is_finite a ≡ true → is_finite b ≡ true → le (sub a b) (sub a b) ≡ true
    pub negates : (a : Real) → is_finite a ≡ true → is_finite (neg a) ≡ true
    pub keeps : (a : Real) → is_finite a ≡ true → is_finite (mul a (ratio 1 1)) ≡ true
    pub flips : (a : Real) → is_finite a ≡ true → is_finite (mul a (neg (ratio 1 1))) ≡ true
    pub cancels : (a : Real) → is_finite a ≡ true → is_finite (mul a (ratio 0 1)) ≡ true

  -- Of two comparisons that hold: no NaN is within limits.
  abbrev pub within : Real → Real × Real → Bool
  within x (lo, hi) = le lo x && le x hi

  -- As many targets as limits, each within its own.
  unfoldable pub all_within : List Real → List (Real × Real) → Bool
  all_within [] [] = true
  all_within [] (l ∷ ls) = false
  all_within (q ∷ qs) [] = false
  all_within (q ∷ qs) (l ∷ ls) = within q l && all_within qs ls

  -- The limits are finite, the least not above the greatest.
  unfoldable pub all_ordered : List (Real × Real) → Bool
  all_ordered [] = true
  all_ordered ((lo, hi) ∷ ls) = (is_finite lo && is_finite hi && le lo hi) && all_ordered ls

  -- Four lists of one length.
  unfoldable pub aligned :
      List (Real × Real) → List (Finger Real) → List Real → List (Measured Real) → Bool
  aligned [] [] [] [] = true
  aligned (l ∷ ls) (g ∷ gs) (q ∷ qs) (x ∷ xs) = aligned ls gs qs xs
  aligned _ _ _ _ = false

  three : (a b c : Bool) → a && b && c ≡ true → (a ≡ true) × (b ≡ true) × (c ≡ true)
  three a b c h = ground arith

  split : (a b : Bool) → a && b ≡ true → (a ≡ true) × (b ≡ true)
  split a b h = ground arith

  both : (a b : Bool) → a ≡ true → b ≡ true → a && b ≡ true
  both a b p q = ground arith

  fclamp-within :
      (laws : Ieee) (v lo hi : Real)
      → IsNumber v
      → is_finite lo && is_finite hi && le lo hi ≡ true
      → within (fclamp f v lo hi) (lo, hi) ≡ true
  fclamp-within laws v lo hi v_is ordered =
      let (low, high, order) = three (is_finite lo) (is_finite hi) (le lo hi) ordered in
      ground (
        arith,
        order,
        laws.number lo low,
        laws.number hi high,
        laws.total v lo v_is (laws.number lo low),
        laws.total hi v (laws.number hi high) v_is,
      )

  fclamp-IsFinite :
      (laws : Ieee) (v lo hi : Real)
      → IsNumber v
      → IsFinite lo
      → IsFinite hi
      → IsFinite (fclamp f v lo hi)
  fclamp-IsFinite laws v lo hi v_is low high = ground (
    arith,
    low,
    high,
    laws.total v lo v_is (laws.number lo low),
    laws.total hi v (laws.number hi high) v_is,
    laws.between v lo hi low high,
  )

  -- The guard's reach and its offset are finite.
  abbrev pub IsSane : Params Real → Type 0
  IsSane p = IsFinite (div p.tau_max (fmax f p.kp (ratio 1 1000))) × IsFinite p.stall_offset

  signed_offset :
      (laws : Ieee) (off e : Real)
      → IsFinite off
      → IsFinite
          (mul off (if lt (nil f) e then one f else if lt e (nil f) then neg (one f) else nil f))
  signed_offset laws off e off_is =
      ground (arith, laws.keeps off off_is, laws.flips off off_is, laws.cancels off off_is)

  bounded_target-within :
      (laws : Ieee) (p : Params Real) (latched : Bool) (q q_meas lo hi : Real)
      → IsSane p
      → IsFinite q
      → IsFinite q_meas
      → is_finite lo && is_finite hi && le lo hi ≡ true
      → within (bounded_target f p latched (sub q q_meas) q_meas (lo, hi)) (lo, hi) ≡ true
  unfolding bounded_target
  bounded_target-within laws p true q q_meas lo hi (reach, off) q_is meas_is ordered =
      fclamp-within laws _ lo hi
        (laws.adds q_meas _ meas_is (signed_offset laws p.stall_offset (sub q q_meas) off)) ordered
  bounded_target-within laws p false q q_meas lo hi (reach, off) q_is meas_is ordered =
      fclamp-within laws _ lo hi
        (laws.adds q_meas _ meas_is (
          fclamp-IsFinite laws _ _ _ (laws.subtracts q q_meas q_is meas_is) (laws.negates _ reach)
            reach))
        ordered

  abbrev pub AreFinite : List Real → Type 0
  AreFinite qs = All IsFinite qs

  abbrev pub AreMeasured : List (Measured Real) → Type 0
  AreMeasured xs = All (λ x. IsFinite x.q) xs

  -- Finite numbers clamped to limits in order are finite.
  pub clamped-AreFinite :
      (laws : Ieee) (qs : List Real) (ls : List (Real × Real))
      → AreFinite qs
      → all_ordered ls ≡ true
      → AreFinite (zip_with (λ x (lo, hi). fclamp f x lo hi) qs ls)
  unfolding all_ordered
  clamped-AreFinite laws [] ls finite ordered = tt
  clamped-AreFinite laws (q ∷ qs) [] finite ordered = tt
  clamped-AreFinite laws (q ∷ qs) ((lo, hi) ∷ ls) (here, later) ordered =
      let (fine, rest) =
        split (is_finite lo && is_finite hi && le lo hi) (all_ordered ls) ordered in
      let (low, high, order) = three (is_finite lo) (is_finite hi) (le lo hi) fine in
      (
        fclamp-IsFinite laws q lo hi (laws.number q here) low high,
        clamped-AreFinite laws qs ls later rest,
      )

  guard_fingers-within :
      (laws : Ieee) (p : Params Real) (dt : Real) (ls : List (Real × Real))
      (gs : List (Finger Real)) (qs : List Real) (xs : List (Measured Real))
      → IsSane p
      → all_ordered ls ≡ true
      → aligned ls gs qs xs ≡ true
      → AreFinite qs
      → AreMeasured xs
      → all_within (map (λ o. o.1) (guard_fingers f p dt ls gs qs xs)) ls ≡ true
  unfolding all_ordered aligned all_within guard_fingers
  guard_fingers-within laws p dt [] gs qs xs sane ordered same asked measured = refl
  guard_fingers-within laws p dt (l ∷ ls) [] qs xs sane ordered same asked measured = ground arith
  guard_fingers-within laws p dt (l ∷ ls) (g ∷ gs) [] xs sane ordered same asked measured =
      ground arith
  guard_fingers-within laws p dt (l ∷ ls) (g ∷ gs) (q ∷ qs) [] sane ordered same asked measured =
      ground arith
  guard_fingers-within laws p dt ((lo, hi) ∷ ls) (g ∷ gs) (q ∷ qs) (x ∷ xs) sane ordered same
        (q_is, asked) (x_is, measured) =
      let (fine, rest) = split _ _ ordered in
      both _ _ (bounded_target-within laws p _ q x.q lo hi sane q_is x_is fine)
        (guard_fingers-within laws p dt ls gs qs xs sane rest same asked measured)

  -- Where the guard is on, the command is enabled and the hand's state is at hand, each target that
  -- the guard passes on lies within the limits of its motor, and there is a target for each motor,
  -- whatever the desired targets and the measured positions are, if they are finite, as are the
  -- guard's reach and offset. The limits are in order, and there are as many of them as desired
  -- targets, measured motors and detectors.
  pub targets_in_limits :
      (laws : Ieee) (p : Params Real) (dt : Real) (ls : List (Real × Real))
      (gs : List (Finger Real)) (d : HandCommand Real) (xs : List (Measured Real))
      → IsSane p
      → p.enabled ≡ true
      → d.enabled ≡ true
      → all_ordered ls ≡ true
      → aligned ls gs d.q xs ≡ true
      → AreFinite d.q
      → AreMeasured xs
      → all_within (apply f p ls gs d (some xs) dt).1.q ls ≡ true
  unfolding apply
  targets_in_limits laws p dt ls gs d xs sane on enabled ordered same asked measured = ground (
    arith,
    on,
    enabled,
    guard_fingers-within laws p dt ls gs d.q xs sane ordered same asked measured,
  )
