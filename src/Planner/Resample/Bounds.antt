-- ===== src/Planner/Resample/Bounds.antt =====
-- What the planner's resampling makes and reads.
use gearsonic_inference.Common.{
  ℕ, suc, ◌*◌, ◌≤◌, ◌<◌, false, ◌≡◌, refl, ap, subst, ◌∙◌, none, some, List, [], ◌∷◌, length, arith,
  Bool-cases, inl, inr,
}
use gearsonic_inference.Common.Float.{Machine}
use gearsonic_inference.Control.Playback.{Frame, Motion, tabulate}
use gearsonic_inference.Control.Playback.Timeline.{IsPlanned, length-tabulate}
use gearsonic_inference.Planner.Resample.{
  frames_at_50hz, first_frame, second_frame, resampled_frame, with_velocities, refuses, resampled,
  resample,
}

module _ (m : Machine) where
  open m use {f32, f64}
  open f64 use {Real, mul, div, floor_nat}

  length-with_velocities :
      (frames : List (Frame Real)) (before : List Real)
      → length (with_velocities m before frames) ≡ length frames
  unfolding with_velocities
  length-with_velocities [] before = refl
  length-with_velocities (a ∷ []) before = refl
  length-with_velocities (a ∷ b ∷ rest) before = ap suc (length-with_velocities (b ∷ rest) _)

  capped : (n : ℕ) → frames_at_50hz m n ≤ 1500
  unfolding frames_at_50hz
  capped n = omega arith

  resampled-IsPlanned :
      (rows : List (List f32.Real)) (n : ℕ)
      → 2 ≤ frames_at_50hz m n
      → IsPlanned Real (resampled m rows n)
  unfolding resampled
  resampled-IsPlanned rows n enough =
      let frames = tabulate (resampled_frame m rows n) (frames_at_50hz m n) 0 in
      record {
        frames_are =
            length-with_velocities frames []
            ∙ length-tabulate (resampled_frame m rows n) (frames_at_50hz m n) 0;
        some_frame = omega (arith, enough);
        capped = capped n;
      }

  accepted :
      (rows : List (List f32.Real)) (n : ℕ)
      → refuses m rows n ≡ false
      → (0 < n) × (n ≤ 64) × (2 ≤ frames_at_50hz m n)
  unfolding refuses
  accepted rows n e = (ground arith, ground arith, ground arith)

  resample_gives :
      (rows : List (List f32.Real)) (n : ℕ) (motion : Motion Real)
      → resample m rows n ≡ some motion
      → (refuses m rows n ≡ false) × (motion ≡ resampled m rows n)
  unfolding resample
  resample_gives rows n motion e = elim (Bool-cases (refuses m rows n)) [
    | inl refused ↦ absurd (let f : none ≡ some motion = rw refused at e in cc)
    | inr goes ↦ (goes, let f : some (resampled m rows n) ≡ some motion = rw goes at e in cc)
  ]

  -- A resampled sequence has as many frames as it says, 2 at least and 1500 at most.
  pub resample-IsPlanned :
      (rows : List (List f32.Real)) (n : ℕ) (motion : Motion Real)
      → resample m rows n ≡ some motion
      → IsPlanned Real motion × (2 ≤ motion.timesteps)
  unfolding resampled
  resample-IsPlanned rows n motion e =
      let (goes, is) = resample_gives rows n motion e in
      let (some_frame, few, enough) = accepted rows n goes in
      rw is (resampled-IsPlanned rows n enough, enough)

  -- What double arithmetic gives for the few numbers there are: the rounding of `i / 50.0 * 30.0`
  -- and of `n / 30.0 * 50.0` does not reach the next integer.
  pub record RoundsBelow : Type 0 where
    pub index_below :
        (i : ℕ)
        → i < 107
        → 5 * floor_nat (mul (div (f64.ratio i 1) (f64.ratio 50 1)) (f64.ratio 30 1)) ≤ 3 * i
    pub length_below :
        (n : ℕ)
        → n ≤ 64
        → 3 * floor_nat (mul (div (f64.ratio n 1) (f64.ratio 30 1)) (f64.ratio 50 1)) ≤ 5 * n

  first_frame_below : RoundsBelow → (i : ℕ) → i < 107 → 5 * first_frame m i ≤ 3 * i
  unfolding first_frame
  first_frame_below laws i h = laws.index_below i h

  length_below : RoundsBelow → (n : ℕ) → n ≤ 64 → 3 * frames_at_50hz m n ≤ 5 * n
  unfolding frames_at_50hz
  length_below laws n h = omega (arith, laws.length_below n h)

  -- Every row that a resampled frame reads is one of the n rows that the network has filled.
  pub reads_inside :
      (laws : RoundsBelow) (rows : List (List f32.Real)) (n i : ℕ) (motion : Motion Real)
      → resample m rows n ≡ some motion
      → i < motion.timesteps
      → (first_frame m i < n) × (second_frame m n i < n)
  unfolding resampled second_frame
  reads_inside laws rows n i motion e inside =
      let (goes, is) = resample_gives rows n motion e in
      let (some_frame, few, enough) = accepted rows n goes in
      let here : i < frames_at_50hz m n = subst (λ q. i < q.timesteps) is inside in
      let short = length_below laws n few in
      let below = first_frame_below laws i (omega (arith, short, here, few)) in
      (omega (arith, below, short, here), omega (arith, some_frame))
