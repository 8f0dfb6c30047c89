-- ===== src/Teleop/Resampler/Samples.antt =====
-- SmplResampler.sample against the list of the samples since the last reset.
use gearsonic_inference.Common.{
  ℕ, zero, suc, ◌+◌, ◌-◌, ◌<◌, true, false, ◌≡◌, refl, sym, ap, ◌∙◌, Option, none, some, List, [],
  ◌∷◌, map, length, take, drop, get_or, get_elem?, if◌then◌else◌, leb, ◌==◌, arith, length-map,
  get_elem?-take, length-take, drop_step, drop_all,
}
use gearsonic_inference.Common.Float.{Float}
use gearsonic_inference.Teleop.Pose.{SmplPose}
use gearsonic_inference.Teleop.Ring.{place, head_place, newest_lem, get_or-Newest}
use gearsonic_inference.Teleop.Resampler.{
  Params, Resampler, ring_slots, blank_pose, new, reset, push, delay, alpha_for, lerp, pose_in,
  time_in, walk, sample,
}
use gearsonic_inference.Teleop.Resampler.Kept.{
  History, accept, IsDescending, accept-IsDescending, Keeps, new-Keeps, push-Keeps, reset-Keeps,
}

one_more : (i : ℕ) → i + 1 ≡ suc i
one_more i = omega arith

pair_at :
    {A B : Type 0} (xs : List (A × B)) (i : ℕ) (a : A) (b : B)
    → i < length xs
    → get_elem? xs i ≡ some (get_or (map (λ p. p.0) xs) i a, get_or (map (λ p. p.1) xs) i b)
pair_at [] i a b h = absurd (omega arith)
pair_at ((x, y) ∷ rest) zero a b h = refl
pair_at (p ∷ rest) (suc i) a b h = pair_at rest i a b (omega arith)

pub data Call (Real : Type 0) : Type 0 where
  pushes : SmplPose Real → ℕ → Call Real
  resets : Call Real

module _ (f : Float) where
  open f use {Real}

  -- The value at now - d between a sample and those before it: of the first pair around it, else of
  -- the oldest.
  unfoldable pub between : ℕ → ℕ → SmplPose Real × ℕ → History Real → SmplPose Real
  between now d (q, s) [] = q
  between now d (q, s) ((p, t) ∷ rest) =
      let older = between now d (p, t) rest in
      if leb (t + d) now then lerp f p q (alpha_for f t s (now - d)) else older

  unfoldable pub interpolate : ℕ → ℕ → History Real → Option (SmplPose Real)
  unfolding between
  interpolate now d [] = none
  interpolate now d ((q, s) ∷ rest) =
      if leb (s + d) now then some q else some (between now d (q, s) rest)

  held_lem :
      (r : Resampler Real) (h : History Real)
      → Keeps f r h
      → (i : ℕ) → i < r.count
      → get_elem? (take ring_slots h) i
        ≡ some (pose_in f r (place ring_slots r.head i), time_in f r (place ring_slots r.head i))
  held_lem r h k i below =
      let inside : i < length h = omega (arith, k.poses_kept.count_is, length-map (λ x. x.0) h) in
      get_elem?-take ring_slots h i (omega (arith, k.poses_kept.count_is))
      ∙ pair_at h i (blank_pose f) 0 inside
      ∙ rw
          (
            get_or-Newest ring_slots r.poses r.head r.count (map (λ x. x.0) h) (blank_pose f)
                k.poses_kept i below,
            get_or-Newest ring_slots r.times r.head r.count (map (λ x. x.1) h) 0 k.times_kept i
                below,
          )
          refl

  no_more :
      (r : Resampler Real) (h : History Real) (i : ℕ)
      → Keeps f r h
      → suc i ≡ r.count
      → drop (suc i) (take ring_slots h) ≡ []
  no_more r h i k total =
      drop_all (take ring_slots h) (suc i)
        (omega (arith, length-take ring_slots h, k.poses_kept.count_is, length-map (λ x. x.0) h))

  walk_lem :
      (r : Resampler Real) (h : History Real) (now d left i : ℕ)
      → Keeps f r h
      → suc i + left ≡ r.count
      → walk f r now d left (i + 1) (place ring_slots r.head i)
        ≡ between now d
            (pose_in f r (place ring_slots r.head i), time_in f r (place ring_slots r.head i))
            (drop (suc i) (take ring_slots h))
  unfolding walk between
  walk_lem r h now d zero i k total = rw (no_more r h i k (omega arith)) refl
  walk_lem r h now d (suc left) i k total =
      rw
        (
          one_more i,
          drop_step (take ring_slots h) (suc i)
              (
                pose_in f r (place ring_slots r.head (suc i)),
                time_in f r (place ring_slots r.head (suc i)),
              )
              (held_lem r h k (suc i) (omega arith)),
          walk_lem r h now d left (suc i) k (omega arith),
        )
        refl

  empty_count : (r : Resampler Real) → Keeps f r [] → (r.count == 0) ≡ true
  empty_count r k = ground (arith, k.poses_kept.count_is)

  first_walk :
      (r : Resampler Real) (q : SmplPose Real) (s : ℕ) (rest : History Real) (now d : ℕ)
      → Keeps f r ((q, s) ∷ rest)
      → walk f r now d (r.count - 1) 1 r.head ≡ between now d (q, s) (take 7 rest)
  first_walk r q s rest now d k =
      let at = head_place ring_slots r.head k.poses_kept.room k.poses_kept.inside in
      ap (λ j. walk f r now d (r.count - 1) 1 j) (sym at)
      ∙ walk_lem r ((q, s) ∷ rest) now d (r.count - 1) 0 k (omega (arith, k.poses_kept.count_is))
      ∙ rw
          (
            at,
            newest_lem ring_slots r.times r.head r.count (map (λ x. x.1) rest) s 0 k.times_kept,
            newest_lem ring_slots r.poses r.head r.count (map (λ x. x.0) rest) q (blank_pose f)
                k.poses_kept,
          )
          refl

  sample_lem :
      (r : Resampler Real) (h : History Real) (now : ℕ)
      → Keeps f r h
      → sample f r now ≡ interpolate now (delay f r) (take ring_slots h)
  unfolding sample interpolate
  sample_lem r [] now k = rw (empty_count r k) refl
  sample_lem r ((q, s) ∷ rest) now k =
      let some_held : (r.count == 0) ≡ false = ground (arith, k.poses_kept.count_is) in
      rw
        (
          some_held,
          newest_lem ring_slots r.times r.head r.count (map (λ x. x.1) rest) s 0 k.times_kept,
          newest_lem ring_slots r.poses r.head r.count (map (λ x. x.0) rest) q (blank_pose f)
              k.poses_kept,
        )
        (ap (λ x. if leb (s + delay f r) now then some q else some x)
          (first_walk r q s rest now (delay f r) k))

  -- The calls that change the resampler.
  abbrev pub call : Resampler Real → Call Real → Resampler Real
  call r (pushes pose t) = push f r pose t
  call r resets = reset f r

  abbrev pub hear : History Real → Call Real → History Real
  hear h (pushes pose t) = accept h (pose, t)
  hear h resets = []

  unfoldable pub run : Resampler Real → List (Call Real) → Resampler Real
  run r [] = r
  run r (c ∷ rest) = run (call r c) rest

  -- The samples after the last reset, each later than the one before.
  unfoldable pub heard : History Real → List (Call Real) → History Real
  heard h [] = h
  heard h (c ∷ rest) = heard (hear h c) rest

  call-Keeps :
      (r : Resampler Real) (h : History Real) (c : Call Real)
      → Keeps f r h
      → Keeps f (call r c) (hear h c)
  call-Keeps r h (pushes pose t) k = push-Keeps f r h pose t k
  call-Keeps r h resets k = reset-Keeps f r h k

  hear-IsDescending : (h : History Real) (c : Call Real) → IsDescending h → IsDescending (hear h c)
  hear-IsDescending h (pushes pose t) d = accept-IsDescending h (pose, t) d
  hear-IsDescending h resets d = tt

  run-Keeps :
      (r : Resampler Real) (h : History Real) (calls : List (Call Real))
      → Keeps f r h
      → IsDescending h
      → Keeps f (run r calls) (heard h calls) × IsDescending (heard h calls)
  unfolding run heard
  run-Keeps r h [] k d = (k, d)
  run-Keeps r h (c ∷ rest) k d =
      run-Keeps (call r c) (hear h c) rest (call-Keeps r h c k) (hear-IsDescending h c d)

  -- After any pushes and resets: sample gives the value at now less the delay of the newest eight
  -- samples after the last reset (a push that is not later than the newest is no sample). It is the newest
  -- if that is old enough, else the first pair around the time interpolated, else the oldest; it is
  -- nothing only without a sample. The times of these samples decrease strictly.
  pub sample_interpolates :
      (p : Params Real) (calls : List (Call Real)) (now : ℕ)
      → let r = run (new f p) calls in
        let h = heard [] calls in
        (sample f r now ≡ interpolate now (delay f r) (take ring_slots h)) × IsDescending h
  sample_interpolates p calls now =
      let kept = run-Keeps (new f p) [] calls (new-Keeps f p) tt in
      (sample_lem (run (new f p) calls) (heard [] calls) now kept.0, kept.1)
