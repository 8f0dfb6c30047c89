-- ===== src/Teleop/Resampler/Kept.antt =====
-- SmplResampler's ring against the list of its samples, by new, push and reset.
use gearsonic_inference.Common.{
  ℕ, ◌<◌, false, ◌≡◌, refl, List, [], ◌∷◌, map, if◌then◌else◌, leb, ◌==◌, arith, Bool-cases, inl,
  inr,
}
use gearsonic_inference.Common.Float.{Float}
use gearsonic_inference.Teleop.Pose.{SmplPose}
use gearsonic_inference.Teleop.Ring.{Newest, first-Newest, next-Newest, newest_lem}
use gearsonic_inference.Teleop.Resampler.{Params, Resampler, ring_slots, new, reset, push, newest_t}

-- A sample with its receive time; histories are newest first.
abbrev pub History : Type 0 → Type 0
History Real = List (SmplPose Real × ℕ)

-- A sample is kept if it is later than the newest.
unfoldable pub accept : {Real : Type 0} → History Real → SmplPose Real × ℕ → History Real
accept [] x = x ∷ []
accept ((q, s) ∷ rest) (p, t) = if leb t s then (q, s) ∷ rest else (p, t) ∷ (q, s) ∷ rest

-- The times of a history decrease.
abbrev pub IsDescending : {Real : Type 0} → History Real → Type 0
IsDescending [] = Unit {0}
IsDescending (x ∷ []) = Unit {0}
IsDescending (x ∷ y ∷ rest) = (y.1 < x.1) × IsDescending (y ∷ rest)

later : (t s : ℕ) → leb t s ≡ false → s < t
later t s h = ground arith

pub accept-IsDescending :
    {Real : Type 0} (h : History Real) (x : SmplPose Real × ℕ)
    → IsDescending h
    → IsDescending (accept h x)
unfolding accept
accept-IsDescending [] x d = tt
accept-IsDescending ((q, s) ∷ rest) (p, t) d = elim (Bool-cases (leb t s)) [
  | inl early ↦ rw early d
  | inr late ↦ rw late (later t s late, d)
]

module _ (f : Float) where
  open f use {Real}

  -- The samples since the last reset, as the ring holds them.
  pub record Keeps (r : Resampler Real) (h : History Real) : Type 0 where
    pub poses_kept : Newest ring_slots r.poses r.head r.count (map (λ x. x.0) h)
    pub times_kept : Newest ring_slots r.times r.head r.count (map (λ x. x.1) h)

  pub new-Keeps : (p : Params Real) → Keeps (new f p) []
  unfolding new
  new-Keeps p = record {
    poses_kept = record {
      room = omega arith;
      slots = refl;
      inside = omega arith;
      count_is = refl;
      entries = λ i h. absurd (omega arith);
    };
    times_kept = record {
      room = omega arith;
      slots = refl;
      inside = omega arith;
      count_is = refl;
      entries = λ i h. absurd (omega arith);
    };
  }

  pub push-Keeps :
      (r : Resampler Real) (h : History Real) (pose : SmplPose Real) (t : ℕ)
      → Keeps r h
      → Keeps (push f r pose t) (accept h (pose, t))
  unfolding push accept
  push-Keeps r [] pose t k =
      let empty : r.count ≡ 0 = omega (arith, k.poses_kept.count_is) in
      rw empty (record {
        poses_kept = first-Newest ring_slots r.poses r.head r.count pose k.poses_kept;
        times_kept = first-Newest ring_slots r.times r.head r.count t k.times_kept;
      })
  push-Keeps r ((q, s) ∷ rest) pose t k =
      let some_held : (r.count == 0) ≡ false = ground (arith, k.poses_kept.count_is) in
      let newest : newest_t f r ≡ s =
        newest_lem ring_slots r.times r.head r.count (map (λ x. x.1) rest) s 0 k.times_kept in
      rw (some_held, newest)
        (elim (Bool-cases (leb t s)) [
          | inl early ↦ rw early k
          | inr late ↦ rw late (record {
            poses_kept =
                next-Newest ring_slots r.poses r.head r.count (map (λ x. x.0) ((q, s) ∷ rest)) pose
                  k.poses_kept;
            times_kept =
                next-Newest ring_slots r.times r.head r.count (map (λ x. x.1) ((q, s) ∷ rest)) t
                  k.times_kept;
          })
        ])

  pub reset-Keeps : (r : Resampler Real) (h : History Real) → Keeps r h → Keeps (reset f r) []
  unfolding reset
  reset-Keeps r h k = record {
    poses_kept = record {
      room = omega arith;
      slots = k.poses_kept.slots;
      inside = omega arith;
      count_is = refl;
      entries = λ i h. absurd (omega arith);
    };
    times_kept = record {
      room = omega arith;
      slots = k.times_kept.slots;
      inside = omega arith;
      count_is = refl;
      entries = λ i h. absurd (omega arith);
    };
  }
