-- ===== src/Teleop/Full.antt =====
-- The sizes of the poses, from the body to the resampler.
use gearsonic_inference.Common.{
  ℕ, zero, suc, ◌+◌, ◌-◌, ◌%◌, ◌≡◌, refl, sym, ◌∙◌, Bool, true, false, ◌&&◌, Option, none, some,
  List, [], ◌∷◌, length, set, get_or, if◌then◌else◌, leb, ◌==◌, arith, length-set, length-zip_with,
}
use gearsonic_inference.Common.Float.{Float}
use gearsonic_inference.Common.Rotation.{Vec3}
use gearsonic_inference.Teleop.Pose.{SmplPose}
use gearsonic_inference.Teleop.Body.{Body}
use gearsonic_inference.Teleop.SmplFk.{smpl_fk, wrist_block}
use gearsonic_inference.Teleop.ArmReach.{
  Arm, ArmReachState, place_arm, solve_arm, smpl_arms_from_tracked_wrists, left_arm, right_arm,
}
use gearsonic_inference.Teleop.Resampler.{
  Resampler, blank_pose, lerp, walk, sample, push, time_in, pose_in, delay,
}

unfoldable pub is_full : {Real : Type 0} → SmplPose Real → Bool
is_full p = (length p.joints_local == 24) && (length p.wrist_joint_pos == 6)

abbrev pub all_full : {Real : Type 0} → List (SmplPose Real) → Bool
all_full [] = true
all_full (p ∷ rest) = is_full p && all_full rest

module _ {Real : Type 0} where
  pub all_full-set :
      (ps : List (SmplPose Real)) (i : ℕ) (p : SmplPose Real)
      → all_full ps ≡ true
      → is_full p ≡ true
      → all_full (set ps i p) ≡ true
  all_full-set [] i p h k = refl
  all_full-set (q ∷ rest) zero p h k = ground arith
  all_full-set (q ∷ rest) (suc i) p h k = ground (arith, all_full-set rest i p)

  pub is_full-get_or :
      (ps : List (SmplPose Real)) (i : ℕ) (d : SmplPose Real)
      → all_full ps ≡ true
      → is_full d ≡ true
      → is_full (get_or ps i d) ≡ true
  is_full-get_or [] i d h k = k
  is_full-get_or (q ∷ rest) zero d h k = ground arith
  is_full-get_or (q ∷ rest) (suc i) d h k = is_full-get_or rest i d (ground arith) k

  if_pose :
      (b : Bool) (p q : SmplPose Real)
      → is_full p ≡ true
      → is_full q ≡ true
      → is_full (if b then p else q) ≡ true
  if_pose true p q h k = h
  if_pose false p q h k = k

  if_first :
      (b : Bool) (x y : SmplPose Real × Real)
      → is_full x.0 ≡ true
      → is_full y.0 ≡ true
      → is_full (if b then x else y).0 ≡ true
  if_first true x y h k = h
  if_first false x y h k = k

  pub sizes :
      (p : SmplPose Real)
      → is_full p ≡ true
      → (length p.joints_local ≡ 24) × (length p.wrist_joint_pos ≡ 6)
  unfolding is_full
  sizes p h = (ground arith, ground arith)

module _ (f : Float) where
  open f use {Real}

  pub is_full-blank : is_full (blank_pose f) ≡ true
  unfolding blank_pose is_full
  is_full-blank = refl

  is_full-smpl_fk : (body : Body Real) → is_full (smpl_fk f body) ≡ true
  unfolding smpl_fk wrist_block is_full
  is_full-smpl_fk body = refl

  is_full-place_arm :
      (p : SmplPose Real) (arm : Arm) (a b target : Real) (u : Vec3 Real)
      → is_full p ≡ true
      → is_full (place_arm f p arm a b target u) ≡ true
  unfolding place_arm is_full
  is_full-place_arm p arm a b target u h =
      rw (length-set _ arm.t _, length-set _ arm.w _, length-set p.joints_local arm.e _) h

  is_full-solve_arm :
      (p : SmplPose Real) (body : Body Real) (reach : Real) (arm : Arm)
      → is_full p ≡ true
      → is_full (solve_arm f p body reach arm).0 ≡ true
  unfolding solve_arm
  is_full-solve_arm p body reach arm h = if_first _ _ _ h (is_full-place_arm p arm _ _ _ _ h)

  pub is_full-arms :
      (body : Body Real) (reach : ArmReachState Real)
      → is_full (smpl_arms_from_tracked_wrists f (smpl_fk f body) body reach).0 ≡ true
  unfolding smpl_arms_from_tracked_wrists
  is_full-arms body reach =
      is_full-solve_arm _ body reach.right_reach (right_arm f) (
        is_full-solve_arm (smpl_fk f body) body reach.left_reach (left_arm f)
          (is_full-smpl_fk body))

  is_full-lerp :
      (a b : SmplPose Real) (alpha : Real)
      → is_full a ≡ true
      → is_full b ≡ true
      → is_full (lerp f a b alpha) ≡ true
  unfolding lerp is_full
  is_full-lerp a b alpha ha hb =
      rw
        (
          length-zip_with _ a.joints_local b.joints_local ((sizes a ha).0 ∙ sym (sizes b hb).0),
          length-zip_with _ a.wrist_joint_pos b.wrist_joint_pos
              ((sizes a ha).1 ∙ sym (sizes b hb).1),
        )
        ha

  is_full-walk :
      (r : Resampler Real) (now d left k newer : ℕ)
      → all_full r.poses ≡ true
      → is_full (walk f r now d left k newer) ≡ true
  unfolding walk
  is_full-walk r now d zero k newer h = is_full-get_or r.poses newer (blank_pose f) h is_full-blank
  is_full-walk r now d (suc left) k newer h =
      let held = λ (i : ℕ). is_full-get_or r.poses i (blank_pose f) h is_full-blank in
      if_pose _ _ _ (is_full-lerp _ _ _ (held _) (held newer))
        (is_full-walk r now d left (k + 1) _ h)

  -- Whatever a resampler of full poses samples is full.
  abbrev pub sampled_full : Option (SmplPose Real) → Bool
  sampled_full none = true
  sampled_full (some p) = is_full p

  if_sampled :
      (b : Bool) (x y : Option (SmplPose Real))
      → sampled_full x ≡ true
      → sampled_full y ≡ true
      → sampled_full (if b then x else y) ≡ true
  if_sampled true x y h k = h
  if_sampled false x y h k = k

  pub sample_lem :
      (r : Resampler Real) (now : ℕ)
      → all_full r.poses ≡ true
      → sampled_full (sample f r now) ≡ true
  unfolding sample
  sample_lem r now h = if_sampled (r.count == 0) _ _ refl (
      if_sampled (leb (time_in f r r.head + delay f r) now) (some (pose_in f r r.head))
        (some (walk f r now (delay f r) (r.count - 1) 1 r.head))
        (is_full-get_or r.poses r.head (blank_pose f) h is_full-blank)
        (is_full-walk r now (delay f r) (r.count - 1) 1 r.head h))

  pub push_lem :
      (r : Resampler Real) (pose : SmplPose Real) (t : ℕ)
      → all_full r.poses ≡ true
      → is_full pose ≡ true
      → all_full (push f r pose t).poses ≡ true
  unfolding push
  push_lem r pose t h k = ground (
    arith,
    h,
    all_full-set r.poses r.head pose h k,
    all_full-set r.poses ((r.head + 1) % 8) pose h k,
  )
