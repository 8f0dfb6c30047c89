-- ===== src/Robot/Params.antt =====
-- include/common/robot_params.hpp: the constants of the 29 joints, in MuJoCo order.
use gearsonic_inference.Common.{ℕ, Bool, true, false, List, [], ◌∷◌, map, if◌then◌else◌}
use gearsonic_inference.Common.Float.{Machine}

pub data Actuator : Type 0 where
  m5020 m7520_14 m7520_22 m4010 : Actuator

-- The actuator of each joint, and whether its PD gains are doubled (ankles, waist roll and pitch).
abbrev pub joints : List (Actuator × Bool)
joints =
    (m7520_22, false)
    ∷ (m7520_22, false)
    ∷ (m7520_14, false)
    ∷ (m7520_22, false)
    ∷ (m5020, true)
    ∷ (m5020, true)
    ∷ (m7520_22, false)
    ∷ (m7520_22, false)
    ∷ (m7520_14, false)
    ∷ (m7520_22, false)
    ∷ (m5020, true)
    ∷ (m5020, true)
    ∷ (m7520_14, false)
    ∷ (m5020, true)
    ∷ (m5020, true)
    ∷ (m5020, false)
    ∷ (m5020, false)
    ∷ (m5020, false)
    ∷ (m5020, false)
    ∷ (m5020, false)
    ∷ (m4010, false)
    ∷ (m4010, false)
    ∷ (m5020, false)
    ∷ (m5020, false)
    ∷ (m5020, false)
    ∷ (m5020, false)
    ∷ (m5020, false)
    ∷ (m4010, false)
    ∷ (m4010, false)
    ∷ []

module _ (m : Machine) where
  open m use {f32, f64, narrow}
  open f64 use {Real, ratio, neg, mul, div}

  armature : Actuator → Real
  armature m5020 = ratio 3609725 1_000_000_000
  armature m7520_14 = ratio 10177520 1_000_000_000
  armature m7520_22 = ratio 25101925 1_000_000_000
  armature m4010 = ratio 425 100_000

  natural_freq : Real
  natural_freq = mul (mul (ratio 10 1) (ratio 2 1)) (ratio 31415926535 10_000_000_000)

  damping_ratio : Real
  damping_ratio = ratio 2 1

  stiffness : Actuator → Real
  stiffness a = mul (mul (armature a) natural_freq) natural_freq

  damping : Actuator → Real
  damping a = mul (mul (mul (ratio 2 1) damping_ratio) (armature a)) natural_freq

  effort : Actuator → Real
  effort m5020 = ratio 25 1
  effort m7520_14 = ratio 88 1
  effort m7520_22 = ratio 139 1
  effort m4010 = ratio 5 1

  pub action_scale : List Real
  action_scale = map (λ (a, _). div (mul (ratio 25 100) (effort a)) (stiffness a)) joints

  doubled : Bool → Real → Real
  doubled d v = if d then mul (ratio 2 1) v else v

  pub kps : List f32.Real
  kps = map (λ (a, d). narrow (doubled d (stiffness a))) joints

  pub kds : List f32.Real
  kds = map (λ (a, d). narrow (doubled d (damping a))) joints

  -- The standing pose, in thousandths of a radian.
  abbrev plus : ℕ → Real
  plus n = ratio n 1000

  abbrev minus : ℕ → Real
  minus n = neg (ratio n 1000)

  unfoldable pub default_angles : List Real
  default_angles =
      minus 312
      ∷ plus 0
      ∷ plus 0
      ∷ plus 669
      ∷ minus 363
      ∷ plus 0
      ∷ minus 312
      ∷ plus 0
      ∷ plus 0
      ∷ plus 669
      ∷ minus 363
      ∷ plus 0
      ∷ plus 0
      ∷ plus 0
      ∷ plus 0
      ∷ plus 200
      ∷ plus 200
      ∷ plus 0
      ∷ plus 600
      ∷ plus 0
      ∷ plus 0
      ∷ plus 0
      ∷ plus 200
      ∷ minus 200
      ∷ plus 0
      ∷ plus 600
      ∷ plus 0
      ∷ plus 0
      ∷ plus 0
      ∷ []
