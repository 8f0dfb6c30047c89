-- ===== src/Robot/JointOrder.antt =====
-- include/common/joint_order.hpp: MuJoCo order and IsaacLab order of the joints.
mod Tests
use gearsonic_inference.Common.{
  ℕ, zero, suc, ◌<◌, ◌≤◌, ◌+◌, Bool-cases, inl, inr, Bool, true, ◌&&◌, ◌≡◌, refl, List, [], ◌∷◌,
  get_or, sweep, sweep_reaches, length, ltb, ◌==◌, arith,
}

abbrev pub mujoco_to_isaaclab : List ℕ
mujoco_to_isaaclab =
    0 ∷ 6 ∷ 12 ∷ 1 ∷ 7 ∷ 13 ∷ 2 ∷ 8 ∷ 14 ∷ 3 ∷ 9 ∷ 15 ∷ 22 ∷ 4 ∷ 10 ∷ 16 ∷ 23 ∷ 5 ∷ 11 ∷ 17 ∷ 24
    ∷ 18 ∷ 25 ∷ 19 ∷ 26 ∷ 20 ∷ 27 ∷ 21 ∷ 28 ∷ []

abbrev pub isaaclab_to_mujoco : List ℕ
isaaclab_to_mujoco =
    0 ∷ 3 ∷ 6 ∷ 9 ∷ 13 ∷ 17 ∷ 1 ∷ 4 ∷ 7 ∷ 10 ∷ 14 ∷ 18 ∷ 2 ∷ 5 ∷ 8 ∷ 11 ∷ 15 ∷ 19 ∷ 21 ∷ 23 ∷ 25
    ∷ 27 ∷ 12 ∷ 16 ∷ 20 ∷ 22 ∷ 24 ∷ 26 ∷ 28 ∷ []

-- The joint's place after one remapping; the default is no index.
unfoldable pub remap : List ℕ → ℕ → ℕ
remap order i = get_or order i 29

inverse_at : ℕ → Bool
inverse_at i =
    ltb (remap mujoco_to_isaaclab i) 29
    && ltb (remap isaaclab_to_mujoco i) 29
    && (remap isaaclab_to_mujoco (remap mujoco_to_isaaclab i) == i)
    && (remap mujoco_to_isaaclab (remap isaaclab_to_mujoco i) == i)

inverse_table : sweep inverse_at 29 0 ≡ true
unfolding sweep inverse_at remap
inverse_table = refl

-- The two orders have 29 places each, stay inside them, and are inverse to one another, both ways.
pub remap_inverse :
    (i : ℕ)
    → i < 29
    → (length mujoco_to_isaaclab ≡ 29)
      × (length isaaclab_to_mujoco ≡ 29)
      × (remap mujoco_to_isaaclab i < 29)
      × (remap isaaclab_to_mujoco i < 29)
      × (remap isaaclab_to_mujoco (remap mujoco_to_isaaclab i) ≡ i)
      × (remap mujoco_to_isaaclab (remap isaaclab_to_mujoco i) ≡ i)
unfolding inverse_at
remap_inverse i h =
    let here = sweep_reaches inverse_at 29 0 i (omega arith) (omega arith) inverse_table in
    (refl, refl, ground arith, ground arith, ground arith, ground arith)
