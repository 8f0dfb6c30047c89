-- ===== src/Control/Arbiter/Diagram.antt =====
-- The transition diagram of ControlArbiter, and what holds along every run of `decide`.
use gearsonic_inference.Common.{
  true, false, ◌≡◌, refl, ◌≢◌, ◌↔◌, ◌⊎◌, inl, inr, List, [], ◌∷◌, All, Any, arith,
}
use gearsonic_inference.Control.Arbiter.{Mode, normal, teleop, vla, recovering, Inputs, decide}

-- The arrows of the header comment.
infix 40 ◌⟶◌
pub data ◌⟶◌ : Mode → Mode → Type 0 where
  claim_vla : normal ⟶ vla
  claim_teleop : normal ⟶ teleop
  let_go : teleop ⟶ normal
  lose_stream : vla ⟶ recovering
  reseeded : recovering ⟶ normal

ruleset arrows = (claim_vla, claim_teleop, let_go, lose_stream, reseeded)

decide-⟶ : (m : Mode) (i : Inputs) → (decide m i ≡ m) ⊎ (m ⟶ decide m i)
unfolding decide
decide-⟶ m i = grind (arith, arrows)

⟶-decide : {m n : Mode} → m ⟶ n → (i : Inputs) × (decide m i ≡ n)
unfolding decide
⟶-decide claim_vla =
    (record { vla_fresh = true; vla_alive = true; calibrated = false; recovery_done = false }, refl)
⟶-decide claim_teleop = (
  record { vla_fresh = false; vla_alive = false; calibrated = true; recovery_done = false },
  refl,
)
⟶-decide let_go = (
  record { vla_fresh = false; vla_alive = false; calibrated = false; recovery_done = false },
  refl,
)
⟶-decide lose_stream = (
  record { vla_fresh = false; vla_alive = false; calibrated = false; recovery_done = false },
  refl,
)
⟶-decide reseeded = (
  record { vla_fresh = false; vla_alive = false; calibrated = false; recovery_done = true },
  refl,
)

-- Between two different modes there is an arrow of the diagram exactly when some inputs make
-- `decide` go from the one to the other.
decide_iff_diagram : (m n : Mode) → m ≢ n → (m ⟶ n) ↔ ((i : Inputs) × (decide m i ≡ n))
decide_iff_diagram m n distinct = (⟶-decide, λ (i, e). grind (arith, decide-⟶ m i))

-- The modes of a run, the first one included.
unfoldable pub modes : Mode → List Inputs → List Mode
modes m [] = m ∷ []
modes m (i ∷ is) = m ∷ modes (decide m i) is

unfoldable pub final_mode : Mode → List Inputs → Mode
final_mode m [] = m
final_mode m (i ∷ is) = final_mode (decide m i) is

-- The stream owns the robot, or owned it and the origin is being restored.
abbrev pub IsExternal : Mode → Type 0
IsExternal m = (m ≡ vla) ⊎ (m ≡ recovering)

-- One mode belongs to the operator, the other to the stream.
abbrev pub IsRival : Mode → Mode → Type 0
IsRival m n = ((m ≡ teleop) × IsExternal n) ⊎ (IsExternal m × (n ≡ teleop))

leave_teleop : (i : Inputs) → (decide teleop i ≡ teleop) ⊎ (decide teleop i ≡ normal)
unfolding decide
leave_teleop i = ground arith

decide-IsExternal :
    (m : Mode) (i : Inputs) → IsExternal m → IsExternal (decide m i) ⊎ (decide m i ≡ normal)
unfolding decide
decide-IsExternal m i h = ground arith

starts_with_normal : (m : Mode) (is : List Inputs) → m ≡ normal → Any (λ k. k ≡ normal) (modes m is)
unfolding modes
starts_with_normal m [] e = inl e
starts_with_normal m (i ∷ is) e = inl e

-- Every run from a mode of the one side to a mode of the other visits `normal`: there is no direct
-- handover.
pub rival_visits_normal :
    (m : Mode) (is : List Inputs) → IsRival m (final_mode m is) → Any (λ k. k ≡ normal) (modes m is)
unfolding modes final_mode
rival_visits_normal m [] h = absurd (ground arith)
rival_visits_normal m (i ∷ is) (inl (e, ext)) = elim (leave_teleop i) [
  | inl stay ↦ inr (rival_visits_normal (decide m i) is (inl (rw e stay, ext)))
  | inr go ↦ inr (starts_with_normal _ is (rw e go))
]
rival_visits_normal m (i ∷ is) (inr (ext, e)) = elim (decide-IsExternal m i ext) [
  | inl stay ↦ inr (rival_visits_normal (decide m i) is (inr (stay, e)))
  | inr go ↦ inr (starts_with_normal _ is go)
]

stream_step : (i : Inputs) → i.vla_alive ≡ true → decide vla i ≡ vla
unfolding decide
stream_step i h = ground arith

operator_step : (i : Inputs) → i.calibrated ≡ true → decide teleop i ≡ teleop
unfolding decide
operator_step i h = ground arith

-- No preemption by the operator: over any number of ticks the stream keeps the robot while it is
-- alive, whatever the operator does.
stream_keeps : (is : List Inputs) → All (λ i. i.vla_alive ≡ true) is → final_mode vla is ≡ vla
unfolding final_mode
stream_keeps [] h = refl
stream_keeps (i ∷ is) h = rw (stream_step i h.0) (stream_keeps is h.1)

-- No preemption by the stream: over any number of ticks the operator keeps the robot while
-- calibrated, whatever the stream does.
operator_keeps :
    (is : List Inputs) → All (λ i. i.calibrated ≡ true) is → final_mode teleop is ≡ teleop
unfolding final_mode
operator_keeps [] h = refl
operator_keeps (i ∷ is) h = rw (operator_step i h.0) (operator_keeps is h.1)
