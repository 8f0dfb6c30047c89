-- ===== src/Control/Playback/Blend.antt =====
-- What the blend of a new plan with the playback's motion holds.
use gearsonic_inference.Common.{
  ℕ, zero, suc, ◌+◌, ◌-◌, ◌<◌, min, true, ◌≡◌, refl, subst, ap, ◌∙◌, inl, inr, false, some, length,
  get_elem?, ltb, leb, arith, Bool-cases, List, get_or, zip_with, if◌then◌else◌, get_elem?_inside,
}
use gearsonic_inference.Common.Float.{Float, of_nat, nil, one, fclamp}
use gearsonic_inference.Common.Quaternion.{quat_slerp}
use gearsonic_inference.Control.Playback.{
  Frame, Motion, Playback, blank, blend_weight, mix, mix_frame, tabulate, old_frame, new_frame,
  blended_frame, blend_motion, sequence_capacity,
}
use gearsonic_inference.Control.Playback.Timeline.{IsPlanned, IsTimeline}

get_elem?-tabulate {ℓ} :
    {A : Type ℓ} (g : ℕ → A) (k i j : ℕ) → j < k → get_elem? (tabulate g k i) j ≡ some (g (i + j))
get_elem?-tabulate g zero i j h = absurd (omega arith)
get_elem?-tabulate g (suc k) i zero h = let e : i ≡ i + 0 = omega arith in ap (λ n. some (g n)) e
get_elem?-tabulate g (suc k) i (suc j) h =
    let e : i + 1 + j ≡ i + suc j = omega arith in
    get_elem?-tabulate g k (i + 1) j (omega arith) ∙ ap (λ n. some (g n)) e

index_zero {ℓ} : {A : Type ℓ} (g : ℕ → A) (i : ℕ) → some (g (0 + i)) ≡ some (g i)
index_zero g i = let e : 0 + i ≡ i = omega arith in ap (λ n. some (g n)) e

-- What a list has at place k, or at its last place where it ends before.
abbrev pub HeldAt : {A : Type 0} → List A → ℕ → A → Type 0
HeldAt xs k x = get_elem? xs (if ltb k (length xs) then k else length xs - 1) ≡ some x

at_or :
    {A : Type 0} (xs : List A) (k j : ℕ) (d : A)
    → 0 < length xs
    → j ≡ (if ltb k (length xs) then k else length xs - 1)
    → HeldAt xs k (get_or xs j d)
at_or xs k j d some_place e = rw e (get_elem?_inside xs _ d (ground arith))

module _ (f : Float) where
  open f use {Real, neg, add, sub, mul, div}

  -- The frames since the plan's first one, or since the cursor if that is later; negative before.
  abbrev pub since : ℕ → ℕ → ℕ → Real
  since cursor gen_frame i =
      if leb gen_frame cursor
      then of_nat f i
      else if leb gen_frame (cursor + i)
      then of_nat f (cursor + i - gen_frame)
      else neg (of_nat f (gen_frame - (cursor + i)))

  -- The share of the plan in frame i, which rises over 8 frames.
  abbrev pub share : ℕ → ℕ → ℕ → Real
  share cursor gen_frame i = fclamp f (div (since cursor gen_frame i) (of_nat f 8)) (nil f) (one f)

  abbrev weighted : Real → List Real → List Real → List Real
  weighted w a b = zip_with (λ x y. add (mul (sub (one f) w) x) (mul w y)) a b

  -- Frame x is the mean of a and b, with the weight w for b.
  pub record Mixes (w : Real) (a b x : Frame Real) : Type 0 where
    pub position_is : x.position ≡ weighted w a.position b.position
    pub quaternion_is : x.quaternion ≡ quat_slerp f a.quaternion b.quaternion w
    pub joints_are : x.joints ≡ weighted w a.joints b.joints
    pub velocities_are : x.joint_velocities ≡ weighted w a.joint_velocities b.joint_velocities

  since_lem :
      (i cursor gen_frame : ℕ)
      → (if ltb i (gen_frame - cursor)
          then neg (of_nat f (gen_frame - cursor - i))
          else of_nat f (i - (gen_frame - cursor)))
        ≡ since cursor gen_frame i
  since_lem i cursor gen_frame = elim (Bool-cases (leb gen_frame cursor)) [
    | inl past ↦
        let late : ltb i (gen_frame - cursor) ≡ false = ground arith in
        let n : i - (gen_frame - cursor) ≡ i = ground arith in rw (past, late, n) refl
    | inr ahead ↦ elim (Bool-cases (leb gen_frame (cursor + i))) [
      | inl reached ↦
          let late : ltb i (gen_frame - cursor) ≡ false = ground arith in
          let n : i - (gen_frame - cursor) ≡ cursor + i - gen_frame = ground arith in
          rw (ahead, reached, late, n) refl
      | inr before ↦
          let early : ltb i (gen_frame - cursor) ≡ true = ground arith in
          let n : gen_frame - cursor - i ≡ gen_frame - (cursor + i) = omega arith in
          rw (ahead, before, early, n) refl
    ]
  ]

  share_lem :
      (i cursor gen_frame : ℕ) → blend_weight f i (gen_frame - cursor) ≡ share cursor gen_frame i
  unfolding blend_weight
  share_lem i cursor gen_frame =
      ap (λ d. fclamp f (div d (of_nat f 8)) (nil f) (one f)) (since_lem i cursor gen_frame)

  old_held :
      (frames : List (Frame Real)) (i cursor timesteps : ℕ)
      → length frames ≡ timesteps
      → 0 < timesteps
      → HeldAt frames (cursor + i) (get_or frames (old_frame i cursor timesteps) (blank f))
  unfolding old_frame
  old_held frames i cursor timesteps n some_frame =
      at_or frames (cursor + i) _ (blank f) (omega (arith, n, some_frame)) (ground (arith, n))

  new_held :
      (frames : List (Frame Real)) (i cursor gen_frame timesteps : ℕ)
      → length frames ≡ timesteps
      → 0 < timesteps
      → HeldAt frames
          (cursor + i - gen_frame)
          (get_or frames (new_frame i cursor gen_frame timesteps) (blank f))
  unfolding new_frame
  new_held frames i cursor gen_frame timesteps n some_frame =
      at_or frames (cursor + i - gen_frame) _ (blank f) (omega (arith, n, some_frame))
        (ground (arith, n))

  -- A plan that reaches beyond the cursor is blended onto the timeline: the blend runs from the
  -- cursor to the plan's end, 1500 frames at most. Its frame i mixes the old motion's frame at
  -- cursor + i, or its last, with the plan's frame for the same time, held before its first and
  -- after its last. The plan's share rises over 8 frames from its first frame on, or from the cursor
  -- on if that is later.
  pub blend_on_timeline :
      (p : Playback Real) (gen : Motion Real) (i : ℕ)
      → IsTimeline Real p
      → 0 < p.motion.timesteps
      → IsPlanned Real gen
      → p.cursor < gen.gen_frame + gen.timesteps
      → i < min (gen.gen_frame + gen.timesteps - p.cursor) 1500
      → let q = blend_motion f p gen in
        (q.motion.timesteps ≡ min (gen.gen_frame + gen.timesteps - p.cursor) 1500)
        × (q.cursor ≡ 0)
        × (old : Frame Real) × (new : Frame Real) × (x : Frame Real) × HeldAt p.motion.frames
            (p.cursor + i)
            old
        × HeldAt gen.frames (p.cursor + i - gen.gen_frame) new
        × (get_elem? q.motion.frames i ≡ some x)
        × Mixes (share p.cursor gen.gen_frame i) old new x
  unfolding blend_motion blended_frame mix_frame mix
  blend_on_timeline p gen i t some_motion g reach inside =
      let new_len = min (gen.gen_frame + gen.timesteps - p.cursor) sequence_capacity in
      let goes : ltb p.cursor (gen.gen_frame + gen.timesteps) ≡ true = ground arith in
      let old = get_or p.motion.frames (old_frame i p.cursor p.motion.timesteps) (blank f) in
      let new = get_or gen.frames (new_frame i p.cursor gen.gen_frame gen.timesteps) (blank f) in
      let s = share_lem i p.cursor gen.gen_frame in
      (
        rw goes refl,
        rw goes refl,
        old,
        new,
        blended_frame f p gen i,
        old_held p.motion.frames i p.cursor p.motion.timesteps t.frames_are some_motion,
        new_held gen.frames i p.cursor gen.gen_frame gen.timesteps g.frames_are g.some_frame,
        rw goes (
            get_elem?-tabulate (blended_frame f p gen) new_len 0 i inside
            ∙ index_zero (blended_frame f p gen) i),
        subst (λ w. Mixes w old new (blended_frame f p gen i)) s
            (record {
              position_is = refl;
              quaternion_is = refl;
              joints_are = refl;
              velocities_are = refl;
            }),
      )
