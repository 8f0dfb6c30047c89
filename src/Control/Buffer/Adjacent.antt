-- ===== src/Control/Buffer/Adjacent.antt =====
-- The loop over frames that fills adjacent regions of a buffer.
use gearsonic_inference.Common.{
  ℕ, zero, suc, ◌+◌, ◌*◌, ◌≡◌, refl, sym, ap, ◌∙◌, List, [], ◌∷◌, ◌++◌, length, map, All, arith,
  length-append,
}
use mathlib.Core.List.{append_assoc, append-nil}
use gearsonic_inference.Control.Buffer.{write_at, blocks, Region, write_frame, write_frames}
use gearsonic_inference.Control.Buffer.Regions.{write_at-append, length-blocks}

add_zero : (i : ℕ) → i + 0 ≡ i
add_zero i = omega arith

shift : (i k : ℕ) → i + 1 + k ≡ i + suc k
shift i k = omega arith

-- i frames, one more and k further ones.
sum_mul : (i k n v : ℕ) → i + suc k ≡ n → n * v ≡ i * v + v + k * v
sum_mul i k n v h = rw (← h) (grind arith)

module _ {A : Type 0} where
  -- A region with the frame's values that it held before.
  abbrev pub region : Region A × (ℕ → List A) → Region A
  region (r, old) = r

  -- The regions with i frames filled and k left as they were, and what follows them.
  abbrev pub filled : ℕ → ℕ → List (Region A × (ℕ → List A)) → List A → List A
  filled i k [] post = post
  filled i k (((g, v), old) ∷ rest) post = blocks g i 0 ++ (blocks old k i ++ filled i k rest post)

  abbrev pub Fits : List (Region A × (ℕ → List A)) → Type 0
  Fits regions =
      All (λ (r, old). ((j : ℕ) → length (r.0 j) ≡ r.1) × ((j : ℕ) → length (old j) ≡ r.1)) regions

  blocks_snoc : (g : ℕ → List A) (k i : ℕ) → blocks g (suc k) i ≡ blocks g k i ++ g (i + k)
  blocks_snoc g zero i = rw (append-nil (g i), add_zero i)
  blocks_snoc g (suc k) i =
      ap (λ t. g i ++ t) (blocks_snoc g k (i + 1))
      ∙ sym (append_assoc (g i) (blocks g k (i + 1)) (g (i + 1 + k)))
      ∙ rw (shift i k)

  snoc_from : (g : ℕ → List A) (i : ℕ) → blocks g (suc i) 0 ≡ blocks g i 0 ++ g i
  snoc_from g i = blocks_snoc g i 0 ∙ ap (λ j. blocks g i 0 ++ g j) (omega arith)

  write_frame_lem :
      (n i k offset : ℕ) (regions : List (Region A × (ℕ → List A))) (pre post : List A)
      → offset ≡ length pre
      → i + suc k ≡ n
      → Fits regions
      → write_frame n i offset (map region regions) (pre ++ filled i (suc k) regions post)
        ≡ pre ++ filled (suc i) k regions post
  unfolding write_frame
  write_frame_lem n i k offset [] pre post h total fit = refl
  write_frame_lem n i k offset (((g, v), old) ∷ rest) pre post h total ((wide, wide_old), fit) =
      let B = blocks g i 0 in
      let Z = blocks old k (i + 1) in
      let R = filled i (suc k) rest post in
      let F = filled (suc i) k rest post in
      let front = ((pre ++ B) ++ g i) ++ Z in
      let next = λ (b : List A). write_frame n i (offset + n * v) (map region rest) b in
      ap (λ b. next (write_at b (offset + i * v) (g i)))
        (ap (λ t. pre ++ (B ++ t)) (append_assoc (old i) Z R)
          ∙ sym (append_assoc pre B (old i ++ (Z ++ R))))
      ∙ ap next (
          write_at-append (pre ++ B) (old i) (Z ++ R) (g i) (offset + i * v)
            (omega (arith, length-append pre B, length-blocks g v i 0 wide))
            (wide i ∙ sym (wide_old i))
          ∙ sym (append_assoc (pre ++ B) (g i) (Z ++ R))
          ∙ sym (append_assoc ((pre ++ B) ++ g i) Z R))
      ∙ write_frame_lem n i k (offset + n * v) rest front post
          (omega (
            arith,
            sum_mul i k n v total,
            length-append ((pre ++ B) ++ g i) Z,
            length-append (pre ++ B) (g i),
            length-append pre B,
            length-blocks g v i 0 wide,
            length-blocks old v k (i + 1) wide_old,
            wide i,
          ))
          total fit
      ∙ append_assoc ((pre ++ B) ++ g i) Z F
      ∙ ap (λ t. t ++ (Z ++ F))
          (append_assoc pre B (g i) ∙ ap (λ t. pre ++ t) (sym (snoc_from g i)))
      ∙ append_assoc pre (blocks g (suc i) 0) (Z ++ F)
      ∙ ap (λ j. pre ++ (blocks g (suc i) 0 ++ (blocks old k j ++ F))) (omega arith)

  -- n frames of adjacent regions: each region is filled with its blocks, whatever it held before, and
  -- nothing else changes.
  pub write_frames_lem :
      (n k i offset : ℕ) (regions : List (Region A × (ℕ → List A))) (pre post : List A)
      → offset ≡ length pre
      → i + k ≡ n
      → Fits regions
      → write_frames n k i offset (map region regions) (pre ++ filled i k regions post)
        ≡ pre ++ filled n 0 regions post
  unfolding write_frames
  write_frames_lem n zero i offset regions pre post h total fit =
      ap (λ j. pre ++ filled j 0 regions post) (sym (add_zero i) ∙ total)
  write_frames_lem n (suc k) i offset regions pre post h total fit =
      ap (λ b. write_frames n k (i + 1) offset (map region regions) b)
        (write_frame_lem n i k offset regions pre post h total fit)
      ∙ ap
          (λ j.
            write_frames n k j offset (map region regions) (pre ++ filled (suc i) k regions post))
          (omega arith)
      ∙ write_frames_lem n k (suc i) offset regions pre post h (omega arith) fit
