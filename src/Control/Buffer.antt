-- ===== src/Control/Buffer.antt =====
-- Writes into a float buffer, and the loop over frames that fills two of its regions.
pub mod Regions
pub mod Adjacent
use gearsonic_inference.Common.{ℕ, zero, suc, ◌+◌, ◌*◌, List, [], ◌∷◌, ◌++◌, set}

-- A region of a buffer: a frame's values, and their number.
abbrev pub Region : Type 0 → Type 0
Region A = (ℕ → List A) × ℕ

module _ {A : Type 0} where
  -- dst[offset], dst[offset + 1], … from a list.
  abbrev pub write_at : List A → ℕ → List A → List A
  write_at buffer offset [] = buffer
  write_at buffer offset (x ∷ xs) = write_at (set buffer offset x) (offset + 1) xs

  -- The values of k frames from frame i on, one after the other.
  abbrev pub blocks : (ℕ → List A) → ℕ → ℕ → List A
  blocks g zero i = []
  blocks g (suc k) i = g i ++ blocks g k (i + 1)

  -- The loop over k frames from frame i on, which writes g i of width v and h i of width w.
  unfoldable pub fill_two : (ℕ → List A) → ℕ → ℕ → (ℕ → List A) → ℕ → ℕ → ℕ → ℕ → List A → List A
  fill_two g o v h p w zero i buffer = buffer
  fill_two g o v h p w (suc k) i buffer =
      fill_two g o v h p w k (i + 1)
        (write_at (write_at buffer (o + i * v) (g i)) (p + i * w) (h i))

  -- One frame's writes into adjacent regions of n frames each, the first of them at an offset.
  unfoldable pub write_frame : ℕ → ℕ → ℕ → List (Region A) → List A → List A
  write_frame n i offset [] buffer = buffer
  write_frame n i offset ((g, v) ∷ rest) buffer =
      write_frame n i (offset + n * v) rest (write_at buffer (offset + i * v) (g i))

  -- The loop over k frames from frame i on.
  unfoldable pub write_frames : ℕ → ℕ → ℕ → ℕ → List (Region A) → List A → List A
  unfolding write_frame
  write_frames n zero i offset regions buffer = buffer
  write_frames n (suc k) i offset regions buffer =
      write_frames n k (i + 1) offset regions (write_frame n i offset regions buffer)
