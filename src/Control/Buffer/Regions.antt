-- ===== src/Control/Buffer/Regions.antt =====
-- What writes do to a buffer that is cut into regions.
use gearsonic_inference.Common.{
  ℕ, zero, suc, ◌+◌, ◌*◌, ◌≡◌, refl, sym, ap, ◌∙◌, List, [], ◌∷◌, ◌++◌, length, set, replicate,
  arith, length-append, length-replicate,
}
use mathlib.Core.List.{append_assoc}
use gearsonic_inference.Control.Buffer.{write_at, blocks, fill_two}

zero_add : (b : ℕ) → 0 + b ≡ b
zero_add b = omega arith

suc_add : (a b : ℕ) → suc a + b ≡ suc (a + b)
suc_add a b = omega arith

pub mul_suc : (k v : ℕ) → suc k * v ≡ v + k * v
mul_suc k v = grind arith

zero_mul : (v : ℕ) → 0 * v ≡ 0
zero_mul v = omega arith

pub next_mul : (i v : ℕ) → (i + 1) * v ≡ i * v + v
next_mul i v = grind arith

module _ {A : Type 0} where
  set-append :
      (pre post : List A) (x y : A) (i : ℕ)
      → i ≡ length pre
      → set (pre ++ y ∷ post) i x ≡ pre ++ x ∷ post
  set-append [] post x y zero h = refl
  set-append [] post x y (suc i) h = absurd (omega arith)
  set-append (a ∷ pre) post x y zero h = absurd (omega arith)
  set-append (a ∷ pre) post x y (suc i) h =
      ap (λ t. a ∷ t) (set-append pre post x y i (omega arith))

  -- A write over a middle part of the same length.
  pub write_at-append :
      (pre mid post xs : List A) (i : ℕ)
      → i ≡ length pre
      → length xs ≡ length mid
      → write_at (pre ++ (mid ++ post)) i xs ≡ pre ++ (xs ++ post)
  write_at-append pre [] post [] i h k = refl
  write_at-append pre [] post (x ∷ xs) i h k = absurd (omega arith)
  write_at-append pre (y ∷ mid) post [] i h k = absurd (omega arith)
  write_at-append pre (y ∷ mid) post (x ∷ xs) i h k = rw (set-append pre (mid ++ post) x y i h) (
      ap (λ t. write_at t (i + 1) xs) (sym (append_assoc pre (x ∷ []) (mid ++ post)))
      ∙ write_at-append (pre ++ x ∷ []) mid post xs (i + 1)
          (omega (arith, length-append pre (x ∷ []), h)) (omega arith)
      ∙ append_assoc pre (x ∷ []) (xs ++ post))

  pub replicate-add : (a b : ℕ) (x : A) → replicate (a + b) x ≡ replicate a x ++ replicate b x
  replicate-add zero b x = rw (zero_add b)
  replicate-add (suc a) b x = rw (suc_add a b) (ap (λ t. x ∷ t) (replicate-add a b x))

  pub length-blocks :
      (g : ℕ → List A) (v k i : ℕ) → ((j : ℕ) → length (g j) ≡ v) → length (blocks g k i) ≡ k * v
  length-blocks g v zero i wide = omega arith
  length-blocks g v (suc k) i wide = omega (
    arith,
    length-append (g i) (blocks g k (i + 1)),
    wide i,
    length-blocks g v k (i + 1) wide,
    mul_suc k v,
  )

  -- One frame's block is written at the end of what is filled.
  pub first_region :
      (g : ℕ → List A) (v k i : ℕ) (d : A) (pre rest : List A)
      → length (g i) ≡ v
      → (o : ℕ) → o ≡ length pre
      → write_at (pre ++ (replicate (suc k * v) d ++ rest)) o (g i)
        ≡ (pre ++ g i) ++ (replicate (k * v) d ++ rest)
  first_region g v k i d pre rest wide o h =
      rw (mul_suc k v, replicate-add v (k * v) d)
        (ap (λ t. write_at (pre ++ t) o (g i))
            (append_assoc (replicate v d) (replicate (k * v) d) rest)
          ∙ write_at-append pre (replicate v d) (replicate (k * v) d ++ rest) (g i) o h
              (wide ∙ sym (length-replicate v d))
          ∙ sym (append_assoc pre (g i) (replicate (k * v) d ++ rest)))

  regroup :
      (pre a z mid rest : List A)
      → (pre ++ a) ++ (z ++ (mid ++ rest)) ≡ ((pre ++ a) ++ (z ++ mid)) ++ rest
  regroup pre a z mid rest = simp append_assoc

  regroup_back :
      (pre z mid b rest : List A)
      → ((pre ++ (z ++ mid)) ++ b) ++ rest ≡ pre ++ (z ++ ((mid ++ b) ++ rest))
  regroup_back pre z mid b rest = simp append_assoc

  regroup_done :
      (pre a more mid b others post : List A)
      → (pre ++ a) ++ (more ++ ((mid ++ b) ++ (others ++ post)))
        ≡ pre ++ ((a ++ more) ++ (mid ++ ((b ++ others) ++ post)))
  regroup_done pre a more mid b others post = simp append_assoc

  -- Two regions that hold k frames of a default value are filled with the frames' blocks, and nothing
  -- else changes.
  pub fill_two_lem :
      (g : ℕ → List A) (o v : ℕ) (h : ℕ → List A) (p w k i : ℕ) (d : A) (pre mid post : List A)
      → ((j : ℕ) → length (g j) ≡ v)
      → ((j : ℕ) → length (h j) ≡ w)
      → o + i * v ≡ length pre
      → p + i * w ≡ length pre + k * v + length mid
      → fill_two g o v h p w k i
          (pre ++ (replicate (k * v) d ++ (mid ++ (replicate (k * w) d ++ post))))
        ≡ pre ++ (blocks g k i ++ (mid ++ (blocks h k i ++ post)))
  unfolding fill_two
  fill_two_lem g o v h p w zero i d pre mid post gw hw s t = rw (zero_mul v, zero_mul w)
  fill_two_lem g o v h p w (suc k) i d pre mid post gw hw s t =
      let rest = replicate (suc k * w) d ++ post in
      let one =
        first_region g v k i d pre (mid ++ rest) (gw i) (o + i * v) s
        ∙ regroup pre (g i) (replicate (k * v) d) mid rest in
      let two =
        first_region h w k i d ((pre ++ g i) ++ (replicate (k * v) d ++ mid)) post (hw i)
          (p + i * w)
          (omega (
            arith,
            length-append (pre ++ g i) (replicate (k * v) d ++ mid),
            length-append pre (g i),
            length-append (replicate (k * v) d) mid,
            length-replicate (k * v) d,
            gw i,
            mul_suc k v,
          )) in
      ap (λ b. fill_two g o v h p w k (i + 1) (write_at b (p + i * w) (h i))) one
      ∙ ap (λ b. fill_two g o v h p w k (i + 1) b) two
      ∙ ap (λ b. fill_two g o v h p w k (i + 1) b)
          (regroup_back (pre ++ g i) (replicate (k * v) d) mid (h i) (replicate (k * w) d ++ post))
      ∙ fill_two_lem g o v h p w k (i + 1) d (pre ++ g i) (mid ++ h i) post gw hw
          (omega (arith, next_mul i v, length-append pre (g i), gw i))
          (omega (
            arith,
            next_mul i w,
            length-append pre (g i),
            length-append mid (h i),
            gw i,
            hw i,
            mul_suc k v,
          ))
      ∙ regroup_done pre (g i) (blocks g k (i + 1)) mid (h i) (blocks h k (i + 1)) post

-- n zeros, cut in two.
pub cut :
    {A : Type 0} (n a b : ℕ) (x : A) → n ≡ a + b → replicate n x ≡ replicate a x ++ replicate b x
cut n a b x h = ap (λ k. replicate k x) h ∙ replicate-add a b x

-- A write after two filled parts.
pub write_after :
    {A : Type 0} (pre q dq xs post : List A) (i n : ℕ) (x : A)
    → i ≡ length pre + length q + length dq
    → length xs ≡ n
    → write_at (pre ++ (q ++ (dq ++ (replicate n x ++ post)))) i xs
      ≡ pre ++ (q ++ (dq ++ (xs ++ post)))
write_after pre q dq xs post i n x h k =
    let front = pre ++ (q ++ dq) in
    let join = λ (t : List _).
      sym (append_assoc pre (q ++ dq) t ∙ ap (λ u. pre ++ u) (append_assoc q dq t)) in
    ap (λ b. write_at b i xs) (join (replicate n x ++ post))
    ∙ write_at-append front (replicate n x) post xs i
        (omega (arith, h, length-append pre (q ++ dq), length-append q dq))
        (k ∙ sym (length-replicate n x))
    ∙ sym (join (xs ++ post))

-- A write before two filled parts and two after them.
pub three_writes :
    {A : Type 0} (head a q dq pos orn post : List A) (i j k : ℕ) (x : A)
    → i ≡ length head
    → length a ≡ 6
    → j ≡ length head + 6 + length q + length dq
    → length pos ≡ 9
    → k ≡ j + 9
    → length orn ≡ 12
    → write_at
        (write_at
          (write_at
            ((head ++ replicate 6 x) ++ (q ++ (dq ++ (replicate 9 x ++ (replicate 12 x ++ post)))))
            i
            a)
          j
          pos)
        k
        orn
      ≡ head ++ (a ++ (q ++ (dq ++ (pos ++ (orn ++ post)))))
three_writes head a q dq pos orn post i j k x hi ha hj hpos hk horn =
    let rest = q ++ (dq ++ (replicate 9 x ++ (replicate 12 x ++ post))) in
    ap (λ b. write_at (write_at (write_at b i a) j pos) k orn)
      (append_assoc head (replicate 6 x) rest)
    ∙ ap (λ b. write_at (write_at b j pos) k orn)
        (write_at-append head (replicate 6 x) rest a i hi ha ∙ sym (append_assoc head a rest))
    ∙ ap (λ b. write_at b k orn)
        (write_after (head ++ a) q dq pos (replicate 12 x ++ post) j 9 x
            (omega (arith, hj, ha, length-append head a)) hpos
          ∙ sym (append_assoc (head ++ a) q (dq ++ (pos ++ (replicate 12 x ++ post)))))
    ∙ write_after ((head ++ a) ++ q) dq pos orn post k 12 x
        (omega (arith, hk, hj, ha, hpos, length-append (head ++ a) q, length-append head a)) horn
    ∙ append_assoc (head ++ a) q (dq ++ (pos ++ (orn ++ post)))
    ∙ append_assoc head a (q ++ (dq ++ (pos ++ (orn ++ post))))
