-- ===== src/Motion/TapDetector/Strokes.antt =====
-- TapDetector recognises single, double and triple taps.
use gearsonic_inference.Common.{
  ℕ, zero, suc, ◌+◌, ◌≤◌, ◌<◌, Bool, true, false, ◌≡◌, refl, ap, ◌∙◌, ◌&&◌, List, [], ◌∷◌, ◌++◌,
  replicate, leb, ◌==◌, arith, if◌then◌else◌,
}
use gearsonic_inference.Common.Float.{Float, nil}
use gearsonic_inference.Collector.RecordControl.{single, double, triple}
use gearsonic_inference.Motion.TapDetector.{
  TapDetector, update, track, press, release, wait, tap_max_s, double_gap_s, max_taps,
}
use gearsonic_inference.Motion.TapDetector.Taps.{run}

module _ (f : Float) (dt : f.Real) where
  open f use {Real, add, lt, le}

  -- The time that n ticks add up to.
  abbrev pub elapsed : ℕ → Real
  elapsed zero = nil f
  elapsed (suc n) = add (elapsed n) dt

  -- The button's own ticks, with no other button down.
  abbrev down : Bool × Bool
  down = (true, false)

  abbrev pub up : Bool × Bool
  up = (false, false)

  -- Not voided; button, window, count, and the two times.
  abbrev pub state : Bool → Bool → ℕ → Real → Real → TapDetector Real
  state pressed pending count x s = record {
    was_pressed = pressed;
    pending = pending;
    is_void = false;
    count = count;
    press_s = x;
    since_release_s = s;
  }

  -- A press of p + 1 ticks is shorter than kTapMaxS.
  abbrev pub IsShort : ℕ → Type 0
  IsShort p = le (tap_max_s f) (elapsed p) ≡ false

  -- The window of kDoubleGapS is open g ticks after a release.
  abbrev pub IsOpen : ℕ → Type 0
  IsOpen g =
      ((j : ℕ) → j ≤ g → lt (double_gap_s f) (elapsed j) ≡ false)
      × (le (elapsed g) (double_gap_s f) ≡ true)

  hold :
      (n k m c : ℕ) (s : Real) (rest : List (Bool × Bool))
      → n + k ≡ m
      → run f (state true false c (elapsed k) s) dt (replicate n down ++ rest)
        ≡ run f (state true false c (elapsed m) s) dt rest
  unfolding run update track press
  hold zero k m c s rest e =
      let e' : k ≡ m = omega arith in ap (λ i. run f (state true false c (elapsed i) s) dt rest) e'
  hold (suc n) k m c s rest e = hold n (suc k) m c s rest (omega arith)

  silence :
      (n k m c : ℕ) (x : Real) (rest : List (Bool × Bool))
      → n + k ≡ m
      → ((j : ℕ) → j ≤ m → lt (double_gap_s f) (elapsed j) ≡ false)
      → run f (state false true c x (elapsed k)) dt (replicate n up ++ rest)
        ≡ run f (state false true c x (elapsed m)) dt rest
  unfolding run update track wait
  silence zero k m c x rest e open_at =
      let e' : k ≡ m = omega arith in ap (λ i. run f (state false true c x (elapsed i)) dt rest) e'
  silence (suc n) k m c x rest e open_at =
      let inside : lt (double_gap_s f) (elapsed (suc k)) ≡ false = open_at (suc k) (omega arith) in
      rw inside (silence n (suc k) m c x rest (omega arith) open_at)

  -- A press, short, and its release.
  abbrev pub stroke : ℕ → List (Bool × Bool) → List (Bool × Bool)
  stroke p rest = down ∷ replicate p down ++ up ∷ rest

  press_edge :
      (pending : Bool) (c k p : ℕ) (x s : Real) (rest : List (Bool × Bool))
      → (if pending && le s (double_gap_s f) then c else 0) ≡ k
      → run f (state false pending c x s) dt (down ∷ rest)
        ≡ run f (state true false k (elapsed 0) s) dt rest
  unfolding run update track press
  press_edge pending c k p x s rest e = ap (λ i. run f (state true false i (elapsed 0) s) dt rest) e

  release_edge :
      (k p : ℕ) (s : Real) (rest : List (Bool × Bool))
      → IsShort p
      → k < 2
      → run f (state true false k (elapsed p) s) dt (up ∷ rest)
        ≡ run f (state false true (k + 1) (elapsed p) (elapsed 0)) dt rest
  unfolding run update track release
  release_edge k p s rest short few =
      let room : leb max_taps (k + 1) ≡ false = ground arith in rw (short, room)

  -- A short press in reach of the taps before it is counted.
  stroke_counts :
      (pending : Bool) (c k p : ℕ) (x s : Real) (rest : List (Bool × Bool))
      → (if pending && le s (double_gap_s f) then c else 0) ≡ k
      → IsShort p
      → k < 2
      → run f (state false pending c x s) dt (stroke p rest)
        ≡ run f (state false true (k + 1) (elapsed p) (elapsed 0)) dt rest
  stroke_counts pending c k p x s rest e short few =
      press_edge pending c k p x s (replicate p down ++ up ∷ rest) e
      ∙ hold p 0 p k s (up ∷ rest) (omega arith)
      ∙ release_edge k p s rest short few

  -- The events of a run that starts so.
  third_stroke :
      (c p : ℕ) (x s : Real)
      → c ≡ 2
      → IsShort p
      → le s (double_gap_s f) ≡ true
      → (run f (state false true c x s) dt (stroke p [])).1 ≡ triple ∷ []
  third_stroke c p x s e short near =
      ap (λ r. r.1)
        (press_edge true c 2 p x s (replicate p down ++ up ∷ []) (rw near e)
          ∙ hold p 0 p 2 s (up ∷ []) (omega arith))
      ∙ last_release
    where
      last_release : (run f (state true false 2 (elapsed p) s) dt (up ∷ [])).1 ≡ triple ∷ []
      last_release = unfold run update track release in rw short

  closes :
      (c g : ℕ) (x : Real)
      → ((j : ℕ) → j ≤ g → lt (double_gap_s f) (elapsed j) ≡ false)
      → lt (double_gap_s f) (elapsed (suc g)) ≡ true
      → (run f (state false true c x (elapsed 0)) dt (replicate g up ++ up ∷ [])).1
        ≡ (if c == 1 then single else double) ∷ []
  closes c g x quiet over =
      ap (λ r. r.1) (silence g 0 g c x (up ∷ []) (omega arith) quiet) ∙ last_wait
    where
      last_wait :
          (run f (state false true c x (elapsed g)) dt (up ∷ [])).1
          ≡ (if c == 1 then single else double) ∷ []
      last_wait = unfold run update track wait in rw over

  -- From a detector at rest (button up, window closed, not voided), with p, q, r the further ticks
  -- of the presses and g, h the further ticks of the gaps: one short press and a pause, over which
  -- the window closes at its last tick, is a single tap; two short presses with an open window
  -- between them are a double tap; a third such press is a triple tap, reported at its release.
  -- Nothing else is reported.
  pub taps_recognised :
      (c p q r g h : ℕ) (x s : Real)
      → IsShort p
      → IsShort q
      → IsShort r
      → IsOpen g
      → IsOpen h
      → lt (double_gap_s f) (elapsed (suc h)) ≡ true
      → ((run f (state false false c x s) dt (stroke p (replicate h up ++ up ∷ []))).1
          ≡ single ∷ [])
        × ((run f
              (state false false c x s)
              dt
              (stroke p (replicate g up ++ stroke q (replicate h up ++ up ∷ [])))).1
            ≡ double ∷ [])
        × ((run f
              (state false false c x s)
              dt
              (stroke p (replicate g up ++ stroke q (replicate h up ++ stroke r [])))).1
            ≡ triple ∷ [])
  taps_recognised c p q r g h x s short_p short_q short_r open_g open_h over = (
    ap (λ t. t.1) (first (replicate h up ++ up ∷ [])) ∙ closes 1 h (elapsed p) open_h.0 over,
    ap (λ t. t.1) (first_two (replicate h up ++ up ∷ [])) ∙ closes 2 h (elapsed q) open_h.0 over,
    ap (λ t. t.1)
          (first_two (replicate h up ++ stroke r [])
            ∙ silence h 0 h 2 (elapsed q) (stroke r []) (omega arith) open_h.0)
        ∙ third_stroke 2 r (elapsed q) (elapsed h) refl short_r open_h.1,
  )
    where
      first :
          (rest : List (Bool × Bool))
          → run f (state false false c x s) dt (stroke p rest)
            ≡ run f (state false true 1 (elapsed p) (elapsed 0)) dt rest
      first rest = stroke_counts false c 0 p x s rest refl short_p (omega arith)

      first_two :
          (rest : List (Bool × Bool))
          → run f (state false false c x s) dt (stroke p (replicate g up ++ stroke q rest))
            ≡ run f (state false true 2 (elapsed q) (elapsed 0)) dt rest
      first_two rest =
          first (replicate g up ++ stroke q rest)
          ∙ silence g 0 g 1 (elapsed p) (stroke q rest) (omega arith) open_g.0
          ∙ stroke_counts true 1 1 q (elapsed p) (elapsed g) rest (rw open_g.1) short_q
              (omega arith)
