-- ===== src/Hands/Guard/Latch.antt =====
-- How long HandGuard's stall latch holds.
use gearsonic_inference.Common.{true, false, List, [], ◌∷◌, ◌≡◌, All, arith}
use gearsonic_inference.Common.Float.{Float, fabs}
use gearsonic_inference.Hands.Guard.{Params, Measured, Finger, detect}

module _ (f : Float) where
  open f use {Real, le}

  latch_kept :
      (p : Params Real) (dt e : Real) (x : Measured Real) (g : Finger Real)
      → g.latched ≡ true
      → le (fabs f e) p.stall_err_th ≡ false
      → (detect f p dt e x g).latched ≡ true
  unfolding detect
  latch_kept p dt e x g on far = ground arith

  -- One turn of a motor: the time step, the error of the desired target, the measurement.
  abbrev pub Turn : Type 0
  Turn = Real × Real × Measured Real

  unfoldable pub detect_run : Params Real → Finger Real → List Turn → Finger Real
  detect_run p g [] = g
  detect_run p g ((dt, e, x) ∷ ts) = detect_run p (detect f p dt e x g) ts

  -- A motor whose stall is latched stays latched for as long as its desired target is further than
  -- stall_err_th from the measured position, whatever it measures and however long that takes.
  latch_holds :
      (p : Params Real) (g : Finger Real) (ts : List Turn)
      → g.latched ≡ true
      → All (λ t. le (fabs f t.1) p.stall_err_th ≡ false) ts
      → (detect_run p g ts).latched ≡ true
  unfolding detect_run
  latch_holds p g [] on far = on
  latch_holds p g ((dt, e, x) ∷ ts) on (now, later) =
      latch_holds p (detect f p dt e x g) ts (latch_kept p dt e x g on now) later
