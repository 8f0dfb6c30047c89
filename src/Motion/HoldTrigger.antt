-- ===== src/Motion/HoldTrigger.antt =====
-- InputHandler::HoldTrigger of include/motion/input_handler.hpp: "held alone for n ticks".
mod Tests
use gearsonic_inference.Common.{
  ℕ, zero, suc, ◌+◌, ◌≤◌, ◌<◌, Bool, true, false, ◌≡◌, refl, Option, none, some, List, [], ◌∷◌,
  replicate, get_elem?, if◌then◌else◌, ltb, leb, ◌==◌, arith,
}

pub record HoldTrigger : Type 0 where
  pub ticks : ℕ
  pub fired : Bool

abbrev pub released : HoldTrigger
released = record { ticks = 0; fired = false }

unfoldable pub tick : HoldTrigger → Bool → ℕ → HoldTrigger × Bool
tick t active_alone threshold =
    if active_alone
    then if t.fired
      then (t, false)
      else if leb threshold (t.ticks + 1)
      then (record { ticks = t.ticks + 1; fired = true }, true)
      else (record t { ticks = t.ticks + 1 }, false)
    else (released, false)

-- What the trigger returns over a run of ticks.
pub outputs : HoldTrigger → ℕ → List Bool → List Bool
outputs t threshold [] = []
outputs t threshold (active ∷ rest) =
    (tick t active threshold).1 ∷ outputs (tick t active threshold).0 threshold rest

silent_after_fired :
    (t : HoldTrigger) (k n i : ℕ)
    → t.fired ≡ true
    → get_elem? (outputs t k (replicate n true)) i ≡ (if ltb i n then some false else none)
unfolding outputs tick
silent_after_fired t k zero i e = ground arith
silent_after_fired t k (suc n) zero e = ground arith
silent_after_fired t k (suc n) (suc i) e = ground (arith, silent_after_fired t k n i)

counts_up :
    (t : HoldTrigger) (k n i : ℕ)
    → t.fired ≡ false
    → t.ticks ≤ k
    → get_elem? (outputs t (suc k) (replicate n true)) i
      ≡ (if ltb i n then some (t.ticks + i == k) else none)
unfolding outputs tick
counts_up t k zero i e h = ground arith
counts_up t k (suc n) zero e h = ground arith
counts_up t k (suc n) (suc i) e h = ground (
  arith,
  counts_up (record t { ticks = t.ticks + 1 }) k n i,
  silent_after_fired (record { ticks = t.ticks + 1; fired = true }) (suc k) n i,
)

-- After a tick that is not held alone, whatever came before it, a hold of n ticks fires exactly at
-- its tick number k + 1, the threshold, if it lasts that long, and at no other tick.
pub fires_once_at_threshold :
    (t : HoldTrigger) (k n i : ℕ)
    → get_elem? (outputs t (suc k) (false ∷ replicate n true)) (suc i)
      ≡ (if ltb i n then some (i == k) else none)
unfolding outputs tick
fires_once_at_threshold t k n i = ground (arith, counts_up released k n i)
