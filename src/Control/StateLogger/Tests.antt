-- ===== src/Control/StateLogger/Tests.antt =====
-- StateLogger at concrete inputs.
use gearsonic_inference.Common.{ℕ, ◌≡◌, some, [], ◌∷◌, get_elem?, get_or, arith}
use gearsonic_inference.Control.StateLogger.{new, get_latest}
use gearsonic_inference.Control.StateLogger.History.{log_all, newest_first, latest_of_history}

-- Five entries in a ring of three.
latest_of_history_example :
    get_elem? (get_latest ℕ 0 (log_all ℕ 0 (new ℕ 0 3) (11 ∷ 12 ∷ 13 ∷ 14 ∷ 15 ∷ [])) 2) 0
    ≡ some (get_or (newest_first ℕ 0 [] (11 ∷ 12 ∷ 13 ∷ 14 ∷ 15 ∷ [])) 1 0)
latest_of_history_example =
    latest_of_history ℕ 0 3 2 1 (11 ∷ 12 ∷ 13 ∷ 14 ∷ 15 ∷ []) (omega arith) (omega arith)
