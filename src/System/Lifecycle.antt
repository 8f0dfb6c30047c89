-- ===== src/System/Lifecycle.antt =====
-- What runs after GearsonicInference.start, of whatever outcome.
use gearsonic_inference.Common.{ℕ, Bool, true, false, ◌≡◌, List, [], ◌∷◌, All, take}
use gearsonic_inference.System.{System, Ending, returned, thrown}
use gearsonic_inference.System.Stop.{stop}
use gearsonic_inference.System.Rollback.{Matches, IsIdle}

-- The flags of what has to run, in the order of `start`.
abbrev pub needed : System → List Bool
needed s =
    s.vr_started ∷ s.robot_started ∷ s.hand_state_started ∷ s.health_started ∷ s.vla_started
    ∷ s.nav_rx_started ∷ s.planner_started ∷ s.writer_started ∷ s.hand_writer_started
    ∷ s.token_pub_started ∷ s.control_started ∷ []

abbrev Up : ℕ → System → Type 0
Up n s = All (λ b. b ≡ true) (take n (needed s))

-- Of a start that returned false, nothing is left. Of one that succeeded, all but the recording and
-- the trace runs. Of one that threw, the headset's modules run at least. Of the last two each flag
-- says whether its module runs, and `stop` leaves nothing.
abbrev pub Settled : Ending × System → Type 0
Settled (returned false, s) = IsIdle s
Settled (returned true, s) = Matches s × All (λ b. b ≡ true) (needed s) × IsIdle (stop s)
Settled (thrown, s) = Matches s × (s.vr_started ≡ true) × IsIdle (stop s)
