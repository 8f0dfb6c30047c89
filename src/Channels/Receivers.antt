-- ===== src/Channels/Receivers.antt =====
-- VlaTokenReceiver::on_latent_action (src/vla/vla_token_receiver.cpp) and NavCmdReceiver::on_cmd
-- (src/motion/nav_cmd_receiver.cpp).
pub mod Newest
use gearsonic_inference.Common.{
  ℕ, ◌+◌, ◌%◌, ◌^◌, Bool, true, false, ◌&&◌, ◌||◌, not, Option, none, some, List, [], ◌∷◌,
  if◌then◌else◌, ◌==◌,
}
use gearsonic_inference.Common.Float.{Float}
use gearsonic_inference.Common.Int.{ℤ}
use gearsonic_inference.Motion.Handler.{NavCommand}
use gearsonic_inference.Channels.DataBuffer.{DataBuffer, set_data, empty}

-- The buffer that a receiver fills and its two counters (uint64_t).
pub record Receiver (M : Type 0) : Type 0 where
  pub buffer : DataBuffer M
  pub received : ℕ
  pub rejected : ℕ

abbrev pub silent : {M : Type 0} → Receiver M
silent = record { buffer = empty; received = 0; rejected = 0 }

-- `fetch_add(1) + 1`.
abbrev pub increment : ℕ → ℕ
increment n = (n + 1) % 2 ^ 64

pub record VlaLatentAction (Real : Type 0) : Type 0 where
  pub token : List Real  -- 64
  pub left_hand : List Real  -- 7
  pub right_hand : List Real  -- 7
  pub frame_index : ℤ
  pub stamp_ns : ℤ
  pub seq : ℕ

module _ (f : Float) where
  open f use {Real, is_finite}

  unfoldable pub all_finite : List Real → Bool
  all_finite [] = true
  all_finite (x ∷ xs) = is_finite x && all_finite xs

  abbrev pub action_fits : VlaLatentAction Real → Bool
  action_fits out = all_finite out.token && all_finite out.left_hand && all_finite out.right_hand

  -- The next state, and whether a rejection is logged.
  unfoldable pub on_latent_action :
      Receiver (VlaLatentAction Real)
      → VlaLatentAction Real
      → ℕ
      → Receiver (VlaLatentAction Real) × Bool
  on_latent_action r out now =
      let n = increment r.rejected in
      if not (all_finite out.token)
        || not (all_finite out.left_hand)
        || not (all_finite out.right_hand)
      then (record r { rejected = n }, n == 1 || n % 250 == 0)
      else (record r { buffer = set_data r.buffer out now; received = increment r.received }, false)

  abbrev pub cmd_fits : NavCommand Real → Bool
  cmd_fits cmd = is_finite cmd.vx && is_finite cmd.vy && is_finite cmd.vyaw

  -- The next state, and whether a line is logged: of a rejection, or of the first command.
  unfoldable pub on_cmd :
      Receiver (NavCommand Real) → NavCommand Real → ℕ → Receiver (NavCommand Real) × Bool
  on_cmd r cmd now =
      let n = increment r.rejected in
      if not (is_finite cmd.vx) || not (is_finite cmd.vy) || not (is_finite cmd.vyaw)
      then (record r { rejected = n }, n == 1 || n % 100 == 0)
      else (
        record r { buffer = set_data r.buffer cmd now; received = increment r.received },
        r.received == 0,
      )
