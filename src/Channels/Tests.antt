-- ===== src/Channels/Tests.antt =====
-- The theorems about the channels at concrete inputs.
use gearsonic_inference.Common.{
  ℕ, ◌≤◌, ◌≡◌, refl, some, List, [], ◌∷◌, ◌++◌, replicate, length, arith,
}
use gearsonic_inference.Common.Float.{Float, milli}
use gearsonic_inference.Common.Int.{pos, ltb_ℤ}
use gearsonic_inference.Motion.Handler.{NavCommand}
use gearsonic_inference.Channels.EventQueue.{EventQueue, new}
use gearsonic_inference.Channels.EventQueue.Order.{
  Access, pushes, drains, arrived, run, queue_order,
}
use gearsonic_inference.Channels.Receivers.{
  VlaLatentAction, action_fits, on_latent_action, cmd_fits, on_cmd, silent,
}
use gearsonic_inference.Channels.Receivers.Newest.{Holds, receive, receivers-Holds}

-- Three items in a queue of two, then a drain, then one more.
abbrev some_accesses : List (Access ℕ)
some_accesses = pushes 7 ∷ pushes 8 ∷ pushes 9 ∷ drains ∷ pushes 4 ∷ []

queue_order_example :
    (q : EventQueue ℕ) × (out : List ℕ) × (run (new 2) some_accesses ≡ some (q, out))
    × (out ++ q.queue ≡ arrived some_accesses)
    × (length q.queue ≤ 2)
queue_order_example = queue_order 2 some_accesses (omega arith)

oldest_evicted :
    run (new 2) some_accesses ≡ some (record { queue = 4 ∷ []; capacity = 2 }, 7 ∷ 8 ∷ 9 ∷ [])
unfolding run
oldest_evicted = refl

-- Thousandths, of which those of 1000000 and above stand for values that are not finite.
abbrev limited : Float
unfolding milli
limited = record milli { is_finite = λ a. ltb_ℤ a (pos 1000000) }

abbrev nav : ℕ → NavCommand limited.Real
unfolding milli
nav n = record { vx = pos n; vy = pos 0; vyaw = pos 0 }

abbrev action : ℕ → VlaLatentAction limited.Real
unfolding milli
action n = record {
  token = replicate 64 (pos n);
  left_hand = replicate 7 (pos 0);
  right_hand = replicate 7 (pos 0);
  frame_index = pos 1;
  stamp_ns = pos 2;
  seq = 3;
}

abbrev actions : List (VlaLatentAction limited.Real × ℕ)
actions = (action 5, 10) ∷ (action 2000000, 20) ∷ []

abbrev commands : List (NavCommand limited.Real × ℕ)
commands = (nav 2000000, 10) ∷ (nav 300, 20) ∷ (nav 400, 30) ∷ []

receivers-Holds_example :
    Holds
      (action_fits limited)
      (receive (λ r x t. (on_latent_action limited r x t).0) silent actions)
      actions
    × Holds
        (cmd_fits limited)
        (receive (λ r x t. (on_cmd limited r x t).0) silent commands)
        commands
receivers-Holds_example = receivers-Holds limited actions commands
