-- ===== src/Channels/Receivers/Newest.antt =====
-- What the receivers' buffers and counters hold after any messages.
use gearsonic_inference.Common.{
  ℕ, ◌+◌, ◌%◌, ◌^◌, ◌<◌, ◌≡◌, refl, Bool, Option, none, some, List, [], ◌∷◌, if◌then◌else◌, arith,
  of_bool,
}
use gearsonic_inference.Common.Float.{Float}
use gearsonic_inference.Motion.Handler.{NavCommand}
use gearsonic_inference.Channels.DataBuffer.{set_data, get_data_with_time}
use gearsonic_inference.Channels.Receivers.{
  Receiver, silent, increment, VlaLatentAction, action_fits, on_latent_action, cmd_fits, on_cmd,
}

module _ {M : Type 0} (fits : M → Bool) where
  -- The last message that fits, with its time.
  abbrev pub newest : List (M × ℕ) → Option (M × ℕ)
  newest [] = none
  newest ((x, t) ∷ rest) = elim (newest rest) [
    | some y ↦ some y
    | none ↦ if fits x then some (x, t) else none
  ]

  abbrev pub fitting : List (M × ℕ) → ℕ
  fitting [] = 0
  fitting ((x, t) ∷ rest) = of_bool (fits x) + fitting rest

  abbrev pub unfit : List (M × ℕ) → ℕ
  unfit [] = 0
  unfit ((x, t) ∷ rest) = (if fits x then 0 else 1) + unfit rest

  -- The buffer holds the last message that fits, and the counters those that fit and the others.
  abbrev pub Holds : Receiver M → List (M × ℕ) → Type 0
  Holds r messages =
      (get_data_with_time r.buffer ≡ newest messages)
      × (r.received ≡ fitting messages % 2 ^ 64)
      × (r.rejected ≡ unfit messages % 2 ^ 64)

module _ {M : Type 0} (step : Receiver M → M → ℕ → Receiver M) where
  abbrev pub receive : Receiver M → List (M × ℕ) → Receiver M
  receive r [] = r
  receive r ((x, t) ∷ rest) = receive (step r x t) rest

-- A receiver's step that keeps what fits and counts.
module _ {M : Type 0} (fits : M → Bool) (step : Receiver M → M → ℕ → Receiver M) where
  abbrev Intakes : Type 0
  Intakes =
      (r : Receiver M) (x : M) (t : ℕ)
      → step r x t ≡ (
          if fits x
          then record r { buffer = set_data r.buffer x t; received = increment r.received }
          else record r { rejected = increment r.rejected })

  abbrev later : Option (M × ℕ) → Option (M × ℕ) → Option (M × ℕ)
  later (some y) o = some y
  later none o = o

  receive_lem :
      Intakes
      → (r : Receiver M) (messages : List (M × ℕ)) → r.received < 2 ^ 64
      → r.rejected < 2 ^ 64
      → (get_data_with_time (receive step r messages).buffer
          ≡ later (newest fits messages) (get_data_with_time r.buffer))
        × ((receive step r messages).received ≡ (r.received + fitting fits messages) % 2 ^ 64)
        × ((receive step r messages).rejected ≡ (r.rejected + unfit fits messages) % 2 ^ 64)
  receive_lem law r [] h k = (refl, omega arith, omega arith)
  receive_lem law r ((x, t) ∷ rest) h k =
      let law' = law r x t in
      let ih = receive_lem law (step r x t) rest (ground (arith, law')) (ground (arith, law')) in
      ground (arith, law', ih)

  receive-Holds :
      Intakes → (messages : List (M × ℕ)) → Holds fits (receive step silent messages) messages
  receive-Holds law messages =
      ground (arith, receive_lem law silent messages (omega arith) (omega arith))

module _ (f : Float) where
  open f use {Real}

  latent_Intakes : Intakes (action_fits f) (λ r x t. (on_latent_action f r x t).0)
  unfolding on_latent_action
  latent_Intakes r x t = ground arith

  cmd_Intakes : Intakes (cmd_fits f) (λ r x t. (on_cmd f r x t).0)
  unfolding on_cmd
  cmd_Intakes r x t = ground arith

  -- From their start on and after any messages with their times, each of the two receivers holds in
  -- its buffer the last message whose values are all finite, with its time, and nothing if there was
  -- none; its counters are the numbers of those messages and of the others, modulo 2 ^ 64.
  pub receivers-Holds :
      (actions : List (VlaLatentAction Real × ℕ)) (commands : List (NavCommand Real × ℕ))
      → Holds
          (action_fits f)
          (receive (λ r x t. (on_latent_action f r x t).0) silent actions)
          actions
        × Holds (cmd_fits f) (receive (λ r x t. (on_cmd f r x t).0) silent commands) commands
  receivers-Holds actions commands = (
    receive-Holds (action_fits f) _ latent_Intakes actions,
    receive-Holds (cmd_fits f) _ cmd_Intakes commands,
  )
