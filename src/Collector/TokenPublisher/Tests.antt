-- ===== src/Collector/TokenPublisher/Tests.antt =====
-- The loop of MotionTokenPublisher at concrete reads.
use gearsonic_inference.Common.{ℕ, ◌≡◌, ◌⊎◌, true, arith, refl, Option, none, some, List, [], ◌∷◌}
use gearsonic_inference.Control.WholeBody.{TokenSample}
use gearsonic_inference.Collector.TokenPublisher.{first_last_seq, poll, polls}
use gearsonic_inference.Collector.TokenPublisher.Order.{AreRead, Rises, is_sent, each_token_once}

abbrev numbered : ℕ → TokenSample ℕ
numbered n = record { token = []; seq = n; arbiter_mode = 0; encoder_mode = 255 }

-- A sample is read twice, and the next one is overwritten before it is read.
abbrev reads : List (Option (TokenSample ℕ))
reads = none ∷ some (numbered 1) ∷ some (numbered 1) ∷ some (numbered 3) ∷ some (numbered 3) ∷ []

one_message_each : polls first_last_seq reads ≡ numbered 1 ∷ numbered 3 ∷ []
unfolding polls poll
one_message_each = refl

abbrev third : ℕ
third = 3

each_token_once_example :
    AreRead reads (polls 0 reads)
    × Rises 0 (polls 0 reads)
    × ((third ≡ 0) ⊎ (is_sent third (polls 0 reads) ≡ true))
each_token_once_example =
    each_token_once 0 third reads (omega arith, (omega arith, (omega arith, (omega arith, tt))))
      refl
