-- ===== src/Collector/TokenPublisher.antt =====
-- MotionTokenPublisher (include/collector/motion_token_publisher.hpp and
-- src/collector/motion_token_publisher.cpp): its loop, for a source that is there. A message has the
-- fields of its sample.
mod Order
mod Tests
use gearsonic_inference.Common.{
  ℕ, Bool, true, false, Option, none, some, List, [], ◌∷◌, if◌then◌else◌, ◌==◌,
}
use gearsonic_inference.Control.WholeBody.{TokenSample}

-- 0 before the first message; a sample's number is 1 or more.
abbrev pub first_last_seq : ℕ
first_last_seq = 0

-- One turn of the loop: the next last_seq_ and the message that is written.
unfoldable poll : {Real : Type 0} → ℕ → Option (TokenSample Real) → ℕ × Option (TokenSample Real)
poll last_seq none = (last_seq, none)
poll last_seq (some s) = if s.seq == last_seq then (last_seq, none) else (s.seq, some s)

abbrev emit :
    {Real : Type 0} → Option (TokenSample Real) → List (TokenSample Real) → List (TokenSample Real)
emit none ms = ms
emit (some s) ms = s ∷ ms

-- The messages of the loop's turns, by what each reads.
unfoldable polls : {Real : Type 0} → ℕ → List (Option (TokenSample Real)) → List (TokenSample Real)
polls last_seq [] = []
polls last_seq (r ∷ rest) = let p = poll last_seq r in emit p.1 (polls p.0 rest)
