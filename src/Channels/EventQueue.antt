-- ===== src/Channels/EventQueue.antt =====
-- EventQueue of include/common/event_queue.hpp. The lock makes each method one step.
pub mod Order
use gearsonic_inference.Common.{
  ℕ, Option, none, some, List, [], ◌∷◌, ◌++◌, length, leb, if◌then◌else◌,
}

pub record EventQueue (A : Type 0) : Type 0 where
  pub queue : List A  -- the front first
  pub capacity : ℕ

module _ {A : Type 0} where
  abbrev pub new : ℕ → EventQueue A
  new capacity = record { queue = []; capacity = capacity }

  -- A full queue gives up its oldest item. `none`: the front of an empty deque is taken.
  abbrev pub evict : List A → A → ℕ → Option (EventQueue A × Option A)
  evict [] item capacity = none
  evict (oldest ∷ rest) item capacity =
      some (record { queue = rest ++ item ∷ []; capacity = capacity }, some oldest)

  -- The queue and what was evicted.
  unfoldable pub push : EventQueue A → A → Option (EventQueue A × Option A)
  push q item =
      if leb q.capacity (length q.queue)
      then evict q.queue item q.capacity
      else some (record { queue = q.queue ++ item ∷ []; capacity = q.capacity }, none)

  unfoldable pub drain : EventQueue A → EventQueue A × List A
  drain q = (record { queue = []; capacity = q.capacity }, q.queue)
