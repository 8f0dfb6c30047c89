-- ===== src/Channels/DataBuffer.antt =====
-- DataBuffer of include/common/data_buffer.hpp. The lock makes each method one step. Times are
-- nanoseconds of the steady clock.
use gearsonic_inference.Common.{ℕ, ◌-◌, ◌/◌, Option, none, some}
use gearsonic_inference.Common.Float.{Float, of_nat}

pub record DataBuffer (A : Type 0) : Type 0 where
  pub content : Option A
  pub last_update_time : ℕ

module _ {A : Type 0} where
  abbrev pub empty : DataBuffer A
  empty = record { content = none; last_update_time = 0 }

  abbrev pub set_data : DataBuffer A → A → ℕ → DataBuffer A
  set_data b x now = record { content = some x; last_update_time = now }

  abbrev pub get_data : DataBuffer A → Option A
  get_data b = b.content

  -- TimestampedData, where there is data.
  abbrev pub get_data_with_time : DataBuffer A → Option (A × ℕ)
  get_data_with_time b = elim b.content [ none ↦ none | some x ↦ some (x, b.last_update_time) ]

  abbrev pub clear : DataBuffer A → DataBuffer A
  clear b = empty

-- GetAgeMs, of a time that is not after now: -1 without data, else whole microseconds over 1000.
abbrev pub get_age_ms : (f : Float) → {A : Type 0} → Option (A × ℕ) → ℕ → f.Real
get_age_ms f none now = f.neg (f.ratio 1 1)
get_age_ms f (some (x, time)) now = f.div (of_nat f ((now - time) / 1000)) (of_nat f 1000)
