-- ===== src/Control/StateLogger.antt =====
-- StateLogger of include/control/state_logger.hpp: a ring of the last `capacity` entries. The mutex
-- makes each method one step. The entry type is left open; `zero_entry` is its default value.
pub mod History
mod Tests
use gearsonic_inference.Common.{
  ℕ, zero, suc, ◌+◌, ◌-◌, ◌%◌, min, Bool, List, [], ◌∷◌, replicate, set, get_or, if◌then◌else◌, ltb,
}

pub record StateLogger (E : Type 0) : Type 0 where
  pub capacity : ℕ
  pub ring : List E
  pub start : ℕ
  pub size : ℕ

module _ (E : Type 0) (zero_entry : E) where
  unfoldable pub new : ℕ → StateLogger E
  new capacity = record {
    capacity = capacity;
    ring = replicate capacity zero_entry;
    start = 0;
    size = 0;
  }

  unfoldable pub log : StateLogger E → E → StateLogger E
  log l e = record l {
    ring = set l.ring ((l.start + l.size) % l.capacity) e;
    size = if ltb l.size l.capacity then l.size + 1 else l.size;
    start = if ltb l.size l.capacity then l.start else (l.start + 1) % l.capacity;
  }

  -- The loop of GetLatest from j on, with k rounds left, over n slots of which `have` are filled.
  -- The indices do not go below 0, since `have` is at most n and at most the size.
  unfoldable pub copy : StateLogger E → ℕ → ℕ → ℕ → ℕ → List E → List E
  copy l n have zero j out = out
  copy l n have (suc k) j out = copy l n have k (j + 1) (
      set out (n - have + j)
        (get_or l.ring ((l.start + l.size - have + j) % l.capacity) zero_entry))

  unfoldable pub get_latest : StateLogger E → ℕ → List E
  get_latest l n = let have = min n l.size in copy l n have have 0 (replicate n zero_entry)
