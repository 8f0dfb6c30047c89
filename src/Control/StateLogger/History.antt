-- ===== src/Control/StateLogger/History.antt =====
-- StateLogger keeps the newest entries of everything that was logged.
use gearsonic_inference.Common.{
  ℕ, zero, suc, ◌+◌, ◌-◌, ◌%◌, ◌≤◌, ◌<◌, min, true, false, ◌&&◌, ◌≡◌, refl, sym, ap, ◌∙◌, some,
  List, [], ◌∷◌, length, replicate, set, get_or, get_elem?, get_elem?-set, length-set,
  length-replicate, get_or_of_get_elem?, get_or_beyond, get_elem?_inside, get_elem?-replicate,
  if◌then◌else◌, ltb, leb, ◌==◌, arith, Bool-cases, inl, inr, wrap,
}
use native.Mathlib.Nat.{mod-lt}
use gearsonic_inference.Control.StateLogger.{StateLogger, new, log, copy, get_latest}

-- The places in the ring, before and after an entry is logged.
module _ (c start size : ℕ) (room : 0 < c) (inside : start < c) (fits : size ≤ c) where
  abbrev next_size : ℕ
  next_size = if ltb size c then size + 1 else size

  abbrev next_start : ℕ
  next_start = if ltb size c then start else (start + 1) % c

  next_start_inside : next_start < c
  next_start_inside = ground (arith, wrap (start + 1) c)

  newest_place : (next_start + next_size - 1 - 0) % c ≡ (start + size) % c
  newest_place = ground (
    arith,
    wrap (start + 1) c,
    wrap (start + size) c,
    wrap (start + 1 + size - 1) c,
    wrap (next_start + next_size - 1 - 0) c,
  )

  older_place :
      (i : ℕ)
      → suc i < next_size
      → (next_start + next_size - 1 - suc i) % c ≡ (start + size - 1 - i) % c
  older_place i h = ground (
    arith,
    wrap (start + 1) c,
    wrap (start + size - 1 - i) c,
    wrap (next_start + next_size - 1 - suc i) c,
  )

  other_place :
      (i : ℕ) → suc i < next_size → ((start + size - 1 - i) % c == (start + size) % c) ≡ false
  other_place i h = ground (arith, wrap (start + size - 1 - i) c, wrap (start + size) c)

  place_inside : (x : ℕ) → x % c < c
  place_inside x = mod-lt x room

module _ (E : Type 0) (zero_entry : E) where
  -- The logger against all the entries logged so far, newest first: it has the newest of them, the
  -- i-th newest at the i-th place behind the end.
  pub record Keeps (l : StateLogger E) (history : List E) : Type 0 where
    pub room : 0 < l.capacity
    pub slots : length l.ring ≡ l.capacity
    pub start_inside : l.start < l.capacity
    pub size_is : l.size ≡ min l.capacity (length history)
    pub entries :
        (i : ℕ)
        → i < l.size
        → get_elem? l.ring ((l.start + l.size - 1 - i) % l.capacity) ≡ get_elem? history i

  pub new-Keeps : (capacity : ℕ) → 0 < capacity → Keeps (new E zero_entry capacity) []
  unfolding new
  new-Keeps capacity h = record {
    room = h;
    slots = length-replicate capacity zero_entry;
    start_inside = h;
    size_is = omega arith;
    entries = λ i below. absurd (omega arith);
  }

  log-entries :
      (l : StateLogger E) (history : List E) (e : E)
      → Keeps l history
      → let m = log E zero_entry l e in
        (i : ℕ)
        → i < m.size
        → get_elem? m.ring ((m.start + m.size - 1 - i) % m.capacity) ≡ get_elem? (e ∷ history) i
  unfolding log
  log-entries l history e k zero h =
      let fits : l.size ≤ l.capacity = omega (arith, k.size_is) in
      let place = newest_place l.capacity l.start l.size k.room k.start_inside fits in
      rw place (
        get_elem?-set l.ring ((l.start + l.size) % l.capacity) ((l.start + l.size) % l.capacity) e
        ∙ ground (
          arith,
          k.slots,
          place_inside l.capacity l.start l.size k.room k.start_inside fits (l.start + l.size),
        ))
  log-entries l history e k (suc i) h =
      let fits : l.size ≤ l.capacity = omega (arith, k.size_is) in
      let place = older_place l.capacity l.start l.size k.room k.start_inside fits i h in
      let other = other_place l.capacity l.start l.size k.room k.start_inside fits i h in
      rw place (
        get_elem?-set l.ring ((l.start + l.size) % l.capacity)
          ((l.start + l.size - 1 - i) % l.capacity) e
        ∙ rw other (k.entries i (ground arith)))

  pub log-Keeps :
      (l : StateLogger E) (history : List E) (e : E)
      → Keeps l history
      → Keeps (log E zero_entry l e) (e ∷ history)
  unfolding log
  log-Keeps l history e k =
      let fits : l.size ≤ l.capacity = omega (arith, k.size_is) in
      record {
        room = k.room;
        slots = length-set l.ring ((l.start + l.size) % l.capacity) e ∙ k.slots;
        start_inside = next_start_inside l.capacity l.start l.size k.room k.start_inside fits;
        size_is = ground (arith, k.size_is);
        entries = log-entries l history e k;
      }

  copy_at :
      (l : StateLogger E) (n have k j p : ℕ) (out : List E)
      → n - have + j + k ≤ length out
      → get_elem? (copy E zero_entry l n have k j out) p ≡ (
          if leb (n - have + j) p && ltb p (n - have + j + k)
          then some
              (get_or l.ring ((l.start + l.size - have + (p - (n - have))) % l.capacity) zero_entry)
          else get_elem? out p)
  unfolding copy
  copy_at l n have zero j p out h = ground arith
  copy_at l n have (suc k) j p out h =
      let v = get_or l.ring ((l.start + l.size - have + j) % l.capacity) zero_entry in
      ground (
        arith,
        copy_at l n have k (j + 1) p (set out (n - have + j) v),
        length-set out (n - have + j) v,
        get_elem?-set out (n - have + j) p v,
      )

  -- The entry read for the i-th newest.
  read_entry :
      (l : StateLogger E) (history : List E) (i : ℕ)
      → Keeps l history
      → i < l.size
      → get_or l.ring ((l.start + l.size - 1 - i) % l.capacity) zero_entry
        ≡ get_or history i zero_entry
  read_entry l history i k h =
      let fits : l.size ≤ l.capacity = omega (arith, k.size_is) in
      let place = (l.start + l.size - 1 - i) % l.capacity in
      let inside =
        place_inside l.capacity l.start l.size k.room k.start_inside fits
          (l.start + l.size - 1 - i) in
      sym (
        get_or_of_get_elem? history i zero_entry (get_or l.ring place zero_entry) (
          sym (k.entries i h)
          ∙ get_elem?_inside l.ring place zero_entry (omega (arith, k.slots, inside))))

  -- GetLatest(n) has n entries, oldest first; the i-th from its end is the i-th newest of all the
  -- entries logged, or the zero entry where fewer were logged or the capacity is passed.
  pub get_latest_lem :
      (l : StateLogger E) (history : List E) (n i : ℕ)
      → Keeps l history
      → i < n
      → get_elem? (get_latest E zero_entry l n) (n - 1 - i)
        ≡ some (if ltb i l.capacity then get_or history i zero_entry else zero_entry)
  unfolding get_latest
  get_latest_lem l history n i k h =
      let have = min n l.size in
      let copied =
        copy_at l n have have 0 (n - 1 - i) (replicate n zero_entry)
          (omega (arith, length-replicate n zero_entry)) in
      elim (Bool-cases (ltb i l.size)) [
        | inl kept ↦
            let place : l.start + l.size - have + (n - 1 - i - (n - have))
                ≡ l.start + l.size - 1 - i =
              ground arith in
            let filled : (leb (n - have + 0) (n - 1 - i) && ltb (n - 1 - i) (n - have + 0 + have))
                ≡ true =
              ground arith in
            let capped : ltb i l.capacity ≡ true = ground (arith, k.size_is) in
            copied ∙ rw (filled, capped, place) (ap some (read_entry l history i k (ground arith)))
        | inr gone ↦
            let empty : (leb (n - have + 0) (n - 1 - i) && ltb (n - 1 - i) (n - have + 0 + have))
                ≡ false =
              ground arith in
            copied
            ∙ rw empty (
                ground (
                  arith,
                  k.size_is,
                  get_or_beyond history i zero_entry,
                  get_elem?-replicate n (n - 1 - i) zero_entry,
                ))
      ]

  -- Everything logged by a run, newest first.
  pub log_all : StateLogger E → List E → StateLogger E
  log_all l [] = l
  log_all l (e ∷ rest) = log_all (log E zero_entry l e) rest

  pub newest_first : List E → List E → List E
  newest_first history [] = history
  newest_first history (e ∷ rest) = newest_first (e ∷ history) rest

  log_all-Keeps :
      (l : StateLogger E) (history es : List E)
      → Keeps l history
      → Keeps (log_all l es) (newest_first history es)
  unfolding log_all newest_first
  log_all-Keeps l history [] k = k
  log_all-Keeps l history (e ∷ rest) k =
      log_all-Keeps (log E zero_entry l e) (e ∷ history) rest (log-Keeps l history e k)

  log_all-capacity : (l : StateLogger E) (es : List E) → (log_all l es).capacity ≡ l.capacity
  unfolding log_all log
  log_all-capacity l [] = refl
  log_all-capacity l (e ∷ rest) = log_all-capacity (log E zero_entry l e) rest

  -- From a new logger, after any entries: GetLatest(n) for n up to the capacity has the newest
  -- entries in order of logging, the i-th newest at the i-th place from the end, with zero entries
  -- in front where fewer than n were logged.
  pub latest_of_history :
      (capacity n i : ℕ) (es : List E)
      → n ≤ capacity
      → i < n
      → get_elem? (get_latest E zero_entry (log_all (new E zero_entry capacity) es) n) (n - 1 - i)
        ≡ some (get_or (newest_first [] es) i zero_entry)
  latest_of_history capacity n i es fits h =
      let kept =
        log_all-Keeps (new E zero_entry capacity) [] es (new-Keeps capacity (omega arith)) in
      let same = log_all-capacity (new E zero_entry capacity) es in
      let inside : ltb i (log_all (new E zero_entry capacity) es).capacity ≡ true =
        rw same (unfold new in ground arith) in
      get_latest_lem _ (newest_first [] es) n i kept h ∙ rw inside
