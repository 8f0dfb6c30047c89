-- ===== src/Teleop/Ring.antt =====
-- A ring of the newest items, with the index of the newest: the rings of SmplResampler and of
-- TeleopTracker's delay line.
use gearsonic_inference.Common.{
  ℕ, zero, suc, ◌+◌, ◌-◌, ◌%◌, ◌<◌, min, false, ◌≡◌, refl, sym, ap, ◌∙◌, subst, List, [], ◌∷◌,
  length, set, get_elem?, get_elem?-set, length-set, get_or, get_or_of_get_elem?, get_elem?_inside,
  if◌then◌else◌, ltb, ◌==◌, arith, wrap,
}

-- The ring's place i behind the newest.
abbrev pub place : ℕ → ℕ → ℕ → ℕ
place c head i = (head + c - i) % c

-- The ring has the newest of the items, given newest first.
pub record Newest {A : Type 0} (c : ℕ) (ring : List A) (head count : ℕ) (items : List A)
    : Type 0 where
  pub room : 0 < c
  pub slots : length ring ≡ c
  pub inside : head < c
  pub count_is : count ≡ min c (length items)
  pub entries : (i : ℕ) → i < count → get_elem? ring (place c head i) ≡ get_elem? items i

pub head_place : (c head : ℕ) → 0 < c → head < c → place c head 0 ≡ head
head_place c head room inside = ground (arith, wrap (head + c - 0) c)

older_place :
    (c head i : ℕ) → head < c → suc i < c → place c ((head + 1) % c) (suc i) ≡ place c head i
older_place c head i inside h =
    ground (arith, wrap (head + 1) c, wrap (head + c - i) c, wrap ((head + 1) % c + c - suc i) c)

other_place : (c head i : ℕ) → head < c → suc i < c → (place c head i == (head + 1) % c) ≡ false
other_place c head i inside h = ground (arith, wrap (head + 1) c, wrap (head + c - i) c)

next_inside : (c head : ℕ) → head < c → (head + 1) % c < c
next_inside c head inside = ground (arith, wrap (head + 1) c)

place_inside : (c head i : ℕ) → head < c → i < c → place c head i < c
place_inside c head i inside h = ground (arith, wrap (head + c - i) c)

-- The place after the newest, or any place of an empty ring.
module _ {A : Type 0} (c : ℕ) (ring : List A) (head count : ℕ) (items : List A) (next : ℕ)
    (x : A) where
  push-entries :
      Newest c ring head count items
      → next < c
      → (0 < count → next ≡ (head + 1) % c)
      → (i : ℕ) → i < (if ltb count c then count + 1 else count)
      → get_elem? (set ring next x) (place c next i) ≡ get_elem? (x ∷ items) i
  push-entries k inside step zero h =
      rw (head_place c next k.room inside)
        (get_elem?-set ring next next x ∙ ground (arith, k.slots))
  push-entries k inside step (suc i) h =
      let below : suc i < c = ground (arith, k.count_is) in
      let at : next ≡ (head + 1) % c = step (ground arith) in
      rw at (
        rw (older_place c head i k.inside below) (
          get_elem?-set ring ((head + 1) % c) (place c head i) x
          ∙ rw (other_place c head i k.inside below) (k.entries i (ground arith))))

  pub push-Newest :
      Newest c ring head count items
      → next < c
      → (0 < count → next ≡ (head + 1) % c)
      → Newest c (set ring next x) next (if ltb count c then count + 1 else count) (x ∷ items)
  push-Newest k inside step = record {
    room = k.room;
    slots = length-set ring next x ∙ k.slots;
    inside = inside;
    count_is = ground (arith, k.count_is);
    entries = push-entries k inside step;
  }

-- A full read at a place.
pub get_or-Newest :
    {A : Type 0} (c : ℕ) (ring : List A) (head count : ℕ) (items : List A) (d : A)
    → Newest c ring head count items
    → (i : ℕ) → i < count
    → get_or ring (place c head i) d ≡ get_or items i d
get_or-Newest c ring head count items d k i h =
    get_or_of_get_elem? ring (place c head i) d (get_or items i d)
      (k.entries i h ∙ get_elem?_inside items i d (omega (arith, k.count_is)))

pub first-Newest :
    {A : Type 0} (c : ℕ) (ring : List A) (head count : ℕ) (x : A)
    → Newest c ring head count []
    → Newest c (set ring head x) head 1 (x ∷ [])
first-Newest c ring head count x k =
    subst (λ n. Newest c (set ring head x) head n (x ∷ [])) (ground (arith, k.count_is, k.room))
      (push-Newest c ring head count [] head x k k.inside (λ h. absurd (omega (arith, k.count_is))))

pub next-Newest :
    {A : Type 0} (c : ℕ) (ring : List A) (head count : ℕ) (items : List A) (x : A)
    → Newest c ring head count items
    → Newest c
        (set ring ((head + 1) % c) x)
        ((head + 1) % c)
        (if ltb count c then count + 1 else count)
        (x ∷ items)
next-Newest c ring head count items x k =
    push-Newest c ring head count items ((head + 1) % c) x k (next_inside c head k.inside)
      (λ h. refl)

pub newest_lem :
    {A : Type 0} (c : ℕ) (ring : List A) (head count : ℕ) (rest : List A) (x d : A)
    → Newest c ring head count (x ∷ rest)
    → get_or ring head d ≡ x
newest_lem c ring head count rest x d k =
    ap (λ i. get_or ring i d) (sym (head_place c head k.room k.inside))
    ∙ get_or-Newest c ring head count (x ∷ rest) d k 0 (omega (arith, k.count_is, k.room))
