-- ===== src/Collector/TokenPublisher/Order.antt =====
-- What MotionTokenPublisher writes, against the samples that it reads.
use gearsonic_inference.Common.{
  ℕ, ◌<◌, ◌≤◌, Bool, true, false, ◌≡◌, subst, ◌⊎◌, inl, inr, ◌||◌, Option, none, some, List, [],
  ◌∷◌, ◌==◌, arith, Bool-cases, refl, All, Any,
}
use gearsonic_inference.Control.WholeBody.{TokenSample}
use gearsonic_inference.Collector.TokenPublisher.{poll, polls}

-- The reads' numbers do not fall below the last, nor one below another before it.
abbrev NeverFalls : {Real : Type 0} → ℕ → List (Option (TokenSample Real)) → Type 0
NeverFalls last [] = Unit {0}
NeverFalls last (none ∷ rest) = NeverFalls last rest
NeverFalls last (some s ∷ rest) = (last ≤ s.seq) × NeverFalls (s.seq) rest

-- The messages' numbers are above the last, each above the one before.
abbrev pub Rises : {Real : Type 0} → ℕ → List (TokenSample Real) → Type 0
Rises last [] = Unit {0}
Rises last (s ∷ rest) = (last < s.seq) × Rises (s.seq) rest

abbrev is_read : {Real : Type 0} → ℕ → List (Option (TokenSample Real)) → Bool
is_read n [] = false
is_read n (none ∷ rest) = is_read n rest
is_read n (some s ∷ rest) = (s.seq == n) || is_read n rest

abbrev pub is_sent : {Real : Type 0} → ℕ → List (TokenSample Real) → Bool
is_sent n [] = false
is_sent n (s ∷ rest) = (s.seq == n) || is_sent n rest

same_seq : (a b : ℕ) → (a == b) ≡ true → a ≡ b
same_seq a b h = ground arith

above : (a b : ℕ) → b ≤ a → (a == b) ≡ false → b < a
above a b up h = ground arith

either : (a b : Bool) → (a || b) ≡ true → (a ≡ true) ⊎ (b ≡ true)
either true b h = inl refl
either false b h = inr h

or_right : (a b : Bool) → b ≡ true → (a || b) ≡ true
or_right true b h = refl
or_right false b h = h

-- No sample is sent twice or out of order, if the reads' numbers never fall.
polls-Rises :
    {Real : Type 0} (last : ℕ) (reads : List (Option (TokenSample Real)))
    → NeverFalls last reads
    → Rises last (polls last reads)
unfolding poll polls
polls-Rises last [] up = tt
polls-Rises last (none ∷ rest) up = polls-Rises last rest up
polls-Rises last (some s ∷ rest) up = elim (Bool-cases (s.seq == last)) [
  | inl same ↦
      rw same
        (polls-Rises last rest (subst (λ n. NeverFalls n rest) (same_seq s.seq last same) up.1))
  | inr other ↦ rw other (above s.seq last up.0 other, polls-Rises (s.seq) rest up.1)
]

-- Each number that is read is the last one at the start or is sent.
reads_sent :
    {Real : Type 0} (last n : ℕ) (reads : List (Option (TokenSample Real)))
    → is_read n reads ≡ true
    → (n ≡ last) ⊎ (is_sent n (polls last reads) ≡ true)
unfolding poll polls
reads_sent last n [] h = absurd (ground arith)
reads_sent last n (none ∷ rest) h = reads_sent last n rest h
reads_sent last n (some s ∷ rest) h = elim (Bool-cases (s.seq == last)) [
  | inl same ↦ rw same (elim (either (s.seq == n) (is_read n rest) h) [
    | inl this ↦ inl (ground arith)
    | inr later ↦ reads_sent last n rest later
  ])
  | inr other ↦ rw other (elim (either (s.seq == n) (is_read n rest) h) [
    | inl this ↦ inr (rw this refl)
    | inr later ↦ elim (reads_sent s.seq n rest later) [
      | inl equal ↦ inr (ground arith)
      | inr sent ↦ inr (or_right (s.seq == n) (is_sent n (polls s.seq rest)) sent)
    ]
  ])
]

All-any :
    {A : Type 0} (P Q : A → Type 0) (xs : List A) → ((x : A) → P x → Q x) → All P xs → All Q xs
All-any P Q [] step h = tt
All-any P Q (x ∷ xs) step (here, later) = (step x here, All-any P Q xs step later)

-- What is sent is what was read.
abbrev pub AreRead :
    {Real : Type 0} → List (Option (TokenSample Real)) → List (TokenSample Real) → Type 0
AreRead reads sent = All (λ s. Any (λ r. r ≡ some s) reads) sent

polls-AreRead :
    {Real : Type 0} (last : ℕ) (reads : List (Option (TokenSample Real)))
    → AreRead reads (polls last reads)
unfolding poll polls
polls-AreRead last [] = tt
polls-AreRead last (none ∷ rest) =
    All-any _ _ (polls last rest) (λ s later. inr later) (polls-AreRead last rest)
polls-AreRead last (some s ∷ rest) = elim (Bool-cases (s.seq == last)) [
  | inl same ↦
      rw same (All-any _ _ (polls last rest) (λ x later. inr later) (polls-AreRead last rest))
  | inr other ↦ rw other (
    inl refl,
    All-any _ _ (polls (s.seq) rest) (λ x later. inr later) (polls-AreRead (s.seq) rest),
  )
]

-- Over any turns of the loop whose reads have numbers that never fall, one of them n: each message
-- is a sample that was read, the messages' numbers rise strictly from the last one sent before, and n
-- is that last one or is sent.
pub each_token_once :
    {Real : Type 0} (last n : ℕ) (reads : List (Option (TokenSample Real)))
    → NeverFalls last reads
    → is_read n reads ≡ true
    → AreRead reads (polls last reads)
      × Rises last (polls last reads)
      × ((n ≡ last) ⊎ (is_sent n (polls last reads) ≡ true))
each_token_once last n reads up read =
    (polls-AreRead last reads, polls-Rises last reads up, reads_sent last n reads read)
