-- ===== src/Common/Tests.antt =====
-- Boolean tests on the native numbers, the conditional, and case lemmas.
use Prim.Native.Nat.{ℕ, zero, suc, ◌+◌, ◌-◌, ◌%◌, ◌≤◌, ◌<◌, compare, Ordering}
use mathlib.Core.Path.{◌≡◌, refl, ◌∙◌}
use mathlib.Core.Logic.{◌⊎◌, inl, inr}
use mathlib.Core.Bool.{Bool, true, false, ◌&&◌}
use mathlib.Core.Option.{Option, none, some}
use native.Mathlib.Omega.{arith}
use native.Mathlib.Nat.{mod-eq_of_lt, mod-eq-sub-mod}

abbrev pub ltb : ℕ → ℕ → Bool
ltb a b = elim (compare a b) [ Ordering.lt ↦ true | _ ↦ false ]

abbrev pub leb : ℕ → ℕ → Bool
leb a b = elim (compare a b) [ Ordering.gt ↦ false | _ ↦ true ]

infix 50 ◌==◌
abbrev pub ◌==◌ : ℕ → ℕ → Bool
a == b = elim (compare a b) [ Ordering.eq ↦ true | _ ↦ false ]

infix 1 if◌then◌else◌
abbrev pub if◌then◌else◌ {ℓ} : {A : Type ℓ} → Bool → A → A → A
if true then x else y = x
if false then x else y = y

-- A test as a number, as C++ converts `bool` to `int`.
abbrev pub of_bool : Bool → ℕ
of_bool true = 1
of_bool false = 0

pub leb→le : (a b : ℕ) → leb a b ≡ true → a ≤ b
leb→le a b h = ground arith

pub le→leb : (a b : ℕ) → a ≤ b → leb a b ≡ true
le→leb a b h = ground arith

pub lt→leb_false : (a b : ℕ) → b < a → leb a b ≡ false
lt→leb_false a b h = ground arith

pub Bool-cases : (b : Bool) → (b ≡ true) ⊎ (b ≡ false)
Bool-cases true = inl refl
Bool-cases false = inr refl

pub Option-cases {ℓ} : {A : Type ℓ} (o : Option A) → (o ≡ none) ⊎ ((a : A) × (o ≡ some a))
Option-cases none = inl refl
Option-cases (some a) = inr (a, refl)

-- `none` stands for a fault or for a missing value; a chain stops at it.
infixl 5 ◌>>=◌
abbrev pub ◌>>=◌ {ℓ κ} : {A : Type ℓ} {B : Type κ} → Option A → (A → Option B) → Option B
none >>= f = none
some a >>= f = f a

-- A test at the k places from one on.
unfoldable pub sweep : (ℕ → Bool) → ℕ → ℕ → Bool
sweep test zero place = true
sweep test (suc k) place = test place && sweep test k (place + 1)

pub sweep_reaches :
    (test : ℕ → Bool) (k place i : ℕ)
    → place ≤ i
    → i < place + k
    → sweep test k place ≡ true
    → test i ≡ true
unfolding sweep
sweep_reaches test zero place i from to passed = absurd (omega arith)
sweep_reaches test (suc k) place i from to passed = elim (Bool-cases (i == place)) [
  | inl here ↦ let same : i ≡ place = ground arith in rw same (ground arith)
  | inr later ↦ sweep_reaches test k (place + 1) i (ground arith) (omega arith) (ground arith)
]

-- The remainder of a number below twice the modulus.
pub wrap : (x c : ℕ) → x < c + c → x % c ≡ (if ltb x c then x else x - c)
wrap x c h = elim (Bool-cases (ltb x c)) [
  | inl below ↦ rw below (mod-eq_of_lt (ground arith))
  | inr above ↦
      rw above (mod-eq-sub-mod {n = x} {m = c} (ground arith) ∙ mod-eq_of_lt (ground arith))
]
