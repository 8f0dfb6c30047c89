-- ===== src/Common/Float.antt =====
-- C++ `float` and `double`. The arithmetic is the machine's and is a parameter: a carrier with the
-- operations that the program calls, and no laws. A theorem that needs a law of IEEE arithmetic
-- takes it as a hypothesis of its own.
use Prim.Native.Nat.{ℕ, ◌+◌, ◌*◌, ◌/◌}
use mathlib.Core.Bool.{Bool, true}
use gearsonic_inference.Common.Tests.{if◌then◌else◌}
use gearsonic_inference.Common.Int.{ℤ, pos, negsuc, pos_part, neg_part, sub_ℕ, ltb_ℤ, leb_ℤ}

pub record Float : Type 1 where
  pub Real : Type 0
  -- The literal n / d of a source constant: `ratio 15 100` is `0.15`.
  pub ratio : ℕ → ℕ → Real
  pub neg : Real → Real
  pub add : Real → Real → Real
  pub sub : Real → Real → Real
  pub mul : Real → Real → Real
  pub div : Real → Real → Real
  -- `a < b`, `a <= b`: false where an operand is a NaN.
  pub lt : Real → Real → Bool
  pub le : Real → Real → Bool
  pub hypot : Real → Real → Real
  pub cos : Real → Real
  pub sin : Real → Real
  pub acos : Real → Real
  pub atan2 : Real → Real → Real
  pub sqrt : Real → Real
  pub is_finite : Real → Bool
  pub floor_nat : Real → ℕ  -- static_cast<int>(std::floor(x)), of an x that is not negative

module _ (f : Float) where
  open f use {Real, ratio, neg, lt}

  -- `static_cast` of a small integer.
  abbrev pub of_nat : ℕ → Real
  of_nat n = ratio n 1

  abbrev pub nil : Real
  nil = ratio 0 1

  abbrev pub one : Real
  one = ratio 1 1

  -- `std::max`, `std::min`, `std::clamp` and `std::abs`.
  abbrev pub fmax : Real → Real → Real
  fmax a b = if lt a b then b else a

  abbrev pub fmin : Real → Real → Real
  fmin a b = if lt b a then b else a

  abbrev pub fclamp : Real → Real → Real → Real
  fclamp v lo hi = if lt v lo then lo else if lt hi v then hi else v

  abbrev pub fabs : Real → Real
  fabs a = if lt a (ratio 0 1) then neg a else a

-- Thousandths, rounded towards zero: a concrete arithmetic for tests and witnesses.
trunc_div : ℤ → ℕ → ℤ
trunc_div (pos a) d = pos (a / d)
trunc_div (negsuc a) d = sub_ℕ 0 ((a + 1) / d)

milli_mul : ℤ → ℤ → ℤ
unfolding trunc_div
milli_mul a b =
    trunc_div
      (sub_ℕ (pos_part a * pos_part b + neg_part a * neg_part b)
        (pos_part a * neg_part b + neg_part a * pos_part b))
      1000

milli_div : ℤ → ℤ → ℤ
unfolding trunc_div
milli_div a (pos d) = trunc_div (sub_ℕ (pos_part a * 1000) (neg_part a * 1000)) d
milli_div a (negsuc d) = trunc_div (sub_ℕ (neg_part a * 1000) (pos_part a * 1000)) (d + 1)

unfoldable pub milli : Float
unfolding milli_mul milli_div
milli = record {
  Real = ℤ;
  ratio = λ n d. pos (n * 1000 / d);
  neg = λ a. sub_ℕ (neg_part a) (pos_part a);
  add = λ a b. sub_ℕ (pos_part a + pos_part b) (neg_part a + neg_part b);
  sub = λ a b. sub_ℕ (pos_part a + neg_part b) (neg_part a + pos_part b);
  mul = milli_mul;
  div = milli_div;
  lt = ltb_ℤ;
  le = leb_ℤ;
  hypot = λ a b. pos (pos_part a + neg_part a + pos_part b + neg_part b);
  cos = λ _. pos 1000;
  sin = λ _. pos 0;
  acos = λ _. pos 0;
  atan2 = λ _ _. pos 0;
  sqrt = λ a. a;
  is_finite = λ _. true;
  floor_nat = λ a. pos_part a / 1000;
}

-- The two formats of the program and the conversions between them.
pub record Machine : Type 1 where
  pub f32 : Float
  pub f64 : Float
  pub narrow : f64.Real → f32.Real  -- static_cast<float>
  pub widen : f32.Real → f64.Real

unfoldable pub milli_machine : Machine
unfolding milli
milli_machine = record { f32 = milli; f64 = milli; narrow = λ a. a; widen = λ a. a }
