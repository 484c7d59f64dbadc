-- ===== src/Float/Fixed.antt =====
-- A concrete `Float` on which the tests run and which meets the laws: decimals with six places,
-- rounded towards zero.
use algo_trading_platform.Base.{
  ℕ, ◌*◌, ◌/◌, ◌^◌, ◌≤◌, ◌<◌, Bool, true, ◌==◌, ◌||◌, if◌then◌else◌, arith, refl,
}
use algo_trading_platform.Base.Int.{ℤ, pos, negsuc, ◌+ℤ◌, ◌-ℤ◌, ltb_ℤ, leb_ℤ, sub_ℕ, magnitude}
use algo_trading_platform.Float.{Float, IsOrdered, IsRounded}
use native.Mathlib.Nat.{mul-le-mul, le_refl, le_of_lt, div-le_of_le-mul}

abbrev pub scale : ℕ
scale = 1_000_000

abbrev same_sign : ℤ → ℤ → Bool
same_sign (pos a) (pos b) = true
same_sign (negsuc a) (negsuc b) = true
same_sign a b = magnitude a == 0 || magnitude b == 0

abbrev with_sign : Bool → ℕ → ℤ
with_sign positive n = if positive then pos n else sub_ℕ 0 n

instance abbrev pub fixed_float : Float ℤ
fixed_float = record {
  decimal = λ n k. pos (n * scale / 10 ^ k);
  add = λ a b. a +ℤ b;
  sub = λ a b. a -ℤ b;
  mul = λ a b. with_sign (same_sign a b) (magnitude a * magnitude b / scale);
  div = λ a b. with_sign (same_sign a b) (magnitude a * scale / magnitude b);
  abs = λ a. pos (magnitude a);
  lt = ltb_ℤ;
  le = leb_ℤ;
  is_finite = λ _. true;
}

pub Fixed-IsOrdered : IsOrdered ℤ
Fixed-IsOrdered = ground arith

product-le : (a b : ℕ) → b ≤ scale → a * b / scale ≤ a
product-le a b h = omega (arith, mul-le-mul (le_refl a) h)

quotient-le : (a b : ℕ) → a < b → a * scale / b ≤ scale
quotient-le a b h = div-le_of_le-mul b (omega (arith, mul-le-mul (le_of_lt h) (le_refl scale)))

pub Fixed-IsRounded : IsRounded ℤ
Fixed-IsRounded = record {
  mul_shrinks = λ x m f a b c. ground (arith, product-le (magnitude x) (magnitude m));
  div_fraction = λ a b l h. ground (arith, quotient-le (magnitude a) (magnitude b));
  finite_below = λ x y a b c. refl;
}
