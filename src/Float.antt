-- ===== src/Float.antt =====
-- What the program does with a Python `float`: literals, arithmetic and comparisons. Their meaning
-- (IEEE 754 binary64) is not code of the repository, so the type and its operations are a parameter;
-- `IsOrdered` and `IsRounded` name the documented behaviour that some theorems rely on.
pub mod Fixed
use algo_trading_platform.Base.{ℕ, ◌≡◌, Bool, true, false, if◌then◌else◌}

pub record Float (F : Type 0) : Type 0 where
  -- The double nearest to `n / 10 ^ k`.
  pub decimal : ℕ → ℕ → F
  pub add : F → F → F
  pub sub : F → F → F
  pub mul : F → F → F
  pub div : F → F → F
  pub abs : F → F
  pub lt : F → F → Bool
  pub le : F → F → Bool
  -- Neither NaN nor infinite.
  pub is_finite : F → Bool

module _ {F : Type 0} ⦃fl : Float F⦄ where
  open fl use {decimal, lt}

  abbrev pub nought : F
  nought = decimal 0 0

  abbrev pub one : F
  one = decimal 1 0

  -- Python's `max` and `min` keep the first argument unless the second is strictly better.
  abbrev pub maximum : F → F → F
  maximum a b = if lt a b then b else a

  abbrev pub minimum : F → F → F
  minimum a b = if lt b a then b else a

-- NaN is the value that is not `<=` itself; away from it the order is total.
pub record IsOrdered (F : Type 0) ⦃fl : Float F⦄ : Type 0 where
  pub refl_of_le : (a b : F) → fl.le a b ≡ true → (fl.le a a ≡ true) × (fl.le b b ≡ true)
  pub le_trans : (a b c : F) → fl.le a b ≡ true → fl.le b c ≡ true → fl.le a c ≡ true
  pub le_of_lt : (a b : F) → fl.lt a b ≡ true → fl.le a b ≡ true
  pub le_of_not_lt :
      (a b : F) → fl.le a a ≡ true → fl.le b b ≡ true → fl.lt a b ≡ false → fl.le b a ≡ true
  pub not_lt_of_le : (a b : F) → fl.le b a ≡ true → fl.lt a b ≡ false

-- Rounding keeps these orders; none of them holds of NaN, and `0 * inf` is kept out by `is_finite`.
pub record IsRounded (F : Type 0) ⦃fl : Float F⦄ : Type 0 where
  pub mul_shrinks :
      (x m : F)
      → fl.is_finite x ≡ true
      → fl.le nought x ≡ true
      → fl.le nought m ≡ true
      → fl.le m one ≡ true
      → (fl.le nought (fl.mul x m) ≡ true) × (fl.le (fl.mul x m) x ≡ true)
  pub div_fraction :
      (a b : F)
      → fl.le nought a ≡ true
      → fl.lt a b ≡ true
      → (fl.le nought (fl.div a b) ≡ true) × (fl.le (fl.div a b) one ≡ true)
  pub finite_below :
      (x y : F)
      → fl.le nought x ≡ true
      → fl.le x y ≡ true
      → fl.is_finite y ≡ true
      → fl.is_finite x ≡ true
