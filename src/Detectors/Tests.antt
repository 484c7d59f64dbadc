-- ===== src/Detectors/Tests.antt =====
-- The detectors of services/layer2_anomaly/detectors at concrete ticks. The library functions are those of the
-- fixed-point numbers; the identity stands for the square root, and a mean deviation for `stdev`.
use algo_trading_platform.Base.{
  ℕ, ◌*◌, ◌/◌, ◌≤◌, ◌≡◌, refl, ◌||◌, true, false, some, List, [], ◌∷◌, ◌++◌, map, length, replicate,
  All, arith,
}
use native.Mathlib.Nat.{mul-le-mul, le_refl, div-le_of_le-mul}
use algo_trading_platform.Base.Int.{ℤ, pos, leb_ℤ, magnitude}
use algo_trading_platform.Float.Fixed.{fixed_float, scale, Fixed-IsOrdered}
use algo_trading_platform.Fusion.{DetectorResult}
use algo_trading_platform.Detectors.{
  CusumDetector, EwmaChannel, EwmaDetector, new_volatility, new_absolute, update_absolute,
}
use algo_trading_platform.Detectors.Drift.{new_cusum, new_channel, update_cusum, update_ewma}
use algo_trading_platform.Detectors.Ratio.{
  HasRoots, IsNumber, IsNested, volatility_results, volatility_never_triggers,
}
use algo_trading_platform.Detectors.Armed.{IsArmed, IsReset, update_cusum-IsArmed}
use algo_trading_platform.Detectors.Limits.{HasSigns, is_outside, update_ewma_triggers}

abbrev sum_of : List ℤ → ℤ
sum_of [] = pos 0
sum_of (x ∷ xs) = fixed_float.add x (sum_of xs)

abbrev mean_of : List ℤ → ℤ
mean_of xs = fixed_float.div (sum_of xs) (pos (1_000_000 * length xs))

abbrev deviation_of : List ℤ → ℤ
deviation_of xs = mean_of (map (λ x. fixed_float.abs (fixed_float.sub x (mean_of xs))) xs)

abbrev root_of : ℤ → ℤ
root_of x = x

sum_of-positive :
    (xs : List ℤ) → All (λ x. leb_ℤ (pos 0) x ≡ true) xs → leb_ℤ (pos 0) (sum_of xs) ≡ true
sum_of-positive [] h = refl
sum_of-positive (x ∷ xs) (p, h) = ground (arith, p, sum_of-positive xs h)

quotient-le : (a b : ℕ) → a ≤ b → a * scale / b ≤ scale
quotient-le a b h = div-le_of_le-mul b (omega (arith, mul-le-mul h (le_refl scale)))

roots : HasRoots ℤ root_of sum_of
roots = record {
  square_positive = λ x h. ground arith;
  sum_positive = sum_of-positive;
  sum_grows = λ x xs p h. ground (arith, p, sum_of-positive xs h);
  sqrt_positive = λ x h. h;
  sqrt_mono = λ x y a b. b;
  tiny_small = refl;
  quotient_below = λ x y a b. ground (arith, quotient-le (magnitude x) (magnitude y));
}

signs : HasSigns ℤ
signs = record {
  excess_positive = λ bound a g h. ground arith;
  halved_positive = λ a h. ground arith;
  added_to_half = λ a h. ground arith;
  half_below_cap = refl;
  quiet_below_half = refl;
  quiet_number = refl;
  warm_below_half = refl;
  warm_number = refl;
}

All-IsNumber : (xs : List ℤ) → All IsNumber xs
All-IsNumber [] = tt
All-IsNumber (x ∷ xs) = (ground arith, All-IsNumber xs)

-- Calm returns, then a hundredfold one
abbrev returns : List ℤ
returns = replicate 40 (pos 10_000) ++ pos 1_000_000 ∷ []

new_volatility-IsNested : IsNested {F = ℤ} new_volatility
new_volatility-IsNested = record {
  windows = omega arith;
  numbers = tt;
  nested = ([], refl);
  above_one = refl;
  spike_extreme = refl;
}

volatility_never_triggers_example :
    All
      (λ (r : DetectorResult ℤ). r.triggered ≡ false)
      (volatility_results root_of sum_of returns new_volatility)
volatility_never_triggers_example =
    volatility_never_triggers Fixed-IsOrdered root_of sum_of roots returns new_volatility
      (All-IsNumber returns) new_volatility-IsNested

-- The average before the first tick is one, so its volume alone can trigger.
first_volume_triggers :
    (update_absolute (pos 0) (pos 0) (pos 20_000_000) new_absolute).1.reason ≡ "volume_spike"
unfolding update_absolute
first_volume_triggers = refl

abbrev drifting : CusumDetector ℤ
drifting = record new_cusum { cusum_pos = pos 9_000_000; ticks = 40 }

drifting-IsArmed : IsArmed drifting
drifting-IsArmed = record {
  threshold = refl;
  pos_positive = refl;
  neg_positive = refl;
  pos_below = refl;
  neg_below = refl;
}

update_cusum-IsArmed_example :
    let r =
      update_cusum mean_of deviation_of (pos 3_000_000) (pos 1_000_000) (pos 500_000) drifting in
    IsArmed r.0 × IsReset r
update_cusum-IsArmed_example =
    update_cusum-IsArmed Fixed-IsOrdered mean_of deviation_of (pos 3_000_000) (pos 1_000_000)
      (pos 500_000) drifting drifting-IsArmed

abbrev warmed_channel : EwmaChannel ℤ
warmed_channel = record new_channel {
  buf = pos 1_000_000 ∷ pos 3_000_000 ∷ [];
  ewma = some (pos 400_000);
  ticks = 40;
}

abbrev ewma_detector : EwmaDetector ℤ
ewma_detector = record { price_ch = warmed_channel; spread_ch = new_channel }

update_ewma_triggers_example :
    let r =
      update_ewma mean_of deviation_of root_of (pos 90_000_000) (pos 1_000_000) ewma_detector in
    r.1.triggered ≡ (is_outside root_of r.0.price_ch || is_outside root_of r.0.spread_ch)
update_ewma_triggers_example =
    update_ewma_triggers Fixed-IsOrdered signs mean_of deviation_of root_of (pos 90_000_000)
      (pos 1_000_000) ewma_detector refl refl
