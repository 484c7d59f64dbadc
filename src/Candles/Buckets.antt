-- ===== src/Candles/Buckets.antt =====
-- `_bucket_start` of services/layer3_strategy/candles.py: intervals of one length.
use algo_trading_platform.Base.{ℕ, suc, ◌+◌, ◌*◌, ◌/◌, ◌≤◌, ◌<◌, ◌≡◌, arith, ◌==◌, false, ap}
use native.Mathlib.Decide.{dec_lt}
use native.Mathlib.Nat.{mul-le-mul_right, div-add-mod, mod-lt}
use algo_trading_platform.Candles.{bucket_start}

module _ (ms : ℕ) (some_ms : 0 < ms) where
  -- A time lies in the interval that starts at its bucket.
  pub bucket_start-contains : (t : ℕ) → (bucket_start t ms ≤ t) × (t < bucket_start t ms + ms)
  bucket_start-contains t =
      (grind (arith, div-add-mod t ms), grind (arith, div-add-mod t ms, mod-lt t some_ms))

  quotient_le : (n m : ℕ) → n ≤ m → n / ms ≤ m / ms
  quotient_le n m h = elim (dec_lt (m / ms) (n / ms)) [
    | yes below ↦ absurd (
        let wide : suc (m / ms) * ms ≤ (n / ms) * ms = mul-le-mul_right ms below in
        let (low, _) = bucket_start-contains n in
        let (_, high) = bucket_start-contains m in grind (arith, wide, low, high))
    | no other ↦ omega arith
  ]

  pub bucket_start_le : (n m : ℕ) → n ≤ m → bucket_start n ms ≤ bucket_start m ms
  bucket_start_le n m h = mul-le-mul_right ms (quotient_le n m h)

  -- The bucket of a later time, if it is another one, starts when the earlier one has ended or later.
  pub bucket_start_step :
      (n m : ℕ)
      → n ≤ m
      → (bucket_start m ms == bucket_start n ms) ≡ false
      → bucket_start n ms + ms ≤ bucket_start m ms
  bucket_start_step n m h other = elim (dec_lt (n / ms) (m / ms)) [
    | yes below ↦
        let wide : suc (n / ms) * ms ≤ (m / ms) * ms = mul-le-mul_right ms below in
        grind (arith, wide)
    | no stays ↦
        let same : n / ms ≡ m / ms = omega (arith, quotient_le n m h) in
        absurd (
          let e : bucket_start n ms ≡ bucket_start m ms = ap (λ q. q * ms) same in grind (arith, e))
  ]
