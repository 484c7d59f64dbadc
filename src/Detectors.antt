-- ===== src/Detectors.antt =====
-- services/layer2_anomaly/detectors: the volatility ratio, the MAD, the absolute threshold, the CUSUM and the EWMA
-- detector. The functions of the libraries for the mean, the deviation, the median, the square root and the
-- sum are parameters; the windows have room for a value, and `stdev` is of the values of a window, at least two.
pub mod Drift
pub mod Windows
pub mod Ratio
pub mod Armed
pub mod Limits
mod Tests
use algo_trading_platform.Base.{
  ℕ, suc, ◌+◌, ◌-◌, Bool, true, false, Option, none, some, List, [], ◌∷◌, ◌++◌, map, length, drop,
  ltb, leb, ◌==◌, ◌&&◌, if◌then◌else◌, String,
}
use algo_trading_platform.Float.{Float, nought, one, minimum, maximum}
use algo_trading_platform.Fusion.{DetectorResult}

-- `append` of a deque of at most `n` values
abbrev pub pushed {ℓ} : {A : Type ℓ} → ℕ → A → List A → List A
pushed n x xs = let ys = xs ++ x ∷ [] in drop (length ys - n) ys

-- `_MIN_SAMPLES` and `_WARMUP`
abbrev pub min_samples : ℕ
min_samples = 30

pub record VolatilityRatioDetector (F : Type 0) : Type 0 where
  pub short_window : ℕ
  pub long_window : ℕ
  pub short_buf : List F
  pub long_buf : List F
  pub spike_ratio : F
  pub extreme_ratio : F

pub record MadDetector (F : Type 0) : Type 0 where
  pub window : ℕ
  pub k_low_vol : F
  pub k_high_vol : F
  pub buf : List F

pub record AbsoluteThresholdDetector (F : Type 0) : Type 0 where
  pub price_jump_bps : F
  pub spread_bps : F
  pub volume_spike_x : F
  pub volume_avg_window : ℕ
  pub vol_buf : List F
  pub vol_sum : F

pub record CusumDetector (F : Type 0) : Type 0 where
  pub threshold : F
  pub drift : F
  pub w_price : F
  pub w_spread : F
  pub w_volume : F
  pub history_window : ℕ
  pub price_buf : List F
  pub spread_buf : List F
  pub volume_buf : List F
  pub cusum_pos : F
  pub cusum_neg : F
  pub ticks : ℕ

-- `_EWMAChannel`; its mean and deviation are computed anew where they are used.
pub record EwmaChannel (F : Type 0) : Type 0 where
  pub lambda : F
  pub limit : F
  pub history_window : ℕ
  pub buf : List F
  pub ewma : Option F
  pub ticks : ℕ

pub record EwmaDetector (F : Type 0) : Type 0 where
  pub price_ch : EwmaChannel F
  pub spread_ch : EwmaChannel F

module _ {F : Type 0} ⦃fl : Float F⦄ where
  open fl use {decimal, add, sub, mul, div, abs, lt, le}

  abbrev pub warming_up : DetectorResult F
  warming_up = record { score = decimal 25 2; triggered = false; reason = "warming_up" }

  abbrev pub triggered_result : F → String → DetectorResult F
  triggered_result score reason = record { score = score; triggered = true; reason = reason }

  abbrev pub normal_result : F → DetectorResult F
  normal_result score = record { score = score; triggered = false; reason = "normal" }

  -- `VolatilityRatioDetector.__init__` with the default arguments
  abbrev pub new_volatility : VolatilityRatioDetector F
  new_volatility = record {
    short_window = 30;
    long_window = 300;
    short_buf = [];
    long_buf = [];
    spike_ratio = decimal 30 1;
    extreme_ratio = decimal 50 1;
  }

  -- `MADDetector.__init__` and `AbsoluteThresholdDetector.__init__` with the default arguments
  abbrev pub new_mad : MadDetector F
  new_mad = record { window = 100; k_low_vol = decimal 60 1; k_high_vol = decimal 100 1; buf = [] }

  abbrev pub new_absolute : AbsoluteThresholdDetector F
  new_absolute = record {
    price_jump_bps = decimal 2_000 1;
    spread_bps = decimal 1_000 1;
    volume_spike_x = decimal 150 1;
    volume_avg_window = 300;
    vol_buf = [];
    vol_sum = nought;
  }

  module _ (sqrt : F → F) (sum : List F → F) where
    -- `_rv`
    abbrev pub realized_volatility : List F → F
    realized_volatility [] = nought
    realized_volatility (r ∷ rs) = sqrt (sum (map (λ x. mul x x) (r ∷ rs)))

    -- `update` from the two volatilities on
    abbrev pub score_ratio : VolatilityRatioDetector F → F → F → DetectorResult F
    score_ratio d rv_short rv_long =
        let ratio : F = div rv_short rv_long in
        if lt rv_long (decimal 1 12)
        then if lt (decimal 1 8) rv_short
          then triggered_result (decimal 7 1) "vol_from_zero"
          else normal_result nought
        else if le d.extreme_ratio ratio
        then triggered_result
            (minimum (decimal 95 2) (
              add (decimal 70 2)
                (mul (decimal 15 2) (div (sub ratio d.extreme_ratio) d.extreme_ratio))))
            "vol_explosion"
        else if le d.spike_ratio ratio
        then triggered_result
            (add (decimal 45 2) (
              mul (decimal 25 2)
                (div (sub ratio d.spike_ratio) (sub d.extreme_ratio d.spike_ratio))))
            "vol_spike"
        else normal_result (minimum (decimal 49 2) (mul (div ratio d.spike_ratio) (decimal 49 2)))

    unfoldable pub update_volatility :
        F → VolatilityRatioDetector F → VolatilityRatioDetector F × DetectorResult F
    update_volatility ret d =
        let fed = record d {
          short_buf = pushed d.short_window ret d.short_buf;
          long_buf = pushed d.long_window ret d.long_buf;
        } in
        (
          fed,
          if ltb (length fed.short_buf) min_samples
              then warming_up
              else score_ratio d (realized_volatility fed.short_buf)
                  (realized_volatility fed.long_buf),
        )

  module _ (median : List F → F) where
    unfoldable pub update_mad : F → ℕ → MadDetector F → MadDetector F × DetectorResult F
    update_mad ret regime d =
        let buf = pushed d.window ret d.buf in
        let med : F = median buf in
        let mad : F = median (map (λ x. abs (sub x med)) buf) in
        let robust_z : F = div (abs (sub ret med)) (mul (decimal 14_826 4) mad) in
        let k : F = if regime == 1 then d.k_high_vol else d.k_low_vol in
        (
          record d { buf = buf },
          if ltb (length buf) min_samples
              then warming_up
              else if lt mad (decimal 1 12)
              then record { score = decimal 3 1; triggered = false; reason = "flat_market" }
              else if lt k robust_z
              then triggered_result
                  (minimum (decimal 95 2)
                    (add (decimal 50 2) (mul (decimal 35 2) (div (sub robust_z k) k))))
                  "mad_outlier"
              else normal_result (minimum (decimal 49 2) (mul (div robust_z k) (decimal 49 2))),
        )

  -- `_vol_avg`
  abbrev pub vol_avg : AbsoluteThresholdDetector F → F
  vol_avg d = if length d.vol_buf == 0 then one else div d.vol_sum (decimal (length d.vol_buf) 0)

  -- `self._vol_sum`, less the oldest volume of a full window
  abbrev pub vol_sum_without_oldest : ℕ → List F → F → F
  vol_sum_without_oldest window [] total = total
  vol_sum_without_oldest window (oldest ∷ buf) total =
      if length (oldest ∷ buf) == window then sub total oldest else total

  -- `_update_vol`
  unfoldable pub update_vol : F → AbsoluteThresholdDetector F → AbsoluteThresholdDetector F
  update_vol volume d = record d {
    vol_buf = pushed d.volume_avg_window volume d.vol_buf;
    vol_sum = add (vol_sum_without_oldest d.volume_avg_window d.vol_buf d.vol_sum) volume;
  }

  -- The score of a breach: `min(0.95, base + slope * (raw - 1.0))`
  abbrev pub breach_score : F → F → F → F
  breach_score base slope raw = minimum (decimal 95 2) (add base (mul slope (sub raw one)))

  unfoldable pub update_absolute :
      F → F → F → AbsoluteThresholdDetector F → AbsoluteThresholdDetector F × DetectorResult F
  update_absolute price_jump spread volume d =
      let avg_vol : F = vol_avg d in
      let jump_raw : F = div (abs price_jump) d.price_jump_bps in
      let spread_raw : F = div spread d.spread_bps in
      let volume_raw : F = div (div volume avg_vol) d.volume_spike_x in
      (
        update_vol volume d,
        if lt d.price_jump_bps (abs price_jump)
            then triggered_result (breach_score (decimal 40 2) (decimal 35 2) jump_raw)
                "flash_crash_price"
            else if lt d.spread_bps spread
            then triggered_result (breach_score (decimal 40 2) (decimal 30 2) spread_raw)
                "liquidity_spread"
            else if lt nought avg_vol && lt d.volume_spike_x (div volume avg_vol)
            then triggered_result (breach_score (decimal 35 2) (decimal 25 2) volume_raw)
                "volume_spike"
            else normal_result (
                minimum (decimal 49 2) (
                  mul
                    (maximum (maximum jump_raw spread_raw)
                      (if lt nought avg_vol then volume_raw else nought))
                    (decimal 49 2))),
      )
