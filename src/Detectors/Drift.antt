-- ===== src/Detectors/Drift.antt =====
-- services/layer2_anomaly/detectors: `CUSUMDetector` and `EWMADetector`.
use algo_trading_platform.Base.{◌+◌, none, some, List, [], length, ltb, if◌then◌else◌}
use algo_trading_platform.Float.{Float, nought, one, minimum, maximum}
use algo_trading_platform.Fusion.{DetectorResult}
use algo_trading_platform.Detectors.{
  pushed, min_samples, CusumDetector, EwmaChannel, EwmaDetector, warming_up, triggered_result,
  normal_result,
}

module _ {F : Type 0} ⦃fl : Float F⦄ where
  open fl use {decimal, add, sub, mul, div, abs, lt, le}

  -- `CUSUMDetector.__init__` with the default arguments
  abbrev pub new_cusum : CusumDetector F
  new_cusum = record {
    threshold = decimal 100 1;
    drift = decimal 5 1;
    w_price = decimal 5 1;
    w_spread = decimal 3 1;
    w_volume = decimal 2 1;
    history_window = 1000;
    price_buf = [];
    spread_buf = [];
    volume_buf = [];
    cusum_pos = nought;
    cusum_neg = nought;
    ticks = 0;
  }

  -- `EWMADetector.__init__` with the default arguments
  abbrev pub new_channel : EwmaChannel F
  new_channel = record {
    lambda = decimal 2 1;
    limit = decimal 40 1;
    history_window = 1000;
    buf = [];
    ewma = none;
    ticks = 0;
  }

  abbrev pub new_ewma : EwmaDetector F
  new_ewma = record { price_ch = new_channel; spread_ch = new_channel }

  -- `reset`
  abbrev pub reset : CusumDetector F → CusumDetector F
  reset d = record d { cusum_pos = nought; cusum_neg = nought }

  -- The end of `update`, once both accumulators have their new values.
  unfoldable pub judge : CusumDetector F → CusumDetector F × DetectorResult F
  judge d =
      let max_cusum : F = maximum d.cusum_pos d.cusum_neg in
      if le d.threshold max_cusum
      then (
        reset d,
        triggered_result (minimum (decimal 95 2) (div max_cusum d.threshold))
            (if le d.cusum_neg d.cusum_pos then "cusum_drift_up" else "cusum_drift_down"),
      )
      else (
        d,
        normal_result (minimum (decimal 64 2) (mul (div max_cusum d.threshold) (decimal 64 2))),
      )

  -- Both accumulators for the composite score `z`
  abbrev pub accumulate : F → CusumDetector F → CusumDetector F
  accumulate z d = record d {
    cusum_pos = maximum nought (sub (add d.cusum_pos z) d.drift);
    cusum_neg = maximum nought (sub (sub d.cusum_neg z) d.drift);
  }

  -- `L * sqrt(λ / (2 - λ))`
  abbrev pub control_limit : (sqrt : F → F) → EwmaChannel F → F
  control_limit sqrt c = mul c.limit (sqrt (div c.lambda (sub (decimal 20 1) c.lambda)))

  -- The score of a moving average
  unfoldable pub channel_score : F → F → F
  channel_score control ewma =
      if lt control (abs ewma)
      then minimum (decimal 95 2)
          (add (decimal 5 1) (mul (decimal 5 1) (div (sub (abs ewma) control) control)))
      else minimum (decimal 49 2) (mul (div (abs ewma) control) (decimal 49 2))

  module _ (mean stdev : List F → F) where
    -- `_zscore`; where `stdev` is called the window has the two values that it needs.
    abbrev pub zscore : F → List F → F
    zscore value buf =
        if ltb (length buf) min_samples
        then nought
        else if lt (stdev buf) (decimal 1 9)
        then nought
        else div (sub value (mean buf)) (stdev buf)

    -- The composite score of a tick, from the values before it
    abbrev pub composite : F → F → F → CusumDetector F → F
    composite price spread volume d =
        add
          (add (mul d.w_price (zscore price d.price_buf))
            (mul d.w_spread (zscore spread d.spread_buf)))
          (mul d.w_volume (zscore volume d.volume_buf))

    unfoldable pub update_cusum : F → F → F → CusumDetector F → CusumDetector F × DetectorResult F
    update_cusum price spread volume d =
        let fed = record d {
          price_buf = pushed d.history_window price d.price_buf;
          spread_buf = pushed d.history_window spread d.spread_buf;
          volume_buf = pushed d.history_window volume d.volume_buf;
          ticks = d.ticks + 1;
        } in
        if ltb fed.ticks min_samples
        then (fed, warming_up)
        else judge (accumulate (composite price spread volume d) fed)

    -- The deviation of a channel: one where it is not defined or too small
    abbrev pub deviation : List F → F
    deviation buf =
        if ltb (length buf) 2 then one else if lt (stdev buf) (decimal 1 9) then one else stdev buf

    -- `_ewma` after the normalised value `z`
    abbrev pub next_ewma : EwmaChannel F → F → F
    next_ewma c z = elim c.ewma [
      | none ↦ z
      | some e ↦ add (mul c.lambda z) (mul (sub one c.lambda) e)
    ]

    module _ (sqrt : F → F) where
      -- `_EWMAChannel.update`
      unfoldable pub update_channel : F → EwmaChannel F → EwmaChannel F × F
      update_channel value c =
          let fed = record c { buf = pushed c.history_window value c.buf; ticks = c.ticks + 1 } in
          let e : F = next_ewma c (div (sub value (mean fed.buf)) (deviation fed.buf)) in
          if ltb fed.ticks min_samples
          then (fed, decimal 25 2)
          else (record fed { ewma = some e }, channel_score (control_limit sqrt c) e)

      -- `EWMADetector.update`
      unfoldable pub update_ewma : F → F → EwmaDetector F → EwmaDetector F × DetectorResult F
      update_ewma price spread d =
          let (price_ch, price_score) = update_channel price d.price_ch in
          let (spread_ch, spread_score) = update_channel spread d.spread_ch in
          let spread_leads = le price_score spread_score in
          let score : F = if spread_leads then spread_score else price_score in
          (
            record { price_ch = price_ch; spread_ch = spread_ch },
            if le (decimal 5 1) score
                then triggered_result score (if spread_leads then "ewma_spread" else "ewma_price")
                else normal_result score,
          )
