-- ===== src/Indicators/State.antt =====
-- services/layer3_strategy/indicators.py: `TimeframeIndicatorState` and `IndicatorManager`. A call returns
-- the new state with the snapshot; the library functions are those of the series.
use algo_trading_platform.Base.{
  ℕ, Bool, Option, none, some, List, [], ◌∷◌, ◌++◌, map, get_last?, get_previous?, String,
  if◌then◌else◌,
}
use algo_trading_platform.Base.Dict.{Dict, lookup, insert, string_eq}
use algo_trading_platform.Base.Outcome.{Outcome, returned, raised, value_error, index_error, ◌>>=◌}
use algo_trading_platform.Float.{Float}
use algo_trading_platform.Schema.{EmaAlignment, EmaCross, Regime, IndicatorSnapshot}
use algo_trading_platform.Candles.{Candle}
use algo_trading_platform.Indicators.{
  Bands, Macd, ema_series, rsi_series, bollinger_series, atr_series, macd_series, adx_series,
}

pub record TimeframeIndicatorState (F : Type 0) : Type 0 where
  pub symbol : String
  pub timeframe : String
  pub rsi_period : ℕ
  pub macd_fast_period : ℕ
  pub macd_slow_period : ℕ
  pub macd_signal_period : ℕ
  pub bollinger_period : ℕ
  pub bollinger_std_dev : F
  pub ema_fast_period : ℕ
  pub ema_slow_period : ℕ
  pub atr_period : ℕ
  pub adx_period : ℕ
  pub candles : List (Candle F)
  pub latest_snapshot : Option (IndicatorSnapshot F)

-- The series that `process` computes of all its candles.
pub record SeriesSet (F : Type 0) : Type 0 where
  pub rsi : List (Option F)
  pub macd : Macd F
  pub bollinger : Bands F
  pub ema_fast : List (Option F)
  pub ema_slow : List (Option F)
  pub atr : List (Option F)
  pub adx : List (Option F)

-- `values[latest_index]` and `values[latest_index - 1] if latest_index > 0 else None`
abbrev pub latest_of {ℓ} : {A : Type ℓ} → List (Option A) → Outcome (Option A)
latest_of values = elim (get_last? values) [ none ↦ raised index_error | some v ↦ returned v ]

abbrev pub previous_of {ℓ} : {A : Type ℓ} → List (Option A) → Option A
previous_of values = elim (get_previous? values) [ none ↦ none | some v ↦ v ]

module _ {F : Type 0} ⦃fl : Float F⦄ where
  open fl use {decimal, lt, le}

  -- `__init__` with the default periods
  abbrev pub new_state : String → String → TimeframeIndicatorState F
  new_state symbol timeframe = record {
    symbol = symbol;
    timeframe = timeframe;
    rsi_period = 14;
    macd_fast_period = 12;
    macd_slow_period = 26;
    macd_signal_period = 9;
    bollinger_period = 20;
    bollinger_std_dev = decimal 20 1;
    ema_fast_period = 9;
    ema_slow_period = 21;
    atr_period = 14;
    adx_period = 14;
    candles = [];
    latest_snapshot = none;
  }

  -- `alignment` of the latest two averages
  unfoldable pub ema_alignment : Option F → Option F → Option EmaAlignment
  ema_alignment (some fast) (some slow) = some (
      if lt slow fast
      then EmaAlignment.bullish
      else if lt fast slow
      then EmaAlignment.bearish
      else EmaAlignment.neutral)
  ema_alignment fast slow = none

  -- The test of the previous averages for a cross upwards or downwards.
  abbrev pub crossed : (F → F → Bool) → EmaCross → Option F → Option F → Option EmaCross
  crossed before cross (some fast) (some slow) = if before fast slow then some cross else none
  crossed before cross fast slow = none

  -- `cross` of the latest two averages and the two before
  unfoldable pub ema_cross : Option F → Option F → Option F → Option F → Option EmaCross
  ema_cross (some fast) (some slow) previous_fast previous_slow =
      if lt slow fast
      then crossed le EmaCross.bullish previous_fast previous_slow
      else if lt fast slow
      then crossed (λ f s. le s f) EmaCross.bearish previous_fast previous_slow
      else none
  ema_cross fast slow previous_fast previous_slow = none

  unfoldable pub regime_of : Option F → Option Regime
  regime_of none = none
  regime_of (some adx) = some (
      if lt adx (decimal 25 0)
      then Regime.ranging
      else if lt adx (decimal 50 0)
      then Regime.trending
      else Regime.strong_trend)

  unfoldable pub snapshot_of :
      TimeframeIndicatorState F → Candle F → SeriesSet F → Outcome (IndicatorSnapshot F)
  snapshot_of s candle series = latest_of series.ema_fast >>= λ fast.
      latest_of series.ema_slow >>= λ slow. latest_of series.adx >>= λ adx.
      latest_of series.rsi >>= λ rsi. latest_of series.macd.line >>= λ macd.
      latest_of series.macd.signal >>= λ macd_signal.
      latest_of series.macd.histogram >>= λ macd_histogram.
      latest_of series.bollinger.middle >>= λ bollinger_middle.
      latest_of series.bollinger.upper >>= λ bollinger_upper.
      latest_of series.bollinger.lower >>= λ bollinger_lower. latest_of series.atr >>= λ atr.
      returned (record {
        symbol = s.symbol;
        timeframe = s.timeframe;
        candle_start_time_utc = candle.start_time_utc;
        candle_end_time_utc = candle.end_time_utc;
        close = candle.close;
        rsi = rsi;
        macd = macd;
        macd_signal = macd_signal;
        macd_histogram = macd_histogram;
        bollinger_middle = bollinger_middle;
        bollinger_upper = bollinger_upper;
        bollinger_lower = bollinger_lower;
        ema_fast = fast;
        ema_slow = slow;
        ema_alignment = ema_alignment fast slow;
        ema_cross = ema_cross fast slow (previous_of series.ema_fast) (previous_of series.ema_slow);
        atr = atr;
        adx = adx;
        regime = regime_of adx;
        candle_reliable = candle.is_reliable;
      })

  -- The end of `process`: the candle stays in the history also where a step raises.
  abbrev pub with_snapshot :
      TimeframeIndicatorState F
      → Outcome (IndicatorSnapshot F)
      → TimeframeIndicatorState F × Outcome (Option (IndicatorSnapshot F))
  with_snapshot kept (returned snapshot) =
      (record kept { latest_snapshot = some snapshot }, returned (some snapshot))
  with_snapshot kept (raised e) = (kept, raised e)

  module _ (mean pstdev sum : List F → F) (is_nought : F → Bool) where
    unfoldable pub series_of : TimeframeIndicatorState F → List (Candle F) → Outcome (SeriesSet F)
    series_of s candles =
        let closes = map (λ c. c.close) candles in
        let highs = map (λ c. c.high) candles in
        let lows = map (λ c. c.low) candles in
        rsi_series mean is_nought closes s.rsi_period >>= λ rsi.
        macd_series mean closes s.macd_fast_period s.macd_slow_period s.macd_signal_period
        >>= λ macd.
            bollinger_series mean pstdev closes s.bollinger_period s.bollinger_std_dev
            >>= λ bollinger. ema_series mean closes s.ema_fast_period >>= λ ema_fast.
                ema_series mean closes s.ema_slow_period >>= λ ema_slow.
                atr_series mean highs lows closes s.atr_period >>= λ atr.
                adx_series mean sum highs lows closes s.adx_period >>= λ adx. returned (record {
                  rsi = rsi;
                  macd = macd;
                  bollinger = bollinger;
                  ema_fast = ema_fast;
                  ema_slow = ema_slow;
                  atr = atr;
                  adx = adx;
                })

    unfoldable pub process_kept :
        Candle F
        → TimeframeIndicatorState F
        → TimeframeIndicatorState F × Outcome (Option (IndicatorSnapshot F))
    process_kept candle s =
        let kept = record s { candles = s.candles ++ candle ∷ [] } in
        with_snapshot kept
          (series_of kept kept.candles >>= λ series. snapshot_of kept candle series)

    unfoldable pub process :
        Candle F
        → TimeframeIndicatorState F
        → TimeframeIndicatorState F × Outcome (Option (IndicatorSnapshot F))
    process candle s =
        if string_eq.beq candle.symbol s.symbol
        then if string_eq.beq candle.timeframe s.timeframe
          then if candle.discarded then (s, returned none) else process_kept candle s
          else (s, raised value_error)
        else (s, raised value_error)

    -- `IndicatorManager`: the states by timeframe.
    unfoldable pub process_managed :
        Candle F
        → Dict String (TimeframeIndicatorState F)
        → Dict String (TimeframeIndicatorState F) × Outcome (Option (IndicatorSnapshot F))
    process_managed candle states = elim (lookup candle.timeframe states) [
      | none ↦ (states, raised value_error)
      | some s ↦ (insert candle.timeframe ((process candle s).0) states, (process candle s).1)
    ]

  abbrev pub new_manager : String → Dict String (TimeframeIndicatorState F)
  new_manager symbol = ("5m", new_state symbol "5m") ∷ ("1h", new_state symbol "1h") ∷ []

  unfoldable pub latest :
      String → Dict String (TimeframeIndicatorState F) → Outcome (Option (IndicatorSnapshot F))
  latest timeframe states = elim (lookup timeframe states) [
    | none ↦ raised value_error
    | some s ↦ returned s.latest_snapshot
  ]
