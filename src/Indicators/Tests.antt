-- ===== src/Indicators/Tests.antt =====
-- The series and the states of services/layer3_strategy/indicators.py at concrete candles. The library functions
-- are those of the fixed-point numbers, with a mean deviation in the place of `pstdev`.
use algo_trading_platform.Base.{
  ℕ, ◌+◌, ◌-◌, ◌*◌, ◌≡◌, refl, true, false, none, some, List, [], ◌∷◌, map, length, All, Bool,
  arith,
}
use algo_trading_platform.Base.Int.{ℤ, pos}
use algo_trading_platform.Base.Outcome.{returned, raised, value_error}
use algo_trading_platform.Float.Fixed.{fixed_float}
use algo_trading_platform.Schema.{IndicatorSnapshot}
use algo_trading_platform.Candles.{Candle}
use algo_trading_platform.Indicators.{warmed, from_period, ema_series, rsi_series, atr_series}
use algo_trading_platform.Indicators.State.{TimeframeIndicatorState, SeriesSet, series_of}
use algo_trading_platform.Indicators.Rows.{columns}
use algo_trading_platform.Indicators.Batch.{IsRunnable, IsWarm, series_of-IsWarm}
use algo_trading_platform.Indicators.Stream.{
  kept_candles, Matches, process_candles, process_candles-IsBatch,
}

abbrev pub sum_of : List ℤ → ℤ
sum_of [] = pos 0
sum_of (x ∷ xs) = fixed_float.add x (sum_of xs)

abbrev pub mean_of : List ℤ → ℤ
mean_of xs = fixed_float.div (sum_of xs) (pos (1_000_000 * length xs))

abbrev pub deviation_of : List ℤ → ℤ
deviation_of xs = mean_of (map (λ x. fixed_float.abs (fixed_float.sub x (mean_of xs))) xs)

abbrev pub is_nought : ℤ → Bool
is_nought x = fixed_float.le (fixed_float.abs x) (pos 0)

abbrev prices : List ℤ
prices = pos 10_000_000 ∷ pos 12_000_000 ∷ pos 11_000_000 ∷ pos 15_000_000 ∷ []

ema_runs :
    ema_series mean_of prices 3
    ≡ returned (none ∷ none ∷ some (pos 11_000_000) ∷ some (pos 13_000_000) ∷ [])
unfolding ema_series from_period warmed
ema_runs = refl

rsi_runs :
    rsi_series mean_of is_nought prices 2
    ≡ returned (none ∷ none ∷ some (pos 66_666_667) ∷ some (pos 90_909_091) ∷ [])
unfolding rsi_series from_period warmed
rsi_runs = refl

atr_needs_one_length : atr_series mean_of prices prices [] 3 ≡ raised value_error
unfolding atr_series
atr_needs_one_length = refl

abbrev candle : ℕ → ℕ → Bool → Candle ℤ
candle time price discarded = record {
  symbol = "BTC-USDT";
  timeframe = "5m";
  start_time_utc = time;
  end_time_utc = time + 300_000;
  open_price = pos price;
  high = pos (price + 1_000_000);
  low = pos (price - 1_000_000);
  close = pos price;
  volume = pos 5_000_000;
  tick_count = 4;
  avg_trust_score = pos 900_000;
  max_anomaly_score = pos 100_000;
  is_reliable = true;
  consecutive_unreliable_candles = 0;
  discarded = discarded;
  system_state_override = none;
}

abbrev candles : List (Candle ℤ)
candles =
    candle 0 10_000_000 false
    ∷ candle 300_000 12_000_000 false
    ∷ candle 600_000 90_000_000 true
    ∷ candle 900_000 11_000_000 false
    ∷ candle 1_200_000 15_000_000 false
    ∷ []

abbrev pub short_state : TimeframeIndicatorState ℤ
short_state = record {
  symbol = "BTC-USDT";
  timeframe = "5m";
  rsi_period = 2;
  macd_fast_period = 1;
  macd_slow_period = 2;
  macd_signal_period = 2;
  bollinger_period = 2;
  bollinger_std_dev = pos 2_000_000;
  ema_fast_period = 1;
  ema_slow_period = 2;
  atr_period = 2;
  adx_period = 1;
  candles = [];
  latest_snapshot = none;
}

pub short_state-IsRunnable : IsRunnable short_state
short_state-IsRunnable = record {
  some_rsi = omega arith;
  some_fast = omega arith;
  fast_slow = omega arith;
  some_signal = omega arith;
  some_bollinger = omega arith;
  some_ema_fast = omega arith;
  some_ema_slow = omega arith;
  some_atr = omega arith;
  some_adx = omega arith;
}

candles-Matches : All (Matches short_state) candles
candles-Matches = ((refl, refl), ((refl, refl), ((refl, refl), ((refl, refl), ((refl, refl), tt)))))

process_candles-IsBatch_example :
    (rows : List (IndicatorSnapshot ℤ)) × ((process_candles mean_of deviation_of sum_of is_nought
        candles short_state).1
      ≡ returned rows)
    × (series_of mean_of deviation_of sum_of is_nought short_state (kept_candles candles)
        ≡ returned (columns rows))
    × (map (λ row. row.candle_end_time_utc) rows ≡ map (λ c. c.end_time_utc) (kept_candles candles))
process_candles-IsBatch_example =
    process_candles-IsBatch mean_of deviation_of sum_of is_nought candles short_state
      short_state-IsRunnable refl candles-Matches

series_of-IsWarm_example :
    (series : SeriesSet ℤ) × (series_of mean_of deviation_of sum_of is_nought short_state candles
      ≡ returned series)
    × IsWarm 2 candles series.rsi
    × IsWarm 1 candles series.macd.line
    × IsWarm 2 candles series.macd.signal
    × IsWarm 2 candles series.macd.histogram
    × IsWarm 1 candles series.bollinger.middle
    × IsWarm 1 candles series.bollinger.upper
    × IsWarm 1 candles series.bollinger.lower
    × IsWarm 0 candles series.ema_fast
    × IsWarm 1 candles series.ema_slow
    × IsWarm 1 candles series.atr
    × IsWarm 1 candles series.adx
series_of-IsWarm_example =
    series_of-IsWarm mean_of deviation_of sum_of is_nought short_state short_state-IsRunnable
      candles
