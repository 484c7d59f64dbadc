-- ===== src/Pipeline/Tests.antt =====
-- Layers 3 and 4 in a row at a concrete input, the CLOSE_ALL signal of the state HALT, and the front of Layer 3
-- at concrete ticks.
use algo_trading_platform.Base.{◌≡◌, refl, false, none, List, map}
use algo_trading_platform.Base.Outcome.{returned}
use algo_trading_platform.Base.Int.{ℤ, pos}
use algo_trading_platform.Float.Fixed.{fixed_float}
use algo_trading_platform.Schema.{SystemState, IndicatorSnapshot}
use algo_trading_platform.Candles.{Candle, CandleAggregator, process_all}
use algo_trading_platform.Candles.Tests.{aggregator, ticks, ticks-HasSymbol}
use algo_trading_platform.Indicators.State.{series_of}
use algo_trading_platform.Indicators.Rows.{columns}
use algo_trading_platform.Indicators.Stream.{kept_candles, process_candles}
use algo_trading_platform.Indicators.Tests.{
  sum_of, mean_of, deviation_of, is_nought, short_state, short_state-IsRunnable,
}
use algo_trading_platform.Pipeline.Ticks.{ticks_to_snapshots}
use algo_trading_platform.Strategy.Signal.Tests.{long_setup, close_all_signal, halt_closes_all}
use algo_trading_platform.Strategy.Sizing.{size_trade_signal, default_position_sizing_config}
use algo_trading_platform.Risk.{
  RiskEngine, fresh_state, fresh_telemetry, default_risk_manager_config,
}
use algo_trading_platform.Risk.Gate.{evaluate_signal}
use algo_trading_platform.Pipeline.{no_order_approved}

abbrev engine : RiskEngine ℤ
engine = record {
  config = default_risk_manager_config;
  state = fresh_state (pos 1_000_000);
  telemetry = fresh_telemetry;
}

no_order_approved_example :
    let sized = (size_trade_signal default_position_sizing_config close_all_signal).signal in
    let d = (evaluate_signal sized (pos 95_000_000) (pos 200_000) none engine).1 in
    (d.approved ≡ false) × (d.approved_order ≡ none)
no_order_approved_example =
    no_order_approved (long_setup SystemState.halt) default_position_sizing_config (pos 95_000_000)
      (pos 200_000) none engine halt_closes_all

ticks_to_snapshots_example :
    (b : CandleAggregator ℤ) × (cs : List (Candle ℤ)) × (rows : List (IndicatorSnapshot ℤ))
    × (process_all mean_of sum_of ticks aggregator ≡ returned (b, cs))
    × ((process_candles mean_of deviation_of sum_of is_nought cs short_state).1 ≡ returned rows)
    × (series_of mean_of deviation_of sum_of is_nought short_state (kept_candles cs)
        ≡ returned (columns rows))
    × (map (λ row. row.candle_end_time_utc) rows ≡ map (λ c. c.end_time_utc) (kept_candles cs))
ticks_to_snapshots_example =
    ticks_to_snapshots mean_of deviation_of sum_of is_nought ticks aggregator short_state
      ticks-HasSymbol refl refl short_state-IsRunnable refl
