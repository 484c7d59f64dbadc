-- ===== src/Risk/Gate/Tests.antt =====
-- Runs of `evaluate_signal` of services/layer4_risk/engine.py, and its theorems at concrete inputs.
use algo_trading_platform.Base.{◌≡◌, refl, true, false, none, some, arith}
use algo_trading_platform.Base.Int.{ℤ, pos, ltb_ℤ, leb_ℤ}
use algo_trading_platform.Float.Fixed.{fixed_float, Fixed-IsOrdered, Fixed-IsRounded}
use algo_trading_platform.Schema.{
  CircuitBreakerState, SignalDirection, ConfluenceLevel, SystemState, TradeSignal, SignalReason,
  IndicatorSnapshot,
}
use algo_trading_platform.Risk.{
  RiskEngine, fresh_state, fresh_telemetry, default_risk_manager_config,
}
use algo_trading_platform.Risk.Gate.{
  evaluate_signal, count_evaluated, blocked, admit, extract_primary_atr, size_trade, approve,
  refused, sized, compute_stops, base_size, unit_loss, final_size, is_halted,
}
use algo_trading_platform.Risk.Gate.Bounds.{approved_within_limits, IsSensible}

abbrev engine : RiskEngine ℤ
engine = record {
  config = default_risk_manager_config;
  state = fresh_state (pos 1_000_000);
  telemetry = fresh_telemetry;
}

abbrev snapshot : IndicatorSnapshot ℤ
snapshot = record {
  symbol = "BTC-USDT";
  timeframe = "5m";
  candle_start_time_utc = 0;
  candle_end_time_utc = 1000;
  close = pos 100_000_000;
  rsi = none;
  macd = none;
  macd_signal = none;
  macd_histogram = none;
  bollinger_middle = none;
  bollinger_upper = none;
  bollinger_lower = none;
  ema_fast = none;
  ema_slow = none;
  ema_alignment = none;
  ema_cross = none;
  atr = some (pos 10_000_000);
  adx = none;
  regime = none;
  candle_reliable = true;
}

abbrev buy : TradeSignal ℤ
buy = record {
  symbol = "BTC-USDT";
  direction = SignalDirection.long;
  size_pct = pos 250_000;
  signal_strength = pos 500_000;
  confluence = ConfluenceLevel.full;
  ofi = pos 300_000;
  system_state = SystemState.normal;
  timestamp_utc = 1000;
  indicator_snapshots = some (record { primary = snapshot; higher = snapshot });
  candle_reliability = none;
  trust_score = pos 900_000;
  reason = SignalReason.long_signal;
}

-- A size of 0.25 is cut to the cap 0.20, and then to 0.133333 so that the stop at 15% costs 2%.
approves_buy :
    let d = (evaluate_signal buy (pos 100_000_000) (pos 0) none engine).1 in
    (d.approved ≡ true) × (d.adjusted_size_pct ≡ pos 133_333)
unfolding evaluate_signal count_evaluated blocked admit extract_primary_atr size_trade approve
    refused sized compute_stops base_size unit_loss final_size
approves_buy = (refl, refl)

IsSensible-defaults : IsSensible {F = ℤ} default_risk_manager_config
IsSensible-defaults = ground arith

approved_within_limits_example :
    (leb_ℤ (pos 133_333) (pos 200_000) ≡ true)
    × (leb_ℤ (pos 133_333) (pos 0) ≡ false)
    × (ltb_ℤ (pos 600_000) (pos 133_333) ≡ false)
    × (ltb_ℤ (pos 900_000) (pos 400_000) ≡ false)
    × (is_halted CircuitBreakerState.normal ≡ false)
unfolding evaluate_signal count_evaluated blocked admit extract_primary_atr size_trade approve
    refused sized compute_stops base_size unit_loss final_size
approved_within_limits_example =
    approved_within_limits buy (pos 100_000_000) (pos 0) none engine refl Fixed-IsOrdered
      Fixed-IsRounded IsSensible-defaults refl (cc)
