-- ===== src/Strategy/Sizing/Tests.antt =====
-- `size_trade_signal` of services/layer3_strategy/sizing.py at concrete inputs.
use algo_trading_platform.Base.{◌≡◌, refl, none}
use algo_trading_platform.Base.Int.{ℤ, pos}
use algo_trading_platform.Float.Fixed.{fixed_float}
use algo_trading_platform.Schema.{
  SystemState, SignalDirection, ConfluenceLevel, TradeSignal, SignalReason,
}
use algo_trading_platform.Strategy.Sizing.{
  size_trade_signal, raw_size, default_position_sizing_config,
}

abbrev buy : TradeSignal ℤ
buy = record {
  symbol = "BTC-USDT";
  direction = SignalDirection.long;
  size_pct = pos 0;
  signal_strength = pos 500_000;
  confluence = ConfluenceLevel.partial;
  ofi = pos 300_000;
  system_state = SystemState.conservative;
  timestamp_utc = 1000;
  indicator_snapshots = none;
  candle_reliability = none;
  trust_score = pos 900_000;
  reason = SignalReason.long_signal;
}

-- 0.20 * 0.5 * 0.5 * 0.5
sizes_buy : (size_trade_signal default_position_sizing_config buy).size_pct ≡ pos 25_000
unfolding size_trade_signal raw_size
sizes_buy = refl
