-- ===== src/Strategy/Signal/Tests.antt =====
-- Runs of `evaluate_dual_timeframe_signal` of services/layer3_strategy/signals.py, and its theorems at
-- concrete inputs.
use algo_trading_platform.Base.{◌≡◌, ◌≢◌, ◌||◌, refl, true, none, some, [], ◌∷◌}
use algo_trading_platform.Base.Int.{ℤ, pos, negsuc}
use algo_trading_platform.Base.Outcome.{returned}
use algo_trading_platform.Float.Fixed.{fixed_float}
use algo_trading_platform.Schema.{
  SystemState, SignalDirection, IndicatorSnapshot, SignalReason, is_hold, is_halt, TradeSignal,
}
use algo_trading_platform.Strategy.{default_thresholds}
use algo_trading_platform.Strategy.Signal.{
  Inputs, evaluate_dual_timeframe_signal, plain_signal, decide_state,
}
use algo_trading_platform.Strategy.Signal.Trades.{no_trade_signal}

-- Close to the lower band with a low rsi; the histogram is the argument.
abbrev snapshot : ℤ → IndicatorSnapshot ℤ
snapshot histogram = record {
  symbol = "BTC-USDT";
  timeframe = "5m";
  candle_start_time_utc = 0;
  candle_end_time_utc = 300_000;
  close = pos 95_000_000;
  rsi = some (pos 25_000_000);
  macd = none;
  macd_signal = none;
  macd_histogram = some histogram;
  bollinger_middle = some (pos 100_000_000);
  bollinger_upper = some (pos 105_000_000);
  bollinger_lower = some (pos 95_000_000);
  ema_fast = some (pos 99_900_000);
  ema_slow = some (pos 100_000_000);
  ema_alignment = none;
  ema_cross = none;
  atr = some (pos 1_000_000);
  adx = none;
  regime = none;
  candle_reliable = true;
}

-- A textbook LONG setup in the state given.
abbrev pub long_setup : SystemState → Inputs ℤ
long_setup state = record {
  symbol = "BTC-USDT";
  primary_snapshots = snapshot (negsuc 99_999) ∷ snapshot (pos 100_000) ∷ [];
  higher_snapshots = snapshot (negsuc 99_999) ∷ snapshot (pos 100_000) ∷ [];
  ofi_snapshot = record { symbol = "BTC-USDT"; ofi = pos 300_000 };
  trust_score = pos 900_000;
  system_state = state;
  thresholds = default_thresholds;
}

abbrev pub close_all_signal : TradeSignal ℤ
close_all_signal =
    plain_signal SignalDirection.close_all (long_setup SystemState.halt) SignalReason.state_halt

pub halt_closes_all :
    evaluate_dual_timeframe_signal (long_setup SystemState.halt) ≡ returned close_all_signal
unfolding evaluate_dual_timeframe_signal decide_state
halt_closes_all = refl

no_trade_signal_example :
    ((is_hold close_all_signal.direction || is_halt close_all_signal.system_state) ≡ true)
    × (close_all_signal.direction ≢ SignalDirection.long)
    × (close_all_signal.direction ≢ SignalDirection.short)
no_trade_signal_example = no_trade_signal (long_setup SystemState.halt) halt_closes_all
