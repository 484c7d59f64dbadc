-- ===== src/Pipeline.antt =====
-- Layers 3 and 4 in a row: a signal of services/layer3_strategy/signals.py, sized by sizing.py as
-- `_maybe_emit_signal` of services/layer3_strategy/service.py does, reaches `evaluate_signal` of
-- services/layer4_risk/engine.py.
pub mod Ticks
mod Tests
use algo_trading_platform.Base.{
  ℕ, ◌≡◌, ◌||◌, true, false, Option, none, inl, inr, arith, Bool-cases,
}
use algo_trading_platform.Base.Outcome.{Outcome, returned}
use algo_trading_platform.Float.{Float}
use algo_trading_platform.Schema.{TradeSignal, is_hold, is_halt}
use algo_trading_platform.Strategy.Signal.{Inputs, evaluate_dual_timeframe_signal}
use algo_trading_platform.Strategy.Signal.Trades.{no_trade_signal}
use algo_trading_platform.Strategy.Sizing.{PositionSizingConfig, size_trade_signal}
use algo_trading_platform.Strategy.Sizing.Range.{size_trade_signal_keeps}
use algo_trading_platform.Risk.{RiskEngine}
use algo_trading_platform.Risk.Gate.{RiskDecision, evaluate_signal}
use algo_trading_platform.Risk.Gate.Blocking.{evaluate_signal_idle}

module _ {F : Type 0} ⦃fl : Float F⦄ (i : Inputs F) (c : PositionSizingConfig F)
    (price exposure : F) (now : Option ℕ) (e : RiskEngine F) where
  -- Whatever the inputs of Layer 3, its sizing and the state of Layer 4, a signal that Layer 3 returns
  -- is rejected by Layer 4 without an order, a CLOSE_ALL signal included.
  pub no_order_approved :
      {sig : TradeSignal F}
      → evaluate_dual_timeframe_signal i ≡ returned sig
      → let d = (evaluate_signal (size_trade_signal c sig).signal price exposure now e).1 in
        (d.approved ≡ false) × (d.approved_order ≡ none)
  no_order_approved {sig} made =
      evaluate_signal_idle (size_trade_signal c sig).signal price exposure now e
        (size_trade_signal_keeps c sig (no_trade_signal i made).0)
